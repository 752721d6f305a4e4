-- ===== src/Session/Phases.antt =====
-- Phases of a client and a server of iperf3, and how to show where they lead.
use mathlib.Core.Path.{subst}
use i_perf_demo_runtime.Common.{
  Bool, List, Option, [], ap, arith, false, if◌then◌else◌, refl, true, ℕ, ◌≡◌, ◌≢◌,
}
use i_perf_demo_runtime.Common.Int.{ℤ}
use i_perf_demo_runtime.Config.{IErrno, IperfTest, State}
use i_perf_demo_runtime.Params.{Object}
use i_perf_demo_runtime.Session.{Event, Step, World, ◌then◌}
use i_perf_demo_runtime.Session.Together.{
  BothDone, Chance, Inevitably, Item, Joint, Kind, Outcome, breaks, bytes_of, client_ends,
  client_hears, client_reads, disabled, eventually, move, moves, server_accepts, server_hears,
  server_reads, server_takes_stream,
}

-- A side in a state, with no failure to come.
abbrev pub side : ℕ → State → IperfTest → Option IErrno → ℕ → World
side r st t e a = record {
  test = record t { state = st; role = r };
  errno = e;
  answers = [];
  events = [];
  streams_accepted = a;
}

abbrev pub joint : World → World → List State → List State → ℕ → Joint
joint cl sv to_server to_client conns = record {
  client = cl;
  server = sv;
  to_server = bytes_of to_server;
  to_client = bytes_of to_client;
  client_waits = [];
  server_waits = [];
  connecting = false;
  connections = conns;
}

-- Two sides of which some may wait at a read, with what is on its way to each.
abbrev pub halfway : World → World → List Item → List Item → List Event → List Event → ℕ → Joint
halfway cl sv to_server to_client client_waits server_waits conns = record {
  client = cl;
  server = sv;
  to_server = to_server;
  to_client = to_client;
  client_waits = client_waits;
  server_waits = server_waits;
  connecting = false;
  connections = conns;
}

-- No side is in a round.
abbrev pub between : Joint → Joint
between y = record y { client_waits = []; server_waits = [] }

abbrev pub Leads : (Joint → Type 0) → Outcome → Type 0
Leads P disabled = Unit
Leads P breaks = ⊥
Leads P (moves y) = P y

unbroken : (P : Joint → Type 0) (o : Outcome) → Leads P o → o ≢ breaks
unbroken P disabled h = λ e. ground (arith, e)
unbroken P breaks h = absurd h
unbroken P (moves y) h = λ e. ground (arith, e)

abbrev target : Joint → Outcome → Joint
target y disabled = y
target y breaks = y
target y (moves z) = z

led : (P : Joint → Type 0) (o : Outcome) (z : Joint) → Leads P o → o ≡ moves z → P z
led P disabled z h e = ground (arith, e)
led P breaks z h e = absurd h
led P (moves y) z h e = subst P (ap (target y) e) h

abbrev pub IsMove : Outcome → Type 0
IsMove disabled = ⊥
IsMove breaks = ⊥
IsMove (moves z) = Unit

found : (o : Outcome) → IsMove o → (z : Joint) × (o ≡ moves z)
found disabled m = absurd m
found breaks m = absurd m
found (moves z) m = (z, refl)

pub if-holds : (Q : Step → Type 0) (b : Bool) (s u : Step) → Q s → Q u → Q (if b then s else u)
if-holds Q true s u h k = h
if-holds Q false s u h k = k

pub if-Leads :
    (P : Joint → Type 0) (f : Step → Outcome) (b : Bool) (s u : Step)
    → Leads P (f s)
    → Leads P (f u)
    → Leads P (f (if b then s else u))
if-Leads P f b s u h k = if-holds (λ v. Leads P (f v)) b s u h k

abbrev pub any : Chance
any = record { amount = (0, 0); fires = false; no_wait = false; omitting = false }

module _ (socket : ℤ) (object : Object) (listening : ℤ) where
  abbrev pub Always : Joint → Type 0
  Always = Inevitably socket object listening BothDone

  abbrev pub step : Kind → Chance → Joint → Outcome
  step = move socket object listening

  -- A phase: some move, and where the moves of each kind lead.
  pub reads_on :
      (y : Joint)
      → ((k : Kind) × (c : Chance) × IsMove (step k c y))
      → ((c : Chance) → Leads Always (step server_accepts c y))
      → ((c : Chance) → Leads Always (step server_hears c y))
      → ((c : Chance) → Leads Always (step server_takes_stream c y))
      → ((c : Chance) → Leads Always (step client_hears c y))
      → ((c : Chance) → Leads Always (step client_ends c y))
      → ((c : Chance) → Leads Always (step server_reads c y))
      → ((c : Chance) → Leads Always (step client_reads c y))
      → Always y
  reads_on y (k, c, m) a b d e f g h =
      (let (z, e) = found (step k c y) m in
        eventually (k, c, z, e) (λ k c. unbroken Always (step k c y) (all k c))
          (λ k c z m. led Always (step k c y) z (all k c) m))
    where
      all : (k : Kind) (c : Chance) → Leads Always (step k c y)
      all server_accepts c = a c
      all server_hears c = b c
      all server_takes_stream c = d c
      all client_hears c = e c
      all client_ends c = f c
      all server_reads c = g c
      all client_reads c = h c

  -- A phase in which no side waits at a read.
  pub goes_on :
      (y : Joint)
      → ((k : Kind) × (c : Chance) × IsMove (step k c (between y)))
      → ((c : Chance) → Leads Always (step server_accepts c (between y)))
      → ((c : Chance) → Leads Always (step server_hears c (between y)))
      → ((c : Chance) → Leads Always (step server_takes_stream c (between y)))
      → ((c : Chance) → Leads Always (step client_hears c (between y)))
      → ((c : Chance) → Leads Always (step client_ends c (between y)))
      → Always (between y)
  unfolding move
  goes_on y m a b d e f = reads_on (between y) m a b d e f (λ c. tt) (λ c. tt)

  -- A move, whether or not the server has to wait.
  pub either_way :
      (k : Kind) (y : Joint)
      → ((c : Chance) → Leads Always (step k (record c { no_wait = true }) y))
      → ((c : Chance) → Leads Always (step k (record c { no_wait = false }) y))
      → (c : Chance) → Leads Always (step k c y)
  either_way k y f g c =
      elim c.no_wait as (λ b. Leads Always (step k (record c { no_wait = b }) y)) [
        | true ↦ f c
        | false ↦ g c
      ]
