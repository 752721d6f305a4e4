-- ===== src/Session/Denials.antt =====
-- Clients that connect to a server of iperf_server_api.c while a test runs.
use i_perf_demo_runtime.Common.{Bool, List, Option, [], false, if◌then◌else◌, some, true, ℕ, ◌∷◌}
use i_perf_demo_runtime.Common.Int.{ℤ}
use i_perf_demo_runtime.Config.{IErrno, IperfTest, access_denied, test_running}
use i_perf_demo_runtime.Session.{
  Event, World, closes, receives_data, runs_timers, sends_data, sends_to, ◌then◌,
}
use i_perf_demo_runtime.Session.Serving.{Round, ready}

-- A round in which a client connects, on the socket that `accept` gives, and nothing comes from the
-- one whose test runs.
abbrev pub intruder : Round × ℤ → Round
intruder (r, s) = record r {
  selected = ready;
  listener_ready = true;
  accepted = some s;
  ctrl_ready = false;
  prot_ready = false;
}

abbrev pub with_intruders : List (Round × ℤ) → List Round → List Round
with_intruders [] rest = rest
with_intruders (r ∷ rs) rest = intruder r ∷ with_intruders rs rest

-- What goes out on another socket than the control connection, and which are closed.
abbrev pub is_elsewhere : Event → Bool
is_elsewhere (sends_to s st) = true
is_elsewhere (closes s) = true
is_elsewhere _ = false

abbrev pub elsewhere : List Event → List Event
elsewhere [] = []
elsewhere (e ∷ es) = let more = elsewhere es in if is_elsewhere e then e ∷ more else more

-- Each client is sent ACCESS_DENIED, and its socket is closed.
abbrev pub all_denied : List (Round × ℤ) → List Event
all_denied [] = []
all_denied ((r, s) ∷ rs) = sends_to s access_denied ∷ closes s ∷ all_denied rs

-- A server in a running test, where no call fails.
abbrev pub running_world : IperfTest → Option IErrno → ℕ → List Event → World
running_world t errno a es = record {
  test = record t { state = test_running };
  errno = errno;
  answers = [];
  events = es;
  streams_accepted = a;
}

abbrev worked_on : Bool → Bool → List Event
worked_on reverse no_wait =
    (if reverse then sends_data else receives_data) ∷ (if no_wait then runs_timers ∷ [] else [])
