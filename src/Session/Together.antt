-- ===== src/Session/Together.antt =====
-- A client and a server of iperf3 on one control connection: their rounds, with the states that one
-- sends put on a queue to the other. A round computes the side's state at once, and its sends and
-- blocking reads are then played in their order: a side that has come to a read makes no move until the
-- other side has sent something.
use i_perf_demo_runtime.Common.{
  Bool, List, [], false, if◌then◌else◌, none, not, some, suc, true, zero, ℕ, ◌&&◌, ◌++◌, ◌+◌, ◌∷◌,
  ◌≡◌, ◌≢◌,
}
use i_perf_demo_runtime.Common.Int.{pos_part, ℤ}
use i_perf_demo_runtime.Config.{State, ieaccept, iecreatestream, ielisten, iperf_done}
use i_perf_demo_runtime.Params.{Object}
use i_perf_demo_runtime.Session.{
  Event, Step, World, crashed, creates_streams, done_, failed, reads_parameters, reads_results,
  sends_parameters, sends_results, sends_state, ◌then◌,
}
use i_perf_demo_runtime.Session.Server.{arrived, broken}
use i_perf_demo_runtime.Session.Client.{got, lost}
use i_perf_demo_runtime.Session.Serving.{
  Round, is_create_streams, is_iperf_done, is_test_running, ready, server_round,
}
use i_perf_demo_runtime.Session.Running.{Turn, client_round}

-- What is on its way on the control connection: the byte of a state, or a JSON text.
pub data Item : Type 0 where
  state_byte : State → Item
  parameter_text result_text : Item

abbrev pub bytes_of : List State → List Item
bytes_of [] = []
bytes_of (s ∷ ss) = state_byte s ∷ bytes_of ss

-- The sends and the blocking reads among the events of a round.
abbrev pub is_io : Event → Bool
is_io (sends_state s) = true
is_io sends_parameters = true
is_io sends_results = true
is_io reads_parameters = true
is_io reads_results = true
is_io _ = false

abbrev pub io_of : List Event → List Event
io_of [] = []
io_of (e ∷ es) = let more = io_of es in if is_io e then e ∷ more else more

-- What is sent up to the first read, and what is left to do, that read first.
abbrev pub flush : List Event → List Item × List Event
flush [] = ([], [])
flush (sends_state s ∷ es) = (state_byte s ∷ (flush es).0, (flush es).1)
flush (sends_parameters ∷ es) = (parameter_text ∷ (flush es).0, (flush es).1)
flush (sends_results ∷ es) = (result_text ∷ (flush es).0, (flush es).1)
flush (reads_parameters ∷ es) = ([], reads_parameters ∷ io_of es)
flush (reads_results ∷ es) = ([], reads_results ∷ io_of es)
flush (_ ∷ es) = flush es

-- The read gets what it is for.
abbrev pub awaits : Event → Item → Bool
awaits reads_parameters parameter_text = true
awaits reads_results result_text = true
awaits _ _ = false

-- `client_waits` and `server_waits`: the rest of a round that has come to a read, empty between two
-- rounds. `connecting`: the client's control connection waits to be accepted; `connections`: so many
-- connections of streams do.
pub record Joint : Type 0 where
  pub client : World
  pub server : World
  pub to_server : List Item
  pub to_client : List Item
  pub client_waits : List Event
  pub server_waits : List Event
  pub connecting : Bool
  pub connections : ℕ

-- `iperf_create_streams` connects as many streams as the test has.
abbrev pub connected_by : List Event → ℤ → ℕ
connected_by [] n = 0
connected_by (creates_streams ∷ es) n = pos_part n + connected_by es n
connected_by (_ ∷ es) n = connected_by es n

abbrev pub is_nil : List Event → Bool
is_nil [] = true
is_nil (_ ∷ _) = false

abbrev pub quiet : World → World
quiet w = record w { events = [] }

-- What a side may do next: a round for one socket that is ready, for the client, in a running test,
-- the round in which the test ends, and the read at which a round waits.
pub data Kind : Type 0 where
  server_accepts server_hears server_takes_stream : Kind
  client_hears client_ends : Kind
  server_reads client_reads : Kind

-- What else a round may meet: what has been transferred, the timer, whether there was no time to
-- wait, and whether the stream is closed at once.
pub record Chance : Type 0 where
  pub amount : ℕ × ℕ
  pub fires : Bool
  pub no_wait : Bool
  pub omitting : Bool

pub data Outcome : Type 0 where
  disabled breaks : Outcome
  moves : Joint → Outcome

-- The client's socket, its parameters as the server reads them, and the listening socket for the
-- streams.
module _ (socket : ℤ) (object : Object) (listening : ℤ) where
  abbrev pub round_of : Chance → Round
  round_of c = record {
    selected = ready;
    no_wait = c.no_wait;
    listener_ready = false;
    accepted = some socket;
    parameters = some object;
    listen_errno = ielisten;
    new_listener = listening;
    ctrl_ready = false;
    message = broken;
    prot_ready = false;
    accept_errno = ieaccept;
    closed_stream = false;
    stream_errno = iecreatestream;
  }

  abbrev pub turn_of : Chance → Turn
  turn_of c = record {
    selected = ready;
    ctrl_ready = false;
    reply = lost;
    create_errno = iecreatestream;
    server_errno = none;
    server_system = none;
    transfer = some c.amount;
    timer_fires = c.fires;
    omitting = c.omitting;
  }

  abbrev pub server_moves : Joint → Step → Outcome
  server_moves y (done_ w) = moves (record y {
    server = quiet w;
    to_client = y.to_client ++ (flush w.events).0;
    server_waits = (flush w.events).1;
  })
  server_moves y (failed w) = breaks
  server_moves y crashed = breaks

  abbrev pub client_moves : Joint → Step → Outcome
  client_moves y (done_ w) = moves (record y {
    client = quiet w;
    to_server = y.to_server ++ (flush w.events).0;
    client_waits = (flush w.events).1;
    connections = y.connections + connected_by w.events w.test.num_streams;
  })
  client_moves y (failed w) = breaks
  client_moves y crashed = breaks

  -- A side in IPERF_DONE has left its loop.
  abbrev pub running : World → Bool
  running w = not (is_iperf_done w.test.state)

  abbrev pub hears_server : Chance → Joint → List Item → Outcome
  hears_server c y [] = disabled
  hears_server c y (parameter_text ∷ rest) = breaks
  hears_server c y (result_text ∷ rest) = breaks
  hears_server c y (state_byte s ∷ rest) =
      server_moves (record y { to_server = rest })
        (server_round (record (round_of c) { ctrl_ready = true; message = arrived s }) y.server)

  abbrev pub hears_client : Chance → Joint → List Item → Outcome
  hears_client c y [] = disabled
  hears_client c y (parameter_text ∷ rest) = breaks
  hears_client c y (result_text ∷ rest) = breaks
  hears_client c y (state_byte s ∷ rest) =
      client_moves (record y { to_client = rest })
        (client_round (record (turn_of c) { ctrl_ready = true; reply = got s }) y.client)

  abbrev pub takes_stream : Chance → Joint → ℕ → Outcome
  takes_stream c y zero = disabled
  takes_stream c y (suc k) =
      server_moves (record y { connections = k })
        (server_round (record (round_of c) { prot_ready = true }) y.server)

  -- A round after which the test still runs is no move.
  abbrev pub ends_test : Joint → Step → Outcome
  ends_test y (done_ w) =
      if is_test_running w.test.state then disabled else client_moves y (done_ w)
  ends_test y s = client_moves y s

  -- A read: nothing has come yet, or what it is for, with which the round goes on to the next read or
  -- to its end, or something else, which breaks the side.
  abbrev pub reads_server : Joint → List Event → List Item → Outcome
  reads_server y [] is = disabled
  reads_server y (e ∷ es) [] = disabled
  reads_server y (e ∷ es) (i ∷ rest) =
      if awaits e i
      then moves (record y {
        to_server = rest;
        to_client = y.to_client ++ (flush es).0;
        server_waits = (flush es).1;
      })
      else breaks

  abbrev pub reads_client : Joint → List Event → List Item → Outcome
  reads_client y [] is = disabled
  reads_client y (e ∷ es) [] = disabled
  reads_client y (e ∷ es) (i ∷ rest) =
      if awaits e i
      then moves (record y {
        to_client = rest;
        to_server = y.to_server ++ (flush es).0;
        client_waits = (flush es).1;
      })
      else breaks

  -- A side begins a round when it is not in one.
  abbrev pub free_server : Joint → Bool
  free_server y = running y.server && is_nil y.server_waits

  abbrev pub free_client : Joint → Bool
  free_client y = running y.client && is_nil y.client_waits

  unfoldable pub move : Kind → Chance → Joint → Outcome
  unfolding server_round client_round
  move server_accepts c y =
      if free_server y && (y.connecting && not (is_create_streams y.server.test.state))
      then server_moves (record y { connecting = false })
          (server_round (record (round_of c) { listener_ready = true }) y.server)
      else disabled
  move server_hears c y = if free_server y then hears_server c y y.to_server else disabled
  move server_takes_stream c y =
      if free_server y && is_create_streams y.server.test.state
      then takes_stream c y y.connections
      else disabled
  move client_hears c y = if free_client y then hears_client c y y.to_client else disabled
  move client_ends c y =
      if free_client y && is_test_running y.client.test.state
      then ends_test y (client_round (turn_of c) y.client)
      else disabled
  move server_reads c y = reads_server y y.server_waits y.to_server
  move client_reads c y = reads_client y y.client_waits y.to_client

  -- Some move can be made as long as `P` does not hold, none breaks a side, and whatever moves are
  -- made, `P` holds after finitely many.
  pub data Inevitably (P : Joint → Type 0) : Joint → Type 0 where
    already : {y : Joint} → P y → Inevitably P y
    eventually :
        {y : Joint}
        → ((k : Kind) × (c : Chance) × (z : Joint) × (move k c y ≡ moves z))
        → ((k : Kind) (c : Chance) → move k c y ≢ breaks)
        → ((k : Kind) (c : Chance) (z : Joint) → move k c y ≡ moves z → Inevitably P z)
        → Inevitably P y

abbrev pub BothDone : Joint → Type 0
BothDone y =
    ((y.client.test.state ≡ iperf_done) × (y.client_waits ≡ []))
    × ((y.server.test.state ≡ iperf_done) × (y.server_waits ≡ []))
