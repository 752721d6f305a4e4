-- ===== src/Session.antt =====
-- The control connection: `iperf_set_send_state`, `iperf_exchange_parameters` and
-- `iperf_exchange_results` of iperf-3.1.3/src/iperf_api.c, `iperf_accept` and
-- `iperf_handle_message_server` of iperf_server_api.c, and `iperf_handle_message_client` and
-- `iperf_client_end` of iperf_client_api.c. A step calls many functions of other files; whether each
-- of them succeeds is an answer, read from a list in the order of the calls. What the code does to the
-- outside is a list of events.
pub mod Codes
pub mod Server
pub mod Errors
pub mod Accept
pub mod Endings
pub mod Client
pub mod Serving
pub mod Running
pub mod Together
pub mod Phases
pub mod Closing
pub mod Liveness
pub mod Beginning
pub mod Streams
pub mod Meeting
pub mod Rounds
pub mod Cleanup
pub mod Denials
mod Tests
use i_perf_demo_runtime.Common.{
  Bool, List, Option, [], if◌then◌else◌, none, some, true, ℕ, ◌++◌, ◌==◌, ◌∷◌,
}
use i_perf_demo_runtime.Common.Int.{ℤ}
use i_perf_demo_runtime.Params.{Object, get_parameters}
use i_perf_demo_runtime.Config.{
  IErrno, IperfTest, State, access_denied, all_streams_end, client_terminate, create_streams,
  display_results, exchange_results, iectrlwrite, ierecvparams, ierecvresults, iesendmessage,
  iesendparams, iesendresults, iperf_done, iperf_start, other_state, param_exchange, result_request,
  server_error, server_terminate, stream_begin, stream_end, stream_running, test_end, test_running,
  test_start,
}

-- The bytes of the states (iperf_api.h); `signed char`, two's complement.
unfoldable pub byte_of : State → ℕ
byte_of test_start = 1
byte_of test_running = 2
byte_of result_request = 3
byte_of test_end = 4
byte_of stream_begin = 5
byte_of stream_running = 6
byte_of stream_end = 7
byte_of all_streams_end = 8
byte_of param_exchange = 9
byte_of create_streams = 10
byte_of server_terminate = 11
byte_of client_terminate = 12
byte_of exchange_results = 13
byte_of display_results = 14
byte_of iperf_start = 15
byte_of iperf_done = 16
byte_of access_denied = 255
byte_of server_error = 254
byte_of (other_state n) = n

-- A call that the code makes, or a byte that it sends.
pub data Event : Type 0 where
  -- a state, sent on the control connection
  sends_state : State → Event
  -- a state, sent on another socket than the control connection, and the close of that socket
  sends_to : ℤ → State → Event
  closes : ℤ → Event
  -- `i_errno` and `errno`, sent behind SERVER_ERROR
  sends_error : Event
  sends_parameters reads_parameters sends_results reads_results : Event
  on_connect on_test_start on_test_finish : Event
  reports_stats reports : Event
  closes_streams listens : Event
  creates_streams starts_test creates_timers creates_omit_timer creates_send_timers : Event
  accepts_stream creates_stream sends_data receives_data runs_timers cleans_up sends_cookie : Event

-- What the program is left with: the test, `i_errno`, the answers not used, and what has happened.
-- With no answer left, a call succeeds. `streams_accepted` is the variable of `iperf_run_server`.
pub record World : Type 0 where
  pub test : IperfTest
  pub errno : Option IErrno
  pub answers : List Bool
  pub events : List Event
  pub streams_accepted : ℕ

-- A function that returns 0 (`done_`) or -1, or crashes.
pub data Step : Type 0 where
  done_ : World → Step
  failed : World → Step
  crashed : Step

infixl 5 ◌then◌
abbrev pub ◌then◌ : Step → (World → Step) → Step
done_ w then f = f w
failed w then f = failed w
crashed then f = crashed

abbrev pub note : Event → World → World
note e w = record w { events = w.events ++ e ∷ [] }

abbrev pub set_errno : IErrno → World → World
set_errno e w = record w { errno = some e }

abbrev pub set_state : State → World → World
set_state s w = record w { test = record w.test { state = s } }

abbrev pub answer : List Bool → Bool
answer [] = true
answer (b ∷ _) = b

abbrev pub later : List Bool → List Bool
later [] = []
later (_ ∷ bs) = bs

-- A call that returns less than 0 where the next answer is `false`: then the code sets `i_errno` to
-- `e` and returns -1.
unfoldable pub call : IErrno → Event → World → Step
call e event w =
    let v = record w { answers = later w.answers } in
    if answer w.answers then done_ (note event v) else failed (set_errno e v)

unfoldable pub iperf_set_send_state : State → World → Step
iperf_set_send_state s w = call iesendmessage (sends_state s) (set_state s w)

-- The part of a server that cannot listen: SERVER_ERROR and two numbers, and then -1.
unfoldable pub refuse_parameters : World → Step
refuse_parameters w =
    iperf_set_send_state server_error w
    then call iectrlwrite sends_error
    then call iectrlwrite sends_error
    then λ v. failed v

-- `listen` of the protocol, which sets `i_errno` to `e`; `s` is the socket it gives.
unfoldable pub listen : IErrno → ℤ → World → Step
listen e s w =
    let v = record w { answers = later w.answers } in
    if answer w.answers
    then iperf_set_send_state create_streams
        (record v { test = record v.test { prot_listener = s } })
    else refuse_parameters (set_errno e v)

-- `get_parameters`, on what `JSON_read` returns.
unfoldable pub parameters_read : Option IperfTest → World → Step
parameters_read none w = crashed
parameters_read (some t) w = done_ (note reads_parameters (record w { test = t }))

unfoldable pub read_parameters : Option Object → World → Step
read_parameters none w = failed (set_errno ierecvparams w)
read_parameters (some j) w = parameters_read (get_parameters j w.test) w

unfoldable pub iperf_exchange_parameters : Option Object → IErrno → ℤ → World → Step
iperf_exchange_parameters j e s w =
    if w.test.role == b'c'
    then call iesendparams sends_parameters w
    else (read_parameters j w then listen e s)

unfoldable pub iperf_exchange_results : World → Step
iperf_exchange_results w =
    if w.test.role == b'c'
    then (call iesendresults sends_results w then call ierecvresults reads_results)
    else (call ierecvresults reads_results w then call iesendresults sends_results)
