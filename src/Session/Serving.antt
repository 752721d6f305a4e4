-- ===== src/Session/Serving.antt =====
-- The loop of `iperf_run_server` of iperf_server_api.c. What `select` and the calls of a round give is
-- the input of the round; the rounds' inputs are a list.
use i_perf_demo_runtime.Common.{
  Bool, List, Option, [], false, if◌then◌else◌, not, true, ℕ, ◌&&◌, ◌+◌, ◌==◌, ◌∷◌,
}
use i_perf_demo_runtime.Common.Int.{is_minus_one, negsuc, pos, ℤ}
use i_perf_demo_runtime.Config.{
  IErrno, State, create_streams, ieaffinity, ielisten, ieselect, iestreamread, iestreamwrite,
  iperf_done, iperf_start, test_running,
}
use i_perf_demo_runtime.Params.{Object}
use i_perf_demo_runtime.Session.{
  Step, World, accepts_stream, answer, call, cleans_up, crashed, creates_stream, done_, failed,
  later, listens, note, receives_data, runs_timers, sends_data, set_errno, set_state, ◌then◌,
}
use i_perf_demo_runtime.Session.Server.{
  Message, iperf_accept, iperf_handle_message_server, start_test,
}

-- What `select` returns: -1 with another `errno` than EINTR, -1 with EINTR, 0, or more.
pub data Selected : Type 0 where
  select_failed interrupted timed_out ready : Selected

-- The sockets in the read set, what the calls for them give, and whether the time to wait was zero.
-- `closed_stream` is what `is_closed` says of an accepted stream.
pub record Round : Type 0 where
  pub selected : Selected
  pub no_wait : Bool
  pub listener_ready : Bool
  pub accepted : Option ℤ
  pub parameters : Option Object
  pub listen_errno : IErrno
  pub new_listener : ℤ
  pub ctrl_ready : Bool
  pub message : Message
  pub prot_ready : Bool
  pub accept_errno : IErrno
  pub closed_stream : Bool
  pub stream_errno : IErrno

abbrev pub is_create_streams : State → Bool
is_create_streams create_streams = true
is_create_streams _ = false

abbrev pub is_test_running : State → Bool
is_test_running test_running = true
is_test_running _ = false

abbrev pub is_iperf_done : State → Bool
is_iperf_done iperf_done = true
is_iperf_done _ = false

unfoldable pub serve_listener : Round → World → Step
serve_listener r w =
    if r.listener_ready && not (is_create_streams w.test.state)
    then iperf_accept r.parameters r.listen_errno r.new_listener r.accepted w
    else done_ w

unfoldable pub serve_control : Round → World → Step
serve_control r w = if r.ctrl_ready then iperf_handle_message_server r.message w else done_ w

-- A stream that is accepted and not closed is counted.
unfoldable pub accept_stream : Round → World → Step
accept_stream r w = call r.accept_errno accepts_stream w then λ v.
    (if r.closed_stream
      then done_ v
      else (call r.stream_errno creates_stream v then λ u.
          done_ (record u { streams_accepted = u.streams_accepted + 1 })))

-- `streams_accepted == test->num_streams`
abbrev pub equals_int : ℕ → ℤ → Bool
equals_int n (pos m) = n == m
equals_int n (negsuc m) = false

unfoldable pub serve_streams : Round → World → Step
serve_streams r w =
    if is_create_streams w.test.state
    then ((if r.prot_ready then accept_stream r w else done_ w) then λ v.
        (if equals_int v.streams_accepted v.test.num_streams then start_test v else done_ v))
    else done_ w

-- `iperf_send` or `iperf_recv`.
unfoldable pub serve_data : World → Step
serve_data w =
    if is_test_running w.test.state
    then (if w.test.reverse
        then call iestreamwrite sends_data w
        else call iestreamread receives_data w)
    else done_ w

unfoldable pub serve_ready : Round → World → Step
serve_ready r w = serve_listener r w then serve_control r then serve_streams r then serve_data

-- Each `return -1` of the loop comes behind `cleanup_server`.
unfoldable pub with_cleanup : Step → Step
with_cleanup (done_ w) = done_ w
with_cleanup (failed w) = failed (note cleans_up w)
with_cleanup crashed = crashed

unfoldable pub timers_run : Bool → World → World
timers_run b w = if b then note runs_timers w else w

-- The body of the loop.
unfoldable pub server_round : Round → World → Step
server_round r w = elim r.selected [
  | select_failed ↦ failed (set_errno ieselect (note cleans_up w))
  | interrupted ↦ done_ (timers_run r.no_wait w)
  | timed_out ↦ done_ (note runs_timers w)
  | ready ↦ (with_cleanup (serve_ready r w) then λ v. done_ (timers_run r.no_wait v))
]

-- How far the server has come: the loop finished, the inputs given are used up, a call failed, or one
-- of the JSON output did, which sets no `i_errno`.
pub data Served : Type 0 where
  finished waiting broken_off json_failed : World → Served
  crashed_ : Served

abbrev pub served : Step → (World → Served) → Served
served (done_ w) f = f w
served (failed w) f = broken_off w
served crashed f = crashed_

-- The loop stands before its test.
unfoldable pub server_loop : List Round → World → Served
unfolding server_round
server_loop [] w = if is_iperf_done w.test.state then finished w else waiting w
server_loop (r ∷ rs) w =
    if is_iperf_done w.test.state then finished w else served (server_round r w) (server_loop rs)

-- `iperf_json_start` or `iperf_json_finish`, where there is JSON output.
unfoldable pub with_json : (World → Served) → World → Served
with_json f w =
    let v = record w { answers = later w.answers } in
    if w.test.json_output then (if answer w.answers then f v else json_failed v) else f w

abbrev pub clear_affinity : World → Served
clear_affinity w =
    if is_minus_one w.test.server_affinity then finished w else broken_off (set_errno ieaffinity w)

abbrev pub after_loop : Served → Served
after_loop (finished w) = with_json clear_affinity (note cleans_up w)
after_loop s = s

abbrev pub listen_and_serve : List Round → World → Served
listen_and_serve rs w = after_loop (
    served (call ielisten listens w)
      (λ v. server_loop rs (record (set_state iperf_start v) { streams_accepted = 0 })))

-- What comes before the loop and behind it; a server that cannot listen has nothing to clean up.
unfoldable pub iperf_run_server : List Round → World → Served
unfolding server_loop with_json
iperf_run_server rs w =
    if is_minus_one w.test.affinity
    then with_json (listen_and_serve rs) w
    else broken_off (set_errno ieaffinity w)
