-- ===== src/Session/Rounds.antt =====
-- A round of the loop of `iperf_run_server` that fails.
use i_perf_demo_runtime.Common.{
  Bool, List, [], if◌then◌else◌, not, refl, ◌&&◌, ◌++◌, ◌+◌, ◌||◌, ◌∷◌, ◌≡◌,
}
use i_perf_demo_runtime.Common.Int.{is_zero}
use i_perf_demo_runtime.Config.{
  ieinittest, ielisten, ieselect, iestreamread, iestreamwrite, minus_one, protocol_eq, tcp,
  test_running, test_start,
}
use i_perf_demo_runtime.Session.{
  Event, Step, World, accepts_stream, call, cleans_up, crashed, creates_omit_timer,
  creates_send_timers, creates_stream, creates_timers, done_, failed, iperf_set_send_state, listens,
  on_test_start, receives_data, sends_data, ◌then◌,
}
use i_perf_demo_runtime.Session.Errors.{
  Any, Explains, HasErrno, call-Explains, if-Explains, send_state-Explains, then-Explains-Any,
  then-call,
}
use i_perf_demo_runtime.Session.Accept.{iperf_accept-Explains, iperf_handle_message_server-Explains}
use i_perf_demo_runtime.Session.Server.{
  begin_test, iperf_handle_message_server, renew_listener, start_test,
}
use i_perf_demo_runtime.Session.Serving.{
  Round, Selected, accept_stream, equals_int, interrupted, is_create_streams, is_test_running,
  ready, select_failed, serve_control, serve_data, serve_listener, serve_ready, serve_streams,
  server_round, timed_out, timers_run, with_cleanup,
}

-- The last thing that happened is `cleanup_server`.
abbrev pub IsClean : World → Type 0
IsClean w = (es : List Event) × (w.events ≡ es ++ cleans_up ∷ [])

renew-Explains : (w : World) → Explains Any (renew_listener w)
unfolding renew_listener
renew-Explains w =
    if-Explains Any (protocol_eq w.test.protocol tcp) _ _
      (if-Explains Any
        (w.test.no_delay
          || (not (is_zero w.test.settings.mss) || not (is_zero w.test.settings.socket_bufsize)))
        (call ielisten listens w) (done_ w) (call-Explains Any ielisten listens w tt) tt)
      tt

begin-Explains : (w : World) → Explains Any (begin_test w)
unfolding begin_test
begin-Explains w =
    let v = record w { test = record w.test { prot_listener = minus_one } } in
    then-Explains-Any _ _
      (then-call _ ieinittest creates_omit_timer (
        then-call _ ieinittest creates_timers
          (then-call _ ieinittest on_test_start (send_state-Explains test_start v))))
      (λ u.
        then-Explains-Any
          (if u.test.reverse then call ieinittest creates_send_timers u else done_ u)
          (iperf_set_send_state test_running)
          (if-Explains Any u.test.reverse (call ieinittest creates_send_timers u) (done_ u)
            (call-Explains Any ieinittest creates_send_timers u tt) tt)
          (send_state-Explains test_running))

start-Explains : (w : World) → Explains Any (start_test w)
unfolding start_test
start-Explains w = then-Explains-Any (renew_listener w) begin_test (renew-Explains w) begin-Explains

accept_stream-Explains : (r : Round) (w : World) → Explains Any (accept_stream r w)
unfolding accept_stream
accept_stream-Explains r w =
    then-Explains-Any (call r.accept_errno accepts_stream w) _
      (call-Explains Any r.accept_errno accepts_stream w tt)
      (λ v. if-Explains Any r.closed_stream (done_ v) _ tt (
        then-Explains-Any (call r.stream_errno creates_stream v)
          (λ u. done_ (record u { streams_accepted = u.streams_accepted + 1 }))
          (call-Explains Any r.stream_errno creates_stream v tt) (λ u. tt)))

serve_streams-Explains : (r : Round) (w : World) → Explains Any (serve_streams r w)
unfolding serve_streams
serve_streams-Explains r w =
    if-Explains Any (is_create_streams w.test.state) _ (done_ w)
      (then-Explains-Any (if r.prot_ready then accept_stream r w else done_ w)
        (λ v. if equals_int v.streams_accepted v.test.num_streams then start_test v else done_ v)
        (if-Explains Any r.prot_ready (accept_stream r w) (done_ w) (accept_stream-Explains r w) tt)
        (λ v.
          if-Explains Any (equals_int v.streams_accepted v.test.num_streams) (start_test v)
            (done_ v) (start-Explains v) tt))
      tt

serve_data-Explains : (w : World) → Explains Any (serve_data w)
unfolding serve_data
serve_data-Explains w =
    if-Explains Any (is_test_running w.test.state) _ (done_ w)
      (if-Explains Any w.test.reverse (call iestreamwrite sends_data w)
        (call iestreamread receives_data w) (call-Explains Any iestreamwrite sends_data w tt)
        (call-Explains Any iestreamread receives_data w tt))
      tt

serve_ready-Explains : (r : Round) (w : World) → Explains Any (serve_ready r w)
unfolding serve_ready serve_listener serve_control
serve_ready-Explains r w =
    then-Explains-Any _ serve_data
      (then-Explains-Any _ (serve_streams r)
        (then-Explains-Any (serve_listener r w) (serve_control r)
          (if-Explains Any (r.listener_ready && not (is_create_streams w.test.state)) _ (done_ w)
            (iperf_accept-Explains r.parameters r.listen_errno r.new_listener r.accepted w) tt)
          (λ v.
            if-Explains Any r.ctrl_ready (iperf_handle_message_server r.message v) (done_ v)
              (iperf_handle_message_server-Explains r.message v) tt))
        (serve_streams-Explains r))
      serve_data-Explains

-- A round that fails says why, and has cleaned up.
abbrev pub Cleans : Step → Type 0
Cleans (done_ w) = Unit
Cleans (failed w) = HasErrno w × IsClean w
Cleans crashed = Unit

with_cleanup-Cleans :
    (s : Step) (b : Bool)
    → Explains Any s
    → Cleans (with_cleanup s then λ v. done_ (timers_run b v))
unfolding with_cleanup
with_cleanup-Cleans (done_ w) b h = tt
with_cleanup-Cleans (failed w) b h = (h, (w.events, refl))
with_cleanup-Cleans crashed b h = tt

pub server_round-Cleans : (r : Round) (w : World) → Cleans (server_round r w)
unfolding server_round
server_round-Cleans r w = go r.selected
  where
    go : (s : Selected) → Cleans (server_round (record r { selected = s }) w)
    go select_failed = ((ieselect, refl), (w.events, refl))
    go interrupted = tt
    go timed_out = tt
    go ready =
        let q : Round = record r { selected = ready } in
        with_cleanup-Cleans (serve_ready q w) r.no_wait (serve_ready-Explains q w)
