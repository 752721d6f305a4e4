-- ===== src/Session/Server.antt =====
-- The server's side of the control connection: `iperf_accept` and `iperf_handle_message_server` of
-- iperf_server_api.c.
use i_perf_demo_runtime.Common.{Option, if◌then◌else◌, none, not, some, true, ◌||◌}
use i_perf_demo_runtime.Common.Int.{is_minus_one, is_zero, ℤ}
use i_perf_demo_runtime.Config.{
  IErrno, State, access_denied, client_terminate, display_results, exchange_results, ieaccept,
  ieaffinity, ieclientterm, iectrlclose, ieinittest, ielisten, iemessage, ierecvcookie,
  ierecvmessage, iesendmessage, iperf_done, minus_one, param_exchange, protocol_eq, tcp, test_end,
  test_running, test_start,
}
use i_perf_demo_runtime.Params.{Object}
use i_perf_demo_runtime.Session.{
  Step, World, answer, call, closes, closes_streams, creates_omit_timer, creates_send_timers,
  creates_timers, done_, failed, iperf_exchange_parameters, iperf_exchange_results,
  iperf_set_send_state, later, listens, note, on_connect, on_test_finish, on_test_start, reports,
  reports_stats, sends_to, set_errno, set_state, ◌then◌,
}

-- `iperf_setaffinity` sets IEAFFINITY where it is not supported.
unfoldable pub set_affinity : World → Step
set_affinity w =
    if is_minus_one w.test.server_affinity then done_ w else failed (set_errno ieaffinity w)

-- The server is free: `s` is the client's socket, `j` what it sends as parameters, and `listener` and
-- `e` what `listen` of the protocol gives. The first answer is for the read of the cookie.
unfoldable pub accept_client : Option Object → IErrno → ℤ → ℤ → World → Step
accept_client j e listener s w =
    let v = record w { test = record w.test { ctrl_sck = s } } in
    let u = record v { answers = later v.answers } in
    if answer v.answers
    then (iperf_set_send_state param_exchange u
        then iperf_exchange_parameters j e listener
        then set_affinity
        then λ x. done_ (note on_connect x))
    else failed (set_errno ierecvcookie u)

-- `accepted` is the socket that `accept` gives, if it succeeds.
unfoldable pub iperf_accept : Option Object → IErrno → ℤ → Option ℤ → World → Step
iperf_accept j e listener accepted w = elim accepted [
  | none ↦ failed (set_errno ieaccept w)
  | some s ↦
      if is_minus_one w.test.ctrl_sck
      then accept_client j e listener s w
      else (call iesendmessage (sends_to s access_denied) w then λ v. done_ (note (closes s) v))
]

-- What `Nread` makes of the message: a state, the end of the connection, or an error.
pub data Message : Type 0 where
  arrived : State → Message
  closed : Message
  broken : Message

unfoldable pub handle_test_end : World → Step
handle_test_end w =
    let v = record w { test = record w.test { done = true } } in
    iperf_set_send_state exchange_results
      (note reports (note closes_streams (note reports_stats v)))
    then iperf_exchange_results
    then iperf_set_send_state display_results
    then λ x. done_ (note on_test_finish x)

-- The state is DISPLAY_RESULTS while the report is made.
unfoldable pub handle_client_terminate : World → Step
handle_client_terminate w =
    done_ (set_state iperf_done (note closes_streams (note reports (set_errno ieclientterm w))))

-- The `switch` on the state.
unfoldable pub handle_state_server : State → World → Step
handle_state_server test_start w = done_ w
handle_state_server test_end w = handle_test_end w
handle_state_server iperf_done w = done_ w
handle_state_server client_terminate w = handle_client_terminate w
handle_state_server _ w = failed (set_errno iemessage w)

unfoldable pub iperf_handle_message_server : Message → World → Step
iperf_handle_message_server (arrived s) w = handle_state_server s (set_state s w)
iperf_handle_message_server closed w = done_ (set_state iperf_done (set_errno iectrlclose w))
iperf_handle_message_server broken w = failed (set_errno ierecvmessage w)

-- All streams of the test are accepted (the block of `iperf_run_server` for that): the listening
-- sockets, TEST_START, the timers, and TEST_RUNNING.
unfoldable pub renew_listener : World → Step
unfolding protocol_eq
renew_listener w =
    if protocol_eq w.test.protocol tcp
    then (if w.test.no_delay
          || (not (is_zero w.test.settings.mss) || not (is_zero w.test.settings.socket_bufsize))
        then call ielisten listens w
        else done_ w)
    else done_ (note (closes w.test.prot_listener) w)

unfoldable pub begin_test : World → Step
begin_test v =
    iperf_set_send_state test_start
      (record v { test = record v.test { prot_listener = minus_one } })
    then call ieinittest on_test_start
    then call ieinittest creates_timers
    then call ieinittest creates_omit_timer
    then λ u.
        (if u.test.reverse then call ieinittest creates_send_timers u else done_ u)
        then iperf_set_send_state test_running

unfoldable pub start_test : World → Step
start_test w = renew_listener w then begin_test
