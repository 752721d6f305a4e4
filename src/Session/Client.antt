-- ===== src/Session/Client.antt =====
-- The client's side of the control connection: `iperf_handle_message_client` and `iperf_client_end` of
-- iperf_client_api.c.
use i_perf_demo_runtime.Common.{Option, false, if◌then◌else◌, none, some, ℕ}
use i_perf_demo_runtime.Common.Int.{is_zero}
use i_perf_demo_runtime.Config.{
  IErrno, State, access_denied, create_streams, display_results, exchange_results, ieaccessdenied,
  iectrlclose, iectrlread, ieinittest, iemessage, ierecvmessage, iesendparams, ieserverterm,
  iperf_done, param_exchange, server_error, server_terminate, test_running, test_start,
}
use i_perf_demo_runtime.Session.{
  Step, World, call, closes_streams, crashed, creates_omit_timer, creates_send_timers,
  creates_streams, creates_timers, done_, failed, iperf_exchange_results, iperf_set_send_state,
  note, on_connect, on_test_finish, on_test_start, reports, sends_parameters, set_errno, set_state,
  ◌then◌,
}

-- What `read` makes of the message: a state, the end of the connection, or an error.
pub data Reply : Type 0 where
  got : State → Reply
  ended : Reply
  lost : Reply

unfoldable pub iperf_client_end : World → Step
iperf_client_end w = iperf_set_send_state iperf_done (note reports (note closes_streams w))

-- The result of `iperf_client_end` is not looked at.
unfoldable pub ignore : Step → Step
ignore (done_ w) = done_ w
ignore (failed w) = done_ w
ignore crashed = crashed

-- With a duration, the test is not done until its timer says so.
unfoldable pub create_client_timers : World → Step
create_client_timers w = call ieinittest creates_timers (record w {
  test = record w.test { done = if is_zero w.test.duration then w.test.done else false };
})

-- The case TEST_START.
unfoldable pub handle_test_start : World → Step
handle_test_start w =
    call ieinittest on_test_start w
    then create_client_timers
    then call ieinittest creates_omit_timer
    then λ u. (if u.test.reverse then done_ u else call ieinittest creates_send_timers u)

-- The case SERVER_ERROR: the server's `i_errno`, and then its `errno`, are read.
unfoldable pub handle_server_error : Option IErrno → Option ℕ → World → Step
handle_server_error none _ w = failed (set_errno iectrlread w)
handle_server_error (some e) none w = failed (set_errno iectrlread w)
handle_server_error (some e) (some n) w = failed (set_errno e w)

-- The `switch` on the state. `e` is what `iperf_create_streams` sets `i_errno` to where it fails, and
-- `theirs` and `system` are what follows SERVER_ERROR.
unfoldable pub handle_state_client : IErrno → Option IErrno → Option ℕ → State → World → Step
handle_state_client e theirs system param_exchange w =
    call iesendparams sends_parameters w then λ v. done_ (note on_connect v)
handle_state_client e theirs system create_streams w = call e creates_streams w
handle_state_client e theirs system test_start w = handle_test_start w
handle_state_client e theirs system test_running w = done_ w
handle_state_client e theirs system exchange_results w = iperf_exchange_results w
handle_state_client e theirs system display_results w =
    ignore (iperf_client_end (note on_test_finish w))
handle_state_client e theirs system iperf_done w = done_ w
handle_state_client e theirs system server_terminate w =
    failed (note reports (set_errno ieserverterm w))
handle_state_client e theirs system access_denied w = failed (set_errno ieaccessdenied w)
handle_state_client e theirs system server_error w = handle_server_error theirs system w
handle_state_client e theirs system _ w = failed (set_errno iemessage w)

unfoldable pub iperf_handle_message_client :
    IErrno → Option IErrno → Option ℕ → Reply → World → Step
iperf_handle_message_client e theirs system (got s) w =
    handle_state_client e theirs system s (set_state s w)
iperf_handle_message_client e theirs system ended w = failed (set_errno iectrlclose w)
iperf_handle_message_client e theirs system lost w = failed (set_errno ierecvmessage w)
