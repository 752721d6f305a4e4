-- ===== src/Session/Endings.antt =====
-- Where the client's side of the control connection ends, with or without an error.
use i_perf_demo_runtime.Common.{
  Bool, List, Option, [], false, if◌then◌else◌, inl, inr, none, refl, some, true, ℕ, ◌++◌, ◌∷◌, ◌≡◌,
  ◌⊎◌,
}
use i_perf_demo_runtime.Config.{
  IErrno, State, access_denied, all_streams_end, client_terminate, create_streams, display_results,
  exchange_results, ieaccessdenied, iectrlclose, iectrlread, ieinittest, iemessage, ierecvmessage,
  iesendmessage, iesendparams, ieserverterm, iperf_done, iperf_start, other_state, param_exchange,
  result_request, server_error, server_terminate, stream_begin, stream_end, stream_running,
  test_end, test_running, test_start,
}
use i_perf_demo_runtime.Session.{
  Event, Step, World, answer, call, closes_streams, crashed, creates_omit_timer,
  creates_send_timers, creates_streams, creates_timers, done_, failed, iperf_set_send_state, later,
  note, on_connect, on_test_finish, on_test_start, reports, sends_parameters, sends_state,
  set_errno, set_state, ◌then◌,
}
use i_perf_demo_runtime.Session.Errors.{
  Any, Explains, call-Explains, exchange_results-Explains, four_events, if-Explains,
  then-Explains-Any, then-call, three_events,
}
use i_perf_demo_runtime.Session.Client.{
  Reply, create_client_timers, ended, got, handle_server_error, handle_state_client,
  handle_test_start, ignore, iperf_client_end, iperf_handle_message_client, lost,
}

create_client_timers-Explains : (w : World) → Explains Any (create_client_timers w)
unfolding create_client_timers
create_client_timers-Explains w = call-Explains Any ieinittest creates_timers _ tt

handle_test_start-Explains : (w : World) → Explains Any (handle_test_start w)
unfolding handle_test_start
handle_test_start-Explains w =
    then-Explains-Any _ _
      (then-call _ ieinittest creates_omit_timer (
        then-Explains-Any (call ieinittest on_test_start w) create_client_timers
          (call-Explains Any ieinittest on_test_start w tt) create_client_timers-Explains))
      (λ u.
        if-Explains Any u.test.reverse (done_ u) (call ieinittest creates_send_timers u) tt
          (call-Explains Any ieinittest creates_send_timers u tt))

ignore-Explains : (s : Step) → Explains Any (ignore s)
unfolding ignore
ignore-Explains (done_ w) = tt
ignore-Explains (failed w) = tt
ignore-Explains crashed = tt

server_error-Explains :
    (theirs : Option IErrno) (system : Option ℕ) (w : World)
    → Explains Any (handle_server_error theirs system w)
unfolding handle_server_error
server_error-Explains none system w = (iectrlread, refl)
server_error-Explains (some e) none w = (iectrlread, refl)
server_error-Explains (some e) (some n) w = (e, refl)

handle_state_client-Explains :
    (e : IErrno) (theirs : Option IErrno) (system : Option ℕ) (s : State) (w : World)
    → Explains Any (handle_state_client e theirs system s w)
unfolding handle_state_client
handle_state_client-Explains e theirs system param_exchange w =
    then-Explains-Any (call iesendparams sends_parameters w) (λ v. done_ (note on_connect v))
      (call-Explains Any iesendparams sends_parameters w tt) (λ v. tt)
handle_state_client-Explains e theirs system create_streams w =
    call-Explains Any e creates_streams w tt
handle_state_client-Explains e theirs system test_start w = handle_test_start-Explains w
handle_state_client-Explains e theirs system test_running w = tt
handle_state_client-Explains e theirs system exchange_results w = exchange_results-Explains w
handle_state_client-Explains e theirs system display_results w = ignore-Explains _
handle_state_client-Explains e theirs system iperf_done w = tt
handle_state_client-Explains e theirs system server_terminate w = (ieserverterm, refl)
handle_state_client-Explains e theirs system access_denied w = (ieaccessdenied, refl)
handle_state_client-Explains e theirs system server_error w = server_error-Explains theirs system w
handle_state_client-Explains e theirs system result_request w = (iemessage, refl)
handle_state_client-Explains e theirs system test_end w = (iemessage, refl)
handle_state_client-Explains e theirs system stream_begin w = (iemessage, refl)
handle_state_client-Explains e theirs system stream_running w = (iemessage, refl)
handle_state_client-Explains e theirs system stream_end w = (iemessage, refl)
handle_state_client-Explains e theirs system all_streams_end w = (iemessage, refl)
handle_state_client-Explains e theirs system client_terminate w = (iemessage, refl)
handle_state_client-Explains e theirs system iperf_start w = (iemessage, refl)
handle_state_client-Explains e theirs system (other_state n) w = (iemessage, refl)

-- Whatever the server sends, `iperf_handle_message_client` sets `i_errno` where it returns -1.
pub iperf_handle_message_client-Explains :
    (e : IErrno) (theirs : Option IErrno) (system : Option ℕ) (r : Reply) (w : World)
    → Explains Any (iperf_handle_message_client e theirs system r w)
unfolding iperf_handle_message_client
iperf_handle_message_client-Explains e theirs system (got s) w =
    handle_state_client-Explains e theirs system s (set_state s w)
iperf_handle_message_client-Explains e theirs system ended w = (iectrlclose, refl)
iperf_handle_message_client-Explains e theirs system lost w = (ierecvmessage, refl)

-- The step returns 0 in the state IPERF_DONE, with these events after those before.
abbrev pub IsDone : List Event → Step → Type 0
IsDone before (done_ w) =
    (w.test.state ≡ iperf_done)
    × ((w.events ≡ before ++ on_test_finish ∷ closes_streams ∷ reports ∷ [])
        ⊎ (w.events
            ≡ before ++ on_test_finish ∷ closes_streams ∷ reports ∷ sends_state iperf_done ∷ []))
IsDone before (failed w) = true ≡ false
IsDone before crashed = true ≡ false

display_ends :
    (b : Bool) (w : World)
    → w.test.state ≡ iperf_done
    → IsDone w.events (
        ignore (
          if b
          then done_ (
              note
                (sends_state iperf_done)
                (note reports (note closes_streams (note on_test_finish w))))
          else failed (
              set_errno iesendmessage
                (note reports (note closes_streams (note on_test_finish w))))))
unfolding ignore
display_ends true w h =
    (h, inr (four_events w.events on_test_finish closes_streams reports (sends_state iperf_done)))
display_ends false w h = (h, inl (three_events w.events on_test_finish closes_streams reports))

-- On DISPLAY_RESULTS the client is done: it closes its streams, reports, and is in IPERF_DONE, which
-- ends its loop, also where that state cannot be sent to the server.
pub iperf_handle_message_client-display :
    (e : IErrno) (theirs : Option IErrno) (system : Option ℕ) (w : World)
    → IsDone w.events (iperf_handle_message_client e theirs system (got display_results) w)
unfolding iperf_handle_message_client handle_state_client iperf_client_end iperf_set_send_state call
iperf_handle_message_client-display e theirs system w =
    display_ends (answer w.answers) (set_state iperf_done (record w { answers = later w.answers }))
      refl
