-- ===== src/Session/Accept.antt =====
-- What `iperf_accept` and `iperf_handle_message_server` of iperf_server_api.c leave.
use i_perf_demo_runtime.Common.{
  List, Option, [], ap, false, none, refl, some, true, ◌++◌, ◌==◌, ◌∷◌, ◌≡◌,
}
use i_perf_demo_runtime.Common.Int.{is_minus_one, ℤ}
use i_perf_demo_runtime.Config.{
  IErrno, IperfTest, State, access_denied, all_streams_end, client_terminate, create_streams,
  display_results, exchange_results, ieaccept, ieaffinity, iemessage, ierecvcookie, ierecvmessage,
  iesendmessage, iperf_done, iperf_start, other_state, param_exchange, result_request, server_error,
  server_terminate, stream_begin, stream_end, stream_running, test_end, test_running, test_start,
}
use i_perf_demo_runtime.Params.{Object, get_parameters}
use i_perf_demo_runtime.Session.{
  Event, Step, World, answer, call, closes, done_, failed, iperf_exchange_parameters,
  iperf_exchange_results, iperf_set_send_state, later, listen, note, on_connect, on_test_finish,
  parameters_read, read_parameters, reads_parameters, sends_state, sends_to, set_errno, set_state,
  ◌then◌,
}
use i_perf_demo_runtime.Session.Server.{
  Message, accept_client, arrived, broken, closed, handle_client_terminate, handle_state_server,
  handle_test_end, iperf_accept, iperf_handle_message_server, set_affinity,
}
use i_perf_demo_runtime.Session.Errors.{
  Any, Explains, call-Explains, exchange_parameters-Explains, exchange_results-Explains,
  four_events, if-Explains, send_state-Explains, then-Explains-Any,
}

set_affinity-Explains : (w : World) → Explains Any (set_affinity w)
unfolding set_affinity
set_affinity-Explains w =
    if-Explains Any (is_minus_one w.test.server_affinity) (done_ w)
      (failed (set_errno ieaffinity w)) tt (ieaffinity, refl)

accept_client-Explains :
    (j : Option Object) (e : IErrno) (listener s : ℤ) (w : World)
    → Explains Any (accept_client j e listener s w)
unfolding accept_client
accept_client-Explains j e listener s w =
    let v = record w { test = record w.test { ctrl_sck = s } } in
    let u = record v { answers = later v.answers } in
    if-Explains Any (answer v.answers)
      (iperf_set_send_state param_exchange u
        then iperf_exchange_parameters j e listener
        then set_affinity
        then λ x. done_ (note on_connect x))
      (failed (set_errno ierecvcookie u))
      (then-Explains-Any _ (λ x. done_ (note on_connect x))
        (then-Explains-Any _ set_affinity
          (then-Explains-Any (iperf_set_send_state param_exchange u)
            (iperf_exchange_parameters j e listener) (send_state-Explains param_exchange u)
            (exchange_parameters-Explains j e listener))
          set_affinity-Explains)
        (λ x. tt))
      (ierecvcookie, refl)

-- Whatever the client and the system do, `iperf_accept` sets `i_errno` where it returns -1.
pub iperf_accept-Explains :
    (j : Option Object) (e : IErrno) (listener : ℤ) (accepted : Option ℤ) (w : World)
    → Explains Any (iperf_accept j e listener accepted w)
unfolding iperf_accept
iperf_accept-Explains j e listener none w = (ieaccept, refl)
iperf_accept-Explains j e listener (some s) w =
    if-Explains Any (is_minus_one w.test.ctrl_sck) (accept_client j e listener s w)
      (call iesendmessage (sends_to s access_denied) w then λ v. done_ (note (closes s) v))
      (accept_client-Explains j e listener s w)
      (then-Explains-Any (call iesendmessage (sends_to s access_denied) w)
        (λ v. done_ (note (closes s) v))
        (call-Explains Any iesendmessage (sends_to s access_denied) w tt) (λ v. tt))

handle_test_end-Explains : (w : World) → Explains Any (handle_test_end w)
unfolding handle_test_end
handle_test_end-Explains w =
    then-Explains-Any _ (λ x. done_ (note on_test_finish x))
      (then-Explains-Any _ (iperf_set_send_state display_results)
        (then-Explains-Any _ iperf_exchange_results (send_state-Explains exchange_results _)
          exchange_results-Explains)
        (send_state-Explains display_results))
      (λ x. tt)

handle_state-Explains : (s : State) (w : World) → Explains Any (handle_state_server s w)
unfolding handle_state_server
handle_state-Explains test_end w = handle_test_end-Explains w
handle_state-Explains client_terminate w = unfold handle_client_terminate in tt
handle_state-Explains test_start w = tt
handle_state-Explains iperf_done w = tt
handle_state-Explains test_running w = (iemessage, refl)
handle_state-Explains result_request w = (iemessage, refl)
handle_state-Explains stream_begin w = (iemessage, refl)
handle_state-Explains stream_running w = (iemessage, refl)
handle_state-Explains stream_end w = (iemessage, refl)
handle_state-Explains all_streams_end w = (iemessage, refl)
handle_state-Explains param_exchange w = (iemessage, refl)
handle_state-Explains create_streams w = (iemessage, refl)
handle_state-Explains server_terminate w = (iemessage, refl)
handle_state-Explains exchange_results w = (iemessage, refl)
handle_state-Explains display_results w = (iemessage, refl)
handle_state-Explains iperf_start w = (iemessage, refl)
handle_state-Explains access_denied w = (iemessage, refl)
handle_state-Explains server_error w = (iemessage, refl)
handle_state-Explains (other_state n) w = (iemessage, refl)

-- Whatever message comes, `iperf_handle_message_server` sets `i_errno` where it returns -1.
pub iperf_handle_message_server-Explains :
    (m : Message) (w : World) → Explains Any (iperf_handle_message_server m w)
unfolding iperf_handle_message_server
iperf_handle_message_server-Explains (arrived s) w = handle_state-Explains s (set_state s w)
iperf_handle_message_server-Explains closed w = tt
iperf_handle_message_server-Explains broken w = (ierecvmessage, refl)

free :
    (j : Object) (e : IErrno) (listener : ℤ) (w : World) (u : IperfTest)
    → w.answers ≡ []
    → (w.test.role == b'c') ≡ false
    → get_parameters j w.test ≡ some u
    → iperf_exchange_parameters (some j) e listener w
      ≡ done_ (record w {
        test = record u { prot_listener = listener; state = create_streams };
        answers = [];
        events = (w.events ++ reads_parameters ∷ []) ++ sends_state create_streams ∷ [];
      })
unfolding iperf_exchange_parameters read_parameters parameters_read listen iperf_set_send_state call
free j e listener w u a r g = rw (r, g, parameters_read, listen, iperf_set_send_state, call, a)

-- A server without a client takes the one that connects. Where nothing fails, and the parameters
-- ask for no affinity, it sends PARAM_EXCHANGE, reads the parameters, sends CREATE_STREAMS, and is
-- in that state with the client's socket as its control connection and the protocol's listening
-- socket.
pub iperf_accept-free :
    (j : Object) (e : IErrno) (listener s : ℤ) (w : World) (u : IperfTest)
    → is_minus_one w.test.ctrl_sck ≡ true
    → w.answers ≡ []
    → (w.test.role == b'c') ≡ false
    → get_parameters j (record w.test { ctrl_sck = s; state = param_exchange }) ≡ some u
    → is_minus_one u.server_affinity ≡ true
    → iperf_accept (some j) e listener (some s) w
      ≡ done_ (record w {
        test = record u { prot_listener = listener; state = create_streams };
        answers = [];
        events =
            w.events
            ++ sends_state param_exchange
              ∷ reads_parameters
              ∷ sends_state create_streams
              ∷ on_connect
              ∷ [];
      })
unfolding iperf_accept accept_client set_affinity iperf_set_send_state call
iperf_accept-free j e listener s w u c a r g n =
    let ready = record w {
      test = record w.test { ctrl_sck = s; state = param_exchange };
      answers = [];
      events = w.events ++ sends_state param_exchange ∷ [];
    } in
    let left : List Event → Step = λ l. done_ (record w {
      test = record u { prot_listener = listener; state = create_streams };
      answers = [];
      events = l;
    }) in
    rw (c, a, free j e listener ready u refl r g, n)
      (ap left (
        four_events w.events (sends_state param_exchange) reads_parameters
          (sends_state create_streams) on_connect))
