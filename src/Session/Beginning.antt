-- ===== src/Session/Beginning.antt =====
-- The beginning of a test of iperf3: the phases up to TEST_RUNNING on both sides.
use i_perf_demo_runtime.Common.{
  Bool, Option, [], false, if◌then◌else◌, not, true, ℕ, ◌+◌, ◌||◌, ◌∷◌,
}
use i_perf_demo_runtime.Common.Int.{is_zero, ℤ}
use i_perf_demo_runtime.Config.{
  IErrno, IperfTest, create_streams, ielisten, minus_one, protocol_eq, tcp, test_running,
  test_start,
}
use i_perf_demo_runtime.Params.{Object}
use i_perf_demo_runtime.Session.{
  Step, World, accepts_stream, call, closes, creates_stream, done_, iperf_set_send_state, listens,
  note, receives_data, sends_data, ◌then◌,
}
use i_perf_demo_runtime.Session.Client.{
  create_client_timers, handle_state_client, handle_test_start, iperf_handle_message_client,
}
use i_perf_demo_runtime.Session.Running.{
  check_end, end_test, hear, is_over, run_timers, transfer_data, work,
}
use i_perf_demo_runtime.Session.Together.{
  Joint, Outcome, client_hears, client_moves, move, server_moves,
}
use i_perf_demo_runtime.Session.Phases.{
  Always, IsMove, Leads, any, goes_on, if-Leads, if-holds, joint, side,
}
use i_perf_demo_runtime.Session.Serving.{serve_data, timers_run, with_cleanup}
use i_perf_demo_runtime.Session.Server.{begin_test, renew_listener, start_test}
use i_perf_demo_runtime.Session.Closing.{ending}
use i_perf_demo_runtime.Session.Liveness.{
  CanEnd, all_sent, is_over_lem, sending, worked, worked_world,
}

-- However the listening socket is renewed, no state is sent.
renew-holds :
    (Q : Step → Type 0) (v : World)
    → Q (done_ (record v { answers = [] }))
    → Q (done_ (note listens (record v { answers = [] })))
    → Q (done_ (note (closes v.test.prot_listener) (record v { answers = [] })))
    → Q (renew_listener (record v { answers = [] }))
unfolding renew_listener call
renew-holds Q v a b c =
    let w : World = record v { answers = [] } in
    let renewed =
      v.test.no_delay
      || (not (is_zero v.test.settings.mss) || not (is_zero v.test.settings.socket_bufsize)) in
    if-holds Q (protocol_eq v.test.protocol tcp)
      (if renewed then call ielisten listens w else done_ w)
      (done_ (note (closes v.test.prot_listener) w))
      (if-holds Q renewed (call ielisten listens w) (done_ w) b a) c

module _ (socket : ℤ) (object : Object) (listening : ℤ) where
  -- The client reads TEST_RUNNING; the test may end in the same round.
  pub to_running :
      (r : Bool) (tc ts : IperfTest) (ec es : Option IErrno) (ac as_ conns : ℕ)
      → CanEnd tc
      → Always socket object listening (
          joint
            (side b'c' test_start (record tc { reverse = r }) ec ac)
            (side b's' test_running ts es as_)
            []
            (test_running ∷ [])
            conns)
  unfolding move hear work transfer_data check_end end_test run_timers iperf_set_send_state call
      iperf_handle_message_client handle_state_client
  to_running true t ts ec es ac as_ conns h =
      let tc : IperfTest = record t { reverse = true } in
      let y =
        joint (side b'c' test_start tc ec ac) (side b's' test_running ts es as_) []
          (test_running ∷ []) conns in
      goes_on socket object listening y
        (client_hears, all_sent tc, rw (is_over_lem receives_data tc ec ac h) tt) (λ c. tt)
        (λ c. tt) (λ c. tt)
        (λ c.
          let w = worked_world receives_data c tc ec ac in
          if-Leads (Always socket object listening)
            (client_moves socket object listening (record y { to_client = [] }))
            (is_over c.omitting w) (end_test w) (done_ w)
            (ending socket object listening (record (worked c tc) { done = true }) ts ec es ac as_
              _)
            (sending socket object listening (worked c tc) ts ec es ac as_ _ h))
        (λ c. tt)
  to_running false t ts ec es ac as_ conns h =
      let tc : IperfTest = record t { reverse = false } in
      let y =
        joint (side b'c' test_start tc ec ac) (side b's' test_running ts es as_) []
          (test_running ∷ []) conns in
      goes_on socket object listening y
        (client_hears, all_sent tc, rw (is_over_lem sends_data tc ec ac h) tt) (λ c. tt) (λ c. tt)
        (λ c. tt)
        (λ c.
          let w = worked_world sends_data c tc ec ac in
          if-Leads (Always socket object listening)
            (client_moves socket object listening (record y { to_client = [] }))
            (is_over c.omitting w) (end_test w) (done_ w)
            (ending socket object listening (record (worked c tc) { done = true }) ts ec es ac as_
              _)
            (sending socket object listening (worked c tc) ts ec es ac as_ _ h))
        (λ c. tt)

  -- The client reads TEST_START.
  pub to_start :
      (r : Bool) (tc ts : IperfTest) (ec es : Option IErrno) (ac as_ conns : ℕ)
      → CanEnd tc
      → Always socket object listening (
          joint
            (side b'c' create_streams (record tc { reverse = r }) ec ac)
            (side b's' test_running ts es as_)
            []
            (test_start ∷ test_running ∷ [])
            conns)
  unfolding move hear work iperf_handle_message_client handle_state_client handle_test_start
      create_client_timers call
  to_start true t ts ec es ac as_ conns h =
      goes_on socket object listening
        (joint (side b'c' create_streams (record t { reverse = true }) ec ac)
          (side b's' test_running ts es as_) [] (test_start ∷ test_running ∷ []) conns)
        (client_hears, any, tt) (λ c. tt) (λ c. tt) (λ c. tt)
        (λ c.
          to_running true (record t { done = if is_zero t.duration then t.done else false }) ts ec
            es ac as_ _ h)
        (λ c. tt)
  to_start false t ts ec es ac as_ conns h =
      goes_on socket object listening
        (joint (side b'c' create_streams (record t { reverse = false }) ec ac)
          (side b's' test_running ts es as_) [] (test_start ∷ test_running ∷ []) conns)
        (client_hears, any, tt) (λ c. tt) (λ c. tt) (λ c. tt)
        (λ c.
          to_running false (record t { done = if is_zero t.duration then t.done else false }) ts ec
            es ac as_ _ h)
        (λ c. tt)

  -- What a round of the server comes to: a move, and the end.
  abbrev pub Goes : Outcome → Type 0
  Goes o = IsMove o × Leads (Always socket object listening) o

  abbrev pub waiting_client : IperfTest → Option IErrno → ℕ → World → Joint
  waiting_client tc ec ac sv = joint (side b'c' create_streams tc ec ac) sv [] [] 0

  abbrev pub round_ends : Bool → Joint → Step → Outcome
  round_ends b y s =
      server_moves socket object listening y
        (with_cleanup (s then serve_data) then λ v. done_ (timers_run b v))

  -- The server has all streams, and starts the test.
  pub starts :
      (b r : Bool) (tc ts : IperfTest) (ec es : Option IErrno) (ac a : ℕ)
      → CanEnd tc
      → Goes (
          round_ends b
            (waiting_client tc ec ac (side b's' create_streams (record ts { reverse = r }) es a))
            (start_test (record (side b's' create_streams (record ts { reverse = r }) es (a + 1)) {
              events = accepts_stream ∷ creates_stream ∷ [];
            })))
  unfolding start_test begin_test serve_data iperf_set_send_state call with_cleanup timers_run
  starts true true tc t ec es ac a h =
      let sv : World = record (side b's' create_streams (record t { reverse = true }) es (a + 1)) {
        events = accepts_stream ∷ creates_stream ∷ [];
      } in
      let next =
        to_start tc.reverse tc (record t { reverse = true; prot_listener = minus_one }) ec es ac
          (a + 1) _ h in
      renew-holds
        (λ s. Goes (
          round_ends true
            (waiting_client tc ec ac (side b's' create_streams (record t { reverse = true }) es a))
            (s then begin_test)))
        sv (tt, next) (tt, next) (tt, next)
  starts true false tc t ec es ac a h =
      let sv : World = record (side b's' create_streams (record t { reverse = false }) es (a + 1)) {
        events = accepts_stream ∷ creates_stream ∷ [];
      } in
      let next =
        to_start tc.reverse tc (record t { reverse = false; prot_listener = minus_one }) ec es ac
          (a + 1) _ h in
      renew-holds
        (λ s. Goes (
          round_ends true
            (waiting_client tc ec ac (side b's' create_streams (record t { reverse = false }) es a))
            (s then begin_test)))
        sv (tt, next) (tt, next) (tt, next)
  starts false true tc t ec es ac a h =
      let sv : World = record (side b's' create_streams (record t { reverse = true }) es (a + 1)) {
        events = accepts_stream ∷ creates_stream ∷ [];
      } in
      let next =
        to_start tc.reverse tc (record t { reverse = true; prot_listener = minus_one }) ec es ac
          (a + 1) _ h in
      renew-holds
        (λ s. Goes (
          round_ends false
            (waiting_client tc ec ac (side b's' create_streams (record t { reverse = true }) es a))
            (s then begin_test)))
        sv (tt, next) (tt, next) (tt, next)
  starts false false tc t ec es ac a h =
      let sv : World = record (side b's' create_streams (record t { reverse = false }) es (a + 1)) {
        events = accepts_stream ∷ creates_stream ∷ [];
      } in
      let next =
        to_start tc.reverse tc (record t { reverse = false; prot_listener = minus_one }) ec es ac
          (a + 1) _ h in
      renew-holds
        (λ s. Goes (
          round_ends false
            (waiting_client tc ec ac (side b's' create_streams (record t { reverse = false }) es a))
            (s then begin_test)))
        sv (tt, next) (tt, next) (tt, next)
