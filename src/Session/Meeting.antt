-- ===== src/Session/Meeting.antt =====
-- The whole of a test of iperf3 between a client and a server.
use i_perf_demo_runtime.Common.{
  Bool, Option, [], arith, false, refl, some, suc, true, ℕ, ◌+◌, ◌==◌, ◌∷◌, ◌≡◌,
}
use i_perf_demo_runtime.Common.Int.{is_minus_one, pos, ℤ}
use i_perf_demo_runtime.Config.{
  IErrno, IperfTest, State, create_streams, ielisten, iperf_start, param_exchange,
}
use i_perf_demo_runtime.Params.{Object, get_parameters}
use i_perf_demo_runtime.Session.{World, call, done_, on_connect, reads_parameters, sends_state}
use i_perf_demo_runtime.Session.Accept.{iperf_accept-free}
use i_perf_demo_runtime.Session.Client.{handle_state_client, iperf_handle_message_client}
use i_perf_demo_runtime.Session.Running.{hear, work}
use i_perf_demo_runtime.Session.Together.{
  BothDone, Chance, Inevitably, client_hears, flush, move, parameter_text, quiet, round_of,
  server_accepts, server_reads, state_byte,
}
use i_perf_demo_runtime.Session.Phases.{Always, any, goes_on, halfway, joint, reads_on, side}
use i_perf_demo_runtime.Session.Serving.{
  is_iperf_done, is_test_running, serve_control, serve_data, serve_listener, serve_ready,
  serve_streams, timers_run, with_cleanup,
}
use i_perf_demo_runtime.Session.Liveness.{CanEnd}
use i_perf_demo_runtime.Session.Streams.{stream_world, streams}

-- The server that waits for a client.
abbrev pub idle_world : IperfTest → Option IErrno → World
idle_world ts es = side b's' iperf_start ts es 0

module _ (socket : ℤ) (object : Object) (listening : ℤ) where
  -- The client reads CREATE_STREAMS, and connects its streams.
  to_create :
      (k : ℕ) (tc ts : IperfTest) (ec es : Option IErrno) (ac : ℕ)
      → CanEnd tc
      → Always socket object listening (
          joint
            (side b'c' param_exchange (record tc { num_streams = pos (suc k) }) ec ac)
            (stream_world ts (suc k) es 0)
            []
            (create_streams ∷ [])
            0)
  unfolding move hear work iperf_handle_message_client handle_state_client call
  to_create k t ts ec es ac h =
      let tc : IperfTest = record t { num_streams = pos (suc k) } in
      let count : 0 + (suc k + 0) ≡ suc k = omega arith in
      goes_on socket object listening
        (joint (side b'c' param_exchange tc ec ac) (stream_world ts (suc k) es 0) []
          (create_streams ∷ []) 0)
        (client_hears, any, tt) (λ c. tt) (λ c. tt) (λ c. tt)
        (λ c. rw count (streams socket object listening k tc ts ec es ac 0 (suc k) h (omega arith)))
        (λ c. tt)

  -- The server reads the parameters.
  server_reads_parameters :
      (k : ℕ) (tc ts : IperfTest) (ec es : Option IErrno) (ac : ℕ)
      → CanEnd tc
      → Always socket object listening (
          halfway
            (side b'c' param_exchange (record tc { num_streams = pos (suc k) }) ec ac)
            (stream_world ts (suc k) es 0)
            (parameter_text ∷ [])
            []
            []
            (reads_parameters ∷ sends_state create_streams ∷ [])
            0)
  unfolding move
  server_reads_parameters k t ts ec es ac h =
      let tc : IperfTest = record t { num_streams = pos (suc k) } in
      reads_on socket object listening
        (halfway (side b'c' param_exchange tc ec ac) (stream_world ts (suc k) es 0)
          (parameter_text ∷ []) [] [] (reads_parameters ∷ sends_state create_streams ∷ []) 0)
        (server_reads, any, tt) (λ c. tt) (λ c. tt) (λ c. tt) (λ c. tt) (λ c. tt)
        (λ c. to_create k t ts ec es ac h) (λ c. tt)

  -- The client reads PARAM_EXCHANGE, while the server waits for the parameters.
  to_exchange :
      (k : ℕ) (st : State) (tc ts : IperfTest) (ec es : Option IErrno) (ac : ℕ)
      → is_iperf_done st ≡ false
      → is_test_running st ≡ false
      → CanEnd tc
      → Always socket object listening (
          halfway
            (side b'c' st (record tc { num_streams = pos (suc k) }) ec ac)
            (stream_world ts (suc k) es 0)
            []
            (state_byte param_exchange ∷ [])
            []
            (reads_parameters ∷ sends_state create_streams ∷ [])
            0)
  unfolding move hear work iperf_handle_message_client handle_state_client call
  to_exchange k st t ts ec es ac d r h =
      let tc : IperfTest = record t { num_streams = pos (suc k) } in
      reads_on socket object listening
        (halfway (side b'c' st tc ec ac) (stream_world ts (suc k) es 0) []
          (state_byte param_exchange ∷ []) [] (reads_parameters ∷ sends_state create_streams ∷ [])
          0)
        (client_hears, any, rw d tt) (λ c. tt) (λ c. tt) (λ c. tt)
        (λ c. rw d (server_reads_parameters k t ts ec es ac h)) (λ c. rw (d, r) tt) (λ c. tt)
        (λ c. tt)

  -- The server that has accepted a client whose parameters make its test `u`.
  abbrev met_world : IperfTest → ℕ → Option IErrno → World
  met_world u k es = record (stream_world (record u { prot_listener = listening }) (suc k) es 0) {
    events =
        sends_state param_exchange
        ∷ reads_parameters
        ∷ sends_state create_streams
        ∷ on_connect
        ∷ [];
  }

  -- The parameters that the server reads make its test `u`, with so many streams and no affinity.
  abbrev pub Agrees : IperfTest → IperfTest → ℕ → Type 0
  Agrees ts u n =
      (get_parameters object (record ts { state = param_exchange; role = b's'; ctrl_sck = socket })
        ≡ some (record u { role = b's'; num_streams = pos n }))
      × (is_minus_one u.server_affinity ≡ true)

  serve_client :
      (c : Chance) (k : ℕ) (ts u : IperfTest) (es : Option IErrno)
      → is_minus_one ts.ctrl_sck ≡ true
      → Agrees ts u (suc k)
      → serve_ready
          (record (round_of socket object listening c) { listener_ready = true })
          (idle_world ts es)
        ≡ done_ (met_world u k es)
  unfolding serve_ready serve_listener serve_control serve_streams serve_data
  serve_client c k ts u es f (g, n) =
      let q : (0 == suc k) ≡ false = ground arith in
      rw
        (iperf_accept-free object ielisten listening socket (idle_world ts es) _ f refl refl g n, q)
        refl

  quiet_client :
      (b : Bool) (k : ℕ) (u : IperfTest) (es : Option IErrno) (cl : World)
      → let sv = stream_world (record u { prot_listener = listening }) (suc k) es 0 in
        Always socket object listening (
          halfway cl sv []
            (state_byte param_exchange ∷ [])
            []
            (reads_parameters ∷ sends_state create_streams ∷ [])
            0)
        → let w = timers_run b (met_world u k es) in
          Always socket object listening
            (halfway cl (quiet w) [] (flush w.events).0 [] (flush w.events).1 0)
  unfolding timers_run
  quiet_client true k u es cl h = h
  quiet_client false k u es cl h = h

  -- A client that has connected and a free server, where no call fails, the test of the client can
  -- end, and the parameters that the server reads say as many streams as the client makes and no
  -- affinity, come to IPERF_DONE on both sides: in whatever order they make their moves, and whatever
  -- is sent meanwhile, no side gets something else than it reads, they do not come to wait for each
  -- other, and after finitely many moves both are in IPERF_DONE with no read left.
  pub both-Inevitably :
      (k : ℕ) (st : State) (tc ts u : IperfTest) (ec es : Option IErrno) (ac : ℕ)
      → is_iperf_done st ≡ false
      → is_test_running st ≡ false
      → CanEnd tc
      → is_minus_one ts.ctrl_sck ≡ true
      → Agrees ts u (suc k)
      → Inevitably socket object listening BothDone (record {
        client = side b'c' st (record tc { num_streams = pos (suc k) }) ec ac;
        server = idle_world ts es;
        to_server = [];
        to_client = [];
        client_waits = [];
        server_waits = [];
        connecting = true;
        connections = 0;
      })
  unfolding move with_cleanup
  both-Inevitably k st tc ts u ec es ac d r h f g =
      let cl : World = side b'c' st (record tc { num_streams = pos (suc k) }) ec ac in
      goes_on socket object listening
        (record (joint cl (idle_world ts es) [] [] 0) { connecting = true })
        (server_accepts, any, rw (serve_client any k ts u es f g) tt)
        (λ c. rw (serve_client c k ts u es f g) (
          quiet_client c.no_wait k u es cl
            (to_exchange k st tc (record u { prot_listener = listening }) ec es ac d r h)))
        (λ c. tt) (λ c. tt) (λ c. rw d tt) (λ c. rw (d, r) tt)
