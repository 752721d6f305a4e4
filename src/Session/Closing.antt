-- ===== src/Session/Closing.antt =====
-- The end of a test of iperf3: the phases from TEST_END to IPERF_DONE on both sides.
use i_perf_demo_runtime.Common.{Option, [], refl, true, ℕ, ◌∷◌}
use i_perf_demo_runtime.Common.Int.{ℤ}
use i_perf_demo_runtime.Config.{
  IErrno, IperfTest, display_results, exchange_results, iperf_done, test_end, test_running,
}
use i_perf_demo_runtime.Params.{Object}
use i_perf_demo_runtime.Session.{
  call, iperf_exchange_results, iperf_set_send_state, reads_results, sends_results, sends_state,
}
use i_perf_demo_runtime.Session.Client.{
  handle_state_client, ignore, iperf_client_end, iperf_handle_message_client,
}
use i_perf_demo_runtime.Session.Server.{
  handle_state_server, handle_test_end, iperf_handle_message_server,
}
use i_perf_demo_runtime.Session.Serving.{
  serve_control, serve_data, serve_listener, serve_ready, serve_streams, timers_run, with_cleanup,
}
use i_perf_demo_runtime.Session.Running.{hear, work}
use i_perf_demo_runtime.Session.Together.{
  already, client_hears, client_reads, move, result_text, server_hears, server_reads, state_byte,
}
use i_perf_demo_runtime.Session.Phases.{
  Always, any, either_way, goes_on, halfway, joint, reads_on, side,
}

module _ (socket : ℤ) (object : Object) (listening : ℤ) where
  -- The server reads IPERF_DONE.
  last_message :
      (tc ts : IperfTest) (ec es : Option IErrno) (ac as_ conns : ℕ)
      → Always socket object listening (
          joint
            (side b'c' iperf_done tc ec ac)
            (side b's' display_results ts es as_)
            (iperf_done ∷ [])
            []
            conns)
  unfolding move serve_ready serve_listener serve_control serve_streams serve_data
      iperf_handle_message_server handle_state_server with_cleanup timers_run
  last_message tc ts ec es ac as_ conns =
      let y =
        joint (side b'c' iperf_done tc ec ac) (side b's' display_results ts es as_)
          (iperf_done ∷ []) [] conns in
      goes_on socket object listening y (server_hears, any, tt) (λ c. tt)
        (either_way socket object listening server_hears y
          (λ c. already ((refl, refl), (refl, refl))) (λ c. already ((refl, refl), (refl, refl))))
        (λ c. tt) (λ c. tt) (λ c. tt)

  -- The client reads DISPLAY_RESULTS.
  display :
      (tc ts : IperfTest) (ec es : Option IErrno) (ac as_ conns : ℕ)
      → Always socket object listening (
          joint
            (side b'c' exchange_results tc ec ac)
            (side b's' display_results ts es as_)
            []
            (display_results ∷ [])
            conns)
  unfolding move hear work iperf_handle_message_client handle_state_client iperf_client_end ignore
      iperf_set_send_state call
  display tc ts ec es ac as_ conns =
      goes_on socket object listening
        (joint (side b'c' exchange_results tc ec ac) (side b's' display_results ts es as_) []
          (display_results ∷ []) conns)
        (client_hears, any, tt) (λ c. tt) (λ c. tt) (λ c. tt)
        (λ c. last_message tc ts ec es ac as_ _) (λ c. tt)

  -- The client reads the server's results.
  client_reads_results :
      (tc ts : IperfTest) (ec es : Option IErrno) (ac as_ conns : ℕ)
      → Always socket object listening (
          halfway
            (side b'c' exchange_results tc ec ac)
            (side b's' display_results ts es as_)
            ([])
            (result_text ∷ state_byte display_results ∷ [])
            (reads_results ∷ [])
            ([])
            conns)
  unfolding move
  client_reads_results tc ts ec es ac as_ conns =
      reads_on socket object listening
        (halfway (side b'c' exchange_results tc ec ac) (side b's' display_results ts es as_) ([])
          (result_text ∷ state_byte display_results ∷ []) (reads_results ∷ []) ([]) conns)
        (client_reads, any, tt) (λ c. tt) (λ c. tt) (λ c. tt) (λ c. tt) (λ c. tt) (λ c. tt)
        (λ c. display tc ts ec es ac as_ conns)

  -- The server reads the client's results.
  server_reads_results :
      (tc ts : IperfTest) (ec es : Option IErrno) (ac as_ conns : ℕ)
      → Always socket object listening (
          halfway
            (side b'c' exchange_results tc ec ac)
            (side b's' display_results ts es as_)
            (result_text ∷ [])
            ([])
            (reads_results ∷ [])
            (reads_results ∷ sends_results ∷ sends_state display_results ∷ [])
            conns)
  unfolding move
  server_reads_results tc ts ec es ac as_ conns =
      reads_on socket object listening
        (halfway (side b'c' exchange_results tc ec ac) (side b's' display_results ts es as_)
          (result_text ∷ []) ([]) (reads_results ∷ [])
          (reads_results ∷ sends_results ∷ sends_state display_results ∷ []) conns)
        (server_reads, any, tt) (λ c. tt) (λ c. tt) (λ c. tt) (λ c. tt) (λ c. tt)
        (λ c. client_reads_results tc ts ec es ac as_ conns) (λ c. tt)

  -- The client reads EXCHANGE_RESULTS, while the server waits for its results.
  results :
      (tc ts : IperfTest) (ec es : Option IErrno) (ac as_ conns : ℕ)
      → Always socket object listening (
          halfway
            (side b'c' test_end tc ec ac)
            (side b's' display_results ts es as_)
            ([])
            (state_byte exchange_results ∷ [])
            ([])
            (reads_results ∷ sends_results ∷ sends_state display_results ∷ [])
            conns)
  unfolding move hear work iperf_handle_message_client handle_state_client iperf_exchange_results
      call
  results tc ts ec es ac as_ conns =
      reads_on socket object listening
        (halfway (side b'c' test_end tc ec ac) (side b's' display_results ts es as_) ([])
          (state_byte exchange_results ∷ []) ([])
          (reads_results ∷ sends_results ∷ sends_state display_results ∷ []) conns)
        (client_hears, any, tt) (λ c. tt) (λ c. tt) (λ c. tt)
        (λ c. server_reads_results tc ts ec es ac as_ _) (λ c. tt) (λ c. tt) (λ c. tt)

  -- The client has sent TEST_END.
  pub ending :
      (tc ts : IperfTest) (ec es : Option IErrno) (ac as_ conns : ℕ)
      → Always socket object listening (
          joint
            (side b'c' test_end tc ec ac)
            (side b's' test_running ts es as_)
            (test_end ∷ [])
            []
            conns)
  unfolding move serve_ready serve_listener serve_control serve_streams serve_data
      iperf_handle_message_server handle_state_server handle_test_end iperf_exchange_results
      iperf_set_send_state call with_cleanup timers_run
  ending tc ts ec es ac as_ conns =
      let y =
        joint (side b'c' test_end tc ec ac) (side b's' test_running ts es as_) (test_end ∷ []) []
          conns in
      goes_on socket object listening y (server_hears, any, tt) (λ c. tt)
        (either_way socket object listening server_hears y
          (λ c. results tc (record ts { done = true }) ec es ac as_ _)
          (λ c. results tc (record ts { done = true }) ec es ac as_ _))
        (λ c. tt) (λ c. tt) (λ c. tt)
