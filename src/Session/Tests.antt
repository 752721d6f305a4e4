-- ===== src/Session/Tests.antt =====
-- Examples for the control connection of iperf_server_api.c and iperf_client_api.c.
use i_perf_demo_runtime.Common.{List, [], arith, false, none, refl, some, true, ◌∷◌, ◌≡◌}
use i_perf_demo_runtime.Common.Int.{pos, ℤ}
use i_perf_demo_runtime.Config.{
  IperfTest, create_streams, display_results, has_protocol, iecreatestream, ielisten, other_state,
  param_exchange, test_running,
}
use i_perf_demo_runtime.Config.Samples.{tcp_server, udp_client}
use i_perf_demo_runtime.Params.{
  Object, add_item, get_parameters, int_of_int64, key_parallel, key_tcp, number, read_fields, truth,
  with_strings,
}
use i_perf_demo_runtime.Session.{World, done_, on_connect, reads_parameters, sends_state}
use i_perf_demo_runtime.Session.Server.{iperf_accept}
use i_perf_demo_runtime.Session.Client.{got, iperf_handle_message_client}
use i_perf_demo_runtime.Session.Meeting.{Agrees, both-Inevitably, idle_world}
use i_perf_demo_runtime.Session.Cleanup.{ServerEnds, iperf_run_server-Ends}
use i_perf_demo_runtime.Session.Together.{BothDone, Inevitably, round_of}
use i_perf_demo_runtime.Session.Serving.{Round, iperf_run_server, select_failed, timed_out}
use i_perf_demo_runtime.Session.Phases.{any, side}
use i_perf_demo_runtime.Session.Accept.{iperf_accept-free}
use i_perf_demo_runtime.Session.Endings.{IsDone, iperf_handle_message_client-display}

-- A server that has accepted no client, and one that has, on socket 5.
abbrev idle : World
idle = record { test = tcp_server; errno = none; answers = []; events = []; streams_accepted = 0 }

abbrev taken : World
taken = record idle { test = record tcp_server { ctrl_sck = pos 5; state = test_running } }

-- The client's parameters: four TCP streams.
abbrev four_streams : Object
four_streams =
    add_item key_parallel (some (number (pos 4))) (add_item key_tcp (some truth) (λ _. none))

abbrev with_four : IperfTest
with_four = record tcp_server { ctrl_sck = pos 7; state = param_exchange; num_streams = pos 4 }

with_four_runs :
    get_parameters four_streams (record tcp_server { ctrl_sck = pos 7; state = param_exchange })
    ≡ some with_four
unfolding get_parameters with_strings read_fields int_of_int64 has_protocol
with_four_runs = refl

iperf_accept-free_example :
    iperf_accept (some four_streams) ielisten (pos 8) (some (pos 7)) idle
    ≡ done_ (record idle {
      test = record with_four { prot_listener = pos 8; state = create_streams };
      events =
          sends_state param_exchange
          ∷ reads_parameters
          ∷ sends_state create_streams
          ∷ on_connect
          ∷ [];
    })
iperf_accept-free_example =
    iperf_accept-free four_streams ielisten (pos 8) (pos 7) idle with_four refl refl refl
      with_four_runs refl

iperf_handle_message_client-display_example : IsDone [] (
    iperf_handle_message_client iecreatestream none none
      (got display_results)
      (record idle { test = udp_client; answers = false ∷ [] }))
iperf_handle_message_client-display_example =
    iperf_handle_message_client-display iecreatestream none none
      (record idle { test = udp_client; answers = false ∷ [] })

agreed : Agrees (pos 7) four_streams (pos 8) tcp_server with_four 4
unfolding get_parameters with_strings read_fields int_of_int64 has_protocol
agreed = (refl, refl)

-- A client that is to send 1000 bytes through four streams.
abbrev thousand_bytes : IperfTest
thousand_bytes = record tcp_server { settings = record tcp_server.settings { bytes = 1000 } }

both-Inevitably_example : Inevitably (pos 7) four_streams (pos 8) BothDone (record {
  client = side b'c' (other_state 0) (record thousand_bytes { num_streams = pos 4 }) none 0;
  server = idle_world tcp_server none;
  to_server = [];
  to_client = [];
  client_waits = [];
  server_waits = [];
  connecting = true;
  connections = 0;
})
both-Inevitably_example =
    both-Inevitably (pos 7) four_streams (pos 8) 3 (other_state 0) thousand_bytes tcp_server
      with_four none none 0 refl refl (ground arith) refl agreed

-- A round without a client, and then an error of `select`.
abbrev nothing_new : Round
nothing_new = record (round_of (pos 7) four_streams (pos 8) any) { selected = timed_out }

iperf_run_server-Ends_example :
    ServerEnds []
      (iperf_run_server (nothing_new ∷ record nothing_new { selected = select_failed } ∷ []) idle)
iperf_run_server-Ends_example =
    iperf_run_server-Ends (nothing_new ∷ record nothing_new { selected = select_failed } ∷ []) idle

-- Two clients connect in a running test, the second where there was no time to wait.
abbrev two_intruders : List (Round × ℤ)
two_intruders =
    (round_of (pos 7) four_streams (pos 8) any, pos 9)
    ∷ (record (round_of (pos 7) four_streams (pos 8) any) { no_wait = true }, pos 10)
    ∷ []
