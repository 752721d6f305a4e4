-- ===== src/Params/Tests.antt =====
-- An example for the parameters of iperf_api.c: a UDP client that asks the server to send.
use i_perf_demo_runtime.Common.{arith, refl, some, true, ℕ, ◌≡◌}
use i_perf_demo_runtime.Common.Int.{pos}
use i_perf_demo_runtime.Config.{IperfTest, has_protocol, iperf_reset_test}
use i_perf_demo_runtime.Config.Samples.{tcp_server, udp_client}
use i_perf_demo_runtime.Params.{get_parameters, parameters}
use i_perf_demo_runtime.Params.Reset.{FromBefore, FromClient, get_parameters-iperf_reset_test}
use i_perf_demo_runtime.Params.Exchange.{IsSendable, Takes, get_parameters-parameters}

abbrev exact : ℕ → ℕ
exact n = n

udp_client-IsSendable : IsSendable udp_client
udp_client-IsSendable = ground arith

get_parameters-parameters_example :
    (r : IperfTest) × (get_parameters (parameters exact udp_client) tcp_server ≡ some r)
    × Takes exact udp_client tcp_server r
get_parameters-parameters_example =
    get_parameters-parameters exact udp_client tcp_server udp_client-IsSendable
      (unfold has_protocol in refl)

-- The server has run a test of another client, which has set the type of service.
abbrev used_server : IperfTest
used_server = record tcp_server {
  reverse = true;
  sender = true;
  settings = record tcp_server.settings { tos = pos 16; bytes = 1000 };
}

get_parameters-iperf_reset_test_example :
    (r : IperfTest) × (get_parameters (parameters exact udp_client) (iperf_reset_test used_server)
      ≡ some r)
    × FromClient exact udp_client r
    × FromBefore exact udp_client used_server r
get_parameters-iperf_reset_test_example =
    get_parameters-iperf_reset_test exact udp_client used_server udp_client-IsSendable
      (unfold has_protocol in refl) (unfold has_protocol in refl)
