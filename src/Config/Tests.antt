-- ===== src/Config/Tests.antt =====
-- Examples for the roles of iperf_api.c.
use i_perf_demo_runtime.Common.{refl, true, ◌==◌, ◌≡◌}
use i_perf_demo_runtime.Common.Int.{pos}
use i_perf_demo_runtime.Config.{IperfTest, iperf_set_test_reverse, protocol_eq}
use i_perf_demo_runtime.Config.Roles.{IsConsistent, iperf_set_test_reverse_twice}
use i_perf_demo_runtime.Config.Samples.{blank}

abbrev reversed : IperfTest
reversed = record blank {
  role = b's';
  sender = true;
  sender_has_retransmits = pos 1;
  reverse = true;
}

reversed-IsConsistent : IsConsistent reversed
unfolding protocol_eq
reversed-IsConsistent = record { direction = refl; counted = refl }

iperf_set_test_reverse_twice_example :
    let u = iperf_set_test_reverse true reversed in
    (u.reverse ≡ true) × (u.sender ≡ (u.role == b'c')) × ¬ IsConsistent u
iperf_set_test_reverse_twice_example =
    iperf_set_test_reverse_twice reversed reversed-IsConsistent refl
