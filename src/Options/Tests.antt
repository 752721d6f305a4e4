-- ===== src/Options/Tests.antt =====
-- An example for the command line: `-c host -u -l 1400 -b 5M/10 -t 30`.
use i_perf_demo_runtime.Common.{List, [], arith, refl, some, true, ℕ, ◌∷◌, ◌≡◌}
use i_perf_demo_runtime.Common.Int.{pos}
use i_perf_demo_runtime.Config.{IperfTest, udp}
use i_perf_demo_runtime.Config.Samples.{blank}
use i_perf_demo_runtime.Options.{
  Env, Flag, ok, opt_bandwidth, opt_client, opt_length, opt_time, opt_udp, parse_option,
}
use i_perf_demo_runtime.Options.Checks.{guard, iperf_parse_arguments}
use i_perf_demo_runtime.Options.Limits.{IsLimited}
use i_perf_demo_runtime.Units.{int_of_unsigned, unit_atof_rate, unit_atoi}
use i_perf_demo_runtime.Options.Valid.{AreReadable, IsValid, iperf_parse_arguments-IsValid}

abbrev env : Env
env = record { exec = true; memory = true; log_opens = true; junk = pos 0 }

abbrev command_line : List (Flag × List ℕ)
command_line =
    (opt_client, b'h' ∷ [])
    ∷ (opt_udp, [])
    ∷ (opt_length, b'1' ∷ b'4' ∷ b'0' ∷ b'0' ∷ [])
    ∷ (opt_bandwidth, b'5' ∷ b'M' ∷ b'/' ∷ b'1' ∷ b'0' ∷ [])
    ∷ (opt_time, b'3' ∷ b'0' ∷ [])
    ∷ []

abbrev parsed : IperfTest
parsed = record blank {
  role = b'c';
  sender = true;
  sender_has_retransmits = pos 0;
  protocol = udp;
  server_hostname = some (b'h' ∷ []);
  duration = pos 30;
  settings = record blank.settings { blksize = pos 1400; rate = 5000000; burst = pos 10 };
}

iperf_parse_arguments_runs : iperf_parse_arguments env command_line blank ≡ ok parsed
unfolding iperf_parse_arguments guard parse_option int_of_unsigned unit_atoi unit_atof_rate
iperf_parse_arguments_runs = refl

blank-IsLimited : IsLimited blank
blank-IsLimited = ground arith

command_line-AreReadable : AreReadable env command_line
command_line-AreReadable = (
  tt,
  (
    tt,
    (
      ((refl, (refl, (refl, (refl, tt)))), omega arith),
      (((refl, (refl, (refl, (refl, (refl, tt))))), omega arith), (tt, tt)),
    ),
  ),
)

iperf_parse_arguments-IsValid_example : IsValid parsed
iperf_parse_arguments-IsValid_example =
    iperf_parse_arguments-IsValid env command_line blank parsed command_line-AreReadable
      blank-IsLimited iperf_parse_arguments_runs
