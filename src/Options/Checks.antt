-- ===== src/Options/Checks.antt =====
-- What `iperf_parse_arguments` of iperf_api.c checks once all the options are read.
use i_perf_demo_runtime.Common.{
  Bool, List, Option, false, if◌then◌else◌, none, not, some, true, ℕ, ◌&&◌, ◌*◌, ◌==◌, ◌||◌,
}
use i_perf_demo_runtime.Common.Int.{is_zero, ltb_ℤ, pos, ℤ}
use i_perf_demo_runtime.Config.{
  IErrno, IperfTest, Protocol, Text, default_tcp_blksize, iebind, ieblocksize, ieclientonly,
  ieendconditions, ielogfile, ienorole, ieserveronly, ieudpblocksize, protocol_eq, sctp, tcp, udp,
}
use i_perf_demo_runtime.Options.{
  Env, Flag, Parsing, Result, check, err, max_blocksize, max_udp_blocksize, ok, parse_options,
  with_settings, with_test, ◌>>=◌,
}

abbrev pub udp_rate : ℕ
udp_rate = 1024 * 1024

unfoldable pub default_blksize : Protocol → ℤ
default_blksize udp = pos 8192
default_blksize sctp = pos (64 * 1024)
default_blksize tcp = default_tcp_blksize

abbrev pub is_set : Option Text → Bool
is_set none = false
is_set (some _) = true

-- `if (bad) { i_errno = e; return -1; }`, and what follows it.
unfoldable pub guard : Bool → IErrno → Result Parsing → Result Parsing
guard bad e rest = if bad then err e else rest

unfoldable pub check_flags : Env → Parsing → Result Parsing
check_flags env p = guard (is_set p.test.logfile && not env.log_opens) ielogfile (
    guard (p.test.role == b'c' && p.server_flag) ieserveronly (
      guard (p.test.role == b's' && p.client_flag) ieclientonly
        (guard (not (is_set p.test.bind_address) && not (is_zero p.test.bind_port)) iebind (ok p))))

unfoldable pub blksize_of : Parsing → ℤ
unfolding default_blksize
blksize_of p = if is_zero p.blksize then default_blksize p.test.protocol else p.blksize

unfoldable pub check_blksize : Parsing → Result Parsing
unfolding blksize_of protocol_eq
check_blksize p =
    guard (not (ltb_ℤ (pos 0) (blksize_of p)) || ltb_ℤ max_blocksize (blksize_of p)) ieblocksize (
      guard (protocol_eq p.test.protocol udp && ltb_ℤ max_udp_blocksize (blksize_of p))
        ieudpblocksize (ok (with_settings p (record p.test.settings { blksize = blksize_of p }))))

unfoldable pub set_rate_default : Parsing → Parsing
unfolding protocol_eq
set_rate_default p =
    if p.rate_flag
    then p
    else with_settings p
        (record p.test.settings { rate = if protocol_eq p.test.protocol udp then udp_rate else 0 })

unfoldable pub check_end : Parsing → Result Parsing
check_end p =
    let counted = not (p.test.settings.bytes == 0) || not (p.test.settings.blocks == 0) in
    let q =
      if counted && not p.duration_flag
      then with_test p (record p.test { duration = pos 0 })
      else p in
    check
      ((p.duration_flag && not (p.test.settings.bytes == 0))
        || ((p.duration_flag && not (p.test.settings.blocks == 0))
            || (not (p.test.settings.bytes == 0) && not (p.test.settings.blocks == 0))))
      ieendconditions q

unfoldable pub check_arguments : Env → Parsing → Result IperfTest
unfolding check_flags check_blksize set_rate_default check_end
check_arguments env p = check_flags env p >>= λ q.
    (check_blksize q >>= λ r.
    (check_end (set_rate_default r) >>= λ s.
    check (not (s.test.role == b'c') && not (s.test.role == b's')) ienorole s.test))

abbrev pub start : IperfTest → Parsing
start t = record {
  test = t;
  blksize = pos 0;
  server_flag = false;
  client_flag = false;
  rate_flag = false;
  duration_flag = false;
}

unfoldable pub iperf_parse_arguments : Env → List (Flag × List ℕ) → IperfTest → Result IperfTest
unfolding parse_options check_arguments
iperf_parse_arguments env options t =
    parse_options env options (start t) >>= λ p. check_arguments env p
