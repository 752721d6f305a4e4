-- ===== src/Options.antt =====
-- The command line: `iperf_parse_arguments` of iperf-3.1.3/src/iperf_api.c. What `getopt_long` has
-- found is a list of options with their arguments. The macros are those of iperf_config.h, which
-- defines HAVE_SENDFILE, and neither HAVE_CPU_AFFINITY, HAVE_FLOWLABEL, HAVE_TCP_CONGESTION, HAVE_SCTP
-- nor HAVE_SO_MAX_PACING_RATE.
pub mod Checks
pub mod Limits
pub mod Valid
mod Tests
use i_perf_demo_runtime.Common.{
  Bool, List, Option, [], if◌then◌else◌, none, not, some, true, ℕ, ◌&&◌, ◌*◌, ◌-◌, ◌==◌, ◌||◌, ◌∷◌,
}
use i_perf_demo_runtime.Common.Int.{is_zero, ltb_ℤ, pos, ℤ}
use i_perf_demo_runtime.Units.{
  atof, atoi, int_of_unsigned, strtol_int, suffix_of, to_int, to_uint64, unit_atof, unit_atof_rate,
  unit_atoi,
}
use i_perf_demo_runtime.Config.{
  IErrno, IperfTest, Settings, iebadtos, iebufsize, ieburst, ieduration, ieinterval, iemss,
  ienumstreams, ieomit, ieservclient, iesetsctpbindx, ieunimp, iperf_set_test_reverse,
  iperf_set_test_role, iperf_set_test_server_hostname, set_protocol, udp,
}

-- What an option is: `server_port` is `-p`, and so on; `invalid` is anything else.
pub data Flag : Type 0 where
  opt_port opt_format opt_interval opt_daemon opt_one_off opt_verbose opt_json opt_version : Flag
  opt_server opt_client opt_udp opt_sctp opt_numstreams opt_bandwidth opt_time opt_bytes : Flag
  opt_blockcount opt_length opt_parallel opt_reverse opt_window opt_bind opt_client_port : Flag
  opt_set_mss opt_no_delay opt_version4 opt_version6 opt_tos opt_flowlabel opt_xbind : Flag
  opt_zerocopy opt_omit opt_file opt_affinity opt_title opt_congestion opt_debug opt_pidfile : Flag
  opt_logfile opt_get_server_output opt_udp_counters_64bit opt_no_fq_socket_pacing : Flag
  opt_tmp_path opt_help invalid : Flag

-- What the parse depends on: whether the program runs as an executable (`invoke_flag`), whether
-- `malloc` and `strdup` succeed for `-X`, whether `fopen` opens the log file, and what the
-- uninitialised `n` of units.c holds.
pub record Env : Type 0 where
  pub exec : Bool
  pub memory : Bool
  pub log_opens : Bool
  pub junk : ℤ

-- The test and the local variables of the parse.
pub record Parsing : Type 0 where
  pub test : IperfTest
  pub blksize : ℤ
  pub server_flag : Bool
  pub client_flag : Bool
  pub rate_flag : Bool
  pub duration_flag : Bool

-- -1 with `i_errno`, or the end of the process by `exit`.
pub data Result {ℓ} (A : Type ℓ) : Type ℓ where
  ok : A → Result A
  err : IErrno → Result A
  exits : ℕ → Result A

infixl 5 ◌>>=◌
abbrev pub ◌>>=◌ {ℓ κ} : {A : Type ℓ} {B : Type κ} → Result A → (A → Result B) → Result B
ok a >>= f = f a
err e >>= f = err e
exits n >>= f = exits n

-- `if (bad) { i_errno = e; return -1; }` after the test has been changed to `p`.
abbrev pub check {ℓ} : {A : Type ℓ} → Bool → IErrno → A → Result A
check bad e p = if bad then err e else ok p

abbrev pub with_test : Parsing → IperfTest → Parsing
with_test p t = record p { test = t }

abbrev pub client : Parsing → Parsing
client p = record p { client_flag = true }

abbrev pub server : Parsing → Parsing
server p = record p { server_flag = true }

abbrev pub with_settings : Parsing → Settings → Parsing
with_settings p s = with_test p (record p.test { settings = s })

-- iperf.h
abbrev pub max_time : ℤ
max_time = pos 86400

abbrev pub max_streams : ℤ
max_streams = pos 128

abbrev pub max_burst : ℤ
max_burst = pos 1000

abbrev pub max_mss : ℤ
max_mss = pos (9 * 1024)

abbrev pub max_blocksize : ℤ
max_blocksize = pos (1024 * 1024)

abbrev pub max_udp_blocksize : ℤ
max_udp_blocksize = pos (65535 - 8 - 20)

abbrev pub max_tcp_buffer : ℤ
max_tcp_buffer = pos (512 * 1024 * 1024)

abbrev pub min_interval : ℤ
min_interval = pos 100000

abbrev pub max_interval : ℤ
max_interval = pos 60000000

-- `-s` (and, outside an executable, `-v`, which falls through to it)
unfoldable pub parse_server : Parsing → Result Parsing
unfolding iperf_set_test_role
parse_server p =
    if p.test.role == b'c'
    then err ieservclient
    else ok (with_test p (iperf_set_test_role b's' p.test))

unfoldable pub parse_client : List ℕ → Parsing → Result Parsing
unfolding iperf_set_test_role iperf_set_test_server_hostname
parse_client arg p =
    if p.test.role == b's'
    then err ieservclient
    else ok (with_test p (iperf_set_test_server_hostname arg (iperf_set_test_role b'c' p.test)))

-- `strchr(optarg, '/')`: the text in front of the slash, and what follows it.
unfoldable pub split_slash : List ℕ → List ℕ × Option (List ℕ)
split_slash [] = ([], none)
split_slash (c ∷ s) =
    let (front, back) = split_slash s in if c == b'/' then ([], some s) else (c ∷ front, back)

abbrev set_rate : ℤ → List ℕ → Parsing → Parsing
set_rate junk text p =
    let q =
      with_settings p (record p.test.settings { rate = to_uint64 (unit_atof_rate junk text) }) in
    record q { rate_flag = true; client_flag = true }

-- `-b n[/burst]`, the argument being split at the slash
unfoldable pub set_bandwidth : Env → List ℕ → Option (List ℕ) → Parsing → Result Parsing
unfolding atoi
set_bandwidth env front none p = ok (set_rate env.junk front p)
set_bandwidth env front (some text) p =
    let burst = atoi text in
    check (not (ltb_ℤ (pos 0) burst) || ltb_ℤ max_burst burst) ieburst
      (set_rate env.junk front (with_settings p (record p.test.settings { burst = burst })))

unfoldable pub parse_bandwidth : Env → List ℕ → Parsing → Result Parsing
unfolding split_slash set_bandwidth
parse_bandwidth env arg p = set_bandwidth env (split_slash arg).0 (split_slash arg).1 p

-- `-S`, after `strtol`
unfoldable pub set_tos : Option ℤ → Parsing → Result Parsing
set_tos none p = err iebadtos
set_tos (some tos) p =
    check (ltb_ℤ tos (pos 0) || ltb_ℤ (pos 255) tos) iebadtos
      (client (with_settings p (record p.test.settings { tos = tos })))

-- The `switch` on an option.
unfoldable pub parse_option : Env → Flag → List ℕ → Parsing → Result Parsing
unfolding parse_server parse_client parse_bandwidth set_tos set_protocol iperf_set_test_reverse
parse_option env opt_port arg p = ok (with_test p (record p.test { server_port = atoi arg }))
parse_option env opt_format arg p =
    ok (with_settings p (record p.test.settings { unit_format = suffix_of arg }))
parse_option env opt_interval arg p =
    let i = atof arg in
    check ((ltb_ℤ i min_interval || ltb_ℤ max_interval i) && not (is_zero i)) ieinterval
      (with_test p (record p.test { stats_interval = i; reporter_interval = i }))
parse_option env opt_daemon arg p = ok (server (with_test p (record p.test { daemon = true })))
parse_option env opt_one_off arg p = ok (server (with_test p (record p.test { one_off = true })))
parse_option env opt_verbose arg p = ok (with_test p (record p.test { verbose = true }))
parse_option env opt_json arg p = ok (with_test p (record p.test { json_output = true }))
parse_option env opt_version arg p = if env.exec then exits 0 else parse_server p
parse_option env opt_server arg p = parse_server p
parse_option env opt_client arg p = parse_client arg p
parse_option env opt_udp arg p = ok (client (with_test p (set_protocol udp p.test).0))
parse_option env opt_sctp arg p = err ieunimp
parse_option env opt_numstreams arg p = parse_bandwidth env arg (
    client (
      with_settings p
        (record p.test.settings { num_ostreams = int_of_unsigned (unit_atoi env.junk arg) })))
parse_option env opt_bandwidth arg p = parse_bandwidth env arg p
parse_option env opt_time arg p =
    let q = with_test p (record p.test { duration = atoi arg }) in
    check (ltb_ℤ max_time (atoi arg)) ieduration
      (record q { duration_flag = true; client_flag = true })
parse_option env opt_bytes arg p =
    ok (client (with_settings p (record p.test.settings { bytes = unit_atoi env.junk arg })))
parse_option env opt_blockcount arg p =
    ok (client (with_settings p (record p.test.settings { blocks = unit_atoi env.junk arg })))
parse_option env opt_length arg p =
    ok (client (record p { blksize = int_of_unsigned (unit_atoi env.junk arg) }))
parse_option env opt_parallel arg p =
    check (ltb_ℤ max_streams (atoi arg)) ienumstreams
      (client (with_test p (record p.test { num_streams = atoi arg })))
parse_option env opt_reverse arg p = ok (client (with_test p (iperf_set_test_reverse true p.test)))
parse_option env opt_window arg p =
    let size = to_int (unit_atof env.junk arg) in
    check (ltb_ℤ max_tcp_buffer size) iebufsize
      (client (with_settings p (record p.test.settings { socket_bufsize = size })))
parse_option env opt_bind arg p = ok (with_test p (record p.test { bind_address = some arg }))
parse_option env opt_client_port arg p = ok (with_test p (record p.test { bind_port = atoi arg }))
parse_option env opt_set_mss arg p =
    check (ltb_ℤ max_mss (atoi arg)) iemss
      (client (with_settings p (record p.test.settings { mss = atoi arg })))
parse_option env opt_no_delay arg p = ok (client (with_test p (record p.test { no_delay = true })))
parse_option env opt_version4 arg p = ok (with_settings p (record p.test.settings { domain = 2 }))
parse_option env opt_version6 arg p = ok (with_settings p (record p.test.settings { domain = 10 }))
parse_option env opt_tos arg p = set_tos (strtol_int arg) p
parse_option env opt_flowlabel arg p = err ieunimp
parse_option env opt_xbind arg p = check (not env.memory) iesetsctpbindx p
parse_option env opt_zerocopy arg p = ok (client (with_test p (record p.test { zerocopy = true })))
parse_option env opt_omit arg p =
    check (ltb_ℤ (atoi arg) (pos 0) || ltb_ℤ (pos 60) (atoi arg)) ieomit
      (client (with_test p (record p.test { omit = atoi arg })))
parse_option env opt_file arg p = ok (with_test p (record p.test { diskfile_name = some arg }))
parse_option env opt_affinity arg p = err ieunimp
parse_option env opt_title arg p = ok (client (with_test p (record p.test { title = some arg })))
parse_option env opt_congestion arg p = err ieunimp
parse_option env opt_debug arg p = ok (with_test p (record p.test { debug = true }))
parse_option env opt_pidfile arg p =
    ok (server (with_test p (record p.test { pidfile = some arg })))
parse_option env opt_logfile arg p = ok (with_test p (record p.test { logfile = some arg }))
parse_option env opt_get_server_output arg p =
    ok (client (with_test p (record p.test { get_server_output = true })))
parse_option env opt_udp_counters_64bit arg p =
    ok (with_test p (record p.test { udp_counters_64bit = true }))
parse_option env opt_no_fq_socket_pacing arg p = err ieunimp
parse_option env opt_tmp_path arg p = ok (with_test p (record p.test { tmp_template = some arg }))
parse_option env opt_help arg p = if env.exec then exits 1 else ok p
parse_option env invalid arg p = if env.exec then exits 1 else ok p

-- The loop over the options.
unfoldable pub parse_options : Env → List (Flag × List ℕ) → Parsing → Result Parsing
parse_options env [] p = ok p
parse_options env ((f, arg) ∷ rest) p = parse_option env f arg p >>= λ q. parse_options env rest q
