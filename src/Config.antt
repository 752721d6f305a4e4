-- ===== src/Config.antt =====
-- `struct iperf_test` and `struct iperf_settings` of iperf-3.1.3/src/iperf.h, and the setters and
-- defaults of iperf_api.c. Strings are lists of bytes, file descriptors and C integers are integers,
-- and a `double` of seconds is a number of microseconds.
pub mod Roles
pub mod Samples
mod Tests
use i_perf_demo_runtime.Common.{
  Bool, List, Option, [], false, if◌then◌else◌, none, not, some, true, ℕ, ◌&&◌, ◌*◌, ◌==◌, ◌||◌,
  ◌∷◌,
}
use i_perf_demo_runtime.Common.Int.{negsuc, pos, ℤ}

abbrev pub Text : Type 0
Text = List ℕ

-- `Ptcp`, `Pudp` and `Psctp`
pub data Protocol : Type 0 where
  tcp udp sctp : Protocol

unfoldable pub protocol_eq : Protocol → Protocol → Bool
protocol_eq tcp tcp = true
protocol_eq udp udp = true
protocol_eq sctp sctp = true
protocol_eq _ _ = false

-- The states of a test, which are also the messages of the control connection.
pub data State : Type 0 where
  test_start test_running result_request test_end stream_begin stream_running stream_end : State
  all_streams_end param_exchange create_streams server_terminate client_terminate : State
  exchange_results display_results iperf_start iperf_done access_denied server_error : State
  other_state : ℕ → State

-- The `i_errno` that the modelled code sets.
pub data IErrno : Type 0 where
  ieservclient ienorole ieserveronly ieclientonly ieduration ienumstreams ieblocksize : IErrno
  iebufsize ieinterval iemss ienosendfile ieomit ieunimp ieburst ieendconditions : IErrno
  ielogfile iebind ieudpblocksize iebadtos ieinittest ielisten ieaccept : IErrno
  ierecvcookie iectrlwrite iectrlread iectrlclose iemessage iesendmessage ierecvmessage : IErrno
  iesendparams ierecvparams iepackageresults iesendresults ierecvresults ieclientterm : IErrno
  ieserverterm ieaccessdenied ieprotocol ieaffinity iesetsctpbindx iecreatestream : IErrno
  iestreamwrite iestreamread iestreamid ieconnect iesendcookie ieselect : IErrno
  iestreamlisten iestreamaccept iestreamconnect iesetnodelay iesetmss iesetbuf : IErrno
  iereuseaddr iev6only ieinitstream iefile iesettos iesetcos : IErrno
  ieother : ℕ → IErrno

pub record Settings : Type 0 where
  pub domain : ℕ
  pub socket_bufsize : ℤ
  pub blksize : ℤ
  pub rate : ℕ
  pub burst : ℤ
  pub mss : ℤ
  pub tos : ℤ
  pub flowlabel : ℤ
  pub bytes : ℕ
  pub blocks : ℕ
  pub unit_format : ℕ
  pub num_ostreams : ℤ

pub record IperfTest : Type 0 where
  pub settings : Settings
  pub open settings use *
  pub role : ℕ
  pub sender : Bool
  pub sender_has_retransmits : ℤ
  pub protocol : Protocol
  pub protocols : List Protocol
  pub state : State
  pub server_hostname : Option Text
  pub tmp_template : Option Text
  pub bind_address : Option Text
  pub bind_port : ℤ
  pub server_port : ℤ
  pub omit : ℤ
  pub duration : ℤ
  pub diskfile_name : Option Text
  pub affinity : ℤ
  pub server_affinity : ℤ
  pub title : Option Text
  pub congestion : Option Text
  pub pidfile : Option Text
  pub logfile : Option Text
  pub ctrl_sck : ℤ
  pub prot_listener : ℤ
  pub daemon : Bool
  pub one_off : Bool
  pub no_delay : Bool
  pub reverse : Bool
  pub verbose : Bool
  pub json_output : Bool
  pub zerocopy : Bool
  pub debug : Bool
  pub get_server_output : Bool
  pub udp_counters_64bit : Bool
  pub no_fq_socket_pacing : Bool
  pub multisend : ℕ
  pub stats_interval : ℤ
  pub reporter_interval : ℤ
  pub done : Bool
  pub num_streams : ℤ
  pub bytes_sent : ℕ
  pub blocks_sent : ℕ

-- The C literal -1.
abbrev pub minus_one : ℤ
minus_one = negsuc 0

abbrev pub default_tcp_blksize : ℤ
default_tcp_blksize = pos (128 * 1024)

-- tcp_info.c, on Linux
abbrev pub has_tcpinfo_retransmits : Bool
has_tcpinfo_retransmits = true

unfoldable pub check_sender_has_retransmits : IperfTest → IperfTest
unfolding protocol_eq
check_sender_has_retransmits t = record t {
  sender_has_retransmits =
      if t.sender && (protocol_eq t.protocol tcp && has_tcpinfo_retransmits) then pos 1 else pos 0;
}

-- `sender` of a role, before `reverse` is looked at.
unfoldable pub sender_of_role : ℕ → Bool → Bool
sender_of_role role old = if role == b'c' then true else (if role == b's' then false else old)

unfoldable pub iperf_set_test_role : ℕ → IperfTest → IperfTest
unfolding check_sender_has_retransmits sender_of_role
iperf_set_test_role role t =
    let sender = sender_of_role role t.sender in
    check_sender_has_retransmits
      (record t { role = role; sender = if t.reverse then not sender else sender })

unfoldable pub iperf_set_test_reverse : Bool → IperfTest → IperfTest
unfolding check_sender_has_retransmits
iperf_set_test_reverse reverse t =
    check_sender_has_retransmits
      (record t { reverse = reverse; sender = if reverse then not t.sender else t.sender })

unfoldable pub iperf_set_test_server_hostname : Text → IperfTest → IperfTest
iperf_set_test_server_hostname name t = record t { server_hostname = some name }

unfoldable pub has_protocol : Protocol → List Protocol → Bool
unfolding protocol_eq
has_protocol p [] = false
has_protocol p (q ∷ rest) = protocol_eq q p || has_protocol p rest

-- `set_protocol` looks for the protocol in the list. On failure it sets IEPROTOCOL and returns -1.
unfoldable pub set_protocol : Protocol → IperfTest → IperfTest × Bool
unfolding has_protocol check_sender_has_retransmits
set_protocol p t =
    if has_protocol p t.protocols
    then (check_sender_has_retransmits (record t { protocol = p }), true)
    else (t, false)

abbrev default_settings : Settings → Settings
default_settings s = record s {
  domain = 0;
  unit_format = b'a';
  socket_bufsize = pos 0;
  blksize = default_tcp_blksize;
  rate = 0;
  burst = pos 0;
  mss = pos 0;
  bytes = 0;
  blocks = 0;
}

-- `iperf_defaults`. `tcp_memory` and `udp_memory` say whether `protocol_new` succeeds; where it does
-- not, -1 is returned.
unfoldable pub iperf_defaults : Bool → Bool → IperfTest → IperfTest × Bool
unfolding set_protocol
iperf_defaults tcp_memory udp_memory t =
    let base = record t {
      settings = default_settings t.settings;
      omit = pos 0;
      duration = pos 10;
      diskfile_name = none;
      affinity = minus_one;
      server_affinity = minus_one;
      title = none;
      congestion = none;
      server_port = pos 5201;
      ctrl_sck = minus_one;
      prot_listener = minus_one;
      stats_interval = pos 1000000;
      reporter_interval = pos 1000000;
      num_streams = pos 1;
      multisend = 10;
      protocols = [];
    } in
    if tcp_memory
    then (if udp_memory
        then ((set_protocol tcp (record base { protocols = tcp ∷ udp ∷ [] })).0, true)
        else (record base { protocols = tcp ∷ [] }, false))
    else (base, false)

-- `iperf_reset_test`, for the fields of this record.
unfoldable pub iperf_reset_test : IperfTest → IperfTest
unfolding set_protocol
iperf_reset_test t =
    let base =
      (set_protocol tcp (record t {
        done = false;
        role = b's';
        sender = false;
        sender_has_retransmits = pos 0;
      })).0 in
    record base {
      omit = pos 0;
      duration = pos 10;
      server_affinity = minus_one;
      state = other_state 0;
      ctrl_sck = minus_one;
      prot_listener = minus_one;
      bytes_sent = 0;
      blocks_sent = 0;
      reverse = false;
      no_delay = false;
      num_streams = pos 1;
      settings = record base.settings {
        socket_bufsize = pos 0;
        blksize = default_tcp_blksize;
        rate = 0;
        burst = pos 0;
        mss = pos 0;
      };
      multisend = 10;
      udp_counters_64bit = false;
    }
