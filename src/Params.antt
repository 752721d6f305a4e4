-- ===== src/Params.antt =====
-- The parameters of a test, which the client sends and the server takes over: `send_parameters` and
-- `get_parameters` of iperf-3.1.3/src/iperf_api.c. The JSON library is cjson.c; of an object only what
-- cJSON_GetObjectItem finds is looked at. `double` is what the conversion of a `uint64_t` to a
-- `double` and back leaves of a number.
pub mod Exchange
pub mod Reset
mod Tests
use i_perf_demo_runtime.Common.{
  Bool, Option, [], if◌then◌else◌, none, not, some, true, ℕ, ◌&&◌, ◌==◌, ◌∷◌,
}
use i_perf_demo_runtime.Common.Int.{is_minus_one, is_zero, pos, ℤ}
use i_perf_demo_runtime.Config.{
  IperfTest, Protocol, Settings, Text, has_tcpinfo_retransmits, iperf_set_test_reverse, protocol_eq,
  sctp, set_protocol, tcp, udp,
}
use i_perf_demo_runtime.Units.{int_of_unsigned, to_unsigned}

-- The names of the items.
pub data Key : Type 0 where
  key_tcp key_udp key_sctp key_omit key_server_affinity key_time key_num key_blockcount : Key
  key_mss key_nodelay key_parallel key_reverse key_window key_len key_bandwidth key_burst : Key
  key_tos key_flowlabel key_title key_congestion key_get_server_output : Key
  key_udp_counters_64bit key_no_fq_socket_pacing key_client_version : Key

-- A number that tells the names apart.
abbrev index : Key → ℕ
index key_tcp = 0
index key_udp = 1
index key_sctp = 2
index key_omit = 3
index key_server_affinity = 4
index key_time = 5
index key_num = 6
index key_blockcount = 7
index key_mss = 8
index key_nodelay = 9
index key_parallel = 10
index key_reverse = 11
index key_window = 12
index key_len = 13
index key_bandwidth = 14
index key_burst = 15
index key_tos = 16
index key_flowlabel = 17
index key_title = 18
index key_congestion = 19
index key_get_server_output = 20
index key_udp_counters_64bit = 21
index key_no_fq_socket_pacing = 22
index key_client_version = 23

pub data Value : Type 0 where
  number : ℤ → Value
  string : Text → Value
  truth : Value

-- What `cJSON_GetObjectItem` returns for each name.
abbrev pub Object : Type 0
Object = Key → Option Value

abbrev pub or_else {ℓ} : {A : Type ℓ} → Option A → Option A → Option A
or_else none b = b
or_else (some a) b = some a

-- An item is put behind the others, where there is one: the first of a name is the one that is found.
abbrev pub add_item : Key → Option Value → Object → Object
add_item k v j = λ k'. if index k == index k' then or_else (j k') v else j k'

abbrev pub when : Bool → Value → Option Value
when b v = if b then some v else none

abbrev pub non_zero : ℤ → Option Value
non_zero n = when (not (is_zero n)) (number n)

abbrev pub string_item : Option Text → Option Value
string_item none = none
string_item (some s) = some (string s)

-- "3.1.3"
abbrev iperf_version : Text
iperf_version = b'3' ∷ b'.' ∷ b'1' ∷ b'.' ∷ b'3' ∷ []

-- The `valueint` of an item, an `int64_t`.
abbrev pub valueint : Value → ℤ
valueint (number n) = n
valueint (string s) = pos 0
valueint truth = pos 1

-- The conversion of an `int64_t` to `int`.
unfoldable pub int_of_int64 : ℤ → ℤ
unfolding int_of_unsigned to_unsigned
int_of_int64 n = int_of_unsigned (to_unsigned n)

-- `if ((j_p = cJSON_GetObjectItem(...)) != NULL) field = j_p->valueint;`
abbrev pub read_int : Option Value → ℤ → ℤ
read_int none old = old
read_int (some v) old = int_of_int64 (valueint v)

abbrev pub read_uint64 : Option Value → ℕ → ℕ
read_uint64 none old = old
read_uint64 (some v) old = to_unsigned (valueint v)

-- `field = 1`
abbrev pub read_flag : Option Value → Bool → Bool
read_flag none old = old
read_flag (some v) old = true

-- `field = strdup(j_p->valuestring)`, which crashes where the item is not a string.
abbrev pub read_string : Option Value → Option Text → Option (Option Text)
read_string none old = some old
read_string (some (string s)) old = some (some s)
read_string (some (number n)) old = none
read_string (some truth) old = none

abbrev pub read_protocol : Option Value → Protocol → IperfTest → IperfTest
read_protocol none p t = t
read_protocol (some v) p t = (set_protocol p t).0

abbrev pub read_reverse : Option Value → IperfTest → IperfTest
read_reverse none t = t
read_reverse (some v) t = iperf_set_test_reverse true t

module _ (double : ℕ → ℕ) where
  abbrev pub non_zero_uint64 : ℕ → Option Value
  non_zero_uint64 n = when (not (n == 0)) (number (pos (double n)))

  -- The object that `send_parameters` makes of the test.
  unfoldable pub parameters : IperfTest → Object
  unfolding protocol_eq
  parameters t =
      let s = t.settings in
      let protocol = add_item key_sctp (when (protocol_eq t.protocol sctp) truth) (
        add_item key_udp (when (protocol_eq t.protocol udp) truth)
          (add_item key_tcp (when (protocol_eq t.protocol tcp) truth) (λ _. none))) in
      let ends = add_item key_blockcount (non_zero_uint64 s.blocks) (
        add_item key_num (non_zero_uint64 s.bytes) (
          add_item key_time (non_zero t.duration) (
            add_item key_server_affinity
              (when (not (is_minus_one t.server_affinity)) (number t.server_affinity))
              (add_item key_omit (some (number t.omit)) protocol)))) in
      let sizes = add_item key_len (non_zero s.blksize) (
        add_item key_window (non_zero s.socket_bufsize) (
          add_item key_reverse (when t.reverse truth) (
            add_item key_parallel (some (number t.num_streams)) (
              add_item key_nodelay (when t.no_delay truth)
                (add_item key_mss (non_zero s.mss) ends))))) in
      let labels = add_item key_congestion (string_item t.congestion) (
        add_item key_title (string_item t.title) (
          add_item key_flowlabel (non_zero s.flowlabel) (
            add_item key_tos (non_zero s.tos) (
              add_item key_burst (non_zero s.burst)
                (add_item key_bandwidth (non_zero_uint64 s.rate) sizes))))) in
      add_item key_client_version (some (string iperf_version)) (
        add_item key_no_fq_socket_pacing (when t.no_fq_socket_pacing (number (pos 1))) (
          add_item key_udp_counters_64bit (when t.udp_counters_64bit (number (pos 1)))
            (add_item key_get_server_output (when t.get_server_output (number (pos 1))) labels)))

-- The settings.
unfoldable pub read_settings : Object → Settings → Settings
read_settings j s = record s {
  bytes = read_uint64 (j key_num) s.bytes;
  blocks = read_uint64 (j key_blockcount) s.blocks;
  mss = read_int (j key_mss) s.mss;
  socket_bufsize = read_int (j key_window) s.socket_bufsize;
  blksize = read_int (j key_len) s.blksize;
  rate = read_uint64 (j key_bandwidth) s.rate;
  burst = read_int (j key_burst) s.burst;
  tos = read_int (j key_tos) s.tos;
  flowlabel = read_int (j key_flowlabel) s.flowlabel;
}

-- The last lines: a TCP sender counts retransmissions.
unfoldable pub note_retransmits : IperfTest → IperfTest
unfolding protocol_eq
note_retransmits t = record t {
  sender_has_retransmits =
      if t.sender && (protocol_eq t.protocol tcp && has_tcpinfo_retransmits)
      then pos 1
      else t.sender_has_retransmits;
}

-- The fields that the rest sets, but for the two strings, which are given.
unfoldable pub read_fields : Object → Option Text → Option Text → IperfTest → IperfTest
unfolding read_settings note_retransmits iperf_set_test_reverse
read_fields j title congestion t =
    let r = read_reverse (j key_reverse) (record t {
      omit = read_int (j key_omit) t.omit;
      server_affinity = read_int (j key_server_affinity) t.server_affinity;
      duration = read_int (j key_time) t.duration;
      no_delay = read_flag (j key_nodelay) t.no_delay;
      num_streams = read_int (j key_parallel) t.num_streams;
    }) in
    note_retransmits (record r {
      settings = read_settings j r.settings;
      title = title;
      congestion = congestion;
      get_server_output = read_flag (j key_get_server_output) r.get_server_output;
      udp_counters_64bit = read_flag (j key_udp_counters_64bit) r.udp_counters_64bit;
      no_fq_socket_pacing = read_flag (j key_no_fq_socket_pacing) r.no_fq_socket_pacing;
    })

-- The title and the congestion control algorithm may be what crashes.
unfoldable pub with_strings :
    Object → Option (Option Text) → Option (Option Text) → IperfTest → Option IperfTest
with_strings j (some title) (some congestion) t = some (read_fields j title congestion t)
with_strings j none _ t = none
with_strings j (some title) none t = none

-- `get_parameters` on the object that `JSON_read` has returned; `none` is a crash.
unfoldable pub get_parameters : Object → IperfTest → Option IperfTest
unfolding set_protocol
get_parameters j t =
    with_strings j (read_string (j key_title) t.title) (read_string (j key_congestion) t.congestion)
      (read_protocol (j key_sctp) sctp
        (read_protocol (j key_udp) udp (read_protocol (j key_tcp) tcp t)))
