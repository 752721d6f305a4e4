-- ===== src/Params/Exchange.antt =====
-- What the server takes over from the client's parameters: `get_parameters` of iperf_api.c on what
-- `send_parameters` has made.
use i_perf_demo_runtime.Common.{
  Bool, Bool-cases, Option, arith, false, if◌then◌else◌, inl, inr, none, not, refl, some, true, ℕ,
  ◌<◌, ◌==◌, ◌^◌, ◌||◌, ◌≡◌, ◌≤◌,
}
use i_perf_demo_runtime.Common.Int.{is_minus_one, is_zero, neg_part, negsuc, pos, pos_part, ℤ}
use i_perf_demo_runtime.Config.{
  IperfTest, Protocol, Settings, Text, check_sender_has_retransmits, has_protocol,
  iperf_set_test_reverse, protocol_eq, sctp, set_protocol, tcp, udp,
}
use i_perf_demo_runtime.Units.{to_unsigned}
use i_perf_demo_runtime.Params.{
  Value, get_parameters, int_of_int64, non_zero, non_zero_uint64, number, or_else, parameters,
  read_fields, read_flag, read_int, read_protocol, read_reverse, read_settings, read_string,
  read_uint64, string_item, truth, when, with_strings,
}

-- A C `int`.
abbrev pub IsInt : ℤ → Type 0
IsInt n = (pos_part n < 2 ^ 31) × (neg_part n ≤ 2 ^ 31)

int_of_int64-IsInt : (n : ℤ) → IsInt n → int_of_int64 n ≡ n
unfolding int_of_int64
int_of_int64-IsInt (pos n) h = ground arith
int_of_int64-IsInt (negsuc n) h = ground arith

-- The numbers of the client's test are those of C.
pub record IsSendable (c : IperfTest) : Type 0 where
  pub omit : IsInt c.omit
  pub server_affinity : IsInt c.server_affinity
  pub duration : IsInt c.duration
  pub num_streams : IsInt c.num_streams
  pub mss : IsInt c.settings.mss
  pub socket_bufsize : IsInt c.settings.socket_bufsize
  pub blksize : IsInt c.settings.blksize
  pub burst : IsInt c.settings.burst
  pub tos : IsInt c.settings.tos
  pub flowlabel : IsInt c.settings.flowlabel

-- A number that is sent unless it is zero.
abbrev pub kept : ℤ → ℤ → ℤ
kept new old = if is_zero new then old else new

abbrev pub kept_affinity : ℤ → ℤ → ℤ
kept_affinity new old = if is_minus_one new then old else new

read_int-non_zero : (n old : ℤ) → IsInt n → read_int (non_zero n) old ≡ kept n old
read_int-non_zero n old h = elim (Bool-cases (is_zero n)) [
  | inl z ↦ rw z
  | inr z ↦ rw z (int_of_int64-IsInt n h)
]

read_int-affinity :
    (n old : ℤ)
    → IsInt n
    → read_int (when (not (is_minus_one n)) (number n)) old ≡ kept_affinity n old
read_int-affinity n old h = elim (Bool-cases (is_minus_one n)) [
  | inl z ↦ rw z
  | inr z ↦ rw z (int_of_int64-IsInt n h)
]

read_flag-when : (b old : Bool) (v : Value) → read_flag (when b v) old ≡ (b || old)
read_flag-when true old v = refl
read_flag-when false old v = refl

read_string-string_item :
    (new old : Option Text) → read_string (string_item new) old ≡ some (or_else new old)
read_string-string_item none old = refl
read_string-string_item (some s) old = refl

read_protocols :
    (p : Protocol) (t : IperfTest)
    → has_protocol p t.protocols ≡ true
    → read_protocol (when (protocol_eq p sctp) truth) sctp (
        read_protocol
          (when (protocol_eq p udp) truth)
          udp
          (read_protocol (when (protocol_eq p tcp) truth) tcp t))
      ≡ check_sender_has_retransmits (record t { protocol = p })
unfolding set_protocol protocol_eq
read_protocols tcp t h = rw (h, read_protocol)
read_protocols udp t h = rw (h, read_protocol)
read_protocols sctp t h = rw (h, read_protocol)

read_reverse-when :
    (b : Bool) (t : IperfTest)
    → read_reverse (when b truth) t ≡ record t {
      reverse = b || t.reverse;
      sender = if b then not t.sender else t.sender;
      sender_has_retransmits = (read_reverse (when b truth) t).sender_has_retransmits;
    }
unfolding iperf_set_test_reverse
read_reverse-when true t = refl
read_reverse-when false t = refl

module _ (double : ℕ → ℕ) where
  abbrev pub kept_uint64 : ℕ → ℕ → ℕ
  kept_uint64 new old = if new == 0 then old else double new

  read_uint64-non_zero :
      (n old : ℕ) → read_uint64 (non_zero_uint64 double n) old ≡ kept_uint64 n old
  unfolding to_unsigned
  read_uint64-non_zero n old = elim (Bool-cases (n == 0)) [ inl z ↦ rw z | inr z ↦ rw z ]

  -- The settings that are sent are the client's; where the client's are zero, the server's are kept.
  pub record TakesSettings (c s r : Settings) : Type 0 where
    pub bytes : r.bytes ≡ kept_uint64 c.bytes s.bytes
    pub blocks : r.blocks ≡ kept_uint64 c.blocks s.blocks
    pub rate : r.rate ≡ kept_uint64 c.rate s.rate
    pub mss : r.mss ≡ kept c.mss s.mss
    pub socket_bufsize : r.socket_bufsize ≡ kept c.socket_bufsize s.socket_bufsize
    pub blksize : r.blksize ≡ kept c.blksize s.blksize
    pub burst : r.burst ≡ kept c.burst s.burst
    pub tos : r.tos ≡ kept c.tos s.tos
    pub flowlabel : r.flowlabel ≡ kept c.flowlabel s.flowlabel

  -- What the server's test `r` takes from the client's test `c`, and what it keeps of its own, `s`.
  pub record Takes (c s r : IperfTest) : Type 0 where
    pub settings : TakesSettings c.settings s.settings r.settings
    pub protocol : r.protocol ≡ c.protocol
    pub omit : r.omit ≡ c.omit
    pub num_streams : r.num_streams ≡ c.num_streams
    pub server_affinity : r.server_affinity ≡ kept_affinity c.server_affinity s.server_affinity
    pub duration : r.duration ≡ kept c.duration s.duration
    pub no_delay : r.no_delay ≡ (c.no_delay || s.no_delay)
    pub reverse : r.reverse ≡ (c.reverse || s.reverse)
    pub sender : r.sender ≡ (if c.reverse then not s.sender else s.sender)
    pub title : r.title ≡ or_else c.title s.title
    pub congestion : r.congestion ≡ or_else c.congestion s.congestion
    pub get_server_output : r.get_server_output ≡ (c.get_server_output || s.get_server_output)
    pub udp_counters_64bit : r.udp_counters_64bit ≡ (c.udp_counters_64bit || s.udp_counters_64bit)
    pub no_fq_socket_pacing :
        r.no_fq_socket_pacing ≡ (c.no_fq_socket_pacing || s.no_fq_socket_pacing)

  read_settings-parameters :
      (c : IperfTest) (s : Settings)
      → IsSendable c
      → TakesSettings c.settings s (read_settings (parameters double c) s)
  unfolding read_settings parameters
  read_settings-parameters c s h = record {
    bytes = read_uint64-non_zero c.settings.bytes s.bytes;
    blocks = read_uint64-non_zero c.settings.blocks s.blocks;
    rate = read_uint64-non_zero c.settings.rate s.rate;
    mss = read_int-non_zero c.settings.mss s.mss h.mss;
    socket_bufsize = read_int-non_zero c.settings.socket_bufsize s.socket_bufsize h.socket_bufsize;
    blksize = read_int-non_zero c.settings.blksize s.blksize h.blksize;
    burst = read_int-non_zero c.settings.burst s.burst h.burst;
    tos = read_int-non_zero c.settings.tos s.tos h.tos;
    flowlabel = read_int-non_zero c.settings.flowlabel s.flowlabel h.flowlabel;
  }

  read_fields-parameters :
      (c s : IperfTest) (title congestion : Option Text)
      → IsSendable c
      → title ≡ or_else c.title s.title
      → congestion ≡ or_else c.congestion s.congestion
      → Takes c s (
          read_fields
            (parameters double c)
            title
            congestion
            (check_sender_has_retransmits (record s { protocol = c.protocol })))
  unfolding read_fields parameters
  read_fields-parameters c s title congestion h e f = rw (read_reverse-when c.reverse) (record {
    settings = read_settings-parameters c s.settings h;
    protocol = refl;
    omit = int_of_int64-IsInt c.omit h.omit;
    num_streams = int_of_int64-IsInt c.num_streams h.num_streams;
    server_affinity = read_int-affinity c.server_affinity s.server_affinity h.server_affinity;
    duration = read_int-non_zero c.duration s.duration h.duration;
    no_delay = read_flag-when c.no_delay s.no_delay truth;
    reverse = refl;
    sender = refl;
    title = e;
    congestion = f;
    get_server_output = read_flag-when c.get_server_output s.get_server_output (number (pos 1));
    udp_counters_64bit = read_flag-when c.udp_counters_64bit s.udp_counters_64bit (number (pos 1));
    no_fq_socket_pacing =
        read_flag-when c.no_fq_socket_pacing s.no_fq_socket_pacing (number (pos 1));
  })

  -- The server that has read the parameters of the client has the client's protocol and values,
  -- where the server knows the protocol and the client's numbers are values of `int`; a value that
  -- the client does not send, being zero or absent, stays what it was on the server. Counts of 64
  -- bits pass through a `double`.
  pub get_parameters-parameters :
      (c s : IperfTest)
      → IsSendable c
      → has_protocol c.protocol s.protocols ≡ true
      → (r : IperfTest) × (get_parameters (parameters double c) s ≡ some r) × Takes c s r
  unfolding get_parameters parameters with_strings
  get_parameters-parameters c s h e =
      let title = or_else c.title s.title in
      let congestion = or_else c.congestion s.congestion in
      let p = check_sender_has_retransmits (record s { protocol = c.protocol }) in
      (
        read_fields (parameters double c) title congestion p,
        rw (
          read_string-string_item c.title s.title,
          read_string-string_item c.congestion s.congestion,
          read_protocols c.protocol s e,
          with_strings,
        ),
        read_fields-parameters c s title congestion h refl refl,
      )
