-- ===== src/Params/Reset.antt =====
-- What a test on the server takes from its client, and what from the tests before: `get_parameters` of
-- iperf_api.c after `iperf_reset_test`.
use i_perf_demo_runtime.Common.{Bool, ap, false, if◌then◌else◌, refl, some, true, ℕ, ◌||◌, ◌∙◌, ◌≡◌}
use i_perf_demo_runtime.Common.Int.{pos}
use i_perf_demo_runtime.Config.{
  IperfTest, default_tcp_blksize, has_protocol, iperf_reset_test, minus_one, other_state,
  set_protocol, tcp,
}
use i_perf_demo_runtime.Params.{get_parameters, or_else, parameters}
use i_perf_demo_runtime.Params.Exchange.{
  IsSendable, get_parameters-parameters, kept, kept_affinity, kept_uint64,
}

-- The test that the reset leaves on a server that knows TCP.
abbrev fresh : IperfTest → IperfTest
fresh s = record s {
  done = false;
  role = b's';
  sender = false;
  sender_has_retransmits = pos 0;
  protocol = tcp;
  omit = pos 0;
  duration = pos 10;
  server_affinity = minus_one;
  state = other_state 0;
  ctrl_sck = minus_one;
  prot_listener = minus_one;
  bytes_sent = 0;
  blocks_sent = 0;
  reverse = false;
  no_delay = false;
  num_streams = pos 1;
  settings = record s.settings {
    socket_bufsize = pos 0;
    blksize = default_tcp_blksize;
    rate = 0;
    burst = pos 0;
    mss = pos 0;
  };
  multisend = 10;
  udp_counters_64bit = false;
}

iperf_reset_test-fresh :
    (s : IperfTest) → has_protocol tcp s.protocols ≡ true → iperf_reset_test s ≡ fresh s
unfolding iperf_reset_test set_protocol
iperf_reset_test-fresh s q = rw q

or_false : (b : Bool) → (b || false) ≡ b
or_false true = refl
or_false false = refl

turned : (b : Bool) → (if b then true else false) ≡ b
turned true = refl
turned false = refl

module _ (double : ℕ → ℕ) where
  -- These are the client's, or the defaults where the client sends none.
  pub record FromClient (c r : IperfTest) : Type 0 where
    pub protocol : r.protocol ≡ c.protocol
    pub omit : r.omit ≡ c.omit
    pub num_streams : r.num_streams ≡ c.num_streams
    pub duration : r.duration ≡ kept c.duration (pos 10)
    pub server_affinity : r.server_affinity ≡ kept_affinity c.server_affinity minus_one
    pub no_delay : r.no_delay ≡ c.no_delay
    pub reverse : r.reverse ≡ c.reverse
    pub sender : r.sender ≡ c.reverse
    pub udp_counters_64bit : r.udp_counters_64bit ≡ c.udp_counters_64bit
    pub rate : r.settings.rate ≡ kept_uint64 double c.settings.rate 0
    pub blksize : r.settings.blksize ≡ kept c.settings.blksize default_tcp_blksize
    pub socket_bufsize : r.settings.socket_bufsize ≡ kept c.settings.socket_bufsize (pos 0)
    pub burst : r.settings.burst ≡ kept c.settings.burst (pos 0)
    pub mss : r.settings.mss ≡ kept c.settings.mss (pos 0)

  -- These are those of the test before, where the client sends none.
  pub record FromBefore (c s r : IperfTest) : Type 0 where
    pub bytes : r.settings.bytes ≡ kept_uint64 double c.settings.bytes s.settings.bytes
    pub blocks : r.settings.blocks ≡ kept_uint64 double c.settings.blocks s.settings.blocks
    pub tos : r.settings.tos ≡ kept c.settings.tos s.settings.tos
    pub flowlabel : r.settings.flowlabel ≡ kept c.settings.flowlabel s.settings.flowlabel
    pub title : r.title ≡ or_else c.title s.title
    pub congestion : r.congestion ≡ or_else c.congestion s.congestion
    pub get_server_output : r.get_server_output ≡ (c.get_server_output || s.get_server_output)

  -- A server that is reset after a test and reads the parameters of the next client, where it
  -- knows TCP and the client's protocol and the client's numbers are values of `int`, has the
  -- protocol and most values from that client or from the defaults, and it sends exactly if the
  -- client asks for the reverse direction. But the two ends by a count, the type of service, the
  -- flow label, the title, the congestion control and the request for output are those of before
  -- where this client does not send them.
  pub get_parameters-iperf_reset_test :
      (c s : IperfTest)
      → IsSendable c
      → has_protocol c.protocol s.protocols ≡ true
      → has_protocol tcp s.protocols ≡ true
      → (r : IperfTest) × (get_parameters (parameters double c) (iperf_reset_test s) ≡ some r)
        × FromClient c r
        × FromBefore c s r
  get_parameters-iperf_reset_test c s h p q =
      let (r, e, t) = get_parameters-parameters double c (fresh s) h p in
      (
        r,
        ap (get_parameters (parameters double c)) (iperf_reset_test-fresh s q) ∙ e,
        record {
          protocol = t.protocol;
          omit = t.omit;
          num_streams = t.num_streams;
          duration = t.duration;
          server_affinity = t.server_affinity;
          no_delay = t.no_delay ∙ or_false c.no_delay;
          reverse = t.reverse ∙ or_false c.reverse;
          sender = t.sender ∙ turned c.reverse;
          udp_counters_64bit = t.udp_counters_64bit ∙ or_false c.udp_counters_64bit;
          rate = t.settings.rate;
          blksize = t.settings.blksize;
          socket_bufsize = t.settings.socket_bufsize;
          burst = t.settings.burst;
          mss = t.settings.mss;
        },
        record {
          bytes = t.settings.bytes;
          blocks = t.settings.blocks;
          tos = t.settings.tos;
          flowlabel = t.settings.flowlabel;
          title = t.title;
          congestion = t.congestion;
          get_server_output = t.get_server_output;
        },
      )
