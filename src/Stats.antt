-- ===== src/Stats.antt =====
-- The statistics of a test at its intervals: `iperf_stats_callback`, `add_to_interval_list` and
-- `iperf_reset_stats` of iperf-3.1.3/src/iperf_api.c, and the procs of the omit timers of
-- iperf_client_api.c and iperf_server_api.c. The jitter and the length of an interval, which are of
-- type `double`, are left out, and so is what `iperf_reset_stats` asks TCP.
pub mod Life
pub mod Balance
pub mod Totals
mod Tests
use i_perf_demo_runtime.Common.{
  Bool, List, Option, [], if◌then◌else◌, none, some, ℕ, ◌&&◌, ◌+◌, ◌-◌, ◌^◌, ◌||◌, ◌∷◌,
}
use i_perf_demo_runtime.Common.Int.{is_zero, ltb_ℤ, pos, ℤ}
use i_perf_demo_runtime.Units.{int_of_unsigned, to_unsigned}
use i_perf_demo_runtime.Timer.{Timeval}

-- `int` arithmetic, which wraps around.
unfoldable pub sub_int : ℤ → ℤ → ℤ
unfolding to_unsigned int_of_unsigned
sub_int a b = int_of_unsigned (to_unsigned a + (2 ^ 64 - to_unsigned b))

unfoldable pub add_int : ℤ → ℤ → ℤ
unfolding to_unsigned int_of_unsigned
add_int a b = int_of_unsigned (to_unsigned a + to_unsigned b)

-- What the kernel says of a TCP socket, as far as it is used.
pub record TcpInfo : Type 0 where
  pub total_retransmits : ℤ
  pub snd_cwnd : ℤ
  pub rtt : ℤ

-- The packets of a UDP interval, with the counts of the stream at its end; or of a TCP interval.
pub record Packets : Type 0 where
  pub interval_packet_count : ℤ
  pub interval_outoforder_packets : ℤ
  pub interval_cnt_error : ℤ
  pub packet_count : ℤ
  pub outoforder_packets : ℤ
  pub cnt_error : ℤ

pub data Detail : Type 0 where
  packets : Packets → Detail
  retransmits : ℤ → TcpInfo → Detail
  no_detail : Detail

-- `struct iperf_interval_results`
pub record Interval : Type 0 where
  pub omitted : Bool
  pub bytes_transferred : ℕ
  pub interval_start_time : Timeval
  pub interval_end_time : Timeval
  pub detail : Detail

-- The fields of `struct iperf_stream` and `struct iperf_stream_result` that count; the last interval
-- comes first.
pub record StatsStream : Type 0 where
  pub packet_count : ℤ
  pub outoforder_packets : ℤ
  pub cnt_error : ℤ
  pub omitted_packet_count : ℤ
  pub omitted_outoforder_packets : ℤ
  pub omitted_cnt_error : ℤ
  pub bytes_sent : ℕ
  pub bytes_received : ℕ
  pub bytes_sent_this_interval : ℕ
  pub bytes_received_this_interval : ℕ
  pub bytes_sent_omit : ℕ
  pub stream_prev_total_retrans : ℤ
  pub stream_retrans : ℤ
  pub stream_max_snd_cwnd : ℤ
  pub stream_max_rtt : ℤ
  pub stream_min_rtt : ℤ
  pub stream_sum_rtt : ℤ
  pub stream_count_rtt : ℤ
  pub start_time : Timeval
  pub end_time : Timeval
  pub interval_results : List Interval

-- What of the test the callback looks at; `counted` is `sender_has_retransmits`.
pub record Gathering : Type 0 where
  pub omitting : Bool
  pub sender : Bool
  pub is_tcp : Bool
  pub counted : Bool

unfoldable pub add_to_interval_list : Interval → StatsStream → StatsStream
add_to_interval_list new s = record s { interval_results = new ∷ s.interval_results }

-- `temp.interval_start_time`
unfoldable pub interval_start : List Interval → StatsStream → Timeval
interval_start [] s = s.start_time
interval_start (_ ∷ _) s = s.end_time

-- The last interval of UDP; a TCP one has no counts of packets.
abbrev pub previous : List Interval → Option Packets
previous [] = none
previous (i ∷ _) = elim i.detail [ packets p ↦ some p | retransmits _ _ ↦ none | no_detail ↦ none ]

unfoldable pub packet_detail : Option Packets → StatsStream → Packets
packet_detail none s = record {
  interval_packet_count = s.packet_count;
  interval_outoforder_packets = s.outoforder_packets;
  interval_cnt_error = s.cnt_error;
  packet_count = s.packet_count;
  outoforder_packets = s.outoforder_packets;
  cnt_error = s.cnt_error;
}
packet_detail (some p) s = record {
  interval_packet_count = sub_int s.packet_count p.packet_count;
  interval_outoforder_packets = sub_int s.outoforder_packets p.outoforder_packets;
  interval_cnt_error = sub_int s.cnt_error p.cnt_error;
  packet_count = s.packet_count;
  outoforder_packets = s.outoforder_packets;
  cnt_error = s.cnt_error;
}

-- A stream that sends TCP, with what the kernel says of it.
unfoldable pub count_tcp : TcpInfo → StatsStream → StatsStream
count_tcp i s =
    let retrans = sub_int i.total_retransmits s.stream_prev_total_retrans in
    record s {
      stream_retrans = add_int s.stream_retrans retrans;
      stream_prev_total_retrans = i.total_retransmits;
      stream_max_snd_cwnd =
          if ltb_ℤ s.stream_max_snd_cwnd i.snd_cwnd then i.snd_cwnd else s.stream_max_snd_cwnd;
      stream_max_rtt = if ltb_ℤ s.stream_max_rtt i.rtt then i.rtt else s.stream_max_rtt;
      stream_min_rtt =
          if is_zero s.stream_min_rtt || ltb_ℤ i.rtt s.stream_min_rtt
          then i.rtt
          else s.stream_min_rtt;
      stream_sum_rtt = add_int s.stream_sum_rtt i.rtt;
      stream_count_rtt = add_int s.stream_count_rtt (pos 1);
    }

-- `info` is there where `has_tcpinfo` says so.
unfoldable pub tcp_part : Gathering → Option TcpInfo → StatsStream → Detail × StatsStream
tcp_part g none s = (no_detail, s)
tcp_part g (some i) s =
    if g.sender && g.counted
    then (retransmits (sub_int i.total_retransmits s.stream_prev_total_retrans) i, count_tcp i s)
    else (no_detail, s)

unfoldable pub detail_of : Gathering → Option TcpInfo → StatsStream → Detail × StatsStream
detail_of g info s =
    if g.is_tcp
    then tcp_part g info s
    else (packets (packet_detail (previous s.interval_results) s), s)

-- The body of the loop over the streams; `now` is what `gettimeofday` gives.
unfoldable pub gather : Gathering → Timeval → Option TcpInfo → StatsStream → StatsStream
gather g now info s =
    let (detail, s') = detail_of g info s in
    let interval : Interval = record {
      omitted = g.omitting;
      bytes_transferred =
          if g.sender then s.bytes_sent_this_interval else s.bytes_received_this_interval;
      interval_start_time = interval_start s.interval_results s;
      interval_end_time = now;
      detail = detail;
    } in
    let added : StatsStream = add_to_interval_list interval (record s' { end_time = now }) in
    record added { bytes_sent_this_interval = 0; bytes_received_this_interval = 0 }

-- Every stream comes with what the clock and the kernel say for it.
unfoldable pub iperf_stats_callback :
    Gathering → List ((Timeval × Option TcpInfo) × StatsStream) → List StatsStream
iperf_stats_callback g [] = []
iperf_stats_callback g (((now, info), s) ∷ rest) = gather g now info s ∷ iperf_stats_callback g rest

-- The body of the loop of `iperf_reset_stats`.
unfoldable pub reset_stream : Timeval → StatsStream → StatsStream
reset_stream now s = record s {
  omitted_packet_count = s.packet_count;
  omitted_cnt_error = s.cnt_error;
  omitted_outoforder_packets = s.outoforder_packets;
  bytes_sent_omit = s.bytes_sent;
  bytes_received = 0;
  bytes_sent_this_interval = 0;
  bytes_received_this_interval = 0;
  stream_retrans = pos 0;
  start_time = now;
}

unfoldable pub iperf_reset_stats : Timeval → List StatsStream → List StatsStream
iperf_reset_stats now [] = []
iperf_reset_stats now (s ∷ rest) = reset_stream now s ∷ iperf_reset_stats now rest
