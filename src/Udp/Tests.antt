-- ===== src/Udp/Tests.antt =====
-- Examples for the packets of iperf_udp.c.
use i_perf_demo_runtime.Common.{List, [], arith, false, length, refl, ℕ, ◌+◌, ◌∷◌, ◌≡◌}
use i_perf_demo_runtime.Common.Int.{pos}
use i_perf_demo_runtime.Net.{arrives, count}
use i_perf_demo_runtime.Udp.{
  UdpStream, add_received, count_packet, iperf_udp_recv, iperf_udp_send, overwrite,
}
use i_perf_demo_runtime.Udp.Counting.{count_packets, count_packets-balance, highest}
use i_perf_demo_runtime.Udp.Packets.{iperf_udp_recv-iperf_udp_send}

abbrev fresh : UdpStream
fresh = record {
  blksize = 17;
  counters_64bit = false;
  buffer = 7 ∷ 7 ∷ 7 ∷ 7 ∷ 7 ∷ 7 ∷ 7 ∷ 7 ∷ 7 ∷ 7 ∷ 7 ∷ 7 ∷ 7 ∷ 7 ∷ 7 ∷ 7 ∷ 7 ∷ [];
  packet_count = pos 0;
  cnt_error = pos 0;
  outoforder_packets = pos 0;
  bytes_received = 0;
  bytes_received_this_interval = 0;
  bytes_sent = 0;
  bytes_sent_this_interval = 0;
}

-- Packets 2 and 4 are late, and 6 is lost.
abbrev numbers : List ℕ
numbers = 1 ∷ 3 ∷ 2 ∷ 5 ∷ 4 ∷ 7 ∷ []

counts_run :
    ((count_packets numbers fresh).packet_count ≡ pos 7)
    × ((count_packets numbers fresh).cnt_error ≡ pos 3)
    × ((count_packets numbers fresh).outoforder_packets ≡ pos 2)
unfolding count_packets
counts_run = (refl, refl, refl)

count_packets-balance_example :
    let r = count_packets numbers fresh in
    (lost : ℕ) × (late : ℕ) × (r.packet_count ≡ pos (highest 0 numbers))
    × (r.cnt_error ≡ pos lost)
    × (r.outoforder_packets ≡ pos late)
    × (lost + length numbers ≡ highest 0 numbers + late)
count_packets-balance_example =
    count_packets-balance numbers fresh
      (omega arith, (omega arith, (omega arith, (omega arith, (omega arith, (omega arith, tt))))))
      (omega arith) refl refl refl

iperf_udp_recv-iperf_udp_send_example :
    let (t, packet) = iperf_udp_send 100 200 [] fresh in
    let u = iperf_udp_recv (arrives packet ∷ []) fresh in
    (t.result ≡ count 17)
    × (u.result ≡ count 17)
    × (t.stream.packet_count ≡ pos 1)
    × (u.stream
        ≡ count_packet 1
            (add_received 17 (record fresh { buffer = overwrite packet fresh.buffer })))
iperf_udp_recv-iperf_udp_send_example =
    iperf_udp_recv-iperf_udp_send 100 200 0 fresh fresh refl (omega arith) (omega arith)
      (omega arith) refl refl
