-- ===== src/Udp/Packets.antt =====
-- Packets from `iperf_udp_send` to `iperf_udp_recv` of iperf_udp.c.
use mathlib.Core.Path.{subst}
use mathlib.Core.List.{append_assoc}
use i_perf_demo_runtime.Udp.Counting.{incr_small}
use i_perf_demo_runtime.Common.{
  Bool, List, [], ap, arith, drop, false, leb, length, length-append, length-drop, length-take,
  refl, suc, take, take-append_long, true, zero, ℕ, ◌++◌, ◌+◌, ◌-◌, ◌<◌, ◌==◌, ◌^◌, ◌∙◌, ◌∷◌, ◌≡◌,
  ◌≤◌,
}
use i_perf_demo_runtime.Common.Int.{pos, ℤ}
use i_perf_demo_runtime.Net.{arrives, count, nread, nwrite, read_loop, write_loop}
use i_perf_demo_runtime.Units.{to_unsigned}
use i_perf_demo_runtime.Frame.{htonl, ntohl}
use i_perf_demo_runtime.Udp.{
  UdpStream, add_received, be64toh, count_packet, header, htobe64, iperf_udp_recv, iperf_udp_send,
  next_packet, overwrite, packet_number, received, sent,
}

ntohl-bytes : (n : ℕ) (rest : List ℕ) → n < 2 ^ 32 → ntohl (htonl n ++ rest) ≡ n
unfolding ntohl htonl
ntohl-bytes n rest h = omega arith

-- The number of a packet is read back from its header, whatever follows it.
packet_number-header :
    (wide : Bool) (sec usec n : ℕ) (rest : List ℕ)
    → n < 2 ^ 31
    → packet_number wide (header wide sec usec (pos n) ++ rest) ≡ n
unfolding packet_number header htonl htobe64 to_unsigned be64toh ntohl
packet_number-header true sec usec n rest h = omega arith
packet_number-header false sec usec n rest h = omega arith

length-header : (wide : Bool) (sec usec : ℕ) (n : ℤ) → length (header wide sec usec n) ≤ 16
unfolding header htonl htobe64
length-header true sec usec n = omega arith
length-header false sec usec n = omega arith

-- One `read` gives the whole of a datagram that is as long as what is asked for.
nread-datagram :
    (bs : List ℕ)
    → 0 < length bs
    → nread (length bs) (arrives bs ∷ [])
      ≡ record { result = count (length bs); buffer = bs; rest = [] }
unfolding nread read_loop
nread-datagram [] h = elim h [ ]
nread-datagram (b ∷ bs) h =
    let fits : leb (suc (length bs)) (suc (length bs)) ≡ true = ground arith in
    let some_bytes : (suc (length bs) == 0) ≡ false = ground arith in
    let none_left : suc (length bs) - suc (length bs) ≡ 0 = omega arith in
    rw (some_bytes, fits, none_left)

nwrite-all : (buf : List ℕ) → nwrite buf [] ≡ record { result = count (length buf); sent = buf }
unfolding nwrite write_loop
nwrite-all [] = refl
nwrite-all (b ∷ buf) = refl

length-overwrite :
    (new old : List ℕ) → length new ≤ length old → length (overwrite new old) ≡ length old
length-overwrite new old h =
    omega (arith, length-append new (drop (length new) old), length-drop (length new) old)

nread-datagram_of :
    (size : ℕ) (bs : List ℕ)
    → length bs ≡ size
    → 0 < size
    → nread size (arrives bs ∷ []) ≡ record { result = count size; buffer = bs; rest = [] }
nread-datagram_of size bs e h =
    subst
      (λ n. 0 < n → nread n (arrives bs ∷ []) ≡ record { result = count n; buffer = bs; rest = [] })
      e (nread-datagram bs) h

-- A packet is as long as the block, and begins with its header.
starts :
    (size : ℕ) (h buffer : List ℕ)
    → length h ≤ size
    → take size (overwrite h buffer) ≡ h ++ take (size - length h) (drop (length h) buffer)
starts size h buffer le = take-append_long size h (drop (length h) buffer) le

length-packet :
    (size : ℕ) (h buffer : List ℕ)
    → length h ≤ length buffer
    → size ≤ length buffer
    → length (take size (overwrite h buffer)) ≡ size
length-packet size h buffer le fits =
    omega (arith, length-take size (overwrite h buffer), length-overwrite h buffer le)

packet_number-packet :
    (size sec usec n : ℕ) (wide : Bool) (mine theirs : List ℕ)
    → n < 2 ^ 31
    → 16 ≤ size
    → packet_number wide
        (overwrite (take size (overwrite (header wide sec usec (pos n)) mine)) theirs)
      ≡ n
packet_number-packet size sec usec n wide mine theirs h b =
    let hd : List ℕ = header wide sec usec (pos n) in
    let packet : List ℕ = take size (overwrite hd mine) in
    let back : List ℕ = drop (length packet) theirs in
    let body : List ℕ = take (size - length hd) (drop (length hd) mine) in
    let front : packet ≡ hd ++ body =
      starts size hd mine (omega (arith, length-header wide sec usec (pos n))) in
    ap (packet_number wide) (ap (λ p. p ++ back) front ∙ append_assoc hd body back)
    ∙ packet_number-header wide sec usec n (body ++ back) h

received-count :
    (k : ℕ) (s : UdpStream)
    → 0 < k
    → received (count k) s
      ≡ count_packet (packet_number s.counters_64bit s.buffer) (add_received k s)
unfolding received
received-count zero s h = elim h [ ]
received-count (suc k) s h = refl

-- A packet that `iperf_udp_send` has put on the network and that comes in whole gives the receiver
-- as many bytes as the sender has sent, and is counted under the sender's number. Both use the
-- same block size, of at least 16 bytes and not above the sender's buffer, and the same width of
-- counter, and the number is below 2 ^ 31.
pub iperf_udp_recv-iperf_udp_send :
    (sec usec n : ℕ) (s r : UdpStream)
    → s.packet_count ≡ pos n
    → n < 2 ^ 31 - 1
    → 16 ≤ s.blksize
    → s.blksize ≤ length s.buffer
    → r.blksize ≡ s.blksize
    → r.counters_64bit ≡ s.counters_64bit
    → let (t, packet) = iperf_udp_send sec usec [] s in
      let u = iperf_udp_recv (arrives packet ∷ []) r in
      (t.result ≡ count s.blksize)
      × (u.result ≡ count s.blksize)
      × (t.stream.packet_count ≡ pos (n + 1))
      × (u.stream
          ≡ count_packet
              (n + 1)
              (add_received s.blksize (record r { buffer = overwrite packet r.buffer })))
unfolding iperf_udp_send iperf_udp_recv
iperf_udp_recv-iperf_udp_send sec usec n s r c b size fits same wide =
    let h : List ℕ = header s.counters_64bit sec usec (pos (n + 1)) in
    let lh : length h ≤ 16 = length-header s.counters_64bit sec usec (pos (n + 1)) in
    let packet : List ℕ = take s.blksize (overwrite h s.buffer) in
    let whole : length packet ≡ s.blksize = length-packet s.blksize h s.buffer (omega arith) fits in
    let next : next_packet sec usec s
        ≡ record s { packet_count = pos (n + 1); buffer = overwrite h s.buffer } =
      unfold next_packet in rw (c, incr_small n b) in
    let out : nwrite packet [] ≡ record { result = count s.blksize; sent = packet } =
      nwrite-all packet ∙ rw whole in
    let in_ : nread r.blksize (arrives packet ∷ [])
        ≡ record { result = count s.blksize; buffer = packet; rest = [] } =
      rw same (nread-datagram_of s.blksize packet whole (omega arith)) in
    let number : packet_number r.counters_64bit (overwrite packet r.buffer) ≡ n + 1 = rw wide (
      packet_number-packet s.blksize sec usec (n + 1) s.counters_64bit s.buffer r.buffer
        (omega arith) size) in
    let got : UdpStream = record r { buffer = overwrite packet r.buffer } in
    rw (next, out, in_)
      (
        refl,
        refl,
        (unfold sent in refl),
        received-count s.blksize got (omega arith)
            ∙ ap (λ m. count_packet m (add_received s.blksize got)) number,
      )
