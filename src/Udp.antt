-- ===== src/Udp.antt =====
-- The data of a UDP test: `iperf_udp_send` and `iperf_udp_recv` of iperf-3.1.3/src/iperf_udp.c, less
-- the jitter, which is a `double`.
pub mod Counting
pub mod Packets
pub mod Sockets
pub mod Leaks
mod Tests
use i_perf_demo_runtime.Common.{
  Bool, List, drop, if◌then◌else◌, leb, length, ltb, suc, take, zero, ℕ, ◌%◌, ◌*◌, ◌++◌, ◌+◌, ◌-◌,
  ◌/◌, ◌^◌,
}
use i_perf_demo_runtime.Common.Int.{ℤ}
use i_perf_demo_runtime.Units.{int_of_unsigned, to_unsigned}
use i_perf_demo_runtime.Net.{
  Incoming, NetResult, Outgoing, count, hard_error, nread, nwrite, soft_error,
}
use i_perf_demo_runtime.Frame.{htonl, ntohl}

-- The fields of `struct iperf_stream` and `struct iperf_stream_result` that the two functions use.
-- `buffer` is as long as the mapping, which is a whole number of pages.
pub record UdpStream : Type 0 where
  pub blksize : ℕ
  pub counters_64bit : Bool
  pub buffer : List ℕ
  pub packet_count : ℤ
  pub cnt_error : ℤ
  pub outoforder_packets : ℤ
  pub bytes_received : ℕ
  pub bytes_received_this_interval : ℕ
  pub bytes_sent : ℕ
  pub bytes_sent_this_interval : ℕ

-- `i + 1` in an `int`, which wraps around.
unfoldable pub incr : ℤ → ℤ
unfolding to_unsigned int_of_unsigned
incr i = int_of_unsigned (to_unsigned i + 1)

abbrev pub add_uint64 : ℕ → ℕ → ℕ
add_uint64 a b = (a + b) % 2 ^ 64

unfoldable pub htobe64 : ℕ → List ℕ
unfolding htonl
htobe64 n = htonl (n / 2 ^ 32) ++ htonl n

unfoldable pub be64toh : List ℕ → ℕ
unfolding ntohl
be64toh bs = ntohl bs * 2 ^ 32 + ntohl (drop 4 bs)

-- What `memcpy` puts at the front of the buffer.
abbrev pub overwrite : List ℕ → List ℕ → List ℕ
overwrite new old = new ++ drop (length new) old

-- The header of a packet: the time and the number of the packet.
unfoldable pub header : Bool → ℕ → ℕ → ℤ → List ℕ
unfolding htonl htobe64 to_unsigned
header counters_64bit sec usec n =
    htonl sec
    ++ htonl usec
    ++ (if counters_64bit then htobe64 (to_unsigned n) else htonl (to_unsigned n))

-- `pcount` of a packet in the buffer.
unfoldable pub packet_number : Bool → List ℕ → ℕ
unfolding be64toh ntohl
packet_number counters_64bit buffer =
    if counters_64bit then be64toh (drop 8 buffer) else ntohl (drop 8 buffer)

-- "Out of order packets": the comparison is one of `uint64_t`.
unfoldable pub count_packet : ℕ → UdpStream → UdpStream
unfolding incr to_unsigned int_of_unsigned
count_packet pcount s =
    let next = to_unsigned (incr s.packet_count) in
    let lost = (pcount - 1 + (2 ^ 64 - to_unsigned s.packet_count)) % 2 ^ 64 in
    if leb next pcount
    then record s {
      cnt_error =
          if ltb next pcount
          then int_of_unsigned ((to_unsigned s.cnt_error + lost) % 2 ^ 64)
          else s.cnt_error;
      packet_count = int_of_unsigned pcount;
    }
    else record s { outoforder_packets = incr s.outoforder_packets }

abbrev pub add_received : ℕ → UdpStream → UdpStream
add_received r s = record s {
  bytes_received = add_uint64 s.bytes_received r;
  bytes_received_this_interval = add_uint64 s.bytes_received_this_interval r;
}

abbrev pub add_sent : ℕ → UdpStream → UdpStream
add_sent r s = record s {
  bytes_sent = add_uint64 s.bytes_sent r;
  bytes_sent_this_interval = add_uint64 s.bytes_sent_this_interval r;
}

-- What a call returns, with the stream after it.
pub record Transfer : Type 0 where
  pub result : NetResult
  pub stream : UdpStream

unfoldable pub received : NetResult → UdpStream → UdpStream
received (count zero) s = s
received (count (suc n)) s =
    count_packet (packet_number s.counters_64bit s.buffer) (add_received (suc n) s)
received soft_error s = s
received hard_error s = s

unfoldable pub iperf_udp_recv : List Incoming → UdpStream → Transfer
iperf_udp_recv incoming s =
    let r = nread s.blksize incoming in
    record {
      result = r.result;
      stream = received r.result (record s { buffer = overwrite r.buffer s.buffer });
    }

unfoldable pub sent : NetResult → UdpStream → UdpStream
sent (count r) s = add_sent r s
sent soft_error s = s
sent hard_error s = s

-- The stream with the next packet in its buffer; `sec` and `usec` are the time.
unfoldable pub next_packet : ℕ → ℕ → UdpStream → UdpStream
next_packet sec usec s =
    let n = incr s.packet_count in
    record s { packet_count = n; buffer = overwrite (header s.counters_64bit sec usec n) s.buffer }

-- The second part is what has gone out on the socket.
unfoldable pub iperf_udp_send : ℕ → ℕ → List Outgoing → UdpStream → Transfer × List ℕ
iperf_udp_send sec usec outgoing s =
    let q = next_packet sec usec s in
    let w = nwrite (take q.blksize q.buffer) outgoing in
    (record { result = w.result; stream = sent w.result q }, w.sent)
