-- ===== src/Tcp/Data.antt =====
-- The data of a TCP test: `iperf_tcp_recv` and `iperf_tcp_send` of iperf-3.1.3/src/iperf_tcp.c.
use i_perf_demo_runtime.Common.{
  Bool, List, ap, arith, drop, false, if◌then◌else◌, length, length-take, refl, sym, take,
  take-length, take-length_append, true, ℕ, ◌%◌, ◌+◌, ◌^◌, ◌∙◌, ◌≡◌, ◌≤◌,
}
use i_perf_demo_runtime.Net.{
  Incoming, NetResult, Outgoing, Writing, count, hard_error, nread, nsendfile, nwrite, soft_error,
}
use i_perf_demo_runtime.Net.Reads.{AreChunks, deliver, flat, nread-deliver}
use i_perf_demo_runtime.Net.Writes.{Prefix, Says, nsendfile-Prefix, nwrite-Prefix}
use i_perf_demo_runtime.Udp.{add_uint64, overwrite, received, sent}
use mathlib.Core.Path.{subst}

-- What the two functions use of `struct iperf_stream`, and `zerocopy` of the test. `file_content` is
-- the content of the file behind `buffer_fd`.
pub record TcpStream : Type 0 where
  pub blksize : ℕ
  pub zerocopy : Bool
  pub buffer : List ℕ
  pub file_content : List ℕ
  pub bytes_received : ℕ
  pub bytes_received_this_interval : ℕ
  pub bytes_sent : ℕ
  pub bytes_sent_this_interval : ℕ

abbrev pub tcp_received : NetResult → TcpStream → TcpStream
tcp_received (count n) s = record s {
  bytes_received = add_uint64 s.bytes_received n;
  bytes_received_this_interval = add_uint64 s.bytes_received_this_interval n;
}
tcp_received soft_error s = s
tcp_received hard_error s = s

unfoldable pub iperf_tcp_recv : List Incoming → TcpStream → NetResult × TcpStream
iperf_tcp_recv incoming s =
    let r = nread s.blksize incoming in
    (r.result, tcp_received r.result (record s { buffer = overwrite r.buffer s.buffer }))

abbrev pub tcp_sent : NetResult → TcpStream → TcpStream
tcp_sent (count n) s = record s {
  bytes_sent = add_uint64 s.bytes_sent n;
  bytes_sent_this_interval = add_uint64 s.bytes_sent_this_interval n;
}
tcp_sent soft_error s = s
tcp_sent hard_error s = s

-- What `Nsendfile` or `Nwrite` does.
unfoldable pub tcp_write : List Outgoing → TcpStream → Writing
tcp_write outgoing s =
    if s.zerocopy
    then nsendfile s.file_content s.blksize outgoing
    else nwrite (take s.blksize s.buffer) outgoing

-- The second part is what has gone out on the socket.
unfoldable pub iperf_tcp_send : List Outgoing → TcpStream → (NetResult × TcpStream) × List ℕ
unfolding tcp_write
iperf_tcp_send outgoing s =
    let w = tcp_write outgoing s in ((w.result, tcp_sent w.result s), w.sent)

-- What a block is taken from.
abbrev pub block_source : TcpStream → List ℕ
block_source s = if s.zerocopy then s.file_content else take s.blksize s.buffer

tcp_write-Prefix :
    (a : List Outgoing) (s : TcpStream)
    → s.blksize ≤ length s.file_content
    → Prefix 0 (block_source s) (tcp_write a s)
unfolding tcp_write
tcp_write-Prefix a s f =
    elim s.zerocopy
      as (λ z.
        Prefix 0 (if z then s.file_content else take s.blksize s.buffer) (
          if z then nsendfile s.file_content s.blksize a else nwrite (take s.blksize s.buffer) a)) [
            | true ↦ nsendfile-Prefix s.file_content s.blksize a f
            | false ↦ nwrite-Prefix (take s.blksize s.buffer) a
          ]

-- A count that is returned is how many bytes of the block have gone out.
Prefix-result :
    (buf : List ℕ) (w : Writing) (n : ℕ)
    → Prefix 0 buf w
    → w.result ≡ count n
    → (w.sent ≡ take n buf) × (n ≤ length buf)
Prefix-result buf w n (k, sent, le, says) e =
    let same : n ≡ 0 + k = subst (λ q. Says q (0 + k)) e says in
    (sent ∙ ap (λ m. take m buf) (omega arith), omega arith)

recv_count :
    (incoming : List Incoming) (r : TcpStream) (n : ℕ) (block : List ℕ)
    → r.blksize ≡ n
    → (nread n incoming).result ≡ count n
    → (nread n incoming).buffer ≡ block
    → iperf_tcp_recv incoming r
      ≡ (count n, tcp_received (count n) (record r { buffer = overwrite block r.buffer }))
unfolding iperf_tcp_recv
recv_count incoming r n block size result buffer =
    let result' : (nread r.blksize incoming).result ≡ count n =
      subst (λ m. (nread m incoming).result ≡ count n) (sym size) result in
    let buffer' : (nread r.blksize incoming).buffer ≡ block =
      subst (λ m. (nread m incoming).buffer ≡ block) (sym size) buffer in
    rw (result', buffer') refl

take-overwrite : (new old : List ℕ) (n : ℕ) → length new ≡ n → take n (overwrite new old) ≡ new
take-overwrite new old n e =
    ap (λ m. take m (overwrite new old)) (sym e) ∙ take-length_append new (drop (length new) old)

-- However many bytes of a block `iperf_tcp_send` returns, with or without `sendfile`, these are a
-- beginning of the block, and it has added them to its two counts, modulo 2 ^ 64. If the network brings
-- these bytes in any chunks to a receiver whose block is as large, `iperf_tcp_recv` returns as many,
-- adds them to its two counts, and has them at the beginning of its buffer.
pub iperf_tcp_recv-iperf_tcp_send :
    (a : List Outgoing) (cs : List (List ℕ)) (s r : TcpStream) (n : ℕ)
    → s.blksize ≤ length s.file_content
    → AreChunks cs
    → (iperf_tcp_send a s).0.0 ≡ count n
    → flat cs ≡ (iperf_tcp_send a s).1
    → r.blksize ≡ n
    → let sent = (iperf_tcp_send a s).0.1 in
      let (result, received) = iperf_tcp_recv (deliver cs) r in
      (sent.bytes_sent ≡ (s.bytes_sent + n) % 2 ^ 64)
      × (sent.bytes_sent_this_interval ≡ (s.bytes_sent_this_interval + n) % 2 ^ 64)
      × (result ≡ count n)
      × (received.bytes_received ≡ (r.bytes_received + n) % 2 ^ 64)
      × (received.bytes_received_this_interval ≡ (r.bytes_received_this_interval + n) % 2 ^ 64)
      × (take n received.buffer ≡ take n (block_source s))
unfolding iperf_tcp_send
iperf_tcp_recv-iperf_tcp_send a cs s r n f ac e out size =
    let (sent, le) = Prefix-result (block_source s) (tcp_write a s) n (tcp_write-Prefix a s f) e in
    let block : flat cs ≡ take n (block_source s) = out ∙ sent in
    let len : length (flat cs) ≡ n =
      omega (arith, ap length block, length-take n (block_source s), le) in
    let (result, buffer, _) = nread-deliver n cs ac (omega (arith, len)) in
    let whole : take n (flat cs) ≡ take n (block_source s) =
      ap (λ m. take m (flat cs)) (sym len) ∙ take-length (flat cs) ∙ block in
    let after =
      recv_count (deliver cs) r n (take n (block_source s)) size result (buffer ∙ whole) in
    let counts = ap (λ q. tcp_sent q s) e in
    (
      ap (λ q. q.bytes_sent) counts,
      ap (λ q. q.bytes_sent_this_interval) counts,
      ap (λ q. q.0) after,
      ap (λ q. q.1.bytes_received) after,
      ap (λ q. q.1.bytes_received_this_interval) after,
      ap (λ q. take n q.1.buffer) after
          ∙ take-overwrite (take n (block_source s)) r.buffer n
              (omega (arith, length-take n (block_source s), le)),
    )
