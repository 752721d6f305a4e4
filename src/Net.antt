-- ===== src/Net.antt =====
-- Reading and writing a socket: `Nread`, `Nwrite` and `Nsendfile` of iperf-3.1.3/src/net.c.
-- What the kernel answers to each `read`, `write` and `sendfile` is a list, one entry for a call.
pub mod Reads
pub mod Writes
pub mod Sockets
pub mod Dialling
mod Tests
use Prim.Native.Nat.{min}
use i_perf_demo_runtime.Common.{
  Bool, List, [], drop, false, if◌then◌else◌, leb, length, suc, take, true, zero, ℕ, ◌++◌, ◌-◌,
  ◌==◌, ◌∷◌,
}

-- The values of `errno` that the code tells apart. (EWOULDBLOCK is EAGAIN.)
pub data Errno : Type 0 where
  eintr eagain enobufs enomem other : Errno

-- What the network functions return: a count of bytes, or a negative number.
pub data NetResult : Type 0 where
  count : ℕ → NetResult
  soft_error : NetResult
  hard_error : NetResult

-- `errno == EINTR || errno == EAGAIN || errno == EWOULDBLOCK`
unfoldable pub is_transient : Errno → Bool
is_transient eintr = true
is_transient eagain = true
is_transient _ = false

-- What waits to be read on a socket: bytes, of which one `read` takes as many as it asks for and the
-- rest stays; the end of the stream; or an error. Past the list the stream has ended.
pub data Incoming : Type 0 where
  arrives : List ℕ → Incoming
  ends : Incoming
  fails : Errno → Incoming

pub record Reading : Type 0 where
  pub result : NetResult
  pub buffer : List ℕ
  pub rest : List Incoming

-- The loop of `Nread`: `nleft` of `size` bytes are still wanted, and `got` is in the buffer.
unfoldable pub read_loop : ℕ → ℕ → List ℕ → List Incoming → Reading
unfolding is_transient
read_loop size zero got s = record { result = count size; buffer = got; rest = s }
read_loop size (suc n) got [] = record { result = count (size - suc n); buffer = got; rest = [] }
read_loop size (suc n) got (ends ∷ s) = record {
  result = count (size - suc n);
  buffer = got;
  rest = ends ∷ s;
}
read_loop size (suc n) got (fails e ∷ s) =
    if is_transient e
    then record { result = count (size - suc n); buffer = got; rest = s }
    else record { result = hard_error; buffer = got; rest = s }
read_loop size (suc n) got (arrives bs ∷ s) =
    let more = read_loop size (suc n - length bs) (got ++ bs) s in
    if length bs == 0
    then record { result = count (size - suc n); buffer = got; rest = s }
    else (if leb (length bs) (suc n) then more else record {
      result = count size;
      buffer = got ++ take (suc n) bs;
      rest = arrives (drop (suc n) bs) ∷ s;
    })

unfoldable pub nread : ℕ → List Incoming → Reading
unfolding read_loop
nread size s = read_loop size size [] s

-- What a `write` or `sendfile` answers: it takes so many bytes, or all if fewer are left; or an error.
pub data Outgoing : Type 0 where
  takes : ℕ → Outgoing
  refuses : Errno → Outgoing

pub record Writing : Type 0 where
  pub result : NetResult
  pub sent : List ℕ

abbrev pub before : List ℕ → Writing → Writing
before bs w = record w { sent = bs ++ w.sent }

-- The `switch` on `errno` of `Nwrite`.
unfoldable pub write_error : ℕ → Errno → NetResult
write_error done eintr = count done
write_error done eagain = count done
write_error done enobufs = soft_error
write_error done _ = hard_error

-- The loop of `Nwrite`: the bytes `buf` of `size` are still to be written. With no answer left the
-- kernel takes all of them.
unfoldable pub write_loop : ℕ → List ℕ → List Outgoing → Writing
unfolding write_error
write_loop size [] a = record { result = count size; sent = [] }
write_loop size (b ∷ buf) [] = record { result = count size; sent = b ∷ buf }
write_loop size (b ∷ buf) (refuses e ∷ a) = record {
  result = write_error (size - length (b ∷ buf)) e;
  sent = [];
}
write_loop size (b ∷ buf) (takes k ∷ a) =
    let more = write_loop size (drop k (b ∷ buf)) a in
    if k == 0 then record { result = soft_error; sent = [] } else before (take k (b ∷ buf)) more

unfoldable pub nwrite : List ℕ → List Outgoing → Writing
unfolding write_loop
nwrite buf a = write_loop (length buf) buf a

-- The `switch` on `errno` of `Nsendfile`.
unfoldable pub sendfile_error : ℕ → ℕ → Errno → NetResult
sendfile_error size nleft eintr = if size == nleft then soft_error else count (size - nleft)
sendfile_error size nleft eagain = if size == nleft then soft_error else count (size - nleft)
sendfile_error size nleft enobufs = soft_error
sendfile_error size nleft enomem = soft_error
sendfile_error size nleft other = hard_error

-- The loop of `Nsendfile` on Linux: each call sends from the offset `size - nleft` of the file.
unfoldable pub sendfile_loop : List ℕ → ℕ → ℕ → List Outgoing → Writing
unfolding sendfile_error
sendfile_loop file size zero a = record { result = count size; sent = [] }
sendfile_loop file size (suc n) [] = record {
  result = count size;
  sent = take (suc n) (drop (size - suc n) file);
}
sendfile_loop file size (suc n) (refuses e ∷ a) = record {
  result = sendfile_error size (suc n) e;
  sent = [];
}
sendfile_loop file size (suc n) (takes k ∷ a) =
    let r = min k (suc n) in
    let more = sendfile_loop file size (suc n - r) a in
    if k == 0
    then record { result = soft_error; sent = [] }
    else before (take r (drop (size - suc n) file)) more

-- `fromfd` is the file that backs the stream's buffer.
unfoldable pub nsendfile : List ℕ → ℕ → List Outgoing → Writing
unfolding sendfile_loop
nsendfile file size a = sendfile_loop file size size a
