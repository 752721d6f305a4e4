-- ===== src/Stats/Life.antt =====
-- What happens to a stream of iperf-3.1.3/src/iperf_api.c in a test, and how its bytes balance.
use i_perf_demo_runtime.Common.{
  Bool, List, Option, [], false, if◌then◌else◌, true, ℕ, ◌%◌, ◌+◌, ◌-◌, ◌<◌, ◌^◌, ◌∷◌, ◌≡◌,
}
use i_perf_demo_runtime.Udp.{add_uint64}
use i_perf_demo_runtime.Timer.{Timeval}
use i_perf_demo_runtime.Stats.{Gathering, Interval, StatsStream, TcpInfo, gather, reset_stream}

-- What happens to a stream: bytes are sent or received, the statistics are gathered, and the omit timer
-- fires.
pub data Happening : Type 0 where
  sends receives : ℕ → Happening
  gathers : Timeval → Option TcpInfo → Happening
  omit_ends : Timeval → Happening

pub record Life : Type 0 where
  pub gathering : Gathering
  pub stream : StatsStream

abbrev pub add_bytes_sent : ℕ → StatsStream → StatsStream
add_bytes_sent n s = record s {
  bytes_sent = add_uint64 s.bytes_sent n;
  bytes_sent_this_interval = add_uint64 s.bytes_sent_this_interval n;
}

abbrev pub add_bytes_received : ℕ → StatsStream → StatsStream
add_bytes_received n s = record s {
  bytes_received = add_uint64 s.bytes_received n;
  bytes_received_this_interval = add_uint64 s.bytes_received_this_interval n;
}

-- The proc of the omit timer, `client_omit_timer_proc` or `server_omit_timer_proc`, less the timers,
-- which it resets.
unfoldable pub omit_timer_proc : Timeval → Life → Life
omit_timer_proc now l = record {
  gathering = record l.gathering { omitting = false };
  stream = reset_stream now l.stream;
}

-- The timer fires once, while the test omits.
unfoldable pub happen : Happening → Life → Life
happen (sends n) l = record l { stream = add_bytes_sent n l.stream }
happen (receives n) l = record l { stream = add_bytes_received n l.stream }
happen (gathers now info) l = record l { stream = gather l.gathering now info l.stream }
happen (omit_ends now) l = if l.gathering.omitting then omit_timer_proc now l else l

unfoldable pub happen_all : List Happening → Life → Life
happen_all [] l = l
happen_all (h ∷ hs) l = happen_all hs (happen h l)

-- The bytes of the intervals that are not omitted.
abbrev pub counted_bytes : List Interval → ℕ
counted_bytes [] = 0
counted_bytes (i ∷ rest) =
    let more = counted_bytes rest in if i.omitted then more else i.bytes_transferred + more

-- What `send_results` reports as the bytes of the stream.
abbrev pub reported : Bool → StatsStream → ℕ
reported true s = (s.bytes_sent + (2 ^ 64 - s.bytes_sent_omit)) % 2 ^ 64
reported false s = s.bytes_received

abbrev pub pending : Bool → StatsStream → ℕ
pending true s = s.bytes_sent_this_interval
pending false s = s.bytes_received_this_interval

-- While the test omits, nothing counts; afterwards the intervals and what is pending make the total.
abbrev pub Adds : Bool → Bool → StatsStream → Type 0
Adds true sender s = counted_bytes s.interval_results ≡ 0
Adds false sender s =
    (counted_bytes s.interval_results + pending sender s) % 2 ^ 64 ≡ reported sender s

pub record Balances (l : Life) : Type 0 where
  pub adds : Adds l.gathering.omitting l.gathering.sender l.stream
  pub sent : l.stream.bytes_sent < 2 ^ 64
  pub omit : l.stream.bytes_sent_omit < 2 ^ 64
  pub received : l.stream.bytes_received < 2 ^ 64
