-- ===== src/Results.antt =====
-- The results of the streams, which the two sides send each other at the end: `iperf_add_stream`, and
-- what `send_results` and `get_results` of iperf-3.1.3/src/iperf_api.c do with the streams. `double`
-- is what the conversion of a `uint64_t` to a `double` and back leaves of a number. The jitter is only
-- handed on.
pub mod Ids
pub mod Exchange
mod Tests
use i_perf_demo_runtime.Common.{
  Bool, List, Option, [], false, if◌then◌else◌, length, none, some, true, ℕ, ◌%◌, ◌&&◌, ◌++◌, ◌+◌,
  ◌-◌, ◌==◌, ◌^◌, ◌∷◌,
}
use i_perf_demo_runtime.Common.Int.{ℤ}
use i_perf_demo_runtime.Config.{minus_one}

pub record ResultStream {ℓ} (Jitter : Type ℓ) : Type ℓ where
  pub id : ℕ
  pub jitter : Jitter
  pub cnt_error : ℤ
  pub packet_count : ℤ
  pub bytes_sent : ℕ
  pub bytes_sent_omit : ℕ
  pub bytes_received : ℕ
  pub stream_retrans : ℤ

-- An object of the array "streams".
pub record Report {ℓ} (Jitter : Type ℓ) : Type ℓ where
  pub id : ℕ
  pub bytes : ℕ
  pub retransmits : ℤ
  pub jitter : Jitter
  pub errors : ℤ
  pub packets : ℤ

module _ {ℓ} {Jitter : Type ℓ} where
  -- The number of a stream behind others: the count starts at 2, and goes up by one for each of them.
  unfoldable pub new_id : List (ResultStream Jitter) → ℕ
  new_id [] = 1
  new_id (s ∷ rest) = 2 + length (s ∷ rest)

  unfoldable pub iperf_add_stream :
      List (ResultStream Jitter) → ResultStream Jitter → List (ResultStream Jitter)
  iperf_add_stream streams s = streams ++ record s { id = new_id streams } ∷ []

  -- What `send_results` reports of a stream. `counted` is `sender_has_retransmits`.
  unfoldable pub report_of : (ℕ → ℕ) → Bool → Bool → ResultStream Jitter → Report Jitter
  report_of double sender counted s = record {
    id = s.id;
    bytes = double (
        if sender
        then (s.bytes_sent + (2 ^ 64 - s.bytes_sent_omit)) % 2 ^ 64
        else s.bytes_received);
    retransmits = if sender && counted then s.stream_retrans else minus_one;
    jitter = s.jitter;
    errors = s.cnt_error;
    packets = s.packet_count;
  }

  -- What `get_results` takes over for a stream: a sender the counts of the receiver, and the other way
  -- round.
  unfoldable pub take_over : Bool → Report Jitter → ResultStream Jitter → ResultStream Jitter
  take_over sender r s =
      if sender
      then record s {
        jitter = r.jitter;
        cnt_error = r.errors;
        packet_count = r.packets;
        bytes_received = r.bytes;
      }
      else record s { bytes_sent = r.bytes; stream_retrans = r.retransmits }

  -- The first stream with the number of the report, if there is one, takes it over.
  unfoldable pub apply_report :
      Bool → Report Jitter → List (ResultStream Jitter) → List (ResultStream Jitter) × Bool
  unfolding take_over
  apply_report sender r [] = ([], false)
  apply_report sender r (s ∷ rest) =
      let (more, found) = apply_report sender r rest in
      if s.id == r.id then (take_over sender r s ∷ rest, true) else (s ∷ more, found)

  -- The loop over the array. An item of which a field is missing is `none`. A report without a stream
  -- (IESTREAMID) or an incomplete one (IERECVRESULTS) makes the result -1, and the loop goes on.
  unfoldable pub get_streams :
      Bool
      → List (Option (Report Jitter))
      → List (ResultStream Jitter)
      → List (ResultStream Jitter) × Bool
  unfolding apply_report
  get_streams sender [] streams = (streams, true)
  get_streams sender (none ∷ items) streams = ((get_streams sender items streams).0, false)
  get_streams sender (some r ∷ items) streams =
      let applied = apply_report sender r streams in
      let (after, fine) = get_streams sender items applied.0 in (after, applied.1 && fine)
