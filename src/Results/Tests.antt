-- ===== src/Results/Tests.antt =====
-- Examples for the results of iperf_api.c: a UDP sender with two streams, and its receiver.
use i_perf_demo_runtime.Common.{List, [], arith, false, refl, true, ℕ, ◌∷◌, ◌≡◌}
use i_perf_demo_runtime.Common.Int.{pos}
use i_perf_demo_runtime.Results.{ResultStream, get_streams, iperf_add_stream, report_of}
use i_perf_demo_runtime.Results.Ids.{AreNumbered, iperf_add_stream-AreNumbered}
use i_perf_demo_runtime.Results.Exchange.{AllTakeOver, get_streams-reports, reports}

abbrev stream : ResultStream ℕ
stream = record {
  id = 0;
  jitter = 0;
  cnt_error = pos 0;
  packet_count = pos 100;
  bytes_sent = 146000;
  bytes_sent_omit = 0;
  bytes_received = 0;
  stream_retrans = pos 0;
}

one_stream-AreNumbered : AreNumbered (record stream { id = 1 } ∷ [])
one_stream-AreNumbered = record { distinct = (tt, tt); small = (omega arith, tt) }

iperf_add_stream-AreNumbered_example :
    AreNumbered (iperf_add_stream (record stream { id = 1 } ∷ []) stream)
iperf_add_stream-AreNumbered_example =
    iperf_add_stream-AreNumbered (record stream { id = 1 } ∷ []) stream one_stream-AreNumbered

abbrev two_sent : List (ResultStream ℕ)
two_sent = record stream { id = 1 } ∷ record stream { id = 3 } ∷ []

abbrev two_received : List (ResultStream ℕ)
two_received =
    record stream { id = 1; cnt_error = pos 4; bytes_received = 140160 }
    ∷ record stream { id = 3; bytes_received = 146000 }
    ∷ []

abbrev exact : ℕ → ℕ
exact n = n

get_streams-reports_example :
    let r = get_streams true (reports exact true false two_received) two_sent in
    (r.1 ≡ true) × AllTakeOver exact true false two_sent two_received r.0
get_streams-reports_example =
    get_streams-reports exact true false two_sent two_received (refl, (refl, tt))
      ((refl, tt), (tt, tt))

two_merged_runs : get_streams true (reports exact true false two_received) two_sent ≡ (
  record stream { id = 1; cnt_error = pos 4; bytes_received = 140160 }
      ∷ record stream { id = 3; bytes_received = 146000 }
      ∷ [],
  true,
)
unfolding get_streams report_of
two_merged_runs = refl
