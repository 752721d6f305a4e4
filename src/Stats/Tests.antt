-- ===== src/Stats/Tests.antt =====
-- The statistics of iperf_api.c on a short test.
use i_perf_demo_runtime.Common.{List, [], none, refl, true, ℕ, ◌%◌, ◌^◌, ◌∷◌, ◌≡◌}
use i_perf_demo_runtime.Common.Int.{pos}
use i_perf_demo_runtime.Timer.{Timeval}
use i_perf_demo_runtime.Stats.{
  StatsStream, add_to_interval_list, detail_of, gather, reset_stream, tcp_part,
}
use i_perf_demo_runtime.Stats.Life.{
  Happening, Life, counted_bytes, gathers, happen, happen_all, omit_ends, omit_timer_proc, reported,
  sends,
}
use i_perf_demo_runtime.Stats.Totals.{iperf_stats_callback-total}

abbrev second : ℕ → Timeval
second n = record { tv_sec = n; tv_usec = 0 }

abbrev new_stream : StatsStream
new_stream = record {
  packet_count = pos 0;
  outoforder_packets = pos 0;
  cnt_error = pos 0;
  omitted_packet_count = pos 0;
  omitted_outoforder_packets = pos 0;
  omitted_cnt_error = pos 0;
  bytes_sent = 0;
  bytes_received = 0;
  bytes_sent_this_interval = 0;
  bytes_received_this_interval = 0;
  bytes_sent_omit = 0;
  stream_prev_total_retrans = pos 0;
  stream_retrans = pos 0;
  stream_max_snd_cwnd = pos 0;
  stream_max_rtt = pos 0;
  stream_min_rtt = pos 0;
  stream_sum_rtt = pos 0;
  stream_count_rtt = pos 0;
  start_time = second 0;
  end_time = second 0;
  interval_results = [];
}

abbrev omitting_life : Life
omitting_life = record {
  gathering = record { omitting = true; sender = true; is_tcp = true; counted = true };
  stream = new_stream;
}

-- 100 bytes in the omitted second, of which 40 before its interval, and then 30 and 20.
abbrev short_test : List Happening
short_test =
    sends 40
    ∷ gathers (second 1) none
    ∷ sends 60
    ∷ omit_ends (second 1)
    ∷ sends 30
    ∷ gathers (second 2) none
    ∷ sends 20
    ∷ []

short_test_total :
    counted_bytes
      (happen
        (gathers (second 3) none)
        (happen_all short_test omitting_life)).stream.interval_results
    ≡ 50
unfolding happen_all gather detail_of tcp_part add_to_interval_list omit_timer_proc reset_stream
    happen
short_test_total = refl

iperf_stats_callback-total_example :
    counted_bytes
        (happen
          (gathers (second 3) none)
          (happen_all short_test omitting_life)).stream.interval_results
      % 2 ^ 64
    ≡ reported
        (happen_all short_test omitting_life).gathering.sender
        (happen (gathers (second 3) none) (happen_all short_test omitting_life)).stream
unfolding happen_all gather detail_of tcp_part add_to_interval_list omit_timer_proc reset_stream
    happen
iperf_stats_callback-total_example =
    iperf_stats_callback-total short_test omitting_life (second 3) none
      (record {
        intervals = refl;
        sent = refl;
        received = refl;
        sent_now = refl;
        received_now = refl;
        omit = refl;
      })
      refl
