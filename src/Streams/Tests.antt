-- ===== src/Streams/Tests.antt =====
-- The streams of iperf_api.c on given answers.
use i_perf_demo_runtime.Common.{List, [], false, none, refl, true, ◌∷◌, ◌≡◌}
use i_perf_demo_runtime.Config.Samples.{tcp_server}
use i_perf_demo_runtime.Net.Sockets.{
  Made, Resource, System, ask, buffer_file, error_, give_up, made, socket,
}
use i_perf_demo_runtime.Streams.{iperf_new_stream, new_buffer}
use i_perf_demo_runtime.Streams.Releases.{Freed, iperf_free_stream-iperf_new_stream}

-- A process with one socket, where the first four calls succeed and the fifth does not.
abbrev fifth_fails : System
fifth_fails = record {
  held = socket 5 ∷ [];
  errno = none;
  system = true ∷ true ∷ true ∷ true ∷ false ∷ [];
}

abbrev held_after : Made → List Resource
held_after (made _ o) = o.held
held_after (error_ o) = o.held

-- `ftruncate` fails, and the file of the buffer stays open.
new_stream_leaks :
    held_after (iperf_new_stream tcp_server false 5 fifth_fails) ≡ buffer_file ∷ socket 5 ∷ []
unfolding iperf_new_stream new_buffer ask give_up
new_stream_leaks = refl

iperf_free_stream-iperf_new_stream_example :
    Freed none
      (socket 5 ∷ [])
      (iperf_new_stream tcp_server false 5 (record fifth_fails { system = [] }))
iperf_free_stream-iperf_new_stream_example =
    iperf_free_stream-iperf_new_stream tcp_server false 5 (record fifth_fails { system = [] })
