-- ===== src/Transfer/Tests.antt =====
-- Examples for the loops of iperf_api.c: two streams of which one is above its rate, and a `snd` that
-- always writes 1000 bytes.
use i_perf_demo_runtime.Common.{List, [], false, none, refl, suc, true, ℕ, ◌+◌, ◌∷◌, ◌≡◌}
use i_perf_demo_runtime.Net.{NetResult, count}
use i_perf_demo_runtime.Transfer.{Limits, SendStream, iperf_recv, iperf_send}
use i_perf_demo_runtime.Transfer.Accounts.{Adds, CountsBytes, iperf_recv-Adds, iperf_send-Adds}
use i_perf_demo_runtime.Transfer.Pacing.{NeverFails, Sends, iperf_send-All, iperf_send-Sends}

abbrev thousand : SendStream → ℕ → NetResult × (SendStream × ℕ)
thousand s calls = (count 1000, (record s { total = s.total + 1000 }, suc calls))

abbrev held : SendStream
held = record { total = 5000; elapsed = 100; green_light = false; watched = false; ready = false }

abbrev streams : List SendStream
streams = held ∷ record held { green_light = true; watched = true; ready = true } ∷ []

abbrev limited : Limits
limited = record {
  rate = 1000;
  burst = 0;
  multisend = 10;
  bytes = 0;
  blocks = 0;
  no_fq_socket_pacing = false;
  done = false;
}

thousand-CountsBytes : CountsBytes thousand
thousand-CountsBytes s w = refl

iperf_send-Adds_example : Adds thousand 0 streams (iperf_send thousand limited streams 0 0 0)
iperf_send-Adds_example = iperf_send-Adds thousand limited streams 0 0 0 thousand-CountsBytes

iperf_recv-Adds_example : Adds thousand 0 streams (iperf_recv thousand streams 0 0 0)
iperf_recv-Adds_example = iperf_recv-Adds thousand streams 0 0 0 thousand-CountsBytes

iperf_send-All_example :
    let r =
      iperf_send thousand
        (record limited { no_fq_socket_pacing = true })
        (held ∷ held ∷ [])
        7
        3
        0 in
    (r.bytes_sent ≡ 7) × (r.blocks_sent ≡ 3) × (r.state ≡ 0) × (r.error ≡ none)
iperf_send-All_example =
    iperf_send-All thousand (record limited { no_fq_socket_pacing = true }) (held ∷ held ∷ []) 7 3 0
      refl (refl, (refl, tt))

thousand-NeverFails : NeverFails thousand
thousand-NeverFails s w = (1000, refl)

iperf_send-Sends_example : Sends thousand 0 2 (iperf_send thousand limited streams 0 0 0)
iperf_send-Sends_example =
    iperf_send-Sends thousand limited streams 0 0 0 refl refl refl thousand-NeverFails
