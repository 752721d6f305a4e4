-- ===== src/Stats/Totals.antt =====
-- The bytes of the intervals of iperf_api.c and the total of a stream.
use i_perf_demo_runtime.Common.{Bool, List, Option, [], arith, false, refl, true, ◌%◌, ◌^◌, ◌≡◌}
use i_perf_demo_runtime.Timer.{Timeval}
use i_perf_demo_runtime.Stats.{Gathering, StatsStream, TcpInfo, add_to_interval_list, gather}
use i_perf_demo_runtime.Stats.Life.{
  Adds, Balances, Happening, Life, counted_bytes, gathers, happen, happen_all, reported,
}
use i_perf_demo_runtime.Stats.Balance.{happen-Balances, happen_all-Balances}

-- A stream that `iperf_new_stream` has made, which is all zero.
pub record IsNew (s : StatsStream) : Type 0 where
  pub intervals : s.interval_results ≡ []
  pub sent : s.bytes_sent ≡ 0
  pub received : s.bytes_received ≡ 0
  pub sent_now : s.bytes_sent_this_interval ≡ 0
  pub received_now : s.bytes_received_this_interval ≡ 0
  pub omit : s.bytes_sent_omit ≡ 0

new-Balances : (l : Life) → IsNew l.stream → Balances l
new-Balances l n = record {
  adds = new_adds l.gathering.omitting l.gathering.sender;
  sent = rw n.sent (omega arith);
  omit = rw n.omit (omega arith);
  received = rw n.received (omega arith);
}
  where
    new_adds : (o sender : Bool) → Adds o sender l.stream
    new_adds true sender = rw n.intervals refl
    new_adds false true = rw (n.intervals, n.sent_now, n.sent, n.omit) refl
    new_adds false false = rw (n.intervals, n.received_now, n.received) refl

gathered :
    (o sender tcp counted : Bool) (now : Timeval) (info : Option TcpInfo) (s : StatsStream)
    → (let g : Gathering = record {
      omitting = o;
      sender = sender;
      is_tcp = tcp;
      counted = counted;
    } in
        o ≡ false
        → Adds o sender (gather g now info s)
        → counted_bytes (gather g now info s).interval_results % 2 ^ 64
          ≡ reported sender (gather g now info s))
unfolding gather add_to_interval_list
gathered true sender tcp counted now info s e h = ground (arith, e)
gathered false true tcp counted now info s e h = omega (arith, h)
gathered false false tcp counted now info s e h = omega (arith, h)

-- Whatever is sent and received, whenever the statistics are gathered and the omitted time ends: once
-- they are gathered after it, the bytes of the intervals that are not omitted make, modulo 2^64, the
-- number that `send_results` reports for the stream, on the side that sends and on the other.
pub iperf_stats_callback-total :
    (hs : List Happening) (l : Life) (now : Timeval) (info : Option TcpInfo)
    → IsNew l.stream
    → (happen_all hs l).gathering.omitting ≡ false
    → counted_bytes (happen (gathers now info) (happen_all hs l)).stream.interval_results % 2 ^ 64
      ≡ reported
          (happen_all hs l).gathering.sender
          (happen (gathers now info) (happen_all hs l)).stream
unfolding happen
iperf_stats_callback-total hs l now info n e =
    let m = happen_all hs l in
    let g = m.gathering in
    gathered g.omitting g.sender g.is_tcp g.counted now info m.stream e
      (happen-Balances (gathers now info) m (happen_all-Balances hs l (new-Balances l n))).adds
