-- ===== src/Stats/Balance.antt =====
-- The balance of a stream of iperf_api.c, along what happens to it.
use mathlib.Core.Path.{subst}
use i_perf_demo_runtime.Common.{
  Bool, Bool-cases, List, Option, [], arith, false, if◌then◌else◌, inl, inr, none, refl, some, true,
  ℕ, ◌&&◌, ◌<◌, ◌^◌, ◌∷◌, ◌≡◌,
}
use i_perf_demo_runtime.Timer.{Timeval}
use i_perf_demo_runtime.Stats.{
  Gathering, StatsStream, TcpInfo, add_to_interval_list, count_tcp, detail_of, gather,
  packet_detail, packets, previous, reset_stream, tcp_part,
}
use i_perf_demo_runtime.Stats.Life.{
  Adds, Balances, Happening, Life, add_bytes_received, add_bytes_sent, gathers, happen, happen_all,
  omit_ends, omit_timer_proc, receives, sends,
}

sends-Adds :
    (o sender : Bool) (n : ℕ) (s : StatsStream)
    → s.bytes_sent_omit < 2 ^ 64
    → Adds o sender s
    → Adds o sender (add_bytes_sent n s)
sends-Adds true sender n s k h = h
sends-Adds false true n s k h = omega (arith, h, k)
sends-Adds false false n s k h = h

receives-Adds :
    (o sender : Bool) (n : ℕ) (s : StatsStream)
    → Adds o sender s
    → Adds o sender (add_bytes_received n s)
receives-Adds true sender n s h = h
receives-Adds false true n s h = h
receives-Adds false false n s h = omega (arith, h)

-- What the retransmits do not change.
record Keeps (s s' : StatsStream) : Type 0 where
  intervals : s'.interval_results ≡ s.interval_results
  sent : s'.bytes_sent ≡ s.bytes_sent
  omit : s'.bytes_sent_omit ≡ s.bytes_sent_omit
  received : s'.bytes_received ≡ s.bytes_received

keeps_itself : (s : StatsStream) → Keeps s s
keeps_itself s = record { intervals = refl; sent = refl; omit = refl; received = refl }

tcp_part-Keeps :
    (g : Gathering) (info : Option TcpInfo) (s : StatsStream) → Keeps s (tcp_part g info s).1
unfolding tcp_part
tcp_part-Keeps g none s = keeps_itself s
tcp_part-Keeps g (some i) s = elim (Bool-cases (g.sender && g.counted)) [
  | inl e ↦
      rw e
        (unfold count_tcp in record { intervals = refl; sent = refl; omit = refl; received = refl })
  | inr e ↦ rw e (keeps_itself s)
]

detail_of-Keeps :
    (g : Gathering) (info : Option TcpInfo) (s : StatsStream) → Keeps s (detail_of g info s).1
unfolding detail_of
detail_of-Keeps g info s =
    elim g.is_tcp
      as (λ b.
        Keeps s
          (if b
            then tcp_part g info s
            else (packets (packet_detail (previous s.interval_results) s), s)).1) [
              | true ↦ tcp_part-Keeps g info s
              | false ↦ keeps_itself s
            ]

gather-Adds :
    (o sender tcp counted : Bool) (now : Timeval) (info : Option TcpInfo) (s : StatsStream)
    → s.bytes_sent < 2 ^ 64
    → s.bytes_received < 2 ^ 64
    → Adds o sender s
    → Adds o sender (
        gather
          (record { omitting = o; sender = sender; is_tcp = tcp; counted = counted })
          now
          info
          s)
unfolding gather add_to_interval_list
gather-Adds true sender tcp counted now info s a b h =
    let g : Gathering = record {
      omitting = true;
      sender = sender;
      is_tcp = tcp;
      counted = counted;
    } in
    let k = detail_of-Keeps g info s in rw k.intervals h
gather-Adds false true tcp counted now info s a b h =
    let g : Gathering = record {
      omitting = false;
      sender = true;
      is_tcp = tcp;
      counted = counted;
    } in
    let k = detail_of-Keeps g info s in rw (k.intervals, k.sent, k.omit) (omega (arith, h))
gather-Adds false false tcp counted now info s a b h =
    let g : Gathering = record {
      omitting = false;
      sender = false;
      is_tcp = tcp;
      counted = counted;
    } in
    let k = detail_of-Keeps g info s in rw (k.intervals, k.received) (omega (arith, h))

reset-Adds :
    (sender : Bool) (now : Timeval) (s : StatsStream)
    → s.bytes_sent < 2 ^ 64
    → Adds true sender s
    → Adds false sender (reset_stream now s)
unfolding reset_stream
reset-Adds true now s k h = omega (arith, h, k)
reset-Adds false now s k h = omega (arith, h)

pub happen-Balances : (h : Happening) (l : Life) → Balances l → Balances (happen h l)
unfolding happen
happen-Balances (sends n) l b = record {
  adds = sends-Adds l.gathering.omitting l.gathering.sender n l.stream b.omit b.adds;
  sent = omega arith;
  omit = b.omit;
  received = b.received;
}
happen-Balances (receives n) l b = record {
  adds = receives-Adds l.gathering.omitting l.gathering.sender n l.stream b.adds;
  sent = b.sent;
  omit = b.omit;
  received = omega arith;
}
happen-Balances (gathers now info) l b =
    let g = l.gathering in
    let k = detail_of-Keeps g info l.stream in
    record {
      adds =
          gather-Adds g.omitting g.sender g.is_tcp g.counted now info l.stream b.sent b.received
            b.adds;
      sent = unfold gather add_to_interval_list in rw k.sent b.sent;
      omit = unfold gather add_to_interval_list in rw k.omit b.omit;
      received = unfold gather add_to_interval_list in rw k.received b.received;
    }
happen-Balances (omit_ends now) l b = go l.gathering.omitting refl
  where
    go : (o : Bool) → l.gathering.omitting ≡ o → Balances (if o then omit_timer_proc now l else l)
    go true e =
        unfold omit_timer_proc in
        unfold reset_stream in
        record {
          adds =
              reset-Adds l.gathering.sender now l.stream b.sent
                (subst (λ o. Adds o l.gathering.sender l.stream) e b.adds);
          sent = b.sent;
          omit = b.sent;
          received = omega arith;
        }
    go false e = b

pub happen_all-Balances : (hs : List Happening) (l : Life) → Balances l → Balances (happen_all hs l)
unfolding happen_all
happen_all-Balances [] l b = b
happen_all-Balances (h ∷ hs) l b = happen_all-Balances hs (happen h l) (happen-Balances h l b)
