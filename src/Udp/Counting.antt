-- ===== src/Udp/Counting.antt =====
-- The counts of lost and of out-of-order packets that `iperf_udp_recv` of iperf_udp.c keeps.
use Prim.Native.Nat.{max}
use mathlib.Core.Path.{subst}
use i_perf_demo_runtime.Common.{
  All, Bool-cases, List, [], ap, arith, false, if◌then◌else◌, inl, inr, leb, length, lt_or_le, ltb,
  refl, suc, true, ℕ, ◌%◌, ◌+◌, ◌-◌, ◌<◌, ◌^◌, ◌∙◌, ◌∷◌, ◌≡◌, ◌≤◌,
}
use i_perf_demo_runtime.Common.Int.{pos}
use i_perf_demo_runtime.Units.{int_of_unsigned}
use i_perf_demo_runtime.Udp.{UdpStream, count_packet, incr}

-- The packets with these numbers come in, in this order.
unfoldable pub count_packets : List ℕ → UdpStream → UdpStream
unfolding count_packet
count_packets [] s = s
count_packets (x ∷ xs) s = count_packets xs (count_packet x s)

unfoldable pub highest : ℕ → List ℕ → ℕ
highest m [] = m
highest m (x ∷ xs) = highest (max m x) xs

-- After `n` packets the highest number is `m`, and each number up to it is a packet that came in, in
-- or out of order, or is counted as lost.
pub record IsCounted (n m : ℕ) (s : UdpStream) : Type 0 where
  pub lost : ℕ
  pub late : ℕ
  pub count_is : s.packet_count ≡ pos m
  pub lost_is : s.cnt_error ≡ pos lost
  pub late_is : s.outoforder_packets ≡ pos late
  pub balance : lost + n ≡ m + late
  pub late_le : late ≤ n

int_of_small : (n : ℕ) → n < 2 ^ 31 → int_of_unsigned n ≡ pos n
unfolding int_of_unsigned
int_of_small n h = ground arith

pub incr_small : (n : ℕ) → n < 2 ^ 31 - 1 → incr (pos n) ≡ pos (n + 1)
unfolding incr
incr_small n h = int_of_small (n + 1) (omega arith)

lost_small :
    (x m e : ℕ)
    → m < x
    → e + x < 2 ^ 31
    → int_of_unsigned ((e + (x - 1 + (2 ^ 64 - m)) % 2 ^ 64) % 2 ^ 64) ≡ pos (e + (x - 1 - m))
lost_small x m e h b =
    let q : (e + (x - 1 + (2 ^ 64 - m)) % 2 ^ 64) % 2 ^ 64 ≡ e + (x - 1 - m) = omega arith in
    ap int_of_unsigned q ∙ int_of_small (e + (x - 1 - m)) (omega arith)

new_loss :
    (x m e : ℕ)
    → m < x
    → e + x < 2 ^ 31
    → (if ltb (m + 1) x
        then int_of_unsigned ((e + (x - 1 + (2 ^ 64 - m)) % 2 ^ 64) % 2 ^ 64)
        else pos e)
      ≡ pos (e + (x - 1 - m))
new_loss x m e h b = elim (Bool-cases (ltb (m + 1) x)) [
  | inl t ↦ rw t (lost_small x m e h b)
  | inr f ↦ let q : x - 1 - m ≡ 0 = ground arith in rw (f, q) (ap pos (omega arith))
]

-- A number above the highest one becomes the highest, and the numbers between are lost.
count_packet_ahead :
    (x m e : ℕ) (s : UdpStream)
    → m < x
    → e + x < 2 ^ 31
    → s.packet_count ≡ pos m
    → s.cnt_error ≡ pos e
    → count_packet x s ≡ record s { cnt_error = pos (e + (x - 1 - m)); packet_count = pos x }
unfolding count_packet
count_packet_ahead x m e s h b c l =
    let here : leb (m + 1) x ≡ true = ground arith in
    rw (c, incr_small m (omega arith), here, l, int_of_small x (omega arith))
      (ap (λ n. record s { packet_count = pos x; cnt_error = n }) (new_loss x m e h b))

count_packet_behind :
    (x m o : ℕ) (s : UdpStream)
    → x ≤ m
    → m < 2 ^ 31 - 1
    → o < 2 ^ 31 - 1
    → s.packet_count ≡ pos m
    → s.outoforder_packets ≡ pos o
    → count_packet x s ≡ record s { outoforder_packets = pos (o + 1) }
unfolding count_packet
count_packet_behind x m o s h b d c r =
    let here : leb (m + 1) x ≡ false = ground arith in
    rw (c, incr_small m b, here, r, incr_small o d)

-- The counts of `n` packets stay below 2 ^ 31 where their numbers and `n` do.
pub count_packet-IsCounted :
    (n m x : ℕ) (s : UdpStream)
    → x < 2 ^ 30
    → m < 2 ^ 30
    → n < 2 ^ 30
    → IsCounted n m s
    → IsCounted (suc n) (max m x) (count_packet x s)
count_packet-IsCounted n m x s hx hm hn w = elim (lt_or_le m x) [
  | inl h ↦
      let q =
        count_packet_ahead x m w.lost s h (omega (arith, w.balance, w.late_le)) w.count_is
          w.lost_is in
      record {
        lost = w.lost + (x - 1 - m);
        late = w.late;
        count_is = ap UdpStream.packet_count q ∙ ap pos (omega arith);
        lost_is = ap UdpStream.cnt_error q;
        late_is = ap UdpStream.outoforder_packets q ∙ w.late_is;
        balance = omega (arith, w.balance, w.late_le);
        late_le = omega (arith, w.late_le);
      }
  | inr h ↦
      let q =
        count_packet_behind x m w.late s h (omega arith) (omega (arith, w.late_le)) w.count_is
          w.late_is in
      record {
        lost = w.lost;
        late = suc w.late;
        count_is = ap UdpStream.packet_count q ∙ w.count_is ∙ ap pos (omega arith);
        lost_is = ap UdpStream.cnt_error q ∙ w.lost_is;
        late_is = ap UdpStream.outoforder_packets q ∙ ap pos (omega arith);
        balance = omega (arith, w.balance, w.late_le);
        late_le = omega (arith, w.late_le);
      }
]

highest_le : (m : ℕ) (xs : List ℕ) → m < 2 ^ 30 → All (λ x. x < 2 ^ 30) xs → highest m xs < 2 ^ 30
unfolding highest
highest_le m [] h a = h
highest_le m (x ∷ xs) h (b, a) = highest_le (max m x) xs (omega arith) a

count_packets-keep :
    (n m : ℕ) (xs : List ℕ) (s : UdpStream)
    → All (λ x. x < 2 ^ 30) xs
    → m < 2 ^ 30
    → n + length xs < 2 ^ 30
    → IsCounted n m s
    → IsCounted (n + length xs) (highest m xs) (count_packets xs s)
unfolding count_packets highest
count_packets-keep n m [] s a hm hn w = subst (λ k. IsCounted k m s) (omega arith) w
count_packets-keep n m (x ∷ xs) s (h, a) hm hn w =
    let step = count_packet-IsCounted n m x s h hm (omega arith) w in
    subst (λ k. IsCounted k (highest (max m x) xs) (count_packets xs (count_packet x s)))
      (omega arith)
      (count_packets-keep (suc n) (max m x) xs (count_packet x s) a (omega arith) (omega arith)
        step)

-- Packets come in on a stream that has counted none. Then `packet_count` is the highest number that
-- came in, and the numbers counted as lost and the packets that came in are together as many as that
-- number and the packets counted as out of order. (Fewer than 2 ^ 30 packets, with numbers below
-- 2 ^ 30, so that no `int` wraps around.)
pub count_packets-balance :
    (xs : List ℕ) (s : UdpStream)
    → All (λ x. x < 2 ^ 30) xs
    → length xs < 2 ^ 30
    → s.packet_count ≡ pos 0
    → s.cnt_error ≡ pos 0
    → s.outoforder_packets ≡ pos 0
    → let r = count_packets xs s in
      (lost : ℕ) × (late : ℕ) × (r.packet_count ≡ pos (highest 0 xs))
      × (r.cnt_error ≡ pos lost)
      × (r.outoforder_packets ≡ pos late)
      × (lost + length xs ≡ highest 0 xs + late)
count_packets-balance xs s a h c l o =
    let w = count_packets-keep 0 0 xs s a (omega arith) (omega arith) (record {
      lost = 0;
      late = 0;
      count_is = c;
      lost_is = l;
      late_is = o;
      balance = refl;
      late_le = omega arith;
    }) in
    (w.lost, w.late, w.count_is, w.lost_is, w.late_is, omega (arith, w.balance))
