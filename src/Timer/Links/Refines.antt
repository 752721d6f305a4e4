-- ===== src/Timer/Links/Refines.antt =====
-- The calls of timer.c on the pointers against the calls on the queue.
use i_perf_demo_runtime.Common.{
  ==_iff, Bool-cases, List, Option, [], ap, arith, inl, inr, length, none, refl, some, sym, ℕ, ◌+◌,
  ◌<◌, ◌==◌, ◌∙◌, ◌∷◌, ◌≡◌, ◌≢◌, ◌≤◌,
}
use mathlib.Core.Path.{subst}
use i_perf_demo_runtime.Timer.{
  Timer, Timers, Timeval, add_usecs, first_addr, list_add, list_remove, list_resort, lookup_next,
  tmr_cancel, tmr_reset,
}
use i_perf_demo_runtime.Timer.Invariant.{
  IsActive, count, count_addr, count_addr-list_add, count_addr-list_remove, owned,
}
use i_perf_demo_runtime.Timer.Order.{list_add_lem}
use i_perf_demo_runtime.Timer.Links.Walk.{set_at-other, set_at-same}
use i_perf_demo_runtime.Timer.Links.{
  Structs, cancel_struct, link, relink, reset_struct, set_at, set_next, set_prev, unlink,
}
use i_perf_demo_runtime.Timer.Links.Chain.{
  Chain, Chain-frame, FreeChain, FreeChain-frame, Represents,
}
use i_perf_demo_runtime.Timer.Links.Insert.{Linked, link_lem}
use i_perf_demo_runtime.Timer.Links.Remove.{unlink_lem}

-- The call ends with structs that stand for a queue.
abbrev pub Refines : Option Structs → Timers → Type 0
Refines none q = ⊥
Refines (some s) q = Represents s q

pub count_le : (q : Timers) → ((a : ℕ) → owned a q ≤ 1) → (a : ℕ) → count_addr a q.timers ≤ 1
count_le q once a = omega (arith, once a)

-- A struct that is put on the list of a queue without it.
pub link-Refines :
    (fuel : ℕ) (s : Structs) (t : Timer) (xs : List Timer) (free : List ℕ)
    → length xs ≤ fuel
    → s.fields t.addr ≡ t
    → Chain s none s.head xs
    → FreeChain s s.free free
    → ((a : ℕ) → count_addr a (t ∷ xs) + count a free ≤ 1)
    → Refines (link fuel t.addr s) (record { timers = list_add t xs; free_timers = free })
link-Refines fuel s t xs free le f c fc once =
    go (link fuel t.addr s)
      (link_lem xs fuel s t le f (ground (arith, once t.addr)) (λ a. ground (arith, once a)) c)
  where
    go :
        (o : Option Structs)
        → Linked s t xs o
        → Refines o (record { timers = list_add t xs; free_timers = free })
    go none h = h
    go (some s') (c', fr, same) = record {
      active = c';
      spare = rw fr (
          FreeChain-frame s s' free s.free fc
            (λ a h. (same a (λ e. ground (arith, once a, h, e)) (ground (arith, once a, h))).1));
      once = λ a. rw (list_add_lem t xs) (omega (arith, once a, count_addr-list_add a t xs));
    }

removed :
    (a : ℕ) (q : Timers)
    → ((c : ℕ) → owned c q ≤ 1)
    → IsActive a q
    → (c : ℕ) → 0 < count_addr c (list_remove a q.timers)
    → c ≢ a
removed a q once h c k = λ e. ground (arith, once c, h, k, e, count_addr-list_remove c a q.timers h)

spare_ne :
    (a : ℕ) (q : Timers)
    → ((c : ℕ) → owned c q ≤ 1)
    → IsActive a q
    → (c : ℕ) → 0 < count c q.free_timers
    → c ≢ a
spare_ne a q once h c k =
    λ e. absurd (omega (arith, once a, h, k, ap (λ n. count n q.free_timers) e))

-- `list_remove`, `t->next = free_timers`, `free_timers = t` and `t->prev = NULL` on the pointers do to
-- the two lists what `tmr_cancel` does.
pub tmr_cancel-Represents :
    (s : Structs) (q : Timers) (a : ℕ)
    → IsActive a q
    → Represents s q
    → Represents (cancel_struct a s) (tmr_cancel a q)
unfolding cancel_struct tmr_cancel
tmr_cancel-Represents s q a h r =
    let u = unlink_lem q.timers a s h (count_le q r.once) r.active in
    let s1 = unlink a s in
    let s' = cancel_struct a s in
    record {
      active = Chain-frame s1 s' (list_remove a q.timers) none s1.head u.chain (λ c k.
          let ca = removed a q r.once h c k in
          (set_at-other a c none s1.prev ca, set_at-other a c s1.free s1.next ca, refl));
      spare = (
        refl,
        rw (set_at-same a s1.free s1.next, u.free)
            (FreeChain-frame s s' q.free_timers s.free r.spare (λ c k.
              set_at-other a c s1.free s1.next (spare_ne a q r.once h c k)
              ∙ u.next c (ground (arith, r.once c, k)) (λ e. ground (arith, e)))),
      );
      once = λ b. ground (arith, r.once b, count_addr-list_remove b a q.timers h);
    }

-- `list_remove` does not look at the other fields.
set_next-with_fields :
    (b v : Option ℕ) (g : ℕ → Timer) (s : Structs)
    → set_next b v (record s { fields = g }) ≡ record (set_next b v s) { fields = g }
unfolding set_next
set_next-with_fields none v g s = refl
set_next-with_fields (some p) v g s = refl

set_prev-with_fields :
    (n v : Option ℕ) (g : ℕ → Timer) (s : Structs)
    → set_prev n v (record s { fields = g }) ≡ record (set_prev n v s) { fields = g }
unfolding set_prev
set_prev-with_fields none v g s = refl
set_prev-with_fields (some p) v g s = refl

unlink-with_fields :
    (a : ℕ) (g : ℕ → Timer) (s : Structs)
    → unlink a (record s { fields = g }) ≡ record (unlink a s) { fields = g }
unfolding unlink
unlink-with_fields a g s =
    rw (set_next-with_fields (s.prev a) (s.next a) g s) (
      let s1 = set_next (s.prev a) (s.next a) s in
      set_prev-with_fields (s1.next a) (s1.prev a) g s1)

-- The struct at the address of a running timer holds that timer.
pub fields-lookup_next :
    (xs : List Timer) (a : ℕ) (s : Structs) (b p : Option ℕ)
    → Chain s b p xs
    → 0 < count_addr a xs
    → (n : Option ℕ) × (lookup_next a xs ≡ some (s.fields a, n)) × ((s.fields a).addr ≡ a)
unfolding lookup_next
fields-lookup_next [] a s b p c h = elim h [ ]
fields-lookup_next (x ∷ rest) a s b p (e, back, f, c) h = elim (Bool-cases (x.addr == a)) [
  | inl q ↦
      let r : x.addr ≡ a = (==_iff x.addr a).0 q in
      let f' : s.fields a ≡ x = ap s.fields (sym r) ∙ f in rw (q, f') (first_addr rest, refl, r)
  | inr q ↦
      rw q (fields-lookup_next rest a s (some x.addr) (s.next x.addr) c (ground (arith, h, q)))
]

pub length-list_remove : (a : ℕ) (xs : List Timer) → length (list_remove a xs) ≤ length xs
unfolding list_remove
length-list_remove a [] = omega arith
length-list_remove a (x ∷ rest) = ground (arith, length-list_remove a rest)

tmr_reset_running :
    (now : Timeval) (a : ℕ) (q : Timers) (t : Timer) (n : Option ℕ)
    → lookup_next a q.timers ≡ some (t, n)
    → t.addr ≡ a
    → tmr_reset now a q ≡ record q {
      timers = list_add (record t { time = add_usecs now t.usecs }) (list_remove a q.timers);
    }
unfolding tmr_reset list_resort
tmr_reset_running now a q t n e r = rw (e, tmr_reset, r) refl

pub tmr_reset-Refines :
    (fuel : ℕ) (now : Timeval) (s : Structs) (q : Timers) (a : ℕ)
    → length q.timers ≤ fuel
    → IsActive a q
    → Represents s q
    → Refines (reset_struct fuel now a s) (tmr_reset now a q)
unfolding reset_struct relink
tmr_reset-Refines fuel now s q a le h r =
    let (n, e, ad) = fields-lookup_next q.timers a s none s.head r.active h in
    let t = s.fields a in
    let t' = record t { time = add_usecs now t.usecs } in
    let g = set_at a t' s.fields in
    let u = unlink_lem q.timers a s h (count_le q r.once) r.active in
    let s1 = unlink a s in
    let s2 = record s1 { fields = g } in
    let le' = length-list_remove a q.timers in
    rw (tmr_reset_running now a q t n e ad, unlink-with_fields a g s)
      (subst
        (λ d. Refines (link fuel d s2) (record q { timers = list_add t' (list_remove a q.timers) }))
        ad
        (link-Refines fuel s2 t' (list_remove a q.timers) q.free_timers (omega (arith, le, le'))
          (ap g ad ∙ set_at-same a t' s.fields)
          (Chain-frame s1 s2 (list_remove a q.timers) none s1.head u.chain (λ c k. (
            refl,
            refl,
            set_at-other a c t' s.fields (removed a q r.once h c k) ∙ sym (u.fields c),
          )))
          (rw u.free (
            FreeChain-frame s s2 q.free_timers s.free r.spare
              (λ c k. u.next c (ground (arith, r.once c, k)) (λ x. ground (arith, x)))))
          (λ c. resorted c t' ad)))
  where
    resorted :
        (c : ℕ) (t' : Timer)
        → t'.addr ≡ a
        → count_addr c (t' ∷ list_remove a q.timers) + count c q.free_timers ≤ 1
    resorted c t' x = ground (arith, x, r.once c, count_addr-list_remove c a q.timers h)
