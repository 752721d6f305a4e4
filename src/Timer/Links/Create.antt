-- ===== src/Timer/Links/Create.antt =====
-- `tmr_create` of timer.c on the pointers.
use i_perf_demo_runtime.Common.{
  Bool, List, Option, [], ap, arith, if◌then◌else◌, length, none, refl, some, ℕ, ◌+◌, ◌==◌, ◌∙◌,
  ◌∷◌, ◌≡◌, ◌≤◌,
}
use mathlib.Core.Path.{subst}
use i_perf_demo_runtime.Timer.{Timer, Timers, Timeval, alloc, list_add, new_timer, tmr_create}
use i_perf_demo_runtime.Timer.Invariant.{IsFresh, count, count_addr}
use i_perf_demo_runtime.Timer.Links.Walk.{set_at-other, set_at-same}
use i_perf_demo_runtime.Timer.Links.{Structs, create_struct, link, set_at, take_struct}
use i_perf_demo_runtime.Timer.Links.Chain.{
  Chain, Chain-frame, FreeChain, FreeChain-frame, Represents,
}
use i_perf_demo_runtime.Timer.Links.Refines.{Refines, link-Refines}

-- The calls that may fail for want of fuel.
abbrev pub CreateRefines : Option (Option ℕ × Structs) → Option ℕ × Timers → Type 0
CreateRefines none _ = ⊥
CreateRefines (some (a, s)) (b, q) = (a ≡ b) × Represents s q

-- The struct that `tmr_create` got is filled and put on the list.
create-Refines :
    (fuel : ℕ) (now : Timeval) (proc usecs : ℕ) (periodic : Bool) (s : Structs) (a : ℕ)
    (xs : List Timer) (free : List ℕ)
    → length xs ≤ fuel
    → Chain s none s.head xs
    → FreeChain s s.free free
    → ((c : ℕ) → (if a == c then 1 else 0) + count_addr c xs + count c free ≤ 1)
    → Refines
        (link fuel a
          (record s { fields = set_at a (new_timer a now proc usecs periodic) s.fields }))
        (record { timers = list_add (new_timer a now proc usecs periodic) xs; free_timers = free })
create-Refines fuel now proc usecs periodic s a xs free le c fc once =
    let t = new_timer a now proc usecs periodic in
    let s' = record s { fields = set_at a t s.fields } in
    let e : t.addr ≡ a = unfold new_timer in refl in
    subst (λ d. Refines (link fuel d s') (record { timers = list_add t xs; free_timers = free })) e
      (link-Refines fuel s' t xs free le (ap s'.fields e ∙ set_at-same a t s.fields)
        (Chain-frame s s' xs none s.head c
          (λ d k. (refl, refl, set_at-other a d t s.fields (λ q. ground (arith, once d, k, q)))))
        fc (λ d. unfold new_timer in ground (arith, once d)))

-- The call once a struct is taken.
created :
    (fuel : ℕ) (malloc : Option ℕ) (now : Timeval) (proc usecs : ℕ) (periodic : Bool)
    (s s1 : Structs) (q : Timers) (a : ℕ) (free : List ℕ)
    → take_struct malloc s.free s ≡ some (a, s1)
    → alloc malloc q ≡ some (a, free)
    → Refines
        (link fuel a
          (record s1 { fields = set_at a (new_timer a now proc usecs periodic) s1.fields }))
        (record {
          timers = list_add (new_timer a now proc usecs periodic) q.timers;
          free_timers = free;
        })
    → CreateRefines
        (create_struct fuel malloc now proc usecs periodic s)
        (tmr_create malloc now proc usecs periodic q)
unfolding create_struct tmr_create
created fuel malloc now proc usecs periodic s s1 q a free e1 e2 h =
    rw (e1, create_struct, e2, tmr_create) (go _ h)
  where
    go :
        (o : Option Structs)
        → Refines o (record {
          timers = list_add (new_timer a now proc usecs periodic) q.timers;
          free_timers = free;
        })
        → CreateRefines
            (elim o [ none ↦ none | some s2 ↦ some (some a, s2) ])
            (
              some a,
              record {
                timers = list_add (new_timer a now proc usecs periodic) q.timers;
                free_timers = free;
              },
            )
    go none h = h
    go (some s2) h = (refl, h)

not_created :
    (fuel : ℕ) (now : Timeval) (proc usecs : ℕ) (periodic : Bool) (s : Structs) (q : Timers)
    → take_struct none s.free s ≡ none
    → alloc none q ≡ none
    → Represents s q
    → CreateRefines
        (create_struct fuel none now proc usecs periodic s)
        (tmr_create none now proc usecs periodic q)
unfolding create_struct tmr_create
not_created fuel now proc usecs periodic s q e1 e2 r =
    rw (e1, create_struct, e2, tmr_create) (refl, r)

create_from :
    (fuel : ℕ) (malloc : Option ℕ) (now : Timeval) (proc usecs : ℕ) (periodic : Bool) (s : Structs)
    (xs : List Timer) (free : List ℕ)
    → length xs ≤ fuel
    → IsFresh malloc (record { timers = xs; free_timers = free })
    → Represents s (record { timers = xs; free_timers = free })
    → CreateRefines
        (create_struct fuel malloc now proc usecs periodic s)
        (tmr_create malloc now proc usecs periodic (record { timers = xs; free_timers = free }))
unfolding take_struct alloc
create_from fuel malloc now proc usecs periodic s xs (a ∷ free) le f r =
    created fuel malloc now proc usecs periodic s (record s { free = s.next a }) _ a free
      (ap (λ p. take_struct malloc p s) r.spare.0) refl
      (create-Refines fuel now proc usecs periodic (record s { free = s.next a }) a xs free le
        (Chain-frame s (record s { free = s.next a }) xs none s.head r.active
          (λ d k. (refl, refl, refl)))
        (FreeChain-frame s (record s { free = s.next a }) free (s.next a) r.spare.1 (λ d k. refl))
        (λ d. ground (arith, r.once d)))
create_from fuel (some a) now proc usecs periodic s xs [] le f r =
    created fuel (some a) now proc usecs periodic s s _ a []
      (ap (λ p. take_struct (some a) p s) r.spare) refl
      (create-Refines fuel now proc usecs periodic s a xs [] le r.active r.spare
        (λ d. ground (arith, f, r.once d)))
create_from fuel none now proc usecs periodic s xs [] le f r =
    not_created fuel now proc usecs periodic s _ (ap (λ p. take_struct none p s) r.spare) refl r

-- `tmr_create` on the pointers answers the struct, or NULL, that it answers on the queue, and leaves
-- structs that stand for the new queue.
pub tmr_create-Refines :
    (fuel : ℕ) (malloc : Option ℕ) (now : Timeval) (proc usecs : ℕ) (periodic : Bool) (s : Structs)
    (q : Timers)
    → length q.timers ≤ fuel
    → IsFresh malloc q
    → Represents s q
    → CreateRefines
        (create_struct fuel malloc now proc usecs periodic s)
        (tmr_create malloc now proc usecs periodic q)
tmr_create-Refines fuel malloc now proc usecs periodic s q le f r =
    create_from fuel malloc now proc usecs periodic s q.timers q.free_timers le f r
