-- ===== src/Timer/Invariant.antt =====
-- The invariant of the timers of timer.c, and what each call does to it.
use i_perf_demo_runtime.Common.{
  All, Bool, Bool-cases, List, Option, Option-cases, [], arith, false, if◌then◌else◌, inl, inr,
  none, refl, some, suc, true, ℕ, ◌+◌, ◌<◌, ◌==◌, ◌∷◌, ◌≡◌, ◌≤◌, ◌⊎◌,
}
use mathlib.Core.Path.{subst}
use i_perf_demo_runtime.Timer.{
  Timer, Timers, Timeval, add_usecs, alloc, list_add, list_add_after, list_remove, list_resort,
  lookup_next, new_timer, tmr_after, tmr_cancel, tmr_create, tmr_reset,
}
use i_perf_demo_runtime.Timer.Order.{
  All-list_add, All-list_remove, AllNormal, IsNormal, IsSorted, list_add-IsSorted, list_add_lem,
  list_remove-IsSorted, to_usecs-add_usecs,
}

abbrev pub count_addr : ℕ → List Timer → ℕ
count_addr a [] = 0
count_addr a (t ∷ rest) = let n = count_addr a rest in if t.addr == a then suc n else n

abbrev pub count : ℕ → List ℕ → ℕ
count a [] = 0
count a (x ∷ rest) = let n = count a rest in if x == a then suc n else n

-- How often an address stands on the two lists.
abbrev pub owned : ℕ → Timers → ℕ
owned a s = count_addr a s.timers + count a s.free_timers

pub record IsWellFormed (s : Timers) : Type 0 where
  pub sorted : IsSorted s.timers
  pub normal : AllNormal s.timers
  pub once : (a : ℕ) → owned a s ≤ 1

-- The timer at an address is running.
abbrev pub IsActive : ℕ → Timers → Type 0
IsActive a s = 0 < count_addr a s.timers

pub count_addr-list_add :
    (a : ℕ) (t : Timer) (l : List Timer) → count_addr a (list_add_after t l) ≡ count_addr a (t ∷ l)
unfolding list_add_after
count_addr-list_add a t [] = refl
count_addr-list_add a t (x ∷ rest) = ground (arith, count_addr-list_add a t rest)

pub count_addr-list_remove :
    (a b : ℕ) (l : List Timer)
    → 0 < count_addr b l
    → count_addr a (list_remove b l) + (if b == a then 1 else 0) ≡ count_addr a l
unfolding list_remove
count_addr-list_remove a b [] h = absurd (omega arith)
count_addr-list_remove a b (x ∷ rest) h = ground (arith, count_addr-list_remove a b rest)

pub lookup_next-addr :
    (a : ℕ) (l : List Timer) {t : Timer} {n : Option ℕ}
    → lookup_next a l ≡ some (t, n)
    → (t.addr ≡ a) × (0 < count_addr a l)
unfolding lookup_next
lookup_next-addr a [] h = cc
lookup_next-addr a (x ∷ rest) {t} {n} h = ground (arith, lookup_next-addr a rest {t = t} {n = n})

pub lookup_next-All {ℓ} :
    (P : Timer → Type ℓ) (a : ℕ) (l : List Timer) {t : Timer} {n : Option ℕ}
    → All P l
    → lookup_next a l ≡ some (t, n)
    → P t
unfolding lookup_next
lookup_next-All P a [] p h = cc
lookup_next-All P a (x ∷ rest) {t} {n} (px, p) h = elim (Bool-cases (x.addr == a)) [
  | inl e ↦ let q : x ≡ t = ground arith in subst P q px
  | inr e ↦ lookup_next-All P a rest p (rw e at h)
]

-- A timer with a new time is put where it belongs; no struct is lost or doubled.
list_resort-IsWellFormed :
    (s : Timers) (t : Timer)
    → IsWellFormed s
    → IsNormal t.time
    → IsActive t.addr s
    → IsWellFormed (record s { timers = list_resort t s.timers })
unfolding list_resort
list_resort-IsWellFormed s t w n h = rw (list_add_lem t (list_remove t.addr s.timers)) (record {
  sorted =
      list_add-IsSorted t _ n (All-list_remove _ t.addr s.timers w.normal)
        (list_remove-IsSorted t.addr s.timers w.sorted);
  normal = All-list_add _ t _ n (All-list_remove _ t.addr s.timers w.normal);
  once = λ a. ground (
    arith,
    w.once a,
    count_addr-list_add a t (list_remove t.addr s.timers),
    count_addr-list_remove a t.addr s.timers h,
  );
})

pub tmr_cancel-IsWellFormed :
    (s : Timers) (a : ℕ) → IsWellFormed s → IsActive a s → IsWellFormed (tmr_cancel a s)
unfolding tmr_cancel
tmr_cancel-IsWellFormed s a w h = record {
  sorted = list_remove-IsSorted a s.timers w.sorted;
  normal = All-list_remove _ a s.timers w.normal;
  once = λ b. ground (arith, w.once b, count_addr-list_remove b a s.timers h);
}

pub tmr_reset-IsWellFormed :
    (now : Timeval) (a : ℕ) (s : Timers)
    → IsNormal now
    → IsWellFormed s
    → IsWellFormed (tmr_reset now a s)
unfolding tmr_reset
tmr_reset-IsWellFormed now a s n w = elim (Option-cases (lookup_next a s.timers)) [
  | inl e ↦ rw (e, tmr_reset) w
  | inr ((t, next), e) ↦
      let found = lookup_next-addr a s.timers e in
      rw (e, tmr_reset)
        (list_resort-IsWellFormed s (record t { time = add_usecs now t.usecs }) w
          (to_usecs-add_usecs now t.usecs n).1 (rw found.0 found.1))
]

pub tmr_after-IsWellFormed :
    (t : Timer) (s : Timers)
    → IsNormal t.time
    → IsActive t.addr s
    → IsWellFormed s
    → IsWellFormed (tmr_after t s)
unfolding tmr_after
tmr_after-IsWellFormed t s n h w =
    let t' = record t { time = add_usecs t.time t.usecs } in
    elim t.periodic
      as (λ b.
        IsWellFormed
          (if b then record s { timers = list_resort t' s.timers } else tmr_cancel t.addr s)) [
            | true ↦ list_resort-IsWellFormed s t' w (to_usecs-add_usecs t.time t.usecs n).1 h
            | false ↦ tmr_cancel-IsWellFormed s t.addr w h
          ]

-- `malloc` gives no struct that is in use.
abbrev pub IsFresh : Option ℕ → Timers → Type 0
IsFresh none s = Unit
IsFresh (some a) s = owned a s ≡ 0

alloc-once :
    (malloc : Option ℕ) (s : Timers) (a : ℕ) (rest : List ℕ)
    → IsFresh malloc s
    → alloc malloc s ≡ some (a, rest)
    → (b : ℕ)
    → (count b (a ∷ rest) ≡ count b s.free_timers) ⊎ ((owned a s ≡ 0) × (rest ≡ s.free_timers))
unfolding alloc
alloc-once none s a rest f e b = ground arith
alloc-once (some x) s a rest f e b = ground arith

pub tmr_create-IsWellFormed :
    (malloc : Option ℕ) (now : Timeval) (proc usecs : ℕ) (periodic : Bool) (s : Timers)
    → IsNormal now
    → IsFresh malloc s
    → IsWellFormed s
    → IsWellFormed (tmr_create malloc now proc usecs periodic s).1
unfolding tmr_create
tmr_create-IsWellFormed malloc now proc usecs periodic s n f w =
    elim (Option-cases (alloc malloc s)) [
      | inl e ↦ rw (e, tmr_create) w
      | inr ((a, rest), e) ↦ rw (e, tmr_create) (added a rest e)
    ]
  where
    added :
        (a : ℕ) (rest : List ℕ)
        → alloc malloc s ≡ some (a, rest)
        → IsWellFormed (record {
          timers = list_add (new_timer a now proc usecs periodic) s.timers;
          free_timers = rest;
        })
    added a rest e =
        let t = new_timer a now proc usecs periodic in
        let nt : IsNormal t.time = unfold new_timer in (to_usecs-add_usecs now usecs n).1 in
        rw (list_add_lem t s.timers) (record {
          sorted = list_add-IsSorted t s.timers nt w.normal w.sorted;
          normal = All-list_add _ t s.timers nt w.normal;
          once = λ b.
              unfold new_timer in
              ground (
                arith,
                w.once b,
                w.once a,
                count_addr-list_add b t s.timers,
                alloc-once malloc s a rest f e b,
              );
        })
