-- ===== src/Timer/Links/Sizes.antt =====
-- How many structs the calls of timer.c leave on the two lists.
use i_perf_demo_runtime.Common.{
  Bool, List, Option, Option-cases, [], arith, inl, inr, length, none, refl, some, suc, ℕ, ◌+◌, ◌∷◌,
  ◌≡◌, ◌≤◌,
}
use i_perf_demo_runtime.Timer.{
  Timer, Timers, Timeval, add_usecs, alloc, cancel_all, list_add, list_add_after, list_remove,
  list_resort, lookup_next, new_timer, tmr_cancel, tmr_cleanup, tmr_create, tmr_destroy, tmr_reset,
}
use i_perf_demo_runtime.Timer.Order.{list_add_lem}
use i_perf_demo_runtime.Timer.Calls.{Call, call, cancel, cleanup, create, destroy, reset}
use i_perf_demo_runtime.Timer.Links.Refines.{length-list_remove}

abbrev pub size : Timers → ℕ
size q = length q.timers + length q.free_timers

pub length-cancel_all :
    (xs : List Timer) (free : List ℕ) → length (cancel_all xs free) ≡ length xs + length free
unfolding cancel_all
length-cancel_all [] free = omega arith
length-cancel_all (x ∷ rest) free = omega (arith, length-cancel_all rest (x.addr ∷ free))

length-list_add_after : (t : Timer) (l : List Timer) → length (list_add_after t l) ≡ suc (length l)
unfolding list_add_after
length-list_add_after t [] = refl
length-list_add_after t (x ∷ rest) = ground (arith, length-list_add_after t rest)

length-list_add : (t : Timer) (l : List Timer) → length (list_add t l) ≡ suc (length l)
length-list_add t l = rw (list_add_lem t l) (length-list_add_after t l)

length-alloc :
    (malloc : Option ℕ) (q : Timers) (a : ℕ) (rest : List ℕ)
    → alloc malloc q ≡ some (a, rest)
    → length rest ≤ length q.free_timers
unfolding alloc
length-alloc none q a rest e = ground arith
length-alloc (some x) q a rest e = ground arith

size-tmr_create :
    (malloc : Option ℕ) (now : Timeval) (proc usecs : ℕ) (periodic : Bool) (q : Timers)
    → size (tmr_create malloc now proc usecs periodic q).1 ≤ suc (size q)
unfolding tmr_create
size-tmr_create malloc now proc usecs periodic q = elim (Option-cases (alloc malloc q)) [
  | inl e ↦ rw (e, tmr_create) (omega arith)
  | inr ((a, rest), e) ↦
      rw (e, tmr_create)
        (omega (
          arith,
          length-alloc malloc q a rest e,
          length-list_add (new_timer a now proc usecs periodic) q.timers,
        ))
]

size-tmr_reset : (now : Timeval) (a : ℕ) (q : Timers) → size (tmr_reset now a q) ≤ suc (size q)
unfolding tmr_reset list_resort
size-tmr_reset now a q = elim (Option-cases (lookup_next a q.timers)) [
  | inl e ↦ rw (e, tmr_reset) (omega arith)
  | inr ((t, n), e) ↦
      rw (e, tmr_reset)
        (omega (
          arith,
          length-list_remove t.addr q.timers,
          length-list_add (record t { time = add_usecs now t.usecs }) (list_remove t.addr q.timers),
        ))
]

pub size-call : (c : Call) (q : Timers) → size (call c q) ≤ suc (size q)
unfolding call
size-call (create malloc now proc usecs periodic) q =
    size-tmr_create malloc now proc usecs periodic q
size-call (reset now a) q = size-tmr_reset now a q
size-call (cancel a) q = unfold tmr_cancel in omega (arith, length-list_remove a q.timers)
size-call cleanup q = unfold tmr_cleanup in omega arith
size-call destroy q = unfold tmr_destroy in unfold tmr_cleanup in omega arith
