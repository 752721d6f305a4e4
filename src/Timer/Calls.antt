-- ===== src/Timer/Calls.antt =====
-- Sequences of calls of timer.c.
use i_perf_demo_runtime.Common.{
  Bool, List, Option, Option-cases, [], arith, if◌then◌else◌, inl, inr, none, some, sym, ℕ, ◌+◌,
  ◌<◌, ◌==◌, ◌∷◌, ◌≡◌,
}
use mathlib.Core.Path.{subst}
use i_perf_demo_runtime.Timer.{
  Timer, Timers, Timeval, add_usecs, alloc, cancel_all, list_add, list_remove, list_resort,
  lookup_next, new_timer, tmr_cancel, tmr_cleanup, tmr_create, tmr_destroy, tmr_reset,
}
use i_perf_demo_runtime.Timer.Order.{IsNormal, list_add_lem}
use i_perf_demo_runtime.Timer.Invariant.{
  IsActive, IsFresh, IsWellFormed, count, count_addr, count_addr-list_add, count_addr-list_remove,
  lookup_next-addr, owned, tmr_cancel-IsWellFormed, tmr_create-IsWellFormed, tmr_reset-IsWellFormed,
}

-- A call, with what `malloc` and the clock answer.
pub data Call : Type 0 where
  create : Option ℕ → Timeval → ℕ → ℕ → Bool → Call
  reset : Timeval → ℕ → Call
  cancel : ℕ → Call
  cleanup : Call
  destroy : Call

unfoldable pub call : Call → Timers → Timers
call (create malloc now proc usecs periodic) s = (tmr_create malloc now proc usecs periodic s).1
call (reset now a) s = tmr_reset now a s
call (cancel a) s = tmr_cancel a s
call cleanup s = tmr_cleanup s
call destroy s = tmr_destroy s

-- The clock is normal, `malloc` gives no struct in use, and only a running timer is reset or
-- cancelled.
abbrev pub IsLegal : Call → Timers → Type 0
IsLegal (create malloc now proc usecs periodic) s = IsNormal now × IsFresh malloc s
IsLegal (reset now a) s = IsNormal now × IsActive a s
IsLegal (cancel a) s = IsActive a s
IsLegal cleanup s = Unit
IsLegal destroy s = Unit

pub call-IsWellFormed :
    (c : Call) (s : Timers) → IsLegal c s → IsWellFormed s → IsWellFormed (call c s)
unfolding call
call-IsWellFormed (create malloc now proc usecs periodic) s (n, f) w =
    tmr_create-IsWellFormed malloc now proc usecs periodic s n f w
call-IsWellFormed (reset now a) s (n, _) w = tmr_reset-IsWellFormed now a s n w
call-IsWellFormed (cancel a) s h w = tmr_cancel-IsWellFormed s a w h
call-IsWellFormed cleanup s h w =
    unfold tmr_cleanup in
    record { sorted = w.sorted; normal = w.normal; once = λ a. omega (arith, w.once a) }
call-IsWellFormed destroy s h w =
    unfold tmr_destroy in record { sorted = tt; normal = tt; once = λ a. omega arith }

unfoldable pub calls : List Call → Timers → Timers
unfolding call
calls [] s = s
calls (c ∷ cs) s = calls cs (call c s)

abbrev pub AllLegal : List Call → Timers → Type 0
AllLegal [] s = Unit
AllLegal (c ∷ cs) s = IsLegal c s × AllLegal cs (call c s)

-- After any sequence of legal calls the queue is sorted, its times are normal, and no struct is on
-- the lists twice.
pub calls-IsWellFormed :
    (cs : List Call) (s : Timers) → AllLegal cs s → IsWellFormed s → IsWellFormed (calls cs s)
unfolding calls
calls-IsWellFormed [] s h w = w
calls-IsWellFormed (c ∷ cs) s (h, hs) w =
    calls-IsWellFormed cs (call c s) hs (call-IsWellFormed c s h w)

-- What a call takes from `malloc` and gives to `free`.
abbrev taken : Call → Timers → ℕ → ℕ
taken (create (some x) now proc usecs periodic) s a = elim s.free_timers [
  | [] ↦ if x == a then 1 else 0
  | _ ∷ _ ↦ 0
]
taken _ s a = 0

abbrev given : Call → Timers → ℕ → ℕ
given cleanup s a = count a s.free_timers
given destroy s a = owned a s
given _ s a = 0

count_addr-added :
    (a : ℕ) (t : Timer) (l : List Timer) → count_addr a (list_add t l) ≡ count_addr a (t ∷ l)
count_addr-added a t l = rw (list_add_lem t l) (count_addr-list_add a t l)

owned-create :
    (malloc : Option ℕ) (now : Timeval) (proc usecs : ℕ) (periodic : Bool) (s : Timers) (a : ℕ)
    → owned a (tmr_create malloc now proc usecs periodic s).1
      ≡ owned a s + taken (create malloc now proc usecs periodic) s a
unfolding tmr_create alloc new_timer
owned-create malloc now proc usecs periodic s a = go s.free_timers malloc
  where
    t : ℕ → Timer
    t b = new_timer b now proc usecs periodic

    go :
        (free : List ℕ) (malloc : Option ℕ)
        → let s' = record s { free_timers = free } in
          owned a (tmr_create malloc now proc usecs periodic s').1
          ≡ owned a s' + taken (create malloc now proc usecs periodic) s' a
    go [] none = omega arith
    go [] (some x) = ground (arith, count_addr-added a (t x) s.timers)
    go (x ∷ rest) none = ground (arith, count_addr-added a (t x) s.timers)
    go (x ∷ rest) (some y) = ground (arith, count_addr-added a (t x) s.timers)

owned-reset : (now : Timeval) (b : ℕ) (s : Timers) (a : ℕ) → owned a (tmr_reset now b s) ≡ owned a s
unfolding tmr_reset
owned-reset now b s a = elim (Option-cases (lookup_next b s.timers)) [
  | inl e ↦ rw (e, tmr_reset)
  | inr ((t, n), e) ↦
      let (same, active) = lookup_next-addr b s.timers e in
      let t' : Timer = record t { time = add_usecs now t.usecs } in
      rw (e, tmr_reset)
        (unfold list_resort in
          ground (
            arith,
            same,
            count_addr-added a t' (list_remove t.addr s.timers),
            count_addr-list_remove a t.addr s.timers
                (subst (λ b. 0 < count_addr b s.timers) (sym same) active),
          ))
]

count-cancel_all :
    (a : ℕ) (l : List Timer) (free : List ℕ)
    → count a (cancel_all l free) ≡ count_addr a l + count a free
unfolding cancel_all
count-cancel_all a [] free = omega arith
count-cancel_all a (t ∷ rest) free = ground (arith, count-cancel_all a rest (t.addr ∷ free))

-- Every call keeps account of the structs: what is on the two lists afterwards, and what the call
-- has given to `free`, is what was on them before and what the call has taken from `malloc`.
-- `tmr_create` takes one if the free list is empty, `tmr_cleanup` and `tmr_destroy` give back.
pub owned-call :
    (c : Call) (s : Timers) (a : ℕ)
    → IsLegal c s
    → owned a (call c s) + given c s a ≡ owned a s + taken c s a
unfolding call
owned-call (create malloc now proc usecs periodic) s a h =
    omega (arith, owned-create malloc now proc usecs periodic s a)
owned-call (reset now b) s a h = omega (arith, owned-reset now b s a)
owned-call (cancel b) s a h =
    unfold tmr_cancel in ground (arith, count_addr-list_remove a b s.timers h)
owned-call cleanup s a h = unfold tmr_cleanup in omega arith
owned-call destroy s a h = unfold tmr_destroy in omega arith
