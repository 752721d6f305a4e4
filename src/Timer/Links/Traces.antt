-- ===== src/Timer/Links/Traces.antt =====
-- Sequences of calls of timer.c on the pointers.
use i_perf_demo_runtime.Common.{
  List, Option, [], arith, length, none, refl, some, suc, sym, zero, ℕ, ◌+◌, ◌∙◌, ◌∷◌, ◌≡◌, ◌≤◌,
}
use i_perf_demo_runtime.Timer.{
  Timer, Timers, cancel_all, tmr_cancel, tmr_cleanup, tmr_create, tmr_destroy,
}
use i_perf_demo_runtime.Timer.Invariant.{IsActive, count_addr}
use i_perf_demo_runtime.Timer.Calls.{
  Call, IsLegal, call, calls, cancel, cleanup, create, destroy, reset,
}
use i_perf_demo_runtime.Timer.Links.Sizes.{length-cancel_all, size, size-call}
use i_perf_demo_runtime.Timer.Links.{
  Structs, cancel_struct, cancel_structs, create_struct, destroy_structs, free_structs,
  reset_struct,
}
use i_perf_demo_runtime.Timer.Links.Chain.{Chain, Chain-frame, FreeChain, Represents}
use i_perf_demo_runtime.Timer.Links.Create.{CreateRefines, tmr_create-Refines}
use mathlib.Core.Path.{subst}
use i_perf_demo_runtime.Timer.Links.Remove.{list_remove_first}
use i_perf_demo_runtime.Timer.Links.Refines.{
  Refines, count_le, tmr_cancel-Represents, tmr_reset-Refines,
}

abbrev without_struct : Option (Option ℕ × Structs) → Option Structs
without_struct none = none
without_struct (some (_, s)) = some s

unfoldable pub struct_call : ℕ → Call → Structs → Option Structs
unfolding create_struct reset_struct cancel_struct free_structs destroy_structs
struct_call fuel (create malloc now proc usecs periodic) s =
    without_struct (create_struct fuel malloc now proc usecs periodic s)
struct_call fuel (reset now a) s = reset_struct fuel now a s
struct_call fuel (cancel a) s = some (cancel_struct a s)
struct_call fuel cleanup s = free_structs fuel s.free s
struct_call fuel destroy s = destroy_structs fuel s

without_struct-Refines :
    (o : Option (Option ℕ × Structs)) (r : Option ℕ × Timers)
    → CreateRefines o r
    → Refines (without_struct o) r.1
without_struct-Refines none r h = h
without_struct-Refines (some (_, s)) r (_, h) = h

free_structs-Refines :
    (free : List ℕ) (fuel : ℕ) (s : Structs) (p : Option ℕ) (xs : List Timer)
    → length free ≤ fuel
    → FreeChain s p free
    → Chain s none s.head xs
    → ((a : ℕ) → count_addr a xs ≤ 1)
    → Refines (free_structs fuel p s) (record { timers = xs; free_timers = [] })
unfolding free_structs
free_structs-Refines [] fuel s p xs le e c once = rw e record {
  active = Chain-frame s (record s { free = none }) xs none s.head c (λ a h. (refl, refl, refl));
  spare = refl;
  once = λ a. omega (arith, once a);
}
free_structs-Refines (a ∷ free) zero s p xs le e c once = elim le [ ]
free_structs-Refines (a ∷ free) (suc fuel) s p xs le (e, f) c once =
    rw e (free_structs-Refines free fuel s (s.next a) xs (omega arith) f c once)

tmr_cancel_first :
    (x : Timer) (rest : List Timer) (free : List ℕ)
    → tmr_cancel x.addr (record { timers = x ∷ rest; free_timers = free })
      ≡ record { timers = rest; free_timers = x.addr ∷ free }
unfolding tmr_cancel
tmr_cancel_first x rest free = rw (list_remove_first x rest) refl

cancel_structs-Refines :
    (xs : List Timer) (fuel : ℕ) (s : Structs) (p : Option ℕ) (free : List ℕ)
    → length xs ≤ fuel
    → s.head ≡ p
    → Represents s (record { timers = xs; free_timers = free })
    → Refines (cancel_structs fuel p s) (record { timers = []; free_timers = cancel_all xs free })
unfolding cancel_structs cancel_all
cancel_structs-Refines [] fuel s p free le n r = rw (sym n ∙ r.active) r
cancel_structs-Refines (x ∷ rest) zero s p free le n r = elim le [ ]
cancel_structs-Refines (x ∷ rest) (suc fuel) s p free le n r =
    let q : Timers = record { timers = x ∷ rest; free_timers = free } in
    let r' : Represents (cancel_struct x.addr s)
        (record { timers = rest; free_timers = x.addr ∷ free }) =
      subst (Represents (cancel_struct x.addr s)) (tmr_cancel_first x rest free)
        (tmr_cancel-Represents s q x.addr (ground arith) r) in
    rw (sym n ∙ r.active.0) (
      cancel_structs-Refines rest fuel (cancel_struct x.addr s) (cancel_struct x.addr s).head
        (x.addr ∷ free) (omega arith) refl r')

destroy-Refines :
    (fuel : ℕ) (s : Structs) (q : Timers)
    → length q.timers + length q.free_timers ≤ fuel
    → Represents s q
    → Refines (destroy_structs fuel s) (tmr_destroy q)
unfolding destroy_structs tmr_destroy tmr_cleanup
destroy-Refines fuel s q le r =
    go _ (cancel_structs-Refines q.timers fuel s s.head q.free_timers (omega arith) refl r)
  where
    go :
        (o : Option Structs)
        → Refines o (record { timers = []; free_timers = cancel_all q.timers q.free_timers })
        → Refines
            (elim o [ none ↦ none | some s' ↦ free_structs fuel s'.free s' ])
            (record { timers = []; free_timers = [] })
    go none h = h
    go (some s') h =
        free_structs-Refines (cancel_all q.timers q.free_timers) fuel s' s'.free []
          (omega (arith, length-cancel_all q.timers q.free_timers)) h.spare h.active
          (λ a. omega arith)

-- A running timer is reset; the rest is as for the queue.
abbrev pub IsLegalOnStructs : Call → Timers → Type 0
IsLegalOnStructs (reset now a) q = IsActive a q
IsLegalOnStructs c q = IsLegal c q

struct_call-Refines :
    (c : Call) (fuel : ℕ) (s : Structs) (q : Timers)
    → size q ≤ fuel
    → IsLegalOnStructs c q
    → Represents s q
    → Refines (struct_call fuel c s) (call c q)
unfolding struct_call call
struct_call-Refines (create malloc now proc usecs periodic) fuel s q le (_, f) r =
    without_struct-Refines _ (tmr_create malloc now proc usecs periodic q)
      (tmr_create-Refines fuel malloc now proc usecs periodic s q (omega arith) f r)
struct_call-Refines (reset now a) fuel s q le h r =
    tmr_reset-Refines fuel now s q a (omega arith) h r
struct_call-Refines (cancel a) fuel s q le h r = tmr_cancel-Represents s q a h r
struct_call-Refines cleanup fuel s q le h r =
    unfold tmr_cleanup in
    free_structs-Refines q.free_timers fuel s s.free q.timers (omega arith) r.spare r.active
      (count_le q r.once)
struct_call-Refines destroy fuel s q le h r = destroy-Refines fuel s q le r

unfoldable pub struct_calls : ℕ → List Call → Structs → Option Structs
unfolding struct_call
struct_calls fuel [] s = some s
struct_calls fuel (c ∷ cs) s = elim (struct_call fuel c s) [
  | none ↦ none
  | some s' ↦ struct_calls fuel cs s'
]

abbrev pub AllLegalOnStructs : List Call → Timers → Type 0
AllLegalOnStructs [] q = Unit
AllLegalOnStructs (c ∷ cs) q = IsLegalOnStructs c q × AllLegalOnStructs cs (call c q)

-- The pointers of timer.c implement the queue: along any sequence of legal calls the loops end
-- within as many rounds as there are structs, and the structs at the end are linked, in both
-- directions, in the order of the queue that the same calls leave, hold its timers, and have its free
-- list.
pub struct_calls-Refines :
    (cs : List Call) (fuel : ℕ) (s : Structs) (q : Timers)
    → length q.timers + length q.free_timers + length cs ≤ fuel
    → AllLegalOnStructs cs q
    → Represents s q
    → Refines (struct_calls fuel cs s) (calls cs q)
unfolding struct_calls calls
struct_calls-Refines [] fuel s q le h r = r
struct_calls-Refines (c ∷ cs) fuel s q le (h, hs) r =
    go (struct_call fuel c s) (struct_call-Refines c fuel s q (omega arith) h r)
      (λ s'. struct_calls-Refines cs fuel s' (call c q) (omega (arith, size-call c q)) hs)
  where
    go :
        (o : Option Structs)
        → Refines o (call c q)
        → ((s' : Structs)
            → Represents s' (call c q)
            → Refines (struct_calls fuel cs s') (calls cs (call c q)))
        → Refines (elim o [ none ↦ none | some s' ↦ struct_calls fuel cs s' ]) (calls cs (call c q))
    go none h k = absurd h
    go (some s') r' k = k s' r'
