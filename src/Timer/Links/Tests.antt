-- ===== src/Timer/Links/Tests.antt =====
-- Runs of timer.c on the pointers.
use i_perf_demo_runtime.Common.{List, Option, [], arith, false, none, refl, some, true, ℕ, ◌∷◌, ◌≡◌}
use i_perf_demo_runtime.Timer.{
  Timers, Timeval, earlier, new_timer, tmr_cancel, tmr_create, tmr_reset,
}
use i_perf_demo_runtime.Timer.Calls.{Call, call, calls, cancel, create, reset}
use i_perf_demo_runtime.Timer.Links.{Structs}
use i_perf_demo_runtime.Timer.Links.Refines.{Refines}
use i_perf_demo_runtime.Timer.Links.Traces.{AllLegalOnStructs, struct_calls, struct_calls-Refines}

abbrev at_second : ℕ → Timeval
at_second n = record { tv_sec = n; tv_usec = 0 }

abbrev no_structs : Structs
no_structs = record {
  head = none;
  free = none;
  prev = λ _. none;
  next = λ _. none;
  fields = λ a. record { addr = a; proc = 0; time = at_second 0; usecs = 0; periodic = false };
}

abbrev no_timers : Timers
no_timers = record { timers = []; free_timers = [] }

-- Two timers, the first of which is moved behind the second; its struct is then used again.
abbrev mixed_calls : List Call
mixed_calls =
    create (some 1) (at_second 0) 10 1000000 true
    ∷ create (some 2) (at_second 0) 11 5000000 false
    ∷ reset (at_second 6) 1
    ∷ cancel 1
    ∷ create none (at_second 1) 12 1000000 true
    ∷ []

mixed_calls-legal : AllLegalOnStructs mixed_calls no_timers
unfolding call tmr_create tmr_reset tmr_cancel new_timer earlier
mixed_calls-legal = (
  (omega arith, refl),
  ((omega arith, refl), (omega arith, (omega arith, ((omega arith, tt), tt)))),
)

abbrev order : Option Structs → Option (Option ℕ × Option ℕ)
order none = none
order (some s) = some (s.head, s.next 1)

-- The struct of the cancelled timer comes back at the head.
mixed_calls-order : order (struct_calls 10 mixed_calls no_structs) ≡ some (some 1, some 2)
unfolding struct_calls
mixed_calls-order = refl

struct_calls-Refines_example :
    Refines (struct_calls 10 mixed_calls no_structs) (calls mixed_calls no_timers)
struct_calls-Refines_example =
    struct_calls-Refines mixed_calls 10 no_structs no_timers (omega arith) mixed_calls-legal
      (record { active = refl; spare = refl; once = λ a. omega arith })
