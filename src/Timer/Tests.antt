-- ===== src/Timer/Tests.antt =====
-- Runs of the definitions for timer.c, and its theorems at concrete queues.
use i_perf_demo_runtime.Common.{
  All, List, [], arith, false, none, refl, some, true, ℕ, ◌+◌, ◌∷◌, ◌≡◌,
}
use i_perf_demo_runtime.Timer.{
  Timer, Timers, Timeval, done, earlier, is_due, list_add, new_timer, tmr_cancel, tmr_create,
  tmr_reset, tmr_run, tmr_timeout, to_usecs,
}
use i_perf_demo_runtime.Timer.Order.{list_add-split, tmr_timeout-least}
use i_perf_demo_runtime.Timer.Invariant.{IsActive, IsWellFormed, owned, tmr_reset-IsWellFormed}
use i_perf_demo_runtime.Timer.Rounds.{Settled}
use i_perf_demo_runtime.Timer.Runs.{Ends, Throughout, tmr_run-Ends, tmr_run-IsWellFormed}
use i_perf_demo_runtime.Alarms.Procs.{count_addr-tmr_reset}
use i_perf_demo_runtime.Timer.Calls.{
  AllLegal, Call, call, calls, calls-IsWellFormed, cancel, cleanup, create, owned-call, reset,
}

abbrev timeval : ℕ → ℕ → Timeval
timeval sec usec = record { tv_sec = sec; tv_usec = usec }

abbrev stats : Timer
stats = record { addr = 1; proc = 10; time = timeval 5 0; usecs = 1000000; periodic = true }

abbrev reporter : Timer
reporter = record { addr = 2; proc = 11; time = timeval 5 0; usecs = 1000000; periodic = true }

abbrev duration : Timer
duration = record {
  addr = 3;
  proc = 12;
  time = timeval 9 500000;
  usecs = 5000000;
  periodic = false;
}

abbrev queue : Timers
queue = record { timers = stats ∷ reporter ∷ duration ∷ []; free_timers = 4 ∷ [] }

queue-IsWellFormed : IsWellFormed queue
unfolding to_usecs
queue-IsWellFormed = record { sorted = omega arith; normal = omega arith; once = λ a. ground arith }

-- The procs are logged, oldest last.
abbrev logs : Timer → Timeval → Timers → List ℕ → Timers × List ℕ
logs t now s w = (s, t.proc ∷ w)

-- The omit timer resets the stats timer.
abbrev resets : Timer → Timeval → Timers → List ℕ → Timers × List ℕ
resets t now s w = (tmr_reset now 1 s, w)

run_logs :
    tmr_run logs 10 (timeval 5 200000) queue []
    ≡ done
        (record queue {
          timers =
              record stats { time = timeval 6 0 }
              ∷ record reporter { time = timeval 6 0 }
              ∷ duration
              ∷ [];
        })
        (11 ∷ 10 ∷ [])
unfolding tmr_run earlier
run_logs = refl

tmr_run-Ends_example :
    Ends
      (tmr_run logs 20000000 (timeval 9 600000) queue [])
      (λ s' w'. IsWellFormed s' × All (Settled (timeval 9 600000)) s'.timers)
unfolding to_usecs is_due
tmr_run-Ends_example =
    tmr_run-Ends logs (λ t now s w. refl) 20000000 (timeval 9 600000) queue [] (omega arith)
      queue-IsWellFormed (omega arith) (omega arith)

resets-IsActive :
    (s : Timers) (now : Timeval) (a : ℕ) → IsActive a s → IsActive a (tmr_reset now 1 s)
resets-IsActive s now a h = omega (arith, count_addr-tmr_reset a now 1 s)

tmr_run-IsWellFormed_example :
    Throughout (tmr_run resets 20 (timeval 9 600000) queue []) (λ s' w'. IsWellFormed s')
tmr_run-IsWellFormed_example =
    tmr_run-IsWellFormed resets
      (λ t now s w n wf. (tmr_reset-IsWellFormed now 1 s n wf, resets-IsActive s now)) 20
      (timeval 9 600000) queue [] (omega arith) queue-IsWellFormed

abbrev session : List Call
session = create none (timeval 1 0) 13 100000 true ∷ cancel 3 ∷ reset (timeval 2 0) 1 ∷ cleanup ∷ []

session-AllLegal : AllLegal session queue
unfolding call tmr_create earlier new_timer tmr_cancel
session-AllLegal = ((omega arith, tt), (omega arith, ((omega arith, omega arith), (tt, tt))))

calls-IsWellFormed_example : IsWellFormed (calls session queue)
calls-IsWellFormed_example = calls-IsWellFormed session queue session-AllLegal queue-IsWellFormed

owned-call_example : owned 3 (call (cancel 3) queue) + 0 ≡ owned 3 queue + 0
owned-call_example = owned-call (cancel 3) queue 3 (omega arith)

list_add-split_example :
    list_add (record duration { addr = 5; time = timeval 5 0 }) queue.timers
    ≡ stats ∷ reporter ∷ record duration { addr = 5; time = timeval 5 0 } ∷ duration ∷ []
unfolding to_usecs
list_add-split_example =
    list_add-split (record duration { addr = 5; time = timeval 5 0 }) queue.timers (omega arith)
      queue-IsWellFormed.normal queue-IsWellFormed.sorted

tmr_timeout-least_example : tmr_timeout (timeval 4 750000) queue ≡ some (timeval 0 250000)
unfolding to_usecs
tmr_timeout-least_example = tmr_timeout-least (timeval 4 750000) queue queue-IsWellFormed.sorted
