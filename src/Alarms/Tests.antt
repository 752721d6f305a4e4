-- ===== src/Alarms/Tests.antt =====
-- Examples for the timers of a test.
use i_perf_demo_runtime.Common.{
  Bool-cases, List, Option, [], arith, false, if◌then◌else◌, inl, inr, none, refl, some, true, ℕ,
  ◌==◌, ◌∷◌, ◌≡◌,
}
use i_perf_demo_runtime.Common.Int.{pos}
use i_perf_demo_runtime.Config.Samples.{tcp_server}
use i_perf_demo_runtime.Timer.{Timers, Timeval, earlier, to_usecs}
use i_perf_demo_runtime.Timer.Invariant.{IsFresh, owned}
use i_perf_demo_runtime.Alarms.{
  Alarms, create_client_timers, create_omit_timer, fire_alarm, release_timers, stats_callback,
}
use i_perf_demo_runtime.Alarms.Held.{Held}
use i_perf_demo_runtime.Alarms.Acts.{
  Act, acts, acts-Held, client_starts, fires, omission_starts, releases,
}

-- The first of four structs that is not in use.
abbrev first_free : Timers → Option ℕ
first_free s =
    if owned 7 s == 0
    then some 7
    else if owned 8 s == 0
    then some 8
    else if owned 9 s == 0
    then some 9
    else none

first_free-IsFresh : (s : Timers) → IsFresh (first_free s) s
first_free-IsFresh s = elim (Bool-cases (owned 7 s == 0)) [
  | inl e ↦ rw e (ground arith)
  | inr e ↦ rw e (elim (Bool-cases (owned 8 s == 0)) [
    | inl f ↦ rw f (ground arith)
    | inr f ↦
        rw f (elim (Bool-cases (owned 9 s == 0)) [ inl g ↦ rw g (ground arith) | inr g ↦ rw g tt ])
  ])
]

abbrev timeval : ℕ → Timeval
timeval sec = record { tv_sec = sec; tv_usec = 0 }

abbrev untimed : Alarms
untimed = record {
  test = record tcp_server {
    duration = pos 3;
    omit = pos 1;
    stats_interval = pos 1000000;
    reporter_interval = pos 0;
  };
  pointer = λ k. none;
  omitting = false;
  streams = [];
  callbacks = [];
  queue = record { timers = []; free_timers = [] };
  stale = false;
}

untimed-Held : Held untimed
unfolding to_usecs
untimed-Held = record {
  wf = record { sorted = tt; normal = tt; once = λ a. omega arith };
  each = λ k. tt;
  fresh = refl;
}

-- A client's test of three seconds after one that is omitted: the omit timer and the statistics
-- timer fire, then the timer of the test, and all is released twice.
abbrev whole_test : List Act
whole_test =
    client_starts (some (timeval 10))
    ∷ omission_starts (some (timeval 10))
    ∷ fires (timeval 11) 8
    ∷ fires (timeval 11) 9
    ∷ fires (timeval 14) 7
    ∷ releases []
    ∷ releases []
    ∷ []

acts-Held_example : Held (acts first_free whole_test untimed)
unfolding to_usecs
acts-Held_example =
    acts-Held first_free first_free-IsFresh whole_test untimed (omega arith) untimed-Held

whole_test_runs :
    let a = acts first_free whole_test untimed in
    (a.callbacks ≡ stats_callback ∷ []) × ((a.test.done ≡ true) × (a.queue.timers ≡ []))
unfolding acts release_timers fire_alarm create_omit_timer create_client_timers earlier
whole_test_runs = (refl, (refl, refl))
