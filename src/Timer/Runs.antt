-- ===== src/Timer/Runs.antt =====
-- `tmr_run` of timer.c as a whole.
use i_perf_demo_runtime.Common.{
  All, Bool-cases, List, Option, Option-cases, ap, arith, false, if◌then◌else◌, inl, inr, none,
  refl, some, suc, sym, true, zero, ℕ, ◌<◌, ◌∙◌, ◌≡◌, ◌≢◌,
}
use mathlib.Core.Path.{subst}
use i_perf_demo_runtime.Timer.{
  Run, Timer, Timers, Timeval, add_usecs, dangling, done, fire, first_addr, is_due, list_add_after,
  list_remove, list_resort, lookup_next, out_of_fuel, run_loop, tmr_after, tmr_cancel, tmr_run,
}
use i_perf_demo_runtime.Timer.Order.{
  All-list_add, All-list_remove, IsNormal, list_add_lem, to_usecs-add_usecs,
}
use i_perf_demo_runtime.Timer.Invariant.{
  IsActive, IsWellFormed, count_addr, count_addr-list_add, count_addr-list_remove, lookup_next-All,
  lookup_next-addr, tmr_after-IsWellFormed,
}
use i_perf_demo_runtime.Timer.Rounds.{
  Advances, Passed, Passed-end, Passed-first, Passed-list_add, Passed-list_remove, Reached,
  Reached-first, Reached-list_add, Reached-list_remove, Settled, Settled-stop, cost, cost-list_add,
  cost-list_remove, is_due-true, lookup_next-none, rounds,
}

-- What holds when a run has ended: it returned, and what it left.
abbrev pub Ends {ℓ} : {W : Type ℓ} → Run W → (Timers → W → Type 0) → Type 0
Ends (done s w) P = P s w
Ends dangling P = ⊥
Ends (out_of_fuel s w) P = ⊥

-- What holds after the rounds of a run, which has not followed a pointer off the list.
abbrev pub Throughout {ℓ} : {W : Type ℓ} → Run W → (Timers → W → Type 0) → Type 0
Throughout (done s w) P = P s w
Throughout dangling P = ⊥
Throughout (out_of_fuel s w) P = P s w

record Ready (now : Timeval) (p : Option ℕ) (s : Timers) : Type 0 where
  wf : IsWellFormed s
  forward : All Advances s.timers
  passed : Passed p s.timers
  reached : Reached p s.timers

pub lookup_next_self :
    (a : ℕ) (l : List Timer) {t : Timer} {n : Option ℕ}
    → lookup_next a l ≡ some (t, n)
    → lookup_next t.addr l ≡ some (t, n)
lookup_next_self a l {t} {n} e =
    subst (λ b. lookup_next b l ≡ some (t, n)) (sym (lookup_next-addr a l e).0) e

abbrev moved : Timer → Timer
moved t = record t { time = add_usecs t.time t.usecs }

rounds_due :
    (now : Timeval) (t : Timer)
    → IsNormal now
    → IsNormal t.time
    → Advances t
    → is_due now t ≡ true
    → t.periodic ≡ true
    → rounds now (moved t) < rounds now t
rounds_due now t hn ht adv d p =
    let sum = to_usecs-add_usecs t.time t.usecs ht in
    let le = is_due-true now t hn ht d in
    let pos = adv p in
    elim (Bool-cases (is_due now (moved t))) [
      | inl e ↦ let le' = is_due-true now (moved t) hn sum.1 e in rw (e, d, p) (omega arith)
      | inr e ↦ rw (e, d, p) (omega arith)
    ]

tmr_after_periodic :
    (t : Timer) (s : Timers)
    → t.periodic ≡ true
    → tmr_after t s ≡ record s { timers = list_add_after (moved t) (list_remove t.addr s.timers) }
unfolding tmr_after
tmr_after_periodic t s p =
    ap
      (λ b. if b then record s { timers = list_resort (moved t) s.timers } else tmr_cancel t.addr s)
      p
    ∙ ap (λ (l : List Timer). record s { timers = l })
        (unfold list_resort in list_add_lem (moved t) (list_remove t.addr s.timers))

tmr_after_once : (t : Timer) (s : Timers) → t.periodic ≡ false → tmr_after t s ≡ tmr_cancel t.addr s
unfolding tmr_after
tmr_after_once t s p =
    ap
      (λ b. if b then record s { timers = list_resort (moved t) s.timers } else tmr_cancel t.addr s)
      p

rounds_pos : (now : Timeval) (t : Timer) → is_due now t ≡ true → 0 < rounds now t
rounds_pos now t d = ground arith

-- One round of the loop, for a timer that is due.
Ready-tmr_after :
    (now : Timeval) (a : ℕ) (s : Timers) {t : Timer} {n : Option ℕ}
    → IsNormal now
    → Ready now (some a) s
    → lookup_next a s.timers ≡ some (t, n)
    → is_due now t ≡ true
    → Ready now n (tmr_after t s) × (cost now (tmr_after t s).timers < cost now s.timers)
Ready-tmr_after now a s {t} {n} hn r e d =
    let ht : IsNormal t.time = lookup_next-All _ a s.timers r.wf.normal e in
    let adv : Advances t = lookup_next-All _ a s.timers r.forward e in
    let found = lookup_next-addr a s.timers e in
    let here = lookup_next_self a s.timers e in
    let wf = tmr_after-IsWellFormed t s ht (rw found.0 found.1) r.wf in
    let passed : Passed n (list_remove t.addr s.timers) =
      Passed-list_remove t.addr s.timers here (rw found.0 r.passed) in
    let reached = Reached-list_remove t.addr s.timers here in
    let less = cost-list_remove now t.addr s.timers here in
    let forward = All-list_remove Advances t.addr s.timers r.forward in
    elim (Bool-cases t.periodic) [
      | inl p ↦
          let q = tmr_after_periodic t s p in
          rw q (
            record {
              wf = rw q at wf;
              forward = All-list_add Advances (moved t) _ adv forward;
              passed = Passed-list_add n (moved t) _ p passed;
              reached = Reached-list_add n (moved t) _ reached;
            },
            omega (
              arith,
              less,
              cost-list_add now (moved t) (list_remove t.addr s.timers),
              rounds_due now t hn ht adv d p,
            ),
          )
      | inr p ↦
          let q = tmr_after_once t s p in
          rw q (
            unfold tmr_cancel in
            (
              record { wf = rw q at wf; forward = forward; passed = passed; reached = reached },
              omega (arith, less, rounds_pos now t d),
            ))
    ]

-- The timer behind one that fires is another one.
next_differs :
    (s : Timers) {t : Timer} {n : Option ℕ}
    → IsWellFormed s
    → lookup_next t.addr s.timers ≡ some (t, n)
    → (b : ℕ) → n ≡ some b
    → t.addr ≢ b
next_differs s {t} {n} wf e b q =
    let left : Reached (some b) (list_remove t.addr s.timers) =
      subst (λ m. Reached m (list_remove t.addr s.timers)) q
        (Reached-list_remove t.addr s.timers e) in
    ground (
      arith,
      wf.once b,
      count_addr-list_remove b t.addr s.timers (lookup_next-addr t.addr s.timers e).1,
    )

-- It is still there when the one that has fired is put back or cancelled.
Reached-tmr_after :
    (n : Option ℕ) (t : Timer) (s : Timers)
    → ((b : ℕ) → n ≡ some b → t.addr ≢ b)
    → Reached n s.timers
    → IsActive t.addr s
    → Reached n (tmr_after t s).timers
Reached-tmr_after none t s h r q = tt
Reached-tmr_after (some b) t s h r q =
    let differs = h b refl in
    let removed = count_addr-list_remove b t.addr s.timers q in
    elim (Bool-cases t.periodic) [
      | inl p ↦ rw (tmr_after_periodic t s p) (
          ground (
            arith,
            differs,
            removed,
            count_addr-list_add b (moved t) (list_remove t.addr s.timers),
          ))
      | inr p ↦ rw (tmr_after_once t s p) (unfold tmr_cancel in ground (arith, differs, removed))
    ]

Reached-active :
    (n : Option ℕ) (s s' : Timers)
    → ((a : ℕ) → IsActive a s → IsActive a s')
    → Reached n s.timers
    → Reached n s'.timers
Reached-active none s s' h r = tt
Reached-active (some b) s s' h r = h b r

-- What a round finds behind the timer that fires is on the list.
Reached-next :
    (s : Timers) {t : Timer} {n : Option ℕ}
    → IsWellFormed s
    → lookup_next t.addr s.timers ≡ some (t, n)
    → Reached n s.timers
Reached-next s {t} {n} wf e = go n e
  where
    go : (m : Option ℕ) → lookup_next t.addr s.timers ≡ some (t, m) → Reached m s.timers
    go none e = tt
    go (some b) e = ground (
      arith,
      Reached-list_remove t.addr s.timers e,
      count_addr-list_remove b t.addr s.timers (lookup_next-addr t.addr s.timers e).1,
    )

module _ {ℓ} {W : Type ℓ} (timer_proc : Timer → Timeval → Timers → W → Timers × W) where
  abbrev pub IsQuiet : Type ℓ
  IsQuiet = (t : Timer) (now : Timeval) (s : Timers) (w : W) → (timer_proc t now s w).0 ≡ s

  fire-quiet :
      IsQuiet
      → (now : Timeval) (a : ℕ) (s : Timers) (w : W) {t : Timer} {n : Option ℕ}
      → lookup_next a s.timers ≡ some (t, n)
      → fire timer_proc now t s w ≡ some (tmr_after t s, (timer_proc t now s w).1)
  unfolding fire
  fire-quiet quiet now a s w {t} {n} e =
      let same = quiet t now s w in
      let here : lookup_next t.addr (timer_proc t now s w).0.timers ≡ some (t, n) =
        rw same (lookup_next_self a s.timers e) in
      rw (here, fire) (rw same)

  run_loop-Ends :
      IsQuiet
      → (fuel : ℕ) (now : Timeval) (p : Option ℕ) (s : Timers) (w : W) → IsNormal now
      → Ready now p s
      → cost now s.timers < fuel
      → Ends
          (run_loop timer_proc fuel now p s w)
          (λ s' w'. IsWellFormed s' × All (Settled now) s'.timers)
  unfolding run_loop
  run_loop-Ends quiet zero now p s w hn r h = absurd (omega arith)
  run_loop-Ends quiet (suc fuel) now none s w hn r h = (r.wf, Passed-end now s.timers r.passed)
  run_loop-Ends quiet (suc fuel) now (some a) s w hn r h =
      elim (Option-cases (lookup_next a s.timers)) [
        | inl e ↦ absurd (omega (arith, lookup_next-none a s.timers e, r.reached))
        | inr ((t, n), e) ↦ elim (Bool-cases (is_due now t)) [
          | inl d ↦
              let (ready, less) = Ready-tmr_after now a s hn r e d in
              rw (e, run_loop, d, fire-quiet quiet now a s w e)
                (run_loop-Ends quiet fuel now n (tmr_after t s) (timer_proc t now s w).1 hn ready
                  (omega arith))
          | inr d ↦
              rw (e, run_loop, d)
                (r.wf, Settled-stop now a s.timers hn r.wf.normal r.wf.sorted r.passed e d)
        ]
      ]

  -- With timer procs that leave the timers alone, and periodic timers that move forward, `tmr_run`
  -- returns: it never follows a pointer off the list, and as many rounds as `cost` counts are
  -- enough. It leaves a well-formed queue in which every timer that is due is a periodic one.
  pub tmr_run-Ends :
      IsQuiet
      → (fuel : ℕ) (now : Timeval) (s : Timers) (w : W) → IsNormal now
      → IsWellFormed s
      → All Advances s.timers
      → cost now s.timers < fuel
      → Ends
          (tmr_run timer_proc fuel now s w)
          (λ s' w'. IsWellFormed s' × All (Settled now) s'.timers)
  unfolding tmr_run
  tmr_run-Ends quiet fuel now s w hn wf adv h =
      run_loop-Ends quiet fuel now (first_addr s.timers) s w hn
        (record {
          wf = wf;
          forward = adv;
          passed = Passed-first s.timers;
          reached = Reached-first s.timers;
        })
        h

  -- A timer proc cancels no timer that runs.
  abbrev pub Keeps : Type ℓ
  Keeps =
      (t : Timer) (now : Timeval) (s : Timers) (w : W)
      → IsNormal now
      → IsWellFormed s
      → IsWellFormed (timer_proc t now s w).0
        × ((a : ℕ) → IsActive a s → IsActive a (timer_proc t now s w).0)

  record Fired (n : Option ℕ) (r : Option (Timers × W)) : Type ℓ where
    state : Timers × W
    fires : r ≡ some state
    kept : IsWellFormed state.0
    reached : Reached n state.0.timers

  fire-Fired :
      Keeps
      → (now : Timeval) (a : ℕ) (s : Timers) (w : W) {t : Timer} {n : Option ℕ} → IsNormal now
      → IsWellFormed s
      → lookup_next a s.timers ≡ some (t, n)
      → Fired n (fire timer_proc now t s w)
  unfolding fire
  fire-Fired keeps now a s w {t} {n} hn wf e =
      let (wf1, active) = keeps t now s w hn wf in
      let s1 = (timer_proc t now s w).0 in
      let here = lookup_next_self a s.timers e in
      let found = lookup_next-addr t.addr s.timers here in
      elim (Option-cases (lookup_next t.addr s1.timers)) [
        | inl q ↦ absurd (omega (arith, lookup_next-none t.addr s1.timers q, active t.addr found.1))
        | inr ((t1, n1), q) ↦
            let found1 = lookup_next-addr t.addr s1.timers q in
            let ht : IsNormal t1.time = lookup_next-All _ t.addr s1.timers wf1.normal q in
            rw (q, fire)
              (record {
                state = (tmr_after t1 s1, (timer_proc t now s w).1);
                fires = refl;
                kept =
                    tmr_after-IsWellFormed t1 s1 ht
                      (subst (λ b. 0 < count_addr b s1.timers) (sym found1.0) found1.1) wf1;
                reached =
                    Reached-tmr_after n t1 s1
                      (λ b m. subst (λ x. x ≢ b) (sym found1.0) (next_differs s wf here b m))
                      (Reached-active n s s1 active (Reached-next s wf here))
                      (subst (λ b. 0 < count_addr b s1.timers) (sym found1.0) found1.1);
              })
      ]

  run_loop-IsWellFormed :
      Keeps
      → (fuel : ℕ) (now : Timeval) (p : Option ℕ) (s : Timers) (w : W) → IsNormal now
      → IsWellFormed s
      → Reached p s.timers
      → Throughout (run_loop timer_proc fuel now p s w) (λ s' w'. IsWellFormed s')
  unfolding run_loop
  run_loop-IsWellFormed keeps zero now none s w hn wf r = wf
  run_loop-IsWellFormed keeps zero now (some a) s w hn wf r = wf
  run_loop-IsWellFormed keeps (suc fuel) now none s w hn wf r = wf
  run_loop-IsWellFormed keeps (suc fuel) now (some a) s w hn wf r =
      elim (Option-cases (lookup_next a s.timers)) [
        | inl e ↦ absurd (omega (arith, lookup_next-none a s.timers e, r))
        | inr ((t, n), e) ↦ elim (Bool-cases (is_due now t)) [
          | inr d ↦ rw (e, run_loop, d) wf
          | inl d ↦
              let f = fire-Fired keeps now a s w hn wf e in
              rw (e, run_loop, d, f.fires)
                (run_loop-IsWellFormed keeps fuel now n f.state.0 f.state.1 hn f.kept f.reached)
        ]
      ]

  -- Whatever else the timer procs do with the timers, if each call of one leaves the queue well formed
  -- and cancels no timer that runs, then `tmr_run` never follows a pointer off the list, and the
  -- queue is well formed after any number of its rounds, at its end included.
  pub tmr_run-IsWellFormed :
      Keeps
      → (fuel : ℕ) (now : Timeval) (s : Timers) (w : W) → IsNormal now
      → IsWellFormed s
      → Throughout (tmr_run timer_proc fuel now s w) (λ s' w'. IsWellFormed s')
  unfolding tmr_run
  tmr_run-IsWellFormed keeps fuel now s w hn wf =
      run_loop-IsWellFormed keeps fuel now (first_addr s.timers) s w hn wf (Reached-first s.timers)
