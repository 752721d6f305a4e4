-- ===== src/Timer/Rounds.antt =====
-- The loop of `tmr_run` in timer.c, round by round.
use i_perf_demo_runtime.Common.{
  All, Bool, Bool-cases, List, Option, [], arith, false, if◌then◌else◌, inl, inr, none, refl, some,
  true, ℕ, ◌+◌, ◌-◌, ◌<◌, ◌==◌, ◌∷◌, ◌≡◌, ◌≤◌, ◌⊎◌,
}
use i_perf_demo_runtime.Timer.{
  Timer, Timeval, earlier, first_addr, is_due, list_add_after, list_remove, lookup_next, to_usecs,
}
use i_perf_demo_runtime.Timer.Order.{AllNormal, IsNormal, IsSorted, usecs_of}
use i_perf_demo_runtime.Timer.Invariant.{count_addr, count_addr-list_add}

-- The rounds that a timer may still take.
abbrev pub rounds : Timeval → Timer → ℕ
rounds now t = if is_due now t then (if t.periodic then to_usecs now - usecs_of t + 1 else 1) else 0

abbrev pub cost : Timeval → List Timer → ℕ
cost now [] = 0
cost now (t ∷ rest) = rounds now t + cost now rest

-- A periodic timer moves forward.
abbrev pub Advances : Timer → Type 0
Advances t = t.periodic ≡ true → 0 < t.usecs

-- A timer that is due is periodic.
abbrev pub Settled : Timeval → Timer → Type 0
Settled now u = is_due now u ≡ true → u.periodic ≡ true

abbrev pub points_at : Option ℕ → ℕ → Bool
points_at none b = false
points_at (some a) b = a == b

-- All timers in front of the one that the loop has reached are periodic.
abbrev pub Passed : Option ℕ → List Timer → Type 0
Passed p [] = Unit
Passed p (t ∷ rest) = (points_at p t.addr ≡ true) ⊎ ((t.periodic ≡ true) × Passed p rest)

abbrev pub Reached : Option ℕ → List Timer → Type 0
Reached none l = Unit
Reached (some a) l = 0 < count_addr a l

pub is_due-true :
    (now : Timeval) (t : Timer)
    → IsNormal now
    → IsNormal t.time
    → is_due now t ≡ true
    → usecs_of t ≤ to_usecs now
unfolding is_due to_usecs
is_due-true now t hn ht h = ground arith

pub is_due-false :
    (now : Timeval) (t : Timer)
    → IsNormal now
    → IsNormal t.time
    → is_due now t ≡ false
    → to_usecs now < usecs_of t
unfolding is_due to_usecs
is_due-false now t hn ht h = ground arith

pub cost-list_add :
    (now : Timeval) (t : Timer) (l : List Timer)
    → cost now (list_add_after t l) ≡ rounds now t + cost now l
unfolding list_add_after
cost-list_add now t [] = refl
cost-list_add now t (x ∷ rest) = elim (Bool-cases (earlier t.time x.time)) [
  | inl e ↦ rw e
  | inr e ↦ rw e (omega (arith, cost-list_add now t rest))
]

pub cost-list_remove :
    (now : Timeval) (a : ℕ) (l : List Timer) {t : Timer} {n : Option ℕ}
    → lookup_next a l ≡ some (t, n)
    → cost now (list_remove a l) + rounds now t ≡ cost now l
unfolding lookup_next list_remove
cost-list_remove now a [] h = cc
cost-list_remove now a (x ∷ rest) {t} {n} h = elim (Bool-cases (x.addr == a)) [
  | inl e ↦ let q : x ≡ t = ground arith in rw (e, q) (omega arith)
  | inr e ↦ rw e (omega (arith, cost-list_remove now a rest {t = t} {n = n} (rw e at h)))
]

pub Passed-list_add :
    (p : Option ℕ) (t : Timer) (l : List Timer)
    → t.periodic ≡ true
    → Passed p l
    → Passed p (list_add_after t l)
unfolding list_add_after
Passed-list_add p t [] e h = inr (e, tt)
Passed-list_add p t (x ∷ rest) e h = elim (Bool-cases (earlier t.time x.time)) [
  | inl b ↦ rw b (inr (e, h))
  | inr b ↦ rw b (elim h [ inl m ↦ inl m | inr (q, k) ↦ inr (q, Passed-list_add p t rest e k) ])
]

pub Passed-first : (l : List Timer) → Passed (first_addr l) l
unfolding first_addr
Passed-first [] = tt
Passed-first (x ∷ rest) = inl (ground arith)

pub Passed-list_remove :
    (a : ℕ) (l : List Timer) {t : Timer} {n : Option ℕ}
    → lookup_next a l ≡ some (t, n)
    → Passed (some a) l
    → Passed n (list_remove a l)
unfolding lookup_next list_remove
Passed-list_remove a [] h p = cc
Passed-list_remove a (x ∷ rest) {t} {n} h p = elim (Bool-cases (x.addr == a)) [
  | inl e ↦ let q : first_addr rest ≡ n = ground arith in rw (e, ← q) (Passed-first rest)
  | inr e ↦ rw e (elim p [
    | inl m ↦ absurd (ground arith)
    | inr (q, k) ↦ inr (q, Passed-list_remove a rest (rw e at h) k)
  ])
]

pub Reached-first : (l : List Timer) → Reached (first_addr l) l
unfolding first_addr
Reached-first [] = tt
Reached-first (x ∷ rest) = ground arith

Reached-cons : (p : Option ℕ) (t : Timer) (l : List Timer) → Reached p l → Reached p (t ∷ l)
Reached-cons none t l h = tt
Reached-cons (some a) t l h = ground arith

pub Reached-list_add :
    (p : Option ℕ) (t : Timer) (l : List Timer) → Reached p l → Reached p (list_add_after t l)
Reached-list_add none t l h = tt
Reached-list_add (some a) t l h = ground (arith, count_addr-list_add a t l)

pub Reached-list_remove :
    (a : ℕ) (l : List Timer) {t : Timer} {n : Option ℕ}
    → lookup_next a l ≡ some (t, n)
    → Reached n (list_remove a l)
unfolding lookup_next list_remove
Reached-list_remove a [] h = cc
Reached-list_remove a (x ∷ rest) {t} {n} h = elim (Bool-cases (x.addr == a)) [
  | inl e ↦ let q : first_addr rest ≡ n = ground arith in rw (e, ← q) (Reached-first rest)
  | inr e ↦ rw e (Reached-cons n x _ (Reached-list_remove a rest (rw e at h)))
]

pub lookup_next-none : (a : ℕ) (l : List Timer) → lookup_next a l ≡ none → count_addr a l ≡ 0
unfolding lookup_next
lookup_next-none a [] h = refl
lookup_next-none a (x ∷ rest) h = ground (arith, lookup_next-none a rest)

-- A timer that is not due holds back all that stand behind it.
not_due_tail :
    (now : Timeval) (m : ℕ) (l : List Timer)
    → IsNormal now
    → AllNormal l
    → to_usecs now < m
    → All (λ (u : Timer). m ≤ usecs_of u) l
    → All (Settled now) l
not_due_tail now m [] hn nl h a = tt
not_due_tail now m (x ∷ rest) hn (nx, nl) h (hx, a) =
    ((λ d. absurd (omega (arith, is_due-true now x hn nx d))), not_due_tail now m rest hn nl h a)

pub Settled-stop :
    (now : Timeval) (a : ℕ) (l : List Timer) {t : Timer} {n : Option ℕ}
    → IsNormal now
    → AllNormal l
    → IsSorted l
    → Passed (some a) l
    → lookup_next a l ≡ some (t, n)
    → is_due now t ≡ false
    → All (Settled now) l
unfolding lookup_next
Settled-stop now a [] hn nl s p h d = tt
Settled-stop now a (x ∷ rest) {t} {n} hn (nx, nl) (sx, s) p h d = elim (Bool-cases (x.addr == a)) [
  | inl e ↦
      let q : x ≡ t = ground arith in
      let later : to_usecs now < usecs_of x = is_due-false now x hn nx (rw q d) in
      (
        (λ d'. absurd (omega (arith, is_due-true now x hn nx d'))),
        not_due_tail now (usecs_of x) rest hn nl later sx,
      )
  | inr e ↦ elim p [
    | inl m ↦ absurd (ground arith)
    | inr (q, k) ↦ ((λ _. q), Settled-stop now a rest hn nl s k (rw e at h) d)
  ]
]

pub Passed-end : (now : Timeval) (l : List Timer) → Passed none l → All (Settled now) l
Passed-end now [] h = tt
Passed-end now (x ∷ rest) (inl m) = cc
Passed-end now (x ∷ rest) (inr (q, k)) = ((λ _. q), Passed-end now rest k)
