-- ===== src/Timer/Order.antt =====
-- The order of the timer queue of timer.c.
use i_perf_demo_runtime.Common.{
  All, Bool-cases, List, Option, [], arith, false, if◌then◌else◌, inl, inr, leb, none, refl, some,
  true, ℕ, ◌%◌, ◌++◌, ◌+◌, ◌-◌, ◌/◌, ◌<◌, ◌==◌, ◌∙◌, ◌∷◌, ◌≡◌, ◌≤◌,
}
use Prim.Native.Nat.{min}
use mathlib.Core.Option
use i_perf_demo_runtime.Timer.{
  Timer, Timers, Timeval, add_usecs, earlier, list_add, list_add_after, list_remove, tmr_timeout,
  to_usecs,
}

abbrev pub IsNormal : Timeval → Type 0
IsNormal t = t.tv_usec < 1000000

-- The microseconds carry into the seconds: the sum is exact and normal again.
pub to_usecs-add_usecs :
    (t : Timeval) (usecs : ℕ)
    → IsNormal t
    → (to_usecs (add_usecs t usecs) ≡ to_usecs t + usecs) × IsNormal (add_usecs t usecs)
unfolding to_usecs add_usecs
to_usecs-add_usecs t usecs h = ground arith

pub earlier-true :
    (a b : Timeval) → IsNormal a → IsNormal b → earlier a b ≡ true → to_usecs a < to_usecs b
unfolding earlier to_usecs
earlier-true a b ha hb h = ground arith

pub earlier-false :
    (a b : Timeval) → IsNormal a → IsNormal b → earlier a b ≡ false → to_usecs b ≤ to_usecs a
unfolding earlier to_usecs
earlier-false a b ha hb h = ground arith

abbrev pub usecs_of : Timer → ℕ
usecs_of t = to_usecs t.time

abbrev pub AllNormal : List Timer → Type 0
AllNormal l = All (λ (t : Timer). IsNormal t.time) l

-- No timer stands behind a later one.
abbrev pub IsSorted : List Timer → Type 0
IsSorted [] = Unit
IsSorted (t ∷ rest) = All (λ (u : Timer). usecs_of t ≤ usecs_of u) rest × IsSorted rest

-- The head test and the walk make the same insertion.
pub list_add_lem : (t : Timer) (l : List Timer) → list_add t l ≡ list_add_after t l
unfolding list_add list_add_after
list_add_lem t [] = refl
list_add_lem t (h ∷ rest) = refl

module _ {ℓ} (P : Timer → Type ℓ) where
  pub All-list_add : (t : Timer) (l : List Timer) → P t → All P l → All P (list_add_after t l)
  unfolding list_add_after
  All-list_add t [] p h = (p, tt)
  All-list_add t (x ∷ rest) p (hx, h) = elim (Bool-cases (earlier t.time x.time)) [
    | inl e ↦ rw e (p, (hx, h))
    | inr e ↦ rw e (hx, All-list_add t rest p h)
  ]

  pub All-list_remove : (a : ℕ) (l : List Timer) → All P l → All P (list_remove a l)
  unfolding list_remove
  All-list_remove a [] h = tt
  All-list_remove a (x ∷ rest) (hx, h) = elim (Bool-cases (x.addr == a)) [
    | inl e ↦ rw e h
    | inr e ↦ rw e (hx, All-list_remove a rest h)
  ]

All-le_trans :
    (m n : ℕ) (l : List Timer)
    → m ≤ n
    → All (λ (u : Timer). n ≤ usecs_of u) l
    → All (λ (u : Timer). m ≤ usecs_of u) l
All-le_trans m n [] h a = tt
All-le_trans m n (x ∷ rest) h (hx, a) = (omega arith, All-le_trans m n rest h a)

pub list_add-IsSorted :
    (t : Timer) (l : List Timer)
    → IsNormal t.time
    → AllNormal l
    → IsSorted l
    → IsSorted (list_add_after t l)
unfolding list_add_after
list_add-IsSorted t [] p n s = (tt, tt)
list_add-IsSorted t (x ∷ rest) p (nx, n) (sx, s) = elim (Bool-cases (earlier t.time x.time)) [
  | inl e ↦
      let le : usecs_of t ≤ usecs_of x = omega (arith, earlier-true t.time x.time p nx e) in
      rw e ((le, All-le_trans (usecs_of t) (usecs_of x) rest le sx), (sx, s))
  | inr e ↦ rw e (
    All-list_add (λ (u : Timer). usecs_of x ≤ usecs_of u) t rest
        (earlier-false t.time x.time p nx e) sx,
    list_add-IsSorted t rest p n s,
  )
]

pub list_remove-IsSorted : (a : ℕ) (l : List Timer) → IsSorted l → IsSorted (list_remove a l)
unfolding list_remove
list_remove-IsSorted a [] s = tt
list_remove-IsSorted a (x ∷ rest) (sx, s) = elim (Bool-cases (x.addr == a)) [
  | inl e ↦ rw e s
  | inr e ↦ rw e (
    All-list_remove (λ (u : Timer). usecs_of x ≤ usecs_of u) a rest sx,
    list_remove-IsSorted a rest s,
  )
]

-- The timers that are not later than a time, and the later ones.
abbrev pub until : ℕ → List Timer → List Timer
until n [] = []
until n (t ∷ rest) = let more = until n rest in if leb (usecs_of t) n then t ∷ more else more

abbrev pub beyond : ℕ → List Timer → List Timer
beyond n [] = []
beyond n (t ∷ rest) = let more = beyond n rest in if leb (usecs_of t) n then more else t ∷ more

until-All : (n : ℕ) (l : List Timer) → All (λ (u : Timer). n < usecs_of u) l → until n l ≡ []
until-All n [] h = refl
until-All n (x ∷ rest) (hx, h) = ground (arith, until-All n rest h)

beyond-All : (n : ℕ) (l : List Timer) → All (λ (u : Timer). n < usecs_of u) l → beyond n l ≡ l
beyond-All n [] h = refl
beyond-All n (x ∷ rest) (hx, h) = ground (arith, beyond-All n rest h)

All-lt_le :
    (m n : ℕ) (l : List Timer)
    → m < n
    → All (λ (u : Timer). n ≤ usecs_of u) l
    → All (λ (u : Timer). m < usecs_of u) l
All-lt_le m n [] h a = tt
All-lt_le m n (x ∷ rest) h (hx, a) = (omega arith, All-lt_le m n rest h a)

list_add_after-split :
    (t : Timer) (l : List Timer)
    → IsNormal t.time
    → AllNormal l
    → IsSorted l
    → list_add_after t l ≡ until (usecs_of t) l ++ t ∷ beyond (usecs_of t) l
unfolding list_add_after
list_add_after-split t [] p n s = refl
list_add_after-split t (x ∷ rest) p (nx, n) (sx, s) = elim (Bool-cases (earlier t.time x.time)) [
  | inl e ↦
      let lt : usecs_of t < usecs_of x = earlier-true t.time x.time p nx e in
      let later : All (λ (u : Timer). usecs_of t < usecs_of u) (x ∷ rest) =
        (lt, All-lt_le (usecs_of t) (usecs_of x) rest lt sx) in
      rw (e, until-All (usecs_of t) (x ∷ rest) later, beyond-All (usecs_of t) (x ∷ rest) later)
  | inr e ↦
      let le : usecs_of x ≤ usecs_of t = earlier-false t.time x.time p nx e in
      ground (arith, e, le, list_add_after-split t rest p n s)
]

-- `list_add` puts a timer behind all timers that are not later, those due at the same time
-- included, and in front of all that are later, and leaves the order of the others as it was.
pub list_add-split :
    (t : Timer) (l : List Timer)
    → IsNormal t.time
    → AllNormal l
    → IsSorted l
    → list_add t l ≡ until (usecs_of t) l ++ t ∷ beyond (usecs_of t) l
list_add-split t l p n s = list_add_lem t l ∙ list_add_after-split t l p n s

abbrev pub least_from : ℕ → ℕ → List Timer → ℕ
least_from m now [] = m
least_from m now (t ∷ rest) = least_from (min m (usecs_of t - now)) now rest

-- The least time to wait over all timers; none if there is none.
abbrev pub least_wait : ℕ → List Timer → Option ℕ
least_wait now [] = none
least_wait now (t ∷ rest) = some (least_from (usecs_of t - now) now rest)

least_from_head :
    (m now : ℕ) (l : List Timer)
    → All (λ (u : Timer). m ≤ usecs_of u - now) l
    → least_from m now l ≡ m
least_from_head m now [] h = refl
least_from_head m now (x ∷ rest) (hx, h) =
    let e : min m (usecs_of x - now) ≡ m = omega arith in rw e (least_from_head m now rest h)

All-wait :
    (n now : ℕ) (l : List Timer)
    → All (λ (u : Timer). n ≤ usecs_of u) l
    → All (λ (u : Timer). n - now ≤ usecs_of u - now) l
All-wait n now [] h = tt
All-wait n now (x ∷ rest) (hx, h) = (omega arith, All-wait n now rest h)

-- On a sorted queue `tmr_timeout`, which looks at the first timer only, answers NULL exactly when
-- there is no timer, and otherwise the least time until any timer is due, 0 if one is due already,
-- in seconds and microseconds below a million.
pub tmr_timeout-least :
    (now : Timeval) (s : Timers)
    → IsSorted s.timers
    → tmr_timeout now s
      ≡ Option.map
          (λ (n : ℕ). record { tv_sec = n / 1000000; tv_usec = n % 1000000 })
          (least_wait (to_usecs now) s.timers)
unfolding tmr_timeout
tmr_timeout-least now s h = go s.timers refl h
  where
    go :
        (l : List Timer)
        → s.timers ≡ l
        → IsSorted l
        → tmr_timeout now s
          ≡ Option.map
              (λ (n : ℕ). record { tv_sec = n / 1000000; tv_usec = n % 1000000 })
              (least_wait (to_usecs now) l)
    go [] e q = rw (e, tmr_timeout)
    go (t ∷ rest) e (q, _) = rw (
      e,
      tmr_timeout,
      least_from_head (usecs_of t - to_usecs now) (to_usecs now) rest
          (All-wait (usecs_of t) (to_usecs now) rest q),
    )
