-- ===== src/Timer.antt =====
-- The timer queue of iperf-3.1.3/src/timer.c: definitions.
-- The doubly linked list `timers` is a list of timers, each under its address; `free_timers` is the
-- list of the addresses on the free list. What `malloc` and `gettimeofday` answer are arguments.
pub mod Order
pub mod Invariant
pub mod Rounds
pub mod Runs
pub mod Calls
pub mod Links
mod Tests
use i_perf_demo_runtime.Common.{
  Bool, List, Option, [], false, if◌then◌else◌, leb, ltb, none, not, some, suc, true, zero, ℕ, ◌%◌,
  ◌&&◌, ◌*◌, ◌+◌, ◌-◌, ◌/◌, ◌==◌, ◌||◌, ◌∷◌,
}

-- `struct timeval`
pub record Timeval : Type 0 where
  pub tv_sec : ℕ
  pub tv_usec : ℕ

-- `Timer`: `addr` is the address of the struct; `proc` stands for `timer_proc` with its `client_data`.
pub record Timer : Type 0 where
  pub addr : ℕ
  pub proc : ℕ
  pub time : Timeval
  pub usecs : ℕ
  pub periodic : Bool

pub record Timers : Type 0 where
  pub timers : List Timer
  pub free_timers : List ℕ

-- The test of `list_add`: `a` is strictly earlier than `b`.
unfoldable pub earlier : Timeval → Timeval → Bool
earlier a b = ltb a.tv_sec b.tv_sec || a.tv_sec == b.tv_sec && ltb a.tv_usec b.tv_usec

-- The walk from the second timer on.
unfoldable pub list_add_after : Timer → List Timer → List Timer
list_add_after t [] = t ∷ []
list_add_after t (t2 ∷ rest) =
    if earlier t.time t2.time then t ∷ t2 ∷ rest else t2 ∷ list_add_after t rest

unfoldable pub list_add : Timer → List Timer → List Timer
unfolding list_add_after
list_add t [] = t ∷ []
list_add t (head ∷ rest) =
    if earlier t.time head.time then t ∷ head ∷ rest else head ∷ list_add_after t rest

-- The timer at an address is unlinked. (C requires that it is on the list.)
unfoldable pub list_remove : ℕ → List Timer → List Timer
list_remove a [] = []
list_remove a (t ∷ rest) = if t.addr == a then rest else t ∷ list_remove a rest

unfoldable pub list_resort : Timer → List Timer → List Timer
unfolding list_remove list_add
list_resort t l = list_add t (list_remove t.addr l)

unfoldable pub add_usecs : Timeval → ℕ → Timeval
add_usecs t usecs =
    let sec = t.tv_sec + usecs / 1000000 in
    let usec = t.tv_usec + usecs % 1000000 in
    if leb 1000000 usec
    then record { tv_sec = sec + usec / 1000000; tv_usec = usec % 1000000 }
    else record { tv_sec = sec; tv_usec = usec }

-- Where the struct of a new timer comes from: the free list, else `malloc`.
unfoldable pub alloc : Option ℕ → Timers → Option (ℕ × List ℕ)
alloc malloc s = elim s.free_timers [
  | a ∷ rest ↦ some (a, rest)
  | [] ↦ elim malloc [ none ↦ none | some a ↦ some (a, []) ]
]

unfoldable pub new_timer : ℕ → Timeval → ℕ → ℕ → Bool → Timer
unfolding add_usecs
new_timer a now proc usecs periodic = record {
  addr = a;
  proc = proc;
  time = add_usecs now usecs;
  usecs = usecs;
  periodic = periodic;
}

unfoldable pub tmr_create : Option ℕ → Timeval → ℕ → ℕ → Bool → Timers → Option ℕ × Timers
unfolding alloc new_timer list_add
tmr_create malloc now proc usecs periodic s = elim (alloc malloc s) [
  | none ↦ (none, s)
  | some (a, rest) ↦ (
    some a,
    record { timers = list_add (new_timer a now proc usecs periodic) s.timers; free_timers = rest },
  )
]

-- Microseconds since the epoch.
unfoldable pub to_usecs : Timeval → ℕ
to_usecs t = t.tv_sec * 1000000 + t.tv_usec

-- `usecs <= 0` becomes 0, which the truncated difference is.
unfoldable pub tmr_timeout : Timeval → Timers → Option Timeval
unfolding to_usecs
tmr_timeout now s = elim s.timers [
  | [] ↦ none
  | t ∷ rest ↦
      let usecs = to_usecs t.time - to_usecs now in
      some (record { tv_sec = usecs / 1000000; tv_usec = usecs % 1000000 })
]

unfoldable pub tmr_cancel : ℕ → Timers → Timers
unfolding list_remove
tmr_cancel a s = record { timers = list_remove a s.timers; free_timers = a ∷ s.free_timers }

unfoldable pub first_addr : List Timer → Option ℕ
first_addr [] = none
first_addr (t ∷ _) = some t.addr

-- The timer at an address, with the address of the timer behind it (`t->next`).
unfoldable pub lookup_next : ℕ → List Timer → Option (Timer × Option ℕ)
unfolding first_addr
lookup_next a [] = none
lookup_next a (t ∷ rest) =
    let further = lookup_next a rest in if t.addr == a then some (t, first_addr rest) else further

-- (C requires that the timer is on the list, as for `tmr_cancel`; here nothing is done otherwise.)
unfoldable pub tmr_reset : Timeval → ℕ → Timers → Timers
unfolding lookup_next list_resort add_usecs
tmr_reset now a s = elim (lookup_next a s.timers) [
  | none ↦ s
  | some (t, _) ↦ record s {
    timers = list_resort (record t { time = add_usecs now t.usecs }) s.timers;
  }
]

-- What `tmr_run` does with a timer that is due, once its `timer_proc` has returned.
unfoldable pub tmr_after : Timer → Timers → Timers
unfolding list_resort add_usecs tmr_cancel
tmr_after t s =
    if t.periodic
    then record s { timers = list_resort (record t { time = add_usecs t.time t.usecs }) s.timers }
    else tmr_cancel t.addr s

-- `tmr_cleanup` frees the structs of the free list.
unfoldable pub tmr_cleanup : Timers → Timers
tmr_cleanup s = record s { free_timers = [] }

pub cancel_all : List Timer → List ℕ → List ℕ
cancel_all [] free = free
cancel_all (t ∷ rest) free = cancel_all rest (t.addr ∷ free)

unfoldable pub tmr_destroy : Timers → Timers
unfolding cancel_all tmr_cleanup
tmr_destroy s =
    tmr_cleanup (record { timers = []; free_timers = cancel_all s.timers s.free_timers })

-- How far `tmr_run` comes: to its end by the loop's test, to a pointer off the active list, or through
-- the rounds given, of which there may be more.
pub data Run {ℓ} (W : Type ℓ) : Type ℓ where
  done : Timers → W → Run W
  dangling : Run W
  out_of_fuel : Timers → W → Run W

-- `t->time` is not after `now`.
unfoldable pub is_due : Timeval → Timer → Bool
is_due now t =
    not (
      ltb now.tv_sec t.time.tv_sec || t.time.tv_sec == now.tv_sec && ltb now.tv_usec t.time.tv_usec)

-- `timer_proc` may change the timers and the rest of the program, `W`.
module _ {ℓ} {W : Type ℓ} (timer_proc : Timer → Timeval → Timers → W → Timers × W) where
  -- The body of the loop of `tmr_run` for a timer that is due. The timer is read again after its
  -- `timer_proc` has run.
  unfoldable pub fire : Timeval → Timer → Timers → W → Option (Timers × W)
  unfolding tmr_after lookup_next
  fire now t s w =
      let (s', w') = timer_proc t now s w in
      elim (lookup_next t.addr s'.timers) [
        | none ↦ none
        | some (t', _) ↦ some (tmr_after t' s', w')
      ]

  -- `next` is read before the timer fires.
  unfoldable pub run_loop : ℕ → Timeval → Option ℕ → Timers → W → Run W
  unfolding lookup_next is_due fire
  run_loop fuel now none s w = done s w
  run_loop zero now (some a) s w = out_of_fuel s w
  run_loop (suc fuel) now (some a) s w = elim (lookup_next a s.timers) [
    | none ↦ dangling
    | some (t, next) ↦ elim (is_due now t) [
      | false ↦ done s w
      | true ↦ elim (fire now t s w) [
        | none ↦ dangling
        | some (s', w') ↦ run_loop fuel now next s' w'
      ]
    ]
  ]

  unfoldable pub tmr_run : ℕ → Timeval → Timers → W → Run W
  unfolding run_loop first_addr
  tmr_run fuel now s w = run_loop fuel now (first_addr s.timers) s w
