-- ===== src/Timer/Links.antt =====
-- The timer queue of iperf-3.1.3/src/timer.c with the pointers of the source: definitions.
-- A struct is known by its address. `fields` has what a struct holds beside `prev` and `next`; NULL
-- is `none`. The walk of `list_add` runs on fuel.
pub mod Chain
pub mod Walk
pub mod Insert
pub mod Setters
pub mod Remove
pub mod Refines
pub mod Create
pub mod Sizes
pub mod Traces
mod Tests
use i_perf_demo_runtime.Common.{Bool, Option, if◌then◌else◌, none, some, suc, zero, ℕ, ◌==◌}
use i_perf_demo_runtime.Timer.{Timer, Timeval, add_usecs, earlier, new_timer}

pub record Structs : Type 0 where
  pub head : Option ℕ
  pub free : Option ℕ
  pub prev : ℕ → Option ℕ
  pub next : ℕ → Option ℕ
  pub fields : ℕ → Timer

unfoldable pub set_at {ℓ} : {A : Type ℓ} → ℕ → A → (ℕ → A) → ℕ → A
set_at a v f b = if b == a then v else f b

-- The list is empty.
unfoldable pub link_only : ℕ → Structs → Structs
unfolding set_at
link_only t s = record s { head = some t; prev = set_at t none s.prev; next = set_at t none s.next }

-- In front of the first timer, `h`.
unfoldable pub link_front : ℕ → ℕ → Structs → Structs
unfolding set_at
link_front t h s = record s {
  head = some t;
  prev = set_at h (some t) (set_at t none s.prev);
  next = set_at t s.head s.next;
}

unfoldable pub link_between : ℕ → ℕ → ℕ → Structs → Structs
unfolding set_at
link_between t t2prev t2 s = record s {
  prev = set_at t2 (some t) (set_at t (some t2prev) s.prev);
  next = set_at t (some t2) (set_at t2prev (some t) s.next);
}

unfoldable pub link_last : ℕ → ℕ → Structs → Structs
unfolding set_at
link_last t t2prev s = record s {
  prev = set_at t (some t2prev) s.prev;
  next = set_at t none (set_at t2prev (some t) s.next);
}

unfoldable pub link_walk : ℕ → ℕ → ℕ → Option ℕ → Structs → Option Structs
unfolding earlier link_between link_last
link_walk fuel t t2prev none s = some (link_last t t2prev s)
link_walk zero t t2prev (some t2) s = none
link_walk (suc fuel) t t2prev (some t2) s =
    let further = link_walk fuel t t2 (s.next t2) s in
    if earlier (s.fields t).time (s.fields t2).time
    then some (link_between t t2prev t2 s)
    else further

unfoldable pub link_from : ℕ → ℕ → Option ℕ → Structs → Option Structs
unfolding earlier link_only link_front link_walk
link_from fuel t none s = some (link_only t s)
link_from fuel t (some h) s =
    if earlier (s.fields t).time (s.fields h).time
    then some (link_front t h s)
    else link_walk fuel t h (s.next h) s

-- `list_add`
unfoldable pub link : ℕ → ℕ → Structs → Option Structs
unfolding link_from
link fuel t s = link_from fuel t s.head s

unfoldable pub set_next : Option ℕ → Option ℕ → Structs → Structs
unfolding set_at
set_next none v s = record s { head = v }
set_next (some p) v s = record s { next = set_at p v s.next }

unfoldable pub set_prev : Option ℕ → Option ℕ → Structs → Structs
unfolding set_at
set_prev none v s = s
set_prev (some n) v s = record s { prev = set_at n v s.prev }

-- `list_remove`
unfoldable pub unlink : ℕ → Structs → Structs
unfolding set_next set_prev
unlink t s = let s1 = set_next (s.prev t) (s.next t) s in set_prev (s1.next t) (s1.prev t) s1

-- `list_resort`
unfoldable pub relink : ℕ → ℕ → Structs → Option Structs
unfolding link unlink
relink fuel t s = link fuel t (unlink t s)

-- `tmr_cancel`
unfoldable pub cancel_struct : ℕ → Structs → Structs
unfolding unlink set_at
cancel_struct t s =
    let s1 = unlink t s in
    record s1 { free = some t; next = set_at t s1.free s1.next; prev = set_at t none s1.prev }

-- `tmr_reset`
unfoldable pub reset_struct : ℕ → Timeval → ℕ → Structs → Option Structs
unfolding relink set_at add_usecs
reset_struct fuel now a s =
    let t = s.fields a in
    relink fuel a
      (record s { fields = set_at a (record t { time = add_usecs now t.usecs }) s.fields })

unfoldable pub take_struct : Option ℕ → Option ℕ → Structs → Option (ℕ × Structs)
take_struct malloc (some t) s = some (t, record s { free = s.next t })
take_struct none none s = none
take_struct (some t) none s = some (t, s)

-- `tmr_create`: none if the fuel is spent, else the struct, or NULL.
unfoldable pub create_struct :
    ℕ → Option ℕ → Timeval → ℕ → ℕ → Bool → Structs → Option (Option ℕ × Structs)
unfolding take_struct link set_at new_timer
create_struct fuel malloc now proc usecs periodic s = elim (take_struct malloc s.free s) [
  | none ↦ some (none, s)
  | some (t, s1) ↦
      elim (link fuel t
        (record s1 { fields = set_at t (new_timer t now proc usecs periodic) s1.fields })) [
          | none ↦ none
          | some s2 ↦ some (some t, s2)
        ]
]

-- The loop of `tmr_cleanup`: `free` of a struct is not seen again.
unfoldable pub free_structs : ℕ → Option ℕ → Structs → Option Structs
free_structs fuel none s = some (record s { free = none })
free_structs zero (some t) s = none
free_structs (suc fuel) (some t) s = free_structs fuel (s.next t) s

-- The loop of `tmr_destroy`.
unfoldable pub cancel_structs : ℕ → Option ℕ → Structs → Option Structs
unfolding cancel_struct
cancel_structs fuel none s = some s
cancel_structs zero (some t) s = none
cancel_structs (suc fuel) (some t) s = let s' = cancel_struct t s in cancel_structs fuel s'.head s'

unfoldable pub destroy_structs : ℕ → Structs → Option Structs
unfolding cancel_structs free_structs
destroy_structs fuel s = elim (cancel_structs fuel s.head s) [
  | none ↦ none
  | some s' ↦ free_structs fuel s'.free s'
]
