-- ===== src/Timer/Links/Setters.antt =====
-- What the assignments of `list_remove` in timer.c change.
use i_perf_demo_runtime.Common.{Option, ap, none, refl, some, ℕ, ◌≡◌, ◌≢◌}
use i_perf_demo_runtime.Timer.Links.{Structs, set_next, set_prev}
use i_perf_demo_runtime.Timer.Links.Walk.{set_at-other, set_at-same}

-- The pointer through which the walk comes to the first timer of a chain: the head of the list, or
-- the `next` of the struct in front.
abbrev pub entry : Structs → Option ℕ → Option ℕ
entry s none = s.head
entry s (some b) = s.next b

pub set_prev-next : (n v : Option ℕ) (s : Structs) → (set_prev n v s).next ≡ s.next
unfolding set_prev
set_prev-next none v s = refl
set_prev-next (some n) v s = refl

pub set_prev-head : (n v : Option ℕ) (s : Structs) → (set_prev n v s).head ≡ s.head
unfolding set_prev
set_prev-head none v s = refl
set_prev-head (some n) v s = refl

pub set_prev-free : (n v : Option ℕ) (s : Structs) → (set_prev n v s).free ≡ s.free
unfolding set_prev
set_prev-free none v s = refl
set_prev-free (some n) v s = refl

pub set_prev-fields : (n v : Option ℕ) (s : Structs) → (set_prev n v s).fields ≡ s.fields
unfolding set_prev
set_prev-fields none v s = refl
set_prev-fields (some n) v s = refl

pub set_prev-entry : (n v b : Option ℕ) (s : Structs) → entry (set_prev n v s) b ≡ entry s b
set_prev-entry n v none s = set_prev-head n v s
set_prev-entry n v (some b) s = ap (λ f. f b) (set_prev-next n v s)

pub set_next-prev : (b v : Option ℕ) (s : Structs) → (set_next b v s).prev ≡ s.prev
unfolding set_next
set_next-prev none v s = refl
set_next-prev (some n) v s = refl

pub set_next-free : (b v : Option ℕ) (s : Structs) → (set_next b v s).free ≡ s.free
unfolding set_next
set_next-free none v s = refl
set_next-free (some n) v s = refl

pub set_next-fields : (b v : Option ℕ) (s : Structs) → (set_next b v s).fields ≡ s.fields
unfolding set_next
set_next-fields none v s = refl
set_next-fields (some n) v s = refl

pub set_next-head : (b v : Option ℕ) (s : Structs) → b ≢ none → (set_next b v s).head ≡ s.head
unfolding set_next
set_next-head none v s h = absurd (h refl)
set_next-head (some n) v s h = refl

pub set_next-entry : (b v : Option ℕ) (s : Structs) → entry (set_next b v s) b ≡ v
unfolding set_next
set_next-entry none v s = refl
set_next-entry (some n) v s = set_at-same n v s.next

pub set_next-other :
    (b v : Option ℕ) (s : Structs) (c : ℕ) → some c ≢ b → (set_next b v s).next c ≡ s.next c
unfolding set_next
set_next-other none v s c h = refl
set_next-other (some n) v s c h = set_at-other n c v s.next (λ e. h (ap some e))
