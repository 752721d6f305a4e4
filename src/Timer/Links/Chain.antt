-- ===== src/Timer/Links/Chain.antt =====
-- What the pointers of timer.c stand for: a chain of structs with its links in both directions.
use i_perf_demo_runtime.Common.{List, Option, [], arith, none, some, ℕ, ◌<◌, ◌∙◌, ◌∷◌, ◌≡◌, ◌≤◌}
use i_perf_demo_runtime.Timer.{Timer, Timers}
use i_perf_demo_runtime.Timer.Invariant.{count, count_addr, owned}
use i_perf_demo_runtime.Timer.Links.{Structs}

-- From `p` the `next` pointers lead through the timers of the list to NULL, each `prev` points back,
-- the first one to `b`, and every struct holds its timer.
abbrev pub Chain : Structs → Option ℕ → Option ℕ → List Timer → Type 0
Chain s b p [] = p ≡ none
Chain s b p (t ∷ rest) =
    (p ≡ some t.addr)
    × (s.prev t.addr ≡ b)
    × (s.fields t.addr ≡ t)
    × Chain s (some t.addr) (s.next t.addr) rest

abbrev pub FreeChain : Structs → Option ℕ → List ℕ → Type 0
FreeChain s p [] = p ≡ none
FreeChain s p (a ∷ rest) = (p ≡ some a) × FreeChain s (s.next a) rest

-- The pointers of the two states agree at an address.
abbrev pub SameAt : ℕ → Structs → Structs → Type 0
SameAt a s s' = (s'.prev a ≡ s.prev a) × (s'.next a ≡ s.next a) × (s'.fields a ≡ s.fields a)

module _ (s s' : Structs) where
  pub Chain-frame :
      (xs : List Timer) (b p : Option ℕ)
      → Chain s b p xs
      → ((a : ℕ) → 0 < count_addr a xs → SameAt a s s')
      → Chain s' b p xs
  Chain-frame [] b p c same = c
  Chain-frame (t ∷ rest) b p (e, back, f, c) same =
      let (u, n, g) = same t.addr (ground arith) in
      (
        e,
        u ∙ back,
        g ∙ f,
        rw n (Chain-frame rest (some t.addr) (s.next t.addr) c (λ a h. same a (ground arith))),
      )

  pub FreeChain-frame :
      (xs : List ℕ) (p : Option ℕ)
      → FreeChain s p xs
      → ((a : ℕ) → 0 < count a xs → s'.next a ≡ s.next a)
      → FreeChain s' p xs
  FreeChain-frame [] p c same = c
  FreeChain-frame (x ∷ rest) p (e, c) same = (
    e,
    rw (same x (ground arith)) (FreeChain-frame rest (s.next x) c (λ a h. same a (ground arith))),
  )

-- The structs stand for a queue: one chain for each list, and no struct twice.
pub record Represents (s : Structs) (q : Timers) : Type 0 where
  pub active : Chain s none s.head q.timers
  pub spare : FreeChain s s.free q.free_timers
  pub once : (a : ℕ) → owned a q ≤ 1
