-- ===== src/Timer/Links/Walk.antt =====
-- The walk of `list_add` in timer.c on the pointers.
use i_perf_demo_runtime.Common.{
  Bool-cases, List, Option, [], ap, arith, false, inl, inr, length, none, refl, some, suc, sym,
  true, zero, ℕ, ◌<◌, ◌==◌, ◌∙◌, ◌∷◌, ◌≡◌, ◌≢◌, ◌≤◌,
}
use i_perf_demo_runtime.Timer.{Timer, earlier, list_add_after}
use i_perf_demo_runtime.Timer.Invariant.{count_addr}
use i_perf_demo_runtime.Timer.Links.{Structs, link_between, link_last, link_walk, set_at}
use i_perf_demo_runtime.Timer.Links.Chain.{Chain, Chain-frame, SameAt}

pub set_at-same {ℓ} : {A : Type ℓ} (a : ℕ) (v : A) (f : ℕ → A) → set_at a v f a ≡ v
unfolding set_at
set_at-same a v f = let e : (a == a) ≡ true = ground arith in rw e refl

pub set_at-other {ℓ} : {A : Type ℓ} (a b : ℕ) (v : A) (f : ℕ → A) → b ≢ a → set_at a v f b ≡ f b
unfolding set_at
set_at-other a b v f h = let e : (b == a) ≡ false = ground arith in rw e refl

pub set_at-inner {ℓ} :
    {A : Type ℓ} (a b : ℕ) (v w : A) (f : ℕ → A) → b ≢ a → set_at a v (set_at b w f) b ≡ w
set_at-inner a b v w f h = set_at-other a b v _ h ∙ set_at-same b w f

pub set_at-neither {ℓ} :
    {A : Type ℓ} (a b c : ℕ) (v w : A) (f : ℕ → A)
    → c ≢ a
    → c ≢ b
    → set_at a v (set_at b w f) c ≡ f c
set_at-neither a b c v w f h k = set_at-other a c v _ h ∙ set_at-other b c w f k

pub swap : {a b : ℕ} → a ≢ b → b ≢ a
swap h = λ e. h (sym e)

-- What the walk that goes on behind `p` leaves.
abbrev pub Walked : Structs → Timer → ℕ → List Timer → Option Structs → Type 0
Walked s t p rest none = ⊥
Walked s t p rest (some s') =
    Chain s' (some p) (s'.next p) (list_add_after t rest)
    × (s'.prev p ≡ s.prev p)
    × (s'.fields p ≡ s.fields p)
    × (s'.head ≡ s.head)
    × (s'.free ≡ s.free)
    × ((a : ℕ) → a ≢ t.addr → a ≢ p → count_addr a rest ≡ 0 → SameAt a s s')

link_last_lem :
    (s : Structs) (t : Timer) (p : ℕ)
    → t.addr ≢ p
    → s.fields t.addr ≡ t
    → Walked s t p [] (some (link_last t.addr p s))
unfolding link_last list_add_after
link_last_lem s t p ne f = (
  (
    set_at-inner t.addr p none (some t.addr) s.next (swap ne),
    set_at-same t.addr (some p) s.prev,
    f,
    set_at-same t.addr none (set_at p (some t.addr) s.next),
  ),
  set_at-other t.addr p (some p) s.prev (swap ne),
  refl,
  refl,
  refl,
  λ a na np _. (
    set_at-other t.addr a (some p) s.prev na,
    set_at-neither t.addr p a none (some t.addr) s.next na np,
    refl,
  ),
)

-- Apart from the struct that is inserted, only the links of `p` and `q` change.
link_between-SameAt :
    (s : Structs) (t p q a : ℕ) → a ≢ t → a ≢ p → a ≢ q → SameAt a s (link_between t p q s)
unfolding link_between
link_between-SameAt s t p q a nt np nq = (
  set_at-neither q t a (some t) (some p) s.prev nq nt,
  set_at-neither t p a (some q) (some t) s.next nt np,
  refl,
)

pub ne-of-count : (a : ℕ) (x : Timer) (rest : List Timer) → count_addr a (x ∷ rest) ≡ 0 → a ≢ x.addr
ne-of-count a x rest h = λ e. ground (arith, h, e)

pub ne-of-mem :
    (a b : ℕ) (rest : List Timer) → count_addr b rest ≡ 0 → 0 < count_addr a rest → a ≢ b
ne-of-mem a b rest h k = λ e. absurd (omega (arith, h, k, ap (λ n. count_addr n rest) e))

pub count-tail :
    (a : ℕ) (x : Timer) (rest : List Timer) → count_addr a (x ∷ rest) ≡ 0 → count_addr a rest ≡ 0
count-tail a x rest h = ground arith

link_between_lem :
    (s : Structs) (t : Timer) (p : ℕ) (x : Timer) (rest : List Timer)
    → t.addr ≢ p
    → s.fields t.addr ≡ t
    → count_addr t.addr (x ∷ rest) ≡ 0
    → count_addr p (x ∷ rest) ≡ 0
    → count_addr x.addr rest ≡ 0
    → Chain s (some p) (some x.addr) (x ∷ rest)
    → Chain
        (link_between t.addr p x.addr s)
        (some p)
        ((link_between t.addr p x.addr s).next p)
        (t ∷ x ∷ rest)
unfolding link_between
link_between_lem s t p x rest ne f ht hp hx (_, back, g, c) =
    let tx : t.addr ≢ x.addr = ne-of-count t.addr x rest ht in
    let px : p ≢ x.addr = ne-of-count p x rest hp in
    let next_x =
      set_at-neither t.addr p x.addr (some x.addr) (some t.addr) s.next (swap tx) (swap px) in
    let tail =
      Chain-frame s (link_between t.addr p x.addr s) rest (some x.addr) (s.next x.addr) c (λ a h.
        link_between-SameAt s t.addr p x.addr a
          (ne-of-mem a t.addr rest (count-tail t.addr x rest ht) h)
          (ne-of-mem a p rest (count-tail p x rest hp) h) (ne-of-mem a x.addr rest hx h)) in
    (
      set_at-inner t.addr p (some x.addr) (some t.addr) s.next (swap ne),
      set_at-inner x.addr t.addr (some t.addr) (some p) s.prev tx,
      f,
      (
        set_at-same t.addr (some x.addr) (set_at p (some t.addr) s.next),
        set_at-same x.addr (some t.addr) (set_at t.addr (some p) s.prev),
        g,
        rw next_x tail,
      ),
    )

-- The walk stops in front of `x`.
Walked-here :
    (s : Structs) (t : Timer) (p : ℕ) (x : Timer) (rest : List Timer)
    → t.addr ≢ p
    → s.fields t.addr ≡ t
    → count_addr t.addr (x ∷ rest) ≡ 0
    → count_addr p (x ∷ rest) ≡ 0
    → count_addr x.addr rest ≡ 0
    → earlier t.time x.time ≡ true
    → Chain s (some p) (some x.addr) (x ∷ rest)
    → Walked s t p (x ∷ rest) (some (link_between t.addr p x.addr s))
unfolding list_add_after link_between
Walked-here s t p x rest ne f ht hp hx b c = rw b (
  link_between_lem s t p x rest ne f ht hp hx c,
  set_at-neither x.addr t.addr p (some t.addr) (some p) s.prev (ne-of-count p x rest hp) (swap ne),
  refl,
  refl,
  refl,
  λ a nt np h. link_between-SameAt s t.addr p x.addr a nt np (ne-of-count a x rest h),
)

-- The walk goes on behind `x`.
Walked-on :
    (s : Structs) (t : Timer) (p : ℕ) (x : Timer) (rest : List Timer) (o : Option Structs)
    → t.addr ≢ p
    → count_addr t.addr (x ∷ rest) ≡ 0
    → count_addr p (x ∷ rest) ≡ 0
    → earlier t.time x.time ≡ false
    → s.next p ≡ some x.addr
    → s.prev x.addr ≡ some p
    → s.fields x.addr ≡ x
    → Walked s t x.addr rest o
    → Walked s t p (x ∷ rest) o
unfolding list_add_after
Walked-on s t p x rest none ne ht hp b n back g w = w
Walked-on s t p x rest (some s') ne ht hp b n back g (c, u, v, h, k, same) =
    let here = same p (swap ne) (ne-of-count p x rest hp) (count-tail p x rest hp) in
    rw b (
      (here.1 ∙ n, u ∙ back, v ∙ g, c),
      here.0,
      here.2,
      h,
      k,
      λ a nt np z. same a nt (ne-of-count a x rest z) (count-tail a x rest z),
    )

pub link_walk_lem :
    (rest : List Timer) (fuel : ℕ) (s : Structs) (t : Timer) (p : ℕ)
    → length rest ≤ fuel
    → t.addr ≢ p
    → s.fields t.addr ≡ t
    → count_addr t.addr rest ≡ 0
    → count_addr p rest ≡ 0
    → ((a : ℕ) → count_addr a rest ≤ 1)
    → Chain s (some p) (s.next p) rest
    → Walked s t p rest (link_walk fuel t.addr p (s.next p) s)
unfolding link_walk
link_walk_lem [] fuel s t p le ne f ht hp once c = rw c (link_last_lem s t p ne f)
link_walk_lem (x ∷ rest) zero s t p le ne f ht hp once c = elim le [ ]
link_walk_lem (x ∷ rest) (suc fuel) s t p le ne f ht hp once (e, back, g, c) =
    let hx : count_addr x.addr rest ≡ 0 = ground (arith, once x.addr) in
    elim (Bool-cases (earlier t.time x.time)) [
      | inl b ↦ rw (e, f, g, b) (Walked-here s t p x rest ne f ht hp hx b (refl, back, g, c))
      | inr b ↦
          rw (e, f, g, b)
            (Walked-on s t p x rest _ ne ht hp b e back g (
              link_walk_lem rest fuel s t x.addr (omega arith) (ne-of-count t.addr x rest ht) f
                (count-tail t.addr x rest ht) hx (λ a. ground (arith, once a)) c))
    ]
