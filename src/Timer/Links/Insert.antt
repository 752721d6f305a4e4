-- ===== src/Timer/Links/Insert.antt =====
-- `list_add` of timer.c on the pointers.
use i_perf_demo_runtime.Common.{
  Bool-cases, List, Option, [], arith, false, inl, inr, length, none, refl, some, true, ℕ, ◌∙◌, ◌∷◌,
  ◌≡◌, ◌≢◌, ◌≤◌,
}
use i_perf_demo_runtime.Timer.{Timer, earlier, list_add}
use i_perf_demo_runtime.Timer.Invariant.{count_addr}
use i_perf_demo_runtime.Timer.Links.{Structs, link, link_from, link_front, link_only, set_at}
use i_perf_demo_runtime.Timer.Links.Chain.{Chain, Chain-frame, SameAt}
use i_perf_demo_runtime.Timer.Links.Walk.{
  Walked, count-tail, link_walk_lem, ne-of-count, ne-of-mem, set_at-inner, set_at-neither,
  set_at-other, set_at-same, swap,
}

-- What the insertion leaves: the chain of the new queue, and all other structs as they were.
abbrev pub Linked : Structs → Timer → List Timer → Option Structs → Type 0
Linked s t xs none = ⊥
Linked s t xs (some s') =
    Chain s' none s'.head (list_add t xs)
    × (s'.free ≡ s.free)
    × ((a : ℕ) → a ≢ t.addr → count_addr a xs ≡ 0 → SameAt a s s')

link_only_lem :
    (s : Structs) (t : Timer) → s.fields t.addr ≡ t → Linked s t [] (some (link_only t.addr s))
unfolding link_only list_add
link_only_lem s t f = (
  (refl, set_at-same t.addr none s.prev, f, set_at-same t.addr none s.next),
  refl,
  λ a nt _. (set_at-other t.addr a none s.prev nt, set_at-other t.addr a none s.next nt, refl),
)

link_front_lem :
    (s : Structs) (t x : Timer) (rest : List Timer)
    → s.fields t.addr ≡ t
    → count_addr t.addr (x ∷ rest) ≡ 0
    → count_addr x.addr rest ≡ 0
    → earlier t.time x.time ≡ true
    → Chain s none s.head (x ∷ rest)
    → Linked s t (x ∷ rest) (some (link_front t.addr x.addr s))
unfolding link_front list_add
link_front_lem s t x rest f ht hx b (e, back, g, c) =
    let tx : t.addr ≢ x.addr = ne-of-count t.addr x rest ht in
    let next_x = set_at-other t.addr x.addr s.head s.next (swap tx) in
    let others : (a : ℕ) → a ≢ t.addr → a ≢ x.addr → SameAt a s (link_front t.addr x.addr s) =
      λ a nt nx. (
        set_at-neither x.addr t.addr a (some t.addr) none s.prev nx nt,
        set_at-other t.addr a s.head s.next nt,
        refl,
      ) in
    let tail =
      Chain-frame s (link_front t.addr x.addr s) rest (some x.addr) (s.next x.addr) c (λ a h.
        others a (ne-of-mem a t.addr rest (count-tail t.addr x rest ht) h)
          (ne-of-mem a x.addr rest hx h)) in
    rw b (
      (
        refl,
        set_at-inner x.addr t.addr (some t.addr) none s.prev tx,
        f,
        (
          set_at-same t.addr s.head s.next ∙ e,
          set_at-same x.addr (some t.addr) (set_at t.addr none s.prev),
          g,
          rw next_x tail,
        ),
      ),
      refl,
      λ a nt h. others a nt (ne-of-count a x rest h),
    )

-- The walk starts behind the first timer.
Linked-on :
    (s : Structs) (t x : Timer) (rest : List Timer) (o : Option Structs)
    → earlier t.time x.time ≡ false
    → Chain s none s.head (x ∷ rest)
    → Walked s t x.addr rest o
    → Linked s t (x ∷ rest) o
unfolding list_add
Linked-on s t x rest none b c w = w
Linked-on s t x rest (some s') b (e, back, g, _) (c, u, v, h, k, same) = rw b (
  (h ∙ e, u ∙ back, v ∙ g, c),
  k,
  λ a nt z. same a nt (ne-of-count a x rest z) (count-tail a x rest z),
)

link_from_lem :
    (xs : List Timer) (fuel : ℕ) (s : Structs) (t : Timer) (h : Option ℕ)
    → length xs ≤ fuel
    → s.fields t.addr ≡ t
    → count_addr t.addr xs ≡ 0
    → ((a : ℕ) → count_addr a xs ≤ 1)
    → s.head ≡ h
    → Chain s none h xs
    → Linked s t xs (link_from fuel t.addr h s)
unfolding link_from
link_from_lem [] fuel s t h le f ht once n c = rw c (link_only_lem s t f)
link_from_lem (x ∷ rest) fuel s t h le f ht once n (e, back, g, c) =
    let hx : count_addr x.addr rest ≡ 0 = ground (arith, once x.addr) in
    elim (Bool-cases (earlier t.time x.time)) [
      | inl b ↦ rw (e, f, g, b) (link_front_lem s t x rest f ht hx b (n ∙ e, back, g, c))
      | inr b ↦
          rw (e, f, g, b)
            (Linked-on s t x rest _ b (n ∙ e, back, g, c)
              (link_walk_lem rest fuel s t x.addr (omega arith) (ne-of-count t.addr x rest ht) f
                (count-tail t.addr x rest ht) hx (λ a. ground (arith, once a)) c))
    ]

pub link_lem :
    (xs : List Timer) (fuel : ℕ) (s : Structs) (t : Timer)
    → length xs ≤ fuel
    → s.fields t.addr ≡ t
    → count_addr t.addr xs ≡ 0
    → ((a : ℕ) → count_addr a xs ≤ 1)
    → Chain s none s.head xs
    → Linked s t xs (link fuel t.addr s)
unfolding link
link_lem xs fuel s t le f ht once c = link_from_lem xs fuel s t s.head le f ht once refl c
