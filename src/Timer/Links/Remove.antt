-- ===== src/Timer/Links/Remove.antt =====
-- The removal of timer.c at the level of the pointers.
use i_perf_demo_runtime.Common.{
  ==_iff, Bool-cases, List, Option, [], ap, arith, false, inl, inr, none, refl, some, true, ℕ, ◌<◌,
  ◌==◌, ◌∙◌, ◌∷◌, ◌≡◌, ◌≢◌, ◌≤◌,
}
use mathlib.Core.Path.{subst}
use i_perf_demo_runtime.Timer.{Timer, list_remove}
use i_perf_demo_runtime.Timer.Invariant.{count_addr}
use i_perf_demo_runtime.Timer.Links.{Structs, set_next, set_prev, unlink}
use i_perf_demo_runtime.Timer.Links.Chain.{Chain, Chain-frame}
use i_perf_demo_runtime.Timer.Links.Walk.{
  count-tail, ne-of-count, ne-of-mem, set_at-other, set_at-same,
}
use i_perf_demo_runtime.Timer.Links.Setters.{
  entry, set_next-entry, set_next-fields, set_next-free, set_next-head, set_next-other,
  set_next-prev, set_prev-entry, set_prev-fields, set_prev-free, set_prev-head, set_prev-next,
}

-- The struct in front is not on the chain.
abbrev Outside : Option ℕ → List Timer → Type 0
Outside none xs = Unit
Outside (some b) xs = count_addr b xs ≡ 0

-- What a removal on a chain behind `b` leaves.
pub record Unlinked (s s' : Structs) (b : Option ℕ) (a : ℕ) (xs : List Timer) : Type 0 where
  pub chain : Chain s' b (entry s' b) (list_remove a xs)
  pub head : (b ≢ none) → s'.head ≡ s.head
  pub free : s'.free ≡ s.free
  pub fields : (c : ℕ) → s'.fields c ≡ s.fields c
  pub next : (c : ℕ) → count_addr c xs ≡ 0 → some c ≢ b → s'.next c ≡ s.next c
  pub prev : (c : ℕ) → count_addr c xs ≡ 0 → s'.prev c ≡ s.prev c

-- The first timer of a chain gets a new `prev`.
Chain-set_prev :
    (xs : List Timer) (n a b : Option ℕ) (s : Structs)
    → ((c : ℕ) → count_addr c xs ≤ 1)
    → Chain s a n xs
    → Chain (set_prev n b s) b n xs
      × ((c : ℕ) → count_addr c xs ≡ 0 → (set_prev n b s).prev c ≡ s.prev c)
unfolding set_prev
Chain-set_prev [] n a b s once c = rw c (refl, λ d _. refl)
Chain-set_prev (x ∷ rest) n a b s once (e, back, f, c) =
    let hx : count_addr x.addr rest ≡ 0 = ground (arith, once x.addr) in
    let tail =
      Chain-frame s (set_prev n b s) rest (some x.addr) (s.next x.addr) c
        (λ d h. rw e (set_at-other x.addr d b s.prev (ne-of-mem d x.addr rest hx h), refl, refl)) in
    (
      (e, rw e (set_at-same x.addr b s.prev), rw e f, rw (set_prev-next n b s) tail),
      λ d h. rw e (set_at-other x.addr d b s.prev (ne-of-count d x rest h)),
    )

unlink-eq :
    (a : ℕ) (b : Option ℕ) (s : Structs)
    → s.prev a ≡ b
    → some a ≢ b
    → unlink a s ≡ set_prev (s.next a) b (set_next b (s.next a) s)
unfolding unlink
unlink-eq a b s e h =
    rw (e, set_next-other b (s.next a) s a h, set_next-prev b (s.next a) s, e) refl

Outside-ne : (b : Option ℕ) (x : Timer) (rest : List Timer) → Outside b (x ∷ rest) → some x.addr ≢ b
Outside-ne none x rest o = λ e. ground (arith, e)
Outside-ne (some b) x rest o = λ e. ground (arith, e, o)

Outside-mem :
    (b : Option ℕ) (a : ℕ) (xs : List Timer) → Outside b xs → 0 < count_addr a xs → some a ≢ b
Outside-mem none a xs o h = λ e. ground (arith, e)
Outside-mem (some b) a xs o h = λ e. ne-of-mem a b xs o h (cc)

pub list_remove_first : (x : Timer) (rest : List Timer) → list_remove x.addr (x ∷ rest) ≡ rest
unfolding list_remove
list_remove_first x rest = let q : (x.addr == x.addr) ≡ true = ground arith in rw q refl

list_remove_later :
    (a : ℕ) (x : Timer) (rest : List Timer)
    → (x.addr == a) ≡ false
    → list_remove a (x ∷ rest) ≡ x ∷ list_remove a rest
unfolding list_remove
list_remove_later a x rest q = rw q refl

unlink_here :
    (s : Structs) (b : Option ℕ) (x : Timer) (rest : List Timer)
    → Outside b (x ∷ rest)
    → ((a : ℕ) → count_addr a (x ∷ rest) ≤ 1)
    → Chain s b (entry s b) (x ∷ rest)
    → Unlinked s (unlink x.addr s) b x.addr (x ∷ rest)
unlink_here s b x rest o once (e, back, f, c) =
    let n = s.next x.addr in
    let s1 = set_next b n s in
    let xb = Outside-ne b x rest o in
    let c1 = Chain-frame s s1 rest (some x.addr) n c (λ a h. (
      ap (λ g. g a) (set_next-prev b n s),
      set_next-other b n s a (Outside-mem b a (x ∷ rest) o (ground (arith, h))),
      ap (λ g. g a) (set_next-fields b n s),
    )) in
    let (c2, others) = Chain-set_prev rest n (some x.addr) b s1 (λ a. ground (arith, once a)) c1 in
    rw (unlink-eq x.addr b s back xb) record {
      chain = rw (set_prev-entry n b b s1, set_next-entry b n s, list_remove_first x rest) c2;
      head = λ h. set_prev-head n b s1 ∙ set_next-head b n s h;
      free = set_prev-free n b s1 ∙ set_next-free b n s;
      fields = λ a. ap (λ g. g a) (set_prev-fields n b s1 ∙ set_next-fields b n s);
      next = λ a h ab. ap (λ g. g a) (set_prev-next n b s1) ∙ set_next-other b n s a ab;
      prev = λ a h. others a (count-tail a x rest h) ∙ ap (λ g. g a) (set_next-prev b n s);
    }

Unlinked-later :
    (a : ℕ) (x : Timer) (rest : List Timer) (s : Structs) (b : Option ℕ)
    → Outside b (x ∷ rest)
    → (x.addr == a) ≡ false
    → ((c : ℕ) → count_addr c (x ∷ rest) ≤ 1)
    → (entry s b ≡ some x.addr) × (s.prev x.addr ≡ b) × (s.fields x.addr ≡ x)
    → Unlinked s (unlink a s) (some x.addr) a rest
    → Unlinked s (unlink a s) b a (x ∷ rest)
Unlinked-later a x rest s b o q once (e, back, f) u =
    let hx : count_addr x.addr rest ≡ 0 = ground (arith, once x.addr) in
    let h : (unlink a s).head ≡ s.head = u.head (λ r. ground (arith, r)) in
    record {
      chain =
          rw (list_remove_later a x rest q)
            (same_entry b o h ∙ e, u.prev x.addr hx ∙ back, u.fields x.addr ∙ f, u.chain);
      head = λ _. h;
      free = u.free;
      fields = u.fields;
      next = λ c k cb. u.next c (count-tail c x rest k) (λ r. ne-of-count c x rest k (cc));
      prev = λ c k. u.prev c (count-tail c x rest k);
    }
  where
    same_entry :
        (b : Option ℕ)
        → Outside b (x ∷ rest)
        → (unlink a s).head ≡ s.head
        → entry (unlink a s) b ≡ entry s b
    same_entry none o h = h
    same_entry (some d) o h = u.next d (count-tail d x rest o) (λ r. ne-of-count d x rest o (cc))

unlink_behind :
    (xs : List Timer) (a : ℕ) (s : Structs) (b : Option ℕ)
    → 0 < count_addr a xs
    → Outside b xs
    → ((c : ℕ) → count_addr c xs ≤ 1)
    → Chain s b (entry s b) xs
    → Unlinked s (unlink a s) b a xs
unlink_behind [] a s b h o once c = elim h [ ]
unlink_behind (x ∷ rest) a s b h o once (e, back, f, c) = elim (Bool-cases (x.addr == a)) [
  | inl q ↦
      let r : x.addr ≡ a = (==_iff x.addr a).0 q in
      subst (λ d. Unlinked s (unlink d s) b d (x ∷ rest)) r
        (unlink_here s b x rest o once (e, back, f, c))
  | inr q ↦
      let hx : count_addr x.addr rest ≡ 0 = ground (arith, once x.addr) in
      let u =
        unlink_behind rest a s (some x.addr) (ground (arith, h, q)) hx (λ d. ground (arith, once d))
          c in
      Unlinked-later a x rest s b o q once (e, back, f) u
]

-- What `list_remove` leaves.
pub unlink_lem :
    (xs : List Timer) (a : ℕ) (s : Structs)
    → 0 < count_addr a xs
    → ((c : ℕ) → count_addr c xs ≤ 1)
    → Chain s none s.head xs
    → Unlinked s (unlink a s) none a xs
unlink_lem xs a s h once c = unlink_behind xs a s none h tt once c
