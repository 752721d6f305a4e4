-- ===== src/Net/Reads.antt =====
-- What `Nread` of net.c returns and stores.
use mathlib.Core.List.{append-nil, append_assoc}
use i_perf_demo_runtime.Common.{
  All, Bool-cases, List, [], ap, arith, drop, drop-append_long, drop-append_short, false, inl, inr,
  leb, length, length-append, length-drop, length-take, refl, suc, sym, take, take-append-drop,
  take-append_long, take-append_short, true, zero, ℕ, ◌++◌, ◌+◌, ◌-◌, ◌<◌, ◌==◌, ◌∙◌, ◌∷◌, ◌≡◌, ◌≤◌,
}
use i_perf_demo_runtime.Net.{
  Incoming, NetResult, Reading, arrives, count, ends, fails, hard_error, is_transient, nread,
  read_loop, soft_error,
}

-- All bytes that ever arrive.
abbrev pub stream : List Incoming → List ℕ
stream [] = []
stream (arrives bs ∷ s) = bs ++ stream s
stream (ends ∷ s) = stream s
stream (fails e ∷ s) = stream s

abbrev pub Counts : NetResult → ℕ → Type 0
Counts (count k) n = k ≡ n
Counts soft_error n = ⊥
Counts hard_error n = Unit

pub record Sound (size : ℕ) (got : List ℕ) (s : List Incoming) (r : Reading) : Type 0 where
  pub bytes : r.buffer ++ stream r.rest ≡ got ++ stream s
  pub counts : Counts r.result (length r.buffer)
  pub fits : length r.buffer ≤ size

empty_of_length : (bs : List ℕ) → (length bs == 0) ≡ true → bs ≡ []
empty_of_length [] h = refl
empty_of_length (b ∷ bs) h = ground arith

split_append :
    (got : List ℕ) (n : ℕ) (bs rest : List ℕ)
    → (got ++ take n bs) ++ (drop n bs ++ rest) ≡ got ++ (bs ++ rest)
split_append got n bs rest =
    append_assoc got (take n bs) (drop n bs ++ rest)
    ∙ ap (◌++◌ got) (
        sym (append_assoc (take n bs) (drop n bs) rest)
        ∙ ap (λ (l : List ℕ). l ++ rest) (take-append-drop n bs))

read_loop-Sound :
    (size n : ℕ) (got : List ℕ) (s : List Incoming)
    → length got + n ≡ size
    → Sound size got s (read_loop size n got s)
unfolding read_loop
read_loop-Sound size zero got s h = record {
  bytes = refl;
  counts = omega arith;
  fits = omega arith;
}
read_loop-Sound size (suc n) got [] h = record {
  bytes = refl;
  counts = omega arith;
  fits = omega arith;
}
read_loop-Sound size (suc n) got (ends ∷ s) h = record {
  bytes = refl;
  counts = omega arith;
  fits = omega arith;
}
read_loop-Sound size (suc n) got (fails e ∷ s) h = elim (Bool-cases (is_transient e)) [
  | inl q ↦ rw q (record { bytes = refl; counts = omega arith; fits = omega arith })
  | inr q ↦ rw q (record { bytes = refl; counts = tt; fits = omega arith })
]
read_loop-Sound size (suc n) got (arrives bs ∷ s) h = elim (Bool-cases (length bs == 0)) [
  | inl q ↦
      rw (q, empty_of_length bs q)
        (record { bytes = refl; counts = omega arith; fits = omega arith })
  | inr q ↦ elim (Bool-cases (leb (length bs) (suc n))) [
    | inl le ↦
        let ih =
          read_loop-Sound size (suc n - length bs) (got ++ bs) s
            (rw (length-append got bs) (ground arith)) in
        rw (q, le)
          (record {
            bytes = ih.bytes ∙ append_assoc got bs (stream s);
            counts = ih.counts;
            fits = ih.fits;
          })
    | inr gt ↦
        let len = length-append got (take (suc n) bs) in
        let cut = length-take (suc n) bs in
        rw (q, gt)
          (record {
            bytes = split_append got (suc n) bs (stream s);
            counts = ground (arith, len, cut);
            fits = ground (arith, len, cut);
          })
  ]
]

-- For every answer of the kernel, `Nread` returns the number of bytes that it has stored (but for a
-- hard error, where it returns a negative number), stores at most `size`, and loses none: what it
-- stored and what is left to read are together what was to be read.
pub nread-Sound : (size : ℕ) (s : List Incoming) → Sound size [] s (nread size s)
unfolding nread
nread-Sound size s = read_loop-Sound size size [] s (omega arith)

-- Chunks as the network may cut a text.
abbrev pub deliver : List (List ℕ) → List Incoming
deliver [] = []
deliver (c ∷ cs) = arrives c ∷ deliver cs

abbrev pub flat : List (List ℕ) → List ℕ
flat [] = []
flat (c ∷ cs) = c ++ flat cs

abbrev pub AreChunks : List (List ℕ) → Type 0
AreChunks cs = All (λ (c : List ℕ). 0 < length c) cs

-- The chunks that are left.
abbrev pub Leaves : ℕ → List (List ℕ) → List Incoming → Type 0
Leaves n cs s =
    (ds : List (List ℕ)) × (s ≡ deliver ds) × (flat ds ≡ drop n (flat cs)) × AreChunks ds

read_loop-deliver :
    (size n : ℕ) (got : List ℕ) (cs : List (List ℕ))
    → AreChunks cs
    → n ≤ length (flat cs)
    → let r = read_loop size n got (deliver cs) in
      (r.result ≡ count size) × (r.buffer ≡ got ++ take n (flat cs)) × Leaves n cs r.rest
unfolding read_loop
read_loop-deliver size zero got cs a h = (refl, sym (append-nil got), (cs, refl, refl, a))
read_loop-deliver size (suc n) got [] a h = absurd (omega arith)
read_loop-deliver size (suc n) got (c ∷ cs) (ac, a) h =
    let len = length-append c (flat cs) in
    let q : (length c == 0) ≡ false = ground arith in
    elim (Bool-cases (leb (length c) (suc n))) [
      | inl le ↦
          let fits : length c ≤ suc n = ground arith in
          let (res, buf, (ds, e, f, b)) =
            read_loop-deliver size (suc n - length c) (got ++ c) cs a (omega (arith, len)) in
          rw (q, le)
            (
              res,
              buf
                  ∙ append_assoc got c (take (suc n - length c) (flat cs))
                  ∙ ap (◌++◌ got) (sym (take-append_long (suc n) c (flat cs) fits)),
              (ds, e, f ∙ sym (drop-append_long (suc n) c (flat cs) fits), b),
            )
      | inr gt ↦
          let fits : suc n ≤ length c = ground arith in
          let left : suc n < length c = ground arith in
          rw (q, gt)
            (
              refl,
              ap (◌++◌ got) (sym (take-append_short (suc n) c (flat cs) fits)),
              (
                drop (suc n) c ∷ cs,
                refl,
                sym (drop-append_short (suc n) c (flat cs) fits),
                (omega (arith, length-drop (suc n) c), a),
              ),
            )
    ]

-- However the network cuts the bytes into chunks, `Nread` returns the first `size` of them if there
-- are as many, and leaves the others to be read.
pub nread-deliver :
    (size : ℕ) (cs : List (List ℕ))
    → AreChunks cs
    → size ≤ length (flat cs)
    → let r = nread size (deliver cs) in
      (r.result ≡ count size) × (r.buffer ≡ take size (flat cs)) × Leaves size cs r.rest
unfolding nread
nread-deliver size cs a h = read_loop-deliver size size [] cs a h

read_loop-short :
    (size n : ℕ) (got : List ℕ) (cs : List (List ℕ))
    → AreChunks cs
    → length (flat cs) ≤ n
    → (read_loop size n got (deliver cs)).buffer ≡ got ++ flat cs
unfolding read_loop
read_loop-short size zero got [] a h = sym (append-nil got)
read_loop-short size zero got (c ∷ cs) (ac, a) h = absurd (omega (arith, length-append c (flat cs)))
read_loop-short size (suc n) got [] a h = sym (append-nil got)
read_loop-short size (suc n) got (c ∷ cs) (ac, a) h =
    let len = length-append c (flat cs) in
    let q : (length c == 0) ≡ false = ground arith in
    let fits : leb (length c) (suc n) ≡ true = ground (arith, len) in
    rw (q, fits)
      (read_loop-short size (suc n - length c) (got ++ c) cs a (omega (arith, len))
        ∙ append_assoc got c (flat cs))

-- If the stream ends early, `Nread` has stored all of it.
pub nread-short :
    (size : ℕ) (cs : List (List ℕ))
    → AreChunks cs
    → length (flat cs) ≤ size
    → (nread size (deliver cs)).buffer ≡ flat cs
unfolding nread
nread-short size cs a h = read_loop-short size size [] cs a h
