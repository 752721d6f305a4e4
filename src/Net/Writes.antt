-- ===== src/Net/Writes.antt =====
-- What `Nwrite` and `Nsendfile` of net.c send and return.
use Prim.Native.Nat.{min}
use mathlib.Core.Path.{subst}
use i_perf_demo_runtime.Common.{
  All, Bool-cases, List, [], ap, arith, drop, false, inl, inr, length, length-drop, refl, suc, sym,
  take, take-append-drop, take-length, zero, ℕ, ◌++◌, ◌+◌, ◌-◌, ◌==◌, ◌∙◌, ◌∷◌, ◌≡◌, ◌≤◌,
}
use i_perf_demo_runtime.Net.{
  Errno, NetResult, Outgoing, Writing, before, count, eagain, eintr, enobufs, enomem, hard_error,
  nsendfile, nwrite, other, refuses, sendfile_error, sendfile_loop, soft_error, takes, write_error,
  write_loop,
}

-- An error code says nothing of the bytes that were sent before it.
abbrev pub Says : NetResult → ℕ → Type 0
Says (count k) n = k ≡ n
Says soft_error n = Unit
Says hard_error n = Unit

-- Exactly the first `k` bytes went out, and a count that is returned is `from + k`.
abbrev pub Prefix : ℕ → List ℕ → Writing → Type 0
Prefix from buf w = (k : ℕ) × (w.sent ≡ take k buf) × (k ≤ length buf) × Says w.result (from + k)

write_error-Says : (n m : ℕ) (e : Errno) → n ≡ m → Says (write_error n e) m
unfolding write_error
write_error-Says n m eintr h = h
write_error-Says n m eagain h = h
write_error-Says n m enobufs h = tt
write_error-Says n m _ h = tt

take-add :
    (k j : ℕ) (xs : List ℕ) → k ≤ length xs → take k xs ++ take j (drop k xs) ≡ take (k + j) xs
take-add zero j xs h = let e : j ≡ 0 + j = omega arith in ap (λ n. take n xs) e
take-add (suc k) j [] h = elim h [ ]
take-add (suc k) j (x ∷ xs) h =
    let e : suc (k + j) ≡ suc k + j = omega arith in
    ap (◌∷◌ x) (take-add k j xs (omega arith)) ∙ ap (λ n. take n (x ∷ xs)) e

-- A call takes at most what is left.
take-min : (k : ℕ) (xs : List ℕ) → take k xs ≡ take (min k (length xs)) xs
take-min zero xs = let e : 0 ≡ min 0 (length xs) = omega arith in ap (λ n. take n xs) e
take-min (suc k) [] = let e : 0 ≡ min (suc k) 0 = omega arith in ap (λ (n : ℕ). take {A = ℕ} n []) e
take-min (suc k) (x ∷ xs) =
    let e : suc (min k (length xs)) ≡ min (suc k) (suc (length xs)) = omega arith in
    ap (◌∷◌ x) (take-min k xs) ∙ ap (λ n. take n (x ∷ xs)) e

drop-min : (k : ℕ) (xs : List ℕ) → drop k xs ≡ drop (min k (length xs)) xs
drop-min zero xs = let e : 0 ≡ min 0 (length xs) = omega arith in ap (λ n. drop n xs) e
drop-min (suc k) [] = let e : 0 ≡ min (suc k) 0 = omega arith in ap (λ (n : ℕ). drop {A = ℕ} n []) e
drop-min (suc k) (x ∷ xs) =
    let e : suc (min k (length xs)) ≡ min (suc k) (suc (length xs)) = omega arith in
    drop-min k xs ∙ ap (λ n. drop n (x ∷ xs)) e

-- What a call has sent, in front of what the later calls send.
Prefix-before :
    (from r : ℕ) (xs : List ℕ) (w : Writing)
    → r ≤ length xs
    → Prefix (from + r) (drop r xs) w
    → Prefix from xs (before (take r xs) w)
Prefix-before from r xs w h (k, sent, le, says) =
    let e : from + r + k ≡ from + (r + k) = omega arith in
    (
      r + k,
      ap (◌++◌ (take r xs)) sent ∙ take-add r k xs h,
      omega (arith, length-drop r xs),
      subst (Says w.result) e says,
    )

write_loop-Prefix :
    (size from : ℕ) (buf : List ℕ) (a : List Outgoing)
    → from + length buf ≡ size
    → Prefix from buf (write_loop size buf a)
unfolding write_loop
write_loop-Prefix size from [] a h = (0, refl, omega arith, omega arith)
write_loop-Prefix size from (b ∷ buf) [] h =
    (length (b ∷ buf), sym (take-length (b ∷ buf)), omega arith, omega arith)
write_loop-Prefix size from (b ∷ buf) (refuses e ∷ a) h =
    (0, refl, omega arith, write_error-Says (size - length (b ∷ buf)) (from + 0) e (omega arith))
write_loop-Prefix size from (b ∷ buf) (takes k ∷ a) h = elim (Bool-cases (k == 0)) [
  | inl q ↦ rw q (0, refl, omega arith, tt)
  | inr q ↦
      let r : ℕ = min k (length (b ∷ buf)) in
      let le : r ≤ length (b ∷ buf) = omega arith in
      let ih =
        write_loop-Prefix size (from + r) (drop k (b ∷ buf)) a
          (rw (drop-min k (b ∷ buf)) (omega (arith, length-drop r (b ∷ buf)))) in
      let w : Writing = write_loop size (drop k (b ∷ buf)) a in
      rw q (
        subst (λ l. Prefix from (b ∷ buf) (before l w)) (sym (take-min k (b ∷ buf)))
          (Prefix-before from r (b ∷ buf) w le
            (subst (λ l. Prefix (from + r) l w) (drop-min k (b ∷ buf)) ih)))
]

-- For every answer of the kernel, what `Nwrite` sends is a beginning of the buffer, and a count
-- that it returns is the length of that beginning.
pub nwrite-Prefix : (buf : List ℕ) (a : List Outgoing) → Prefix 0 buf (nwrite buf a)
unfolding nwrite
nwrite-Prefix buf a = write_loop-Prefix (length buf) 0 buf a (omega arith)

-- No error, and no call that takes nothing.
abbrev pub Accepts : List Outgoing → Type 0
Accepts a = All (λ (o : Outgoing). (k : ℕ) × (o ≡ takes (suc k))) a

write_loop-Accepts :
    (size : ℕ) (buf : List ℕ) (a : List Outgoing)
    → Accepts a
    → write_loop size buf a ≡ record { result = count size; sent = buf }
unfolding write_loop
write_loop-Accepts size [] a h = refl
write_loop-Accepts size (b ∷ buf) [] h = refl
write_loop-Accepts size (b ∷ buf) (refuses e ∷ a) ((k, q), h) = cc
write_loop-Accepts size (b ∷ buf) (takes zero ∷ a) ((k, q), h) = cc
write_loop-Accepts size (b ∷ buf) (takes (suc k) ∷ a) (_, h) =
    let t : (suc k == 0) ≡ false = ground arith in
    rw (t, write_loop-Accepts size (drop k buf) a h)
      (ap (λ l. record { result = count size; sent = b ∷ l }) (take-append-drop k buf))

-- If every call takes something, however little, `Nwrite` sends the whole buffer and returns its size.
pub nwrite-Accepts :
    (buf : List ℕ) (a : List Outgoing)
    → Accepts a
    → nwrite buf a ≡ record { result = count (length buf); sent = buf }
unfolding nwrite
nwrite-Accepts buf a h = write_loop-Accepts (length buf) buf a h

sendfile_error-Says : (size n m : ℕ) (e : Errno) → size - n ≡ m → Says (sendfile_error size n e) m
unfolding sendfile_error
sendfile_error-Says size n m eintr h = ground arith
sendfile_error-Says size n m eagain h = ground arith
sendfile_error-Says size n m enobufs h = tt
sendfile_error-Says size n m enomem h = tt
sendfile_error-Says size n m other h = tt

drop-nil : (n : ℕ) → drop {A = ℕ} n [] ≡ []
drop-nil zero = refl
drop-nil (suc n) = refl

drop-add : (k j : ℕ) (xs : List ℕ) → drop j (drop k xs) ≡ drop (k + j) xs
drop-add zero j xs = let e : j ≡ 0 + j = omega arith in ap (λ n. drop n xs) e
drop-add (suc k) j [] = drop-nil j ∙ sym (drop-nil (suc k + j))
drop-add (suc k) j (x ∷ xs) =
    let e : suc (k + j) ≡ suc k + j = omega arith in drop-add k j xs ∙ ap (λ n. drop n (x ∷ xs)) e

-- `drop from file` is what is still to be sent, of which `n` bytes are wanted.
sendfile_loop-Prefix :
    (file : List ℕ) (size from n : ℕ) (a : List Outgoing)
    → from + n ≡ size
    → size ≤ length file
    → Prefix from (drop from file) (sendfile_loop file size n a)
unfolding sendfile_loop
sendfile_loop-Prefix file size from zero a h le = (0, refl, omega arith, omega arith)
sendfile_loop-Prefix file size from (suc n) [] h le =
    let e : size - suc n ≡ from = omega arith in
    (suc n, rw e, omega (arith, length-drop from file), omega arith)
sendfile_loop-Prefix file size from (suc n) (refuses e ∷ a) h le =
    (0, refl, omega arith, sendfile_error-Says size (suc n) (from + 0) e (omega arith))
sendfile_loop-Prefix file size from (suc n) (takes k ∷ a) h le = elim (Bool-cases (k == 0)) [
  | inl q ↦ rw q (0, refl, omega arith, tt)
  | inr q ↦
      let r : ℕ = min k (suc n) in
      let w : Writing = sendfile_loop file size (suc n - r) a in
      let e : size - suc n ≡ from = omega arith in
      let ih = sendfile_loop-Prefix file size (from + r) (suc n - r) a (omega arith) le in
      rw (q, e)
        (Prefix-before from r (drop from file) w (omega (arith, length-drop from file))
          (subst (λ l. Prefix (from + r) l w) (sym (drop-add from r file)) ih))
]

-- `Nsendfile` sends a beginning of the file too, and a count that it returns is its length.
pub nsendfile-Prefix :
    (file : List ℕ) (size : ℕ) (a : List Outgoing)
    → size ≤ length file
    → Prefix 0 file (nsendfile file size a)
unfolding nsendfile
nsendfile-Prefix file size a le = sendfile_loop-Prefix file size 0 size a (omega arith) le
