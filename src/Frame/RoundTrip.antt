-- ===== src/Frame/RoundTrip.antt =====
-- What `JSON_read` makes of what `JSON_write` has sent, and where it may store it.
use mathlib.Core.List.{append_assoc}
use i_perf_demo_runtime.Common.{
  Bool, List, Option, [], ap, arith, drop, drop-length_append, length, length-append, ltb, refl,
  some, take-length, take-length_append, true, ℕ, ◌%◌, ◌&&◌, ◌++◌, ◌-◌, ◌<◌, ◌==◌, ◌^◌, ◌∙◌, ◌∷◌,
  ◌≡◌, ◌≤◌, ◌⊎◌,
}
use i_perf_demo_runtime.Net.{Incoming, Outgoing, Reading, count, nread}
use i_perf_demo_runtime.Net.Reads.{
  AreChunks, deliver, flat, nread-Sound, nread-deliver, nread-short,
}
use i_perf_demo_runtime.Net.Writes.{Accepts, nwrite-Accepts}
use i_perf_demo_runtime.Frame.{Written, htonl, json_of, json_read, json_write, ntohl}

pub ntohl-htonl : (n : ℕ) → n < 2 ^ 32 → ntohl (htonl n) ≡ n
unfolding ntohl htonl
ntohl-htonl n h = omega arith

ntohl-htonl-append :
    (n : ℕ) (junk : List ℕ) → n < 2 ^ 32 → ntohl (htonl n ++ drop (length (htonl n)) junk) ≡ n
unfolding ntohl htonl
ntohl-htonl-append n junk h = omega arith

-- Some chunks are left, and hold the bytes that follow.
abbrev pub Follows : List ℕ → List Incoming → Type 0
Follows next s = (ds : List (List ℕ)) × (s ≡ deliver ds) × (flat ds ≡ next) × AreChunks ds

module _ {ℓ} {Json : Type ℓ} (parse : List ℕ → Option Json) where
  json_of-count :
      (str : List ℕ) (r : Reading)
      → length str < 2 ^ 31
      → r.result ≡ count (length str)
      → r.buffer ≡ str
      → json_of parse (length str) r ≡ parse str
  unfolding json_of
  json_of-count str r h e f =
      let t : (ltb (length str) (2 ^ 31) && length str == length str) ≡ true = ground arith in
      rw (e, json_of, t, f)

  json_read-frame :
      (str junk next : List ℕ) (cs : List (List ℕ))
      → length str < 2 ^ 31
      → AreChunks cs
      → flat cs ≡ htonl (length str) ++ (str ++ next)
      → let r = json_read parse junk true (deliver cs) in
        (r.json ≡ parse str) × (r.stored < r.allocated) × Follows next r.rest
  unfolding json_read htonl
  json_read-frame str junk next cs h ac f =
      let n : ℕ = length str in
      let four : 4 ≤ length (flat cs) = rw f (omega arith) in
      let (hr, hb, (ds, he, hf, ha)) = nread-deliver 4 cs ac four in
      let head : (nread 4 (deliver cs)).buffer ≡ htonl n = hb ∙ rw f in
      let left : flat ds ≡ str ++ next = hf ∙ rw f in
      let enough : n ≤ length (flat ds) = rw left (omega (arith, length-append str next)) in
      let (br, bb, (es, ee, ef, ea)) = nread-deliver n ds ha enough in
      let text : (nread n (deliver ds)).buffer ≡ str = bb ∙ rw left (take-length_append str next) in
      let size : ntohl (htonl n ++ drop (length (htonl n)) junk) ≡ n =
        ntohl-htonl-append n junk (omega arith) in
      rw (hr, head, size, he)
        (
          json_of-count str (nread n (deliver ds)) h br text,
          rw text (omega arith),
          (es, ee, ef ∙ rw left (drop-length_append str next), ea),
        )

module _ {ℓ} {Json : Type ℓ} (print : Json → Option (List ℕ)) where
  -- A message that the kernel takes is the length of the text and the text.
  json_write-frame :
      (j : Json) (str : List ℕ) (sizes texts : List Outgoing)
      → print j ≡ some str
      → length str < 2 ^ 32
      → Accepts sizes
      → Accepts texts
      → json_write print j sizes texts ≡ record { success = true; sent = htonl (length str) ++ str }
  unfolding json_write
  json_write-frame j str sizes texts e h a b =
      let small : length str % 2 ^ 32 ≡ length str = omega arith in
      rw (
        e,
        json_write,
        small,
        nwrite-Accepts (htonl (length str)) sizes a,
        take-length str,
        nwrite-Accepts str texts b,
      )

  -- What `JSON_write` has sent, with whatever follows it, and however the network cuts it, `JSON_read`
  -- returns as the text parses, and it leaves what follows. It stores less than it has allocated.
  pub json_read-json_write :
      (parse : List ℕ → Option Json) (j : Json) (str junk : List ℕ) (sizes texts : List Outgoing)
      (cs : List (List ℕ)) (next : List ℕ)
      → print j ≡ some str
      → parse str ≡ some j
      → length str < 2 ^ 31
      → Accepts sizes
      → Accepts texts
      → AreChunks cs
      → flat cs ≡ (json_write print j sizes texts).sent ++ next
      → let r = json_read parse junk true (deliver cs) in
        (r.json ≡ some j) × (r.stored < r.allocated) × Follows next r.rest
  json_read-json_write parse j str junk sizes texts cs next e p h a b ac f =
      let sent : (json_write print j sizes texts).sent ≡ htonl (length str) ++ str =
        ap (λ (w : Written). w.sent) (json_write-frame j str sizes texts e (omega arith) a b) in
      let (json, fits, rest) =
        json_read-frame parse str junk next cs h ac
          (f ∙ ap (λ (l : List ℕ). l ++ next) sent ∙ append_assoc (htonl (length str)) str next) in
      (json ∙ p, fits, rest)

module _ {ℓ} {Json : Type ℓ} (parse : List ℕ → Option Json) where
  abbrev announced : List ℕ → List Incoming → ℕ
  announced junk s = let head = (nread 4 s).buffer in ntohl (head ++ drop (length head) junk)

  -- Where `JSON_read` stores the text, for any bytes from the network: within what it has allocated,
  -- with room for the terminating zero, unless the length that was announced is 2 ^ 32 - 1.
  pub json_read-fits :
      (junk : List ℕ) (memory : Bool) (s : List Incoming)
      → announced junk s < 2 ^ 32 - 1
      → let r = json_read parse junk memory s in
        (r.allocated ≡ 0) × (r.stored ≡ 0) ⊎ (r.stored < r.allocated)
  unfolding json_read
  json_read-fits junk memory s h =
      ground (arith, (nread-Sound (announced junk s) (nread 4 s).rest).fits)

  overflow-size :
      (size : ℕ) (junk bs : List ℕ) (cs : List (List ℕ))
      → size ≡ 2 ^ 32 - 1
      → AreChunks cs
      → flat cs ≡ 255 ∷ 255 ∷ 255 ∷ 255 ∷ bs
      → length bs ≤ size
      → let r = json_read parse junk true (deliver cs) in (r.allocated ≡ 0) × (r.stored ≡ length bs)
  unfolding json_read
  overflow-size size junk bs cs e ac f h =
      let four : 4 ≤ length (flat cs) = rw f (omega arith) in
      let (hr, hb, (ds, he, hf, ha)) = nread-deliver 4 cs ac four in
      let head : (nread 4 (deliver cs)).buffer ≡ 255 ∷ 255 ∷ 255 ∷ 255 ∷ [] = hb ∙ rw f in
      let left : flat ds ≡ bs = hf ∙ rw f in
      let all : (nread size (deliver ds)).buffer ≡ bs = nread-short size ds ha (rw left h) ∙ left in
      let n : ntohl (255 ∷ 255 ∷ 255 ∷ 255 ∷ junk) ≡ size = unfold ntohl in omega arith in
      rw (hr, head, n, he) (refl, ap length all)

  -- A peer that announces 2 ^ 32 - 1 bytes and sends some, but fewer than 2 ^ 32, makes `JSON_read`
  -- allocate no byte and store all that are sent.
  pub json_read-overflow :
      (junk : List ℕ) (cs : List (List ℕ)) (b : ℕ) (text : List ℕ)
      → AreChunks cs
      → flat cs ≡ 255 ∷ 255 ∷ 255 ∷ 255 ∷ b ∷ text
      → length (b ∷ text) < 2 ^ 32
      → let r = json_read parse junk true (deliver cs) in
        (r.allocated ≡ 0) × (r.stored ≡ length (b ∷ text))
  json_read-overflow junk cs b text ac f h =
      let (alloc, stored) = overflow-size (2 ^ 32 - 1) junk (b ∷ text) cs refl ac f (omega arith) in
      (alloc, stored)
