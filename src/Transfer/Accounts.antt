-- ===== src/Transfer/Accounts.antt =====
-- The byte counts that `iperf_send` and `iperf_recv` of iperf_api.c keep, and those of the streams.
use i_perf_demo_runtime.Common.{
  Bool, List, Option, [], arith, false, if◌then◌else◌, leb, map, none, not, refl, some, suc, true,
  zero, ℕ, ◌%◌, ◌&&◌, ◌+◌, ◌==◌, ◌^◌, ◌∷◌, ◌≡◌,
}
use i_perf_demo_runtime.Net.{NetResult, before, count, hard_error, soft_error}
use i_perf_demo_runtime.Transfer.{
  Limits, SendStream, Walk, after_rcv, after_snd, finish, in_front, iperf_check_throttle,
  iperf_recv, iperf_send, may_send, multisend_of, next_round, paced, reached, rounds, walk,
}

-- The bytes of a result.
abbrev pub given : NetResult → ℕ
given (count n) = n
given soft_error = 0
given hard_error = 0

abbrev pub sum : List SendStream → ℕ
sum [] = 0
sum (s ∷ rest) = s.total + sum rest

-- What a walk has added to the test's count of bytes is what the streams have added to theirs, modulo
-- 2 ^ 64.
abbrev pub Agree : ℕ → List SendStream → ℕ → List SendStream → Type 0
Agree bytes before bytes' after = (bytes' + sum before) % 2 ^ 64 ≡ (bytes + sum after) % 2 ^ 64

if-total :
    (b : Bool) (s t : SendStream) (n : ℕ)
    → s.total ≡ n
    → t.total ≡ n
    → (if b then s else t).total ≡ n
if-total true s t n h k = h
if-total false s t n h k = k

throttle-total : (l : Limits) (s : SendStream) → (iperf_check_throttle l s).total ≡ s.total
unfolding iperf_check_throttle
throttle-total l s = if-total l.done s _ s.total refl refl

paced-total : (l : Limits) (s : SendStream) → (paced l s).total ≡ s.total
unfolding paced
paced-total l s =
    if-total (not (l.rate == 0) && l.burst == 0) (iperf_check_throttle l s) s s.total
      (throttle-total l s) refl

module _ {ℓ} {W : Type ℓ} (snd : SendStream → W → NetResult × (SendStream × W)) where
  -- A `snd` or `rcv` adds what it returns to the count of its stream.
  abbrev pub CountsBytes : Type ℓ
  CountsBytes = (s : SendStream) (w : W) → (snd s w).1.0.total ≡ s.total + given (snd s w).0

  -- What a walk has added, from `bytes` and `streams` on.
  abbrev pub Adds : ℕ → List SendStream → Walk W → Type 0
  Adds bytes streams r = Agree bytes streams r.bytes_sent r.streams

  if-Adds :
      (b : Bool) (bytes : ℕ) (streams : List SendStream) (r t : Walk W)
      → Adds bytes streams r
      → Adds bytes streams t
      → Adds bytes streams (if b then r else t)
  if-Adds true bytes streams r t h k = h
  if-Adds false bytes streams r t h k = k

  after_snd-Adds :
      (l : Limits) (more : Bool) (r : NetResult) (s t : SendStream) (rest : List SendStream)
      (go : ℕ → ℕ → Bool → W → Walk W) (bytes blocks : ℕ) (active : Bool) (w : W)
      → t.total ≡ s.total + given r
      → ((b k : ℕ) (a : Bool) (v : W) → Adds b rest (go b k a v))
      → Adds bytes (s ∷ rest) (after_snd snd l more r t rest go bytes blocks active w)
  unfolding after_snd
  after_snd-Adds l more (count n) s t rest go bytes blocks active w h k =
      let b : ℕ = (bytes + n) % 2 ^ 64 in
      let m : ℕ = (blocks + 1) % 2 ^ 64 in
      let p = paced-total l t in
      let stopped : Walk W = record {
        streams = paced l t ∷ rest;
        bytes_sent = b;
        blocks_sent = m;
        active = true;
        error = none;
        state = w;
      } in
      if-Adds (reached l more b m) bytes (s ∷ rest) stopped
        (in_front snd (paced l t) (go b m true w)) (omega (arith, h, p))
        (omega (arith, h, p, k b m true w))
  after_snd-Adds l more soft_error s t rest go bytes blocks active w h k = omega (arith, h)
  after_snd-Adds l more hard_error s t rest go bytes blocks active w h k = omega (arith, h)

  walk-Adds :
      (l : Limits) (more : Bool) (streams : List SendStream) (bytes blocks : ℕ) (active : Bool)
      (w : W)
      → CountsBytes
      → Adds bytes streams (walk snd l more streams bytes blocks active w)
  unfolding walk
  walk-Adds l more [] bytes blocks active w law = refl
  walk-Adds l more (s ∷ rest) bytes blocks active w law =
      if-Adds (may_send l s) bytes (s ∷ rest) _ _
        (after_snd-Adds l more (snd s w).0 s (snd s w).1.0 rest (walk snd l more rest) bytes blocks
          active (snd s w).1.1 (law s w) (λ b k a v. walk-Adds l more rest b k a v law))
        (omega (arith, walk-Adds l more rest bytes blocks active w law))

  next_round-Adds :
      (bytes : ℕ) (streams : List SendStream) (r more : Walk W) (e : Option NetResult) (a : Bool)
      → Adds bytes streams r
      → Adds r.bytes_sent r.streams more
      → Adds bytes streams (next_round snd r e a more)
  unfolding next_round
  next_round-Adds bytes streams r more none true h k = omega (arith, h, k)
  next_round-Adds bytes streams r more none false h k = h
  next_round-Adds bytes streams r more (some e) a h k = h

  rounds-Adds :
      (n : ℕ) (l : Limits) (streams : List SendStream) (bytes blocks : ℕ) (w : W)
      → CountsBytes
      → Adds bytes streams (rounds snd n l streams bytes blocks w)
  unfolding rounds
  rounds-Adds zero l streams bytes blocks w law = refl
  rounds-Adds (suc n) l streams bytes blocks w law =
      let r : Walk W = walk snd l (leb 1 n) streams bytes blocks false w in
      next_round-Adds bytes streams r (rounds snd n l r.streams r.bytes_sent r.blocks_sent r.state)
        r.error r.active (walk-Adds l (leb 1 n) streams bytes blocks false w law)
        (rounds-Adds n l r.streams r.bytes_sent r.blocks_sent r.state law)

  throttled-sum :
      (l : Limits) (streams : List SendStream)
      → sum (
          map
            (λ s. record (if l.burst == 0 then s else iperf_check_throttle l s) { ready = false })
            streams)
        ≡ sum streams
  throttled-sum l [] = refl
  throttled-sum l (s ∷ rest) = omega (
    arith,
    if-total (l.burst == 0) s (iperf_check_throttle l s) s.total refl (throttle-total l s),
    throttled-sum l rest,
  )

  finish-sum :
      (l : Limits) (e : Option NetResult) (streams : List SendStream)
      → sum (finish snd l e streams) ≡ sum streams
  unfolding finish
  finish-sum l none streams = throttled-sum l streams
  finish-sum l (some e) streams = refl

  -- However many rounds it makes, and whether it ends with an error, `iperf_send` adds to the test's
  -- `bytes_sent` what the streams have added to theirs, modulo 2 ^ 64, if the `snd` of a stream adds
  -- what it returns.
  pub iperf_send-Adds :
      (l : Limits) (streams : List SendStream) (bytes blocks : ℕ) (w : W)
      → CountsBytes
      → Adds bytes streams (iperf_send snd l streams bytes blocks w)
  unfolding iperf_send
  iperf_send-Adds l streams bytes blocks w law =
      let r : Walk W = rounds snd (multisend_of l) l streams bytes blocks w in
      omega (
        arith,
        rounds-Adds (multisend_of l) l streams bytes blocks w law,
        finish-sum l r.error r.streams,
      )

  after_rcv-Adds :
      (r : NetResult) (s t : SendStream) (rest : List SendStream) (go : ℕ → ℕ → W → Walk W)
      (bytes blocks : ℕ) (w : W)
      → t.total ≡ s.total + given r
      → ((b k : ℕ) (v : W) → Adds b rest (go b k v))
      → Adds bytes (s ∷ rest) (after_rcv snd r t rest go bytes blocks w)
  unfolding after_rcv
  after_rcv-Adds (count n) s t rest go bytes blocks w h k =
      omega (arith, h, k ((bytes + n) % 2 ^ 64) ((blocks + 1) % 2 ^ 64) w)
  after_rcv-Adds soft_error s t rest go bytes blocks w h k = omega (arith, h)
  after_rcv-Adds hard_error s t rest go bytes blocks w h k = omega (arith, h)

  -- The same of `iperf_recv`, for the bytes that the streams have received.
  pub iperf_recv-Adds :
      (streams : List SendStream) (bytes blocks : ℕ) (w : W)
      → CountsBytes
      → Adds bytes streams (iperf_recv snd streams bytes blocks w)
  unfolding iperf_recv
  iperf_recv-Adds [] bytes blocks w law = refl
  iperf_recv-Adds (s ∷ rest) bytes blocks w law =
      if-Adds s.ready bytes (s ∷ rest) _ _
        (after_rcv-Adds (snd s w).0 s (snd s w).1.0 rest (iperf_recv snd rest) bytes blocks
          (snd s w).1.1 (law s w) (λ b k v. iperf_recv-Adds rest b k v law))
        (omega (arith, iperf_recv-Adds rest bytes blocks w law))
