-- ===== src/Transfer/Pacing.antt =====
-- When `iperf_send` of iperf_api.c sends: with the pacing of the application, and without.
use mathlib.Core.Path.{subst}
use i_perf_demo_runtime.Common.{
  All, Bool, List, Option, [], ap, arith, false, if◌then◌else◌, leb, length, none, refl, some, suc,
  sym, true, zero, ℕ, ◌%◌, ◌&&◌, ◌+◌, ◌==◌, ◌^◌, ◌∷◌, ◌≡◌,
}
use i_perf_demo_runtime.Net.{NetResult, count, hard_error, soft_error}
use i_perf_demo_runtime.Transfer.{
  Limits, SendStream, Walk, after_snd, in_front, iperf_send, may_send, multisend_of, next_round,
  reached, rounds, walk,
}

-- The stream has been stopped by the throttle, or cannot be written to.
abbrev pub IsHeld : SendStream → Type 0
IsHeld s = (s.green_light && s.ready) ≡ false

multisend_of-rate : (l : Limits) → (l.rate == 0) ≡ false → l.burst ≡ 0 → multisend_of l ≡ 1
unfolding multisend_of
multisend_of-rate l q b = ground arith

module _ {ℓ} {W : Type ℓ} (snd : SendStream → W → NetResult × (SendStream × W)) where
  abbrev idle : List SendStream → ℕ → ℕ → Bool → W → Walk W
  idle streams bytes blocks active w = record {
    streams = streams;
    bytes_sent = bytes;
    blocks_sent = blocks;
    active = active;
    error = none;
    state = w;
  }

  walk-All :
      (l : Limits) (more : Bool) (streams : List SendStream) (bytes blocks : ℕ) (active : Bool)
      (w : W)
      → l.no_fq_socket_pacing ≡ true
      → All IsHeld streams
      → walk snd l more streams bytes blocks active w ≡ idle streams bytes blocks active w
  unfolding walk may_send
  walk-All l more [] bytes blocks active w p h = refl
  walk-All l more (s ∷ rest) bytes blocks active w p (h, hs) =
      rw (p, h) (ap (in_front snd s) (walk-All l more rest bytes blocks active w p hs))

  rounds-All :
      (n : ℕ) (l : Limits) (streams : List SendStream) (bytes blocks : ℕ) (w : W)
      → l.no_fq_socket_pacing ≡ true
      → All IsHeld streams
      → rounds snd n l streams bytes blocks w ≡ idle streams bytes blocks false w
  unfolding rounds next_round
  rounds-All zero l streams bytes blocks w p h = refl
  rounds-All (suc n) l streams bytes blocks w p h =
      rw (walk-All l (leb 1 n) streams bytes blocks false w p h)

  -- Where the application paces the streams, and every stream is stopped by the throttle or cannot be
  -- written to, `iperf_send` calls no `snd`: the counts and the state of the program stay, and it
  -- returns without an error.
  pub iperf_send-All :
      (l : Limits) (streams : List SendStream) (bytes blocks : ℕ) (w : W)
      → l.no_fq_socket_pacing ≡ true
      → All IsHeld streams
      → let r = iperf_send snd l streams bytes blocks w in
        (r.bytes_sent ≡ bytes) × (r.blocks_sent ≡ blocks) × (r.state ≡ w) × (r.error ≡ none)
  unfolding iperf_send
  iperf_send-All l streams bytes blocks w p h =
      let e = rounds-All (multisend_of l) l streams bytes blocks w p h in
      (ap Walk.bytes_sent e, ap Walk.blocks_sent e, ap Walk.state e, ap Walk.error e)

  -- Every `snd` gives a count.
  abbrev pub NeverFails : Type ℓ
  NeverFails = (s : SendStream) (w : W) → (n : ℕ) × ((snd s w).0 ≡ count n)

  -- The walk ends without an error, and has counted `n` blocks, modulo 2 ^ 64.
  abbrev pub Sends : ℕ → ℕ → Walk W → Type 0
  Sends blocks n r = (r.blocks_sent % 2 ^ 64 ≡ (blocks + n) % 2 ^ 64) × (r.error ≡ none)

  if-Sends :
      (b : Bool) (blocks n : ℕ) (r t : Walk W)
      → b ≡ true
      → Sends blocks n r
      → Sends blocks n (if b then r else t)
  if-Sends true blocks n r t e h = h
  if-Sends false blocks n r t e h = absurd (ground (arith, e))

  after_snd-Sends :
      (l : Limits) (r : NetResult) (n m : ℕ) (s : SendStream) (rest : List SendStream)
      (go : ℕ → ℕ → Bool → W → Walk W) (bytes blocks : ℕ) (active : Bool) (w : W)
      → r ≡ count n
      → ((b k : ℕ) (a : Bool) (v : W) → Sends k m (go b k a v))
      → Sends blocks (suc m) (after_snd snd l false r s rest go bytes blocks active w)
  unfolding after_snd reached
  after_snd-Sends l (count k) n m s rest go bytes blocks active w e h =
      let (c, f) = h ((bytes + k) % 2 ^ 64) ((blocks + 1) % 2 ^ 64) true w in (omega (arith, c), f)
  after_snd-Sends l soft_error n m s rest go bytes blocks active w e h = absurd (ground (arith, e))
  after_snd-Sends l hard_error n m s rest go bytes blocks active w e h = absurd (ground (arith, e))

  walk-Sends :
      (l : Limits) (streams : List SendStream) (bytes blocks : ℕ) (active : Bool) (w : W)
      → l.no_fq_socket_pacing ≡ false
      → NeverFails
      → Sends blocks (length streams) (walk snd l false streams bytes blocks active w)
  unfolding walk
  walk-Sends l [] bytes blocks active w p law = (omega arith, refl)
  walk-Sends l (s ∷ rest) bytes blocks active w p law =
      let (n, e) = law s w in
      if-Sends (may_send l s) blocks (suc (length rest)) _ _ (unfold may_send in rw p) (
        after_snd-Sends l (snd s w).0 n (length rest) (snd s w).1.0 rest (walk snd l false rest)
          bytes blocks active (snd s w).1.1 e (λ b k a v. walk-Sends l rest b k a v p law))

  next_round-Sends :
      (blocks n : ℕ) (r : Walk W) (e : Option NetResult) (a : Bool) (w : W)
      → Sends blocks n r
      → Sends blocks n
          (next_round snd r e a (idle r.streams r.bytes_sent r.blocks_sent false r.state))
  unfolding next_round
  next_round-Sends blocks n r none true w (c, f) = (c, refl)
  next_round-Sends blocks n r none false w h = h
  next_round-Sends blocks n r (some e) a w h = h

  -- Without `no_fq_socket_pacing` the streams are not held back: with a rate, and no burst, every call
  -- of `iperf_send` sends a block on each stream, however far the stream is above its rate, where no
  -- `snd` fails.
  pub iperf_send-Sends :
      (l : Limits) (streams : List SendStream) (bytes blocks : ℕ) (w : W)
      → l.no_fq_socket_pacing ≡ false
      → (l.rate == 0) ≡ false
      → l.burst ≡ 0
      → NeverFails
      → Sends blocks (length streams) (iperf_send snd l streams bytes blocks w)
  unfolding iperf_send rounds
  iperf_send-Sends l streams bytes blocks w p q b law =
      let r : Walk W = walk snd l false streams bytes blocks false w in
      subst (λ n. Sends blocks (length streams) (rounds snd n l streams bytes blocks w))
        (sym (multisend_of-rate l q b))
        (next_round-Sends blocks (length streams) r r.error r.active w
          (walk-Sends l streams bytes blocks false w p law))
