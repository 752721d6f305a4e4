-- ===== src/Transfer.antt =====
-- Sending and receiving on the streams of a test: `iperf_check_throttle`, `iperf_send` and
-- `iperf_recv` of iperf-3.1.3/src/iperf_api.c. What the `snd` and the `rcv` of a stream do is a
-- parameter: with the program's state `W` they give a result, and change the stream. Time is in
-- microseconds, and a rate in whole bits per second.
pub mod Accounts
pub mod Pacing
mod Tests
use i_perf_demo_runtime.Common.{
  Bool, List, Option, [], false, if◌then◌else◌, leb, ltb, map, none, not, some, suc, true, zero, ℕ,
  ◌%◌, ◌&&◌, ◌*◌, ◌+◌, ◌/◌, ◌==◌, ◌^◌, ◌||◌, ◌∷◌,
}
use i_perf_demo_runtime.Net.{NetResult, count, hard_error, soft_error}

-- The fields of a stream that the loops use: what is in `result->bytes_sent`, the time since
-- `result->start_time_fixed`, whether the socket is in the test's `write_set`, and whether it is in
-- the set that `select` has returned.
pub record SendStream : Type 0 where
  pub total : ℕ
  pub elapsed : ℕ
  pub green_light : Bool
  pub watched : Bool
  pub ready : Bool

-- The settings that they depend on.
pub record Limits : Type 0 where
  pub rate : ℕ
  pub burst : ℕ
  pub multisend : ℕ
  pub bytes : ℕ
  pub blocks : ℕ
  pub no_fq_socket_pacing : Bool
  pub done : Bool

-- A rate is compared with the bytes sent in `elapsed` microseconds; with no time passed the quotient
-- is infinite (or not a number), and the stream is stopped.
unfoldable pub iperf_check_throttle : Limits → SendStream → SendStream
iperf_check_throttle l s =
    let slow = not (s.elapsed == 0) && ltb (s.total * 8 * 1000000 / s.elapsed) l.rate in
    if l.done then s else record s { green_light = slow; watched = slow }

-- "Can we do multisend mode?"
unfoldable pub multisend_of : Limits → ℕ
multisend_of l = if not (l.burst == 0) then l.burst else (if l.rate == 0 then l.multisend else 1)

-- Whether a stream may be sent on.
unfoldable pub may_send : Limits → SendStream → Bool
may_send l s = not l.no_fq_socket_pacing || (s.green_light && s.ready)

-- "if (test->settings->rate != 0 && test->settings->burst == 0)"
unfoldable pub paced : Limits → SendStream → SendStream
paced l s = if not (l.rate == 0) && l.burst == 0 then iperf_check_throttle l s else s

-- An end condition is reached, which is looked at in all rounds but the last.
unfoldable pub reached : Limits → Bool → ℕ → ℕ → Bool
reached l more bytes_sent blocks_sent =
    more
    && ((not (l.bytes == 0) && leb l.bytes bytes_sent)
        || (not (l.blocks == 0) && leb l.blocks blocks_sent))

-- What a walk over the streams leaves; `error` is the result of `snd` or `rcv` where the code
-- returns it.
pub record Walk {ℓ} (W : Type ℓ) : Type ℓ where
  pub streams : List SendStream
  pub bytes_sent : ℕ
  pub blocks_sent : ℕ
  pub active : Bool
  pub error : Option NetResult
  pub state : W

module _ {ℓ} {W : Type ℓ} (snd : SendStream → W → NetResult × (SendStream × W)) where
  abbrev pub in_front : SendStream → Walk W → Walk W
  in_front s r = record r { streams = s ∷ r.streams }

  -- What follows a `snd` with this result; `go` walks over the rest.
  unfoldable pub after_snd :
      Limits
      → Bool
      → NetResult
      → SendStream
      → List SendStream
      → (ℕ → ℕ → Bool → W → Walk W)
      → ℕ
      → ℕ
      → Bool
      → W
      → Walk W
  unfolding paced reached
  after_snd l more (count n) s rest go bytes blocks active w =
      let b = (bytes + n) % 2 ^ 64 in
      let k = (blocks + 1) % 2 ^ 64 in
      let further = in_front (paced l s) (go b k true w) in
      if reached l more b k
      then record {
        streams = paced l s ∷ rest;
        bytes_sent = b;
        blocks_sent = k;
        active = true;
        error = none;
        state = w;
      }
      else further
  after_snd l more soft_error s rest go bytes blocks active w = record {
    streams = s ∷ rest;
    bytes_sent = bytes;
    blocks_sent = blocks;
    active = active;
    error = none;
    state = w;
  }
  after_snd l more hard_error s rest go bytes blocks active w = record {
    streams = s ∷ rest;
    bytes_sent = bytes;
    blocks_sent = blocks;
    active = active;
    error = some hard_error;
    state = w;
  }

  -- SLIST_FOREACH in `iperf_send`. `more` is `multisend > 1`, and `active` is `streams_active`.
  unfoldable pub walk : Limits → Bool → List SendStream → ℕ → ℕ → Bool → W → Walk W
  unfolding may_send
  walk l more [] bytes blocks active w = record {
    streams = [];
    bytes_sent = bytes;
    blocks_sent = blocks;
    active = active;
    error = none;
    state = w;
  }
  walk l more (s ∷ rest) bytes blocks active w =
      let tried = snd s w in
      let sent =
        after_snd l more tried.0 tried.1.0 rest (walk l more rest) bytes blocks active tried.1.1 in
      let skipped = in_front s (walk l more rest bytes blocks active w) in
      if may_send l s then sent else skipped

  -- Another round, unless the last one has ended with an error, or has sent nothing.
  unfoldable pub next_round : Walk W → Option NetResult → Bool → Walk W → Walk W
  next_round r none true more = more
  next_round r none false more = r
  next_round r (some e) active more = r

  -- The loop on `multisend`.
  unfoldable pub rounds : ℕ → Limits → List SendStream → ℕ → ℕ → W → Walk W
  unfolding next_round
  rounds zero l streams bytes blocks w = record {
    streams = streams;
    bytes_sent = bytes;
    blocks_sent = blocks;
    active = false;
    error = none;
    state = w;
  }
  rounds (suc n) l streams bytes blocks w =
      let r = walk l (leb 1 n) streams bytes blocks false w in
      next_round r r.error r.active (rounds n l r.streams r.bytes_sent r.blocks_sent r.state)

  -- What follows the loop: the throttle of a burst, and the `select` set is emptied.
  unfoldable pub finish : Limits → Option NetResult → List SendStream → List SendStream
  finish l (some e) streams = streams
  finish l none streams =
      map (λ s. record (if l.burst == 0 then s else iperf_check_throttle l s) { ready = false })
        streams

  unfoldable pub iperf_send : Limits → List SendStream → ℕ → ℕ → W → Walk W
  unfolding multisend_of
  iperf_send l streams bytes blocks w =
      let r = rounds (multisend_of l) l streams bytes blocks w in
      record r { streams = finish l r.error r.streams }

  -- `iperf_recv`; `snd` stands for the `rcv` of the streams.
  unfoldable pub after_rcv :
      NetResult → SendStream → List SendStream → (ℕ → ℕ → W → Walk W) → ℕ → ℕ → W → Walk W
  after_rcv (count n) s rest go bytes blocks w =
      in_front (record s { ready = false }) (go ((bytes + n) % 2 ^ 64) ((blocks + 1) % 2 ^ 64) w)
  after_rcv e s rest go bytes blocks w = record {
    streams = s ∷ rest;
    bytes_sent = bytes;
    blocks_sent = blocks;
    active = false;
    error = some e;
    state = w;
  }

  unfoldable pub iperf_recv : List SendStream → ℕ → ℕ → W → Walk W
  iperf_recv [] bytes blocks w = record {
    streams = [];
    bytes_sent = bytes;
    blocks_sent = blocks;
    active = false;
    error = none;
    state = w;
  }
  iperf_recv (s ∷ rest) bytes blocks w =
      let tried = snd s w in
      let got = after_rcv tried.0 tried.1.0 rest (iperf_recv rest) bytes blocks tried.1.1 in
      let skipped = in_front s (iperf_recv rest bytes blocks w) in if s.ready then got else skipped
