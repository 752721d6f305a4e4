-- ===== src/Results/Ids.antt =====
-- The numbers that `iperf_add_stream` of iperf_api.c gives.
use i_perf_demo_runtime.Common.{
  All, List, [], arith, false, length, length-append, ℕ, ◌++◌, ◌+◌, ◌<◌, ◌==◌, ◌∷◌, ◌≡◌, ◌≤◌,
}
use i_perf_demo_runtime.Results.{ResultStream, iperf_add_stream, new_id}

module _ {ℓ} {Jitter : Type ℓ} where
  -- No stream has the number `i`.
  abbrev pub Lacks : ℕ → List (ResultStream Jitter) → Type 0
  Lacks i streams = All (λ s. (s.id == i) ≡ false) streams

  -- No two streams have the same number.
  abbrev pub AreDistinct : List (ResultStream Jitter) → Type 0
  AreDistinct [] = Unit
  AreDistinct (s ∷ rest) = Lacks s.id rest × AreDistinct rest

  -- The numbers are different, and not above the number of streams and one.
  pub record AreNumbered (streams : List (ResultStream Jitter)) : Type 0 where
    pub distinct : AreDistinct streams
    pub small : All (λ s. s.id ≤ length streams + 1) streams

  small-Lacks :
      (n i : ℕ) (streams : List (ResultStream Jitter))
      → n < i
      → All (λ s. s.id ≤ n) streams
      → Lacks i streams
  small-Lacks n i [] b h = tt
  small-Lacks n i (s ∷ rest) b (h, hs) = (ground arith, small-Lacks n i rest b hs)

  small-append :
      (n m : ℕ) (streams : List (ResultStream Jitter)) (s : ResultStream Jitter)
      → n ≤ m
      → s.id ≤ m
      → All (λ s. s.id ≤ n) streams
      → All (λ s. s.id ≤ m) (streams ++ s ∷ [])
  small-append n m [] s h k a = (k, tt)
  small-append n m (t ∷ rest) s h k (b, a) = (omega arith, small-append n m rest s h k a)

  pub Lacks-append :
      (i : ℕ) (streams : List (ResultStream Jitter)) (s : ResultStream Jitter)
      → Lacks i streams
      → (s.id == i) ≡ false
      → Lacks i (streams ++ s ∷ [])
  Lacks-append i [] s h k = (k, tt)
  Lacks-append i (t ∷ rest) s (b, h) k = (b, Lacks-append i rest s h k)

  distinct-append :
      (streams : List (ResultStream Jitter)) (s : ResultStream Jitter)
      → AreDistinct streams
      → Lacks s.id streams
      → AreDistinct (streams ++ s ∷ [])
  distinct-append [] s d h = (tt, tt)
  distinct-append (t ∷ rest) s (a, d) (b, h) =
      (Lacks-append t.id rest s a (ground arith), distinct-append rest s d h)

  new_id-Lacks :
      (streams : List (ResultStream Jitter)) → AreNumbered streams → Lacks (new_id streams) streams
  unfolding new_id
  new_id-Lacks [] h = tt
  new_id-Lacks (s ∷ rest) h =
      small-Lacks (length (s ∷ rest) + 1) (2 + length (s ∷ rest)) (s ∷ rest) (omega arith) h.small

  new_id_le : (streams : List (ResultStream Jitter)) → new_id streams ≤ length streams + 2
  unfolding new_id
  new_id_le [] = omega arith
  new_id_le (s ∷ rest) = omega arith

  -- A new stream has a number that no other has, whatever number it had before.
  pub iperf_add_stream-AreNumbered :
      (streams : List (ResultStream Jitter)) (s : ResultStream Jitter)
      → AreNumbered streams
      → AreNumbered (iperf_add_stream streams s)
  unfolding iperf_add_stream
  iperf_add_stream-AreNumbered streams s h =
      let t = record s { id = new_id streams } in
      let grows : length (streams ++ t ∷ []) ≡ length streams + 1 =
        omega (arith, length-append streams (t ∷ [])) in
      record {
        distinct = distinct-append streams t h.distinct (new_id-Lacks streams h);
        small =
            small-append (length streams + 1) (length (streams ++ t ∷ []) + 1) streams t
              (omega arith) (omega (arith, new_id_le streams)) h.small;
      }
