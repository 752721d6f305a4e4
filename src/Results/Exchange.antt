-- ===== src/Results/Exchange.antt =====
-- What `get_results` of iperf_api.c makes of what `send_results` of the other side reports.
use mathlib.Core.List.{append_assoc}
use mathlib.Core.Path.{subst}
use i_perf_demo_runtime.Common.{
  All, Bool, List, Option, [], ap, arith, false, if◌then◌else◌, not, refl, some, sym, true, ℕ, ◌%◌,
  ◌++◌, ◌+◌, ◌-◌, ◌==◌, ◌^◌, ◌∙◌, ◌∷◌, ◌≡◌,
}
use i_perf_demo_runtime.Common.Int.{negsuc}
use i_perf_demo_runtime.Results.{
  Report, ResultStream, apply_report, get_streams, report_of, take_over,
}
use i_perf_demo_runtime.Results.Ids.{AreDistinct, Lacks, Lacks-append}

module _ {ℓ} {Jitter : Type ℓ} where
  -- The two sides have the same streams, by their numbers.
  abbrev pub SameIds : List (ResultStream Jitter) → List (ResultStream Jitter) → Type 0
  SameIds [] [] = Unit
  SameIds (s ∷ rest) (t ∷ others) = (s.id ≡ t.id) × SameIds rest others
  SameIds [] (t ∷ others) = true ≡ false
  SameIds (s ∷ rest) [] = true ≡ false

  module _ (double : ℕ → ℕ) (sender counted : Bool) where
    -- The other side, which sends exactly if this one does not, reports its streams.
    abbrev pub reports : List (ResultStream Jitter) → List (Option (Report Jitter))
    reports [] = []
    reports (t ∷ others) = some (report_of double (not sender) counted t) ∷ reports others

    -- Each stream with what it takes over from the other side's stream.
    abbrev merged :
        List (ResultStream Jitter) → List (ResultStream Jitter) → List (ResultStream Jitter)
    merged (s ∷ rest) (t ∷ others) =
        take_over sender (report_of double (not sender) counted t) s ∷ merged rest others
    merged rest [] = rest
    merged [] (t ∷ others) = []

  take_over-id :
      (sender : Bool) (r : Report Jitter) (s : ResultStream Jitter)
      → (take_over sender r s).id ≡ s.id
  unfolding take_over
  take_over-id true r s = refl
  take_over-id false r s = refl

  -- Streams in front that do not have the number of the report stay as they are.
  apply_report-append :
      (sender : Bool) (r : Report Jitter) (front : List (ResultStream Jitter))
      (s : ResultStream Jitter) (rest : List (ResultStream Jitter))
      → Lacks r.id front
      → s.id ≡ r.id
      → apply_report sender r (front ++ s ∷ rest) ≡ (front ++ take_over sender r s ∷ rest, true)
  unfolding apply_report
  apply_report-append sender r [] s rest h e =
      let here : (s.id == r.id) ≡ true = ground arith in rw here
  apply_report-append sender r (t ∷ front) s rest (h, hs) e =
      rw (h, apply_report-append sender r front s rest hs e)

  AllLack : List (ResultStream Jitter) → List (ResultStream Jitter) → Type 0
  AllLack front streams = All (λ s. Lacks s.id front) streams

  AllLack-nil : (streams : List (ResultStream Jitter)) → AllLack [] streams
  unfolding AllLack
  AllLack-nil [] = tt
  AllLack-nil (s ∷ rest) = (tt, AllLack-nil rest)

  AllLack-append :
      (s : ResultStream Jitter) (n : ℕ) (rest front : List (ResultStream Jitter))
      → n ≡ s.id
      → Lacks s.id rest
      → AllLack front rest
      → (u : ResultStream Jitter) → u.id ≡ n
      → AllLack (front ++ u ∷ []) rest
  unfolding AllLack
  AllLack-append s n [] front e h a u f = tt
  AllLack-append s n (t ∷ rest) front e (b, h) (c, a) u f =
      (Lacks-append t.id front u c (ground arith), AllLack-append s n rest front e h a u f)

  module _ (double : ℕ → ℕ) (sender counted : Bool) where
    get_streams-front :
        (front mine theirs : List (ResultStream Jitter))
        → SameIds mine theirs
        → AreDistinct mine
        → AllLack front mine
        → get_streams sender (reports double sender counted theirs) (front ++ mine)
          ≡ (front ++ merged double sender counted mine theirs, true)
    unfolding get_streams AllLack
    get_streams-front front [] [] h d a = refl
    get_streams-front front [] (t ∷ others) h d a = absurd (ground (arith, h))
    get_streams-front front (s ∷ rest) [] h d a = absurd (ground (arith, h))
    get_streams-front front (s ∷ rest) (t ∷ others) (e, h) (b, d) (c, a) =
        let r = report_of double (not sender) counted t in
        let u = take_over sender r s in
        let same : s.id ≡ r.id = unfold report_of in e in
        let applied : apply_report sender r (front ++ s ∷ rest) ≡ (front ++ u ∷ rest, true) =
          apply_report-append sender r front s rest (subst (λ i. Lacks i front) same c) same in
        let further =
          get_streams-front (front ++ u ∷ []) rest others h d
            (AllLack-append s s.id rest front refl b a u (take_over-id sender r s)) in
        let shifted : (front ++ u ∷ []) ++ rest ≡ front ++ u ∷ rest =
          append_assoc front (u ∷ []) rest in
        let shifted' : (front ++ u ∷ []) ++ merged double sender counted rest others
            ≡ front ++ u ∷ merged double sender counted rest others =
          append_assoc front (u ∷ []) (merged double sender counted rest others) in
        let after : get_streams sender (reports double sender counted others) (front ++ u ∷ rest)
            ≡ (front ++ u ∷ merged double sender counted rest others, true) =
          subst
            (λ x.
              get_streams sender (reports double sender counted others) x
              ≡ (front ++ u ∷ merged double sender counted rest others, true))
            shifted (further ∙ ap (λ x. (x, true)) shifted') in
        rw (applied, after)

  -- A sender's stream `s` has become `u` by the report of the receiver's stream `t`, and a receiver's
  -- by that of the sender's, with what `sender_has_retransmits` of the sender says.
  abbrev pub TakesOver :
      (ℕ → ℕ)
      → Bool
      → Bool
      → ResultStream Jitter
      → ResultStream Jitter
      → ResultStream Jitter
      → Type ℓ
  TakesOver double true counted s t u =
      (u.id ≡ s.id)
      × (u.jitter ≡ t.jitter)
      × (u.cnt_error ≡ t.cnt_error)
      × (u.packet_count ≡ t.packet_count)
      × (u.bytes_received ≡ double t.bytes_received)
      × (u.bytes_sent ≡ s.bytes_sent)
      × (u.bytes_sent_omit ≡ s.bytes_sent_omit)
      × (u.stream_retrans ≡ s.stream_retrans)
  TakesOver double false counted s t u =
      (u.id ≡ s.id)
      × (u.bytes_sent ≡ double ((t.bytes_sent + (2 ^ 64 - t.bytes_sent_omit)) % 2 ^ 64))
      × (u.stream_retrans ≡ (if counted then t.stream_retrans else negsuc 0))
      × (u.jitter ≡ s.jitter)
      × (u.cnt_error ≡ s.cnt_error)
      × (u.packet_count ≡ s.packet_count)
      × (u.bytes_received ≡ s.bytes_received)
      × (u.bytes_sent_omit ≡ s.bytes_sent_omit)

  abbrev pub AllTakeOver :
      (ℕ → ℕ)
      → Bool
      → Bool
      → List (ResultStream Jitter)
      → List (ResultStream Jitter)
      → List (ResultStream Jitter)
      → Type ℓ
  AllTakeOver double sender counted [] [] [] = Unit
  AllTakeOver double sender counted (s ∷ rest) (t ∷ others) (u ∷ after) =
      TakesOver double sender counted s t u × AllTakeOver double sender counted rest others after
  AllTakeOver double sender counted _ _ _ = Unit {ℓ} × (true ≡ false)

  take_over-TakesOver :
      (double : ℕ → ℕ) (sender counted : Bool) (s t : ResultStream Jitter)
      → TakesOver double sender counted s t
          (take_over sender (report_of double (not sender) counted t) s)
  unfolding take_over report_of
  take_over-TakesOver double true counted s t = (refl, refl, refl, refl, refl, refl, refl, refl)
  take_over-TakesOver double false true s t = (refl, refl, refl, refl, refl, refl, refl, refl)
  take_over-TakesOver double false false s t = (refl, refl, refl, refl, refl, refl, refl, refl)

  merged-AllTakeOver :
      (double : ℕ → ℕ) (sender counted : Bool) (mine theirs : List (ResultStream Jitter))
      → SameIds mine theirs
      → AllTakeOver double sender counted mine theirs (merged double sender counted mine theirs)
  merged-AllTakeOver double sender counted [] [] h = tt
  merged-AllTakeOver double sender counted [] (t ∷ others) h = absurd (ground (arith, h))
  merged-AllTakeOver double sender counted (s ∷ rest) [] h = absurd (ground (arith, h))
  merged-AllTakeOver double sender counted (s ∷ rest) (t ∷ others) (e, h) = (
    take_over-TakesOver double sender counted s t,
    merged-AllTakeOver double sender counted rest others h,
  )

  -- Where the two sides have the same streams, with different numbers, the results of the other side
  -- are all taken over, each by the stream with its number, and there is no error. A sender gets the
  -- jitter, the counts of lost and of all packets and the bytes received, a receiver the bytes sent
  -- less the omitted ones and the retransmissions, or -1 where the sender does not count them, and
  -- each keeps the rest.
  pub get_streams-reports :
      (double : ℕ → ℕ) (sender counted : Bool) (mine theirs : List (ResultStream Jitter))
      → SameIds mine theirs
      → AreDistinct mine
      → let r = get_streams sender (reports double sender counted theirs) mine in
        (r.1 ≡ true) × AllTakeOver double sender counted mine theirs r.0
  get_streams-reports double sender counted mine theirs h d =
      let e = get_streams-front double sender counted [] mine theirs h d (AllLack-nil mine) in
      (
        ap (λ r. r.1) e,
        subst (λ r. AllTakeOver double sender counted mine theirs r) (sym (ap (λ r. r.0) e))
            (merged-AllTakeOver double sender counted mine theirs h),
      )
