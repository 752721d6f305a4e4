-- ===== src/Frame/Tests.antt =====
-- Runs of the definitions for the control messages, and their theorems at concrete messages. The JSON
-- values are texts, which print and parse as they are.
use i_perf_demo_runtime.Common.{List, [], arith, refl, some, true, ℕ, ◌<◌, ◌∷◌, ◌≡◌, ◌⊎◌}
use i_perf_demo_runtime.Net.{nread, nwrite, takes}
use i_perf_demo_runtime.Net.Reads.{deliver}
use i_perf_demo_runtime.Frame.{json_read, json_write, ntohl}
use i_perf_demo_runtime.Frame.RoundTrip.{
  Follows, json_read-fits, json_read-json_write, json_read-overflow,
}

abbrev cuts : List (List ℕ)
cuts = (0 ∷ 0 ∷ []) ∷ (0 ∷ 2 ∷ 123 ∷ []) ∷ (125 ∷ 9 ∷ []) ∷ []

json_read-json_write_example :
    let r = json_read some [] true (deliver cuts) in
    (r.json ≡ some (123 ∷ 125 ∷ [])) × (r.stored < r.allocated) × Follows (9 ∷ []) r.rest
unfolding json_write nwrite
json_read-json_write_example =
    json_read-json_write some some (123 ∷ 125 ∷ []) (123 ∷ 125 ∷ []) [] (takes 1 ∷ []) [] cuts
      (9 ∷ []) refl refl (omega arith) ((0, refl), tt) tt (omega arith) refl

json_read-fits_example :
    let r = json_read (λ (l : List ℕ). some l) [] true (deliver cuts) in
    (r.allocated ≡ 0) × (r.stored ≡ 0) ⊎ (r.stored < r.allocated)
unfolding nread ntohl
json_read-fits_example =
    json_read-fits (λ (l : List ℕ). some l) [] true (deliver cuts) (omega arith)

json_read-overflow_example :
    let r =
      json_read
        (λ (l : List ℕ). some l)
        []
        true
        (deliver ((255 ∷ 255 ∷ 255 ∷ 255 ∷ 1 ∷ []) ∷ [])) in
    (r.allocated ≡ 0) × (r.stored ≡ 1)
json_read-overflow_example =
    json_read-overflow (λ (l : List ℕ). some l) [] ((255 ∷ 255 ∷ 255 ∷ 255 ∷ 1 ∷ []) ∷ []) 1 []
      (omega arith) refl (omega arith)

-- With the stream at its end the length is what happened to stand in the variable.
uninitialised_length :
    let r = json_read (λ (l : List ℕ). some l) (0 ∷ 0 ∷ 1 ∷ 0 ∷ []) true [] in r.allocated ≡ 257
unfolding json_read nread
uninitialised_length = refl
