-- ===== src/Frame.antt =====
-- The messages of the control connection: `JSON_write` and `JSON_read` of iperf-3.1.3/src/iperf_api.c.
-- A message is a four-byte length in network order, and so many bytes of JSON text. The JSON library
-- (cjson.c) is a parameter: `print` is cJSON_PrintUnformatted and `parse` is cJSON_Parse.
pub mod RoundTrip
mod Tests
use i_perf_demo_runtime.Common.{
  Bool, List, Option, [], drop, false, if◌then◌else◌, length, ltb, none, not, some, take, true, ℕ,
  ◌%◌, ◌&&◌, ◌*◌, ◌++◌, ◌+◌, ◌/◌, ◌==◌, ◌^◌, ◌∷◌,
}
use i_perf_demo_runtime.Net.{
  Incoming, NetResult, Outgoing, Reading, count, hard_error, nread, nwrite, soft_error,
}

-- The bytes of `htonl` in memory.
unfoldable pub htonl : ℕ → List ℕ
htonl n = n / 2 ^ 24 % 256 ∷ n / 2 ^ 16 % 256 ∷ n / 2 ^ 8 % 256 ∷ n % 256 ∷ []

unfoldable pub ntohl : List ℕ → ℕ
ntohl (a ∷ b ∷ c ∷ d ∷ _) = a * 2 ^ 24 + b * 2 ^ 16 + c * 2 ^ 8 + d
ntohl _ = 0

-- A negative number.
abbrev pub is_error : NetResult → Bool
is_error (count n) = false
is_error soft_error = true
is_error hard_error = true

-- What `JSON_write` returns (`true` for 0, `false` for -1), and what it has sent.
pub record Written : Type 0 where
  pub success : Bool
  pub sent : List ℕ

-- What `JSON_read` returns, how many bytes it has allocated for the text and stored there, and what is
-- left on the socket.
pub record Received {ℓ} (Json : Type ℓ) : Type ℓ where
  pub json : Option Json
  pub allocated : ℕ
  pub stored : ℕ
  pub rest : List Incoming

module _ {ℓ} {Json : Type ℓ} where
  -- `sizes` and `texts` are what the kernel answers to the two calls of `Nwrite`.
  unfoldable pub json_write :
      (Json → Option (List ℕ)) → Json → List Outgoing → List Outgoing → Written
  unfolding htonl
  json_write print json sizes texts = elim (print json) [
    | none ↦ record { success = false; sent = [] }
    | some str ↦
        let hsize = length str % 2 ^ 32 in
        let head = nwrite (htonl hsize) sizes in
        let body = nwrite (take hsize str) texts in
        if is_error head.result
        then record { success = false; sent = head.sent }
        else record { success = not (is_error body.result); sent = head.sent ++ body.sent }
  ]

  -- The text is parsed only if all of it was read. `rc` is an `int`: a count of 2 ^ 31 or more is
  -- negative.
  unfoldable pub json_of : (List ℕ → Option Json) → ℕ → Reading → Option Json
  json_of parse hsize r = elim r.result [
    | count rc ↦ if ltb rc (2 ^ 31) && rc == hsize then parse r.buffer else none
    | soft_error ↦ none
    | hard_error ↦ none
  ]

  -- `junk` is what the four bytes of `nsize` hold before the read, and `memory` says whether `calloc`
  -- succeeds. Its size, `hsize + 1`, is a 32-bit number.
  unfoldable pub json_read : (List ℕ → Option Json) → List ℕ → Bool → List Incoming → Received Json
  unfolding ntohl json_of
  json_read parse junk memory s =
      let head = nread 4 s in
      let hsize = ntohl (head.buffer ++ drop (length head.buffer) junk) in
      let body = nread hsize head.rest in
      if is_error head.result
      then record { json = none; allocated = 0; stored = 0; rest = head.rest }
      else (if memory
          then record {
            json = json_of parse hsize body;
            allocated = (hsize + 1) % 2 ^ 32;
            stored = length body.buffer;
            rest = body.rest;
          }
          else record { json = none; allocated = 0; stored = 0; rest = head.rest })
