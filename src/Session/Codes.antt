-- ===== src/Session/Codes.antt =====
-- The byte of a state on the control connection (iperf_api.h).
use i_perf_demo_runtime.Common.{
  Bool-cases, arith, if◌then◌else◌, inl, inr, refl, sym, ℕ, ◌==◌, ◌∙◌, ◌≡◌,
}
use i_perf_demo_runtime.Config.{
  State, access_denied, all_streams_end, client_terminate, create_streams, display_results,
  exchange_results, iperf_done, iperf_start, other_state, param_exchange, result_request,
  server_error, server_terminate, stream_begin, stream_end, stream_running, test_end, test_running,
  test_start,
}
use i_perf_demo_runtime.Session.{byte_of, ◌then◌}

-- The state that a byte stands for.
unfoldable pub state_of : ℕ → State
state_of n =
    if n == 1
    then test_start
    else if n == 2
    then test_running
    else if n == 3
    then result_request
    else if n == 4
    then test_end
    else if n == 5
    then stream_begin
    else if n == 6
    then stream_running
    else if n == 7
    then stream_end
    else if n == 8
    then all_streams_end
    else if n == 9
    then param_exchange
    else if n == 10
    then create_streams
    else if n == 11
    then server_terminate
    else if n == 12
    then client_terminate
    else if n == 13
    then exchange_results
    else if n == 14
    then display_results
    else if n == 15
    then iperf_start
    else if n == 16
    then iperf_done
    else if n == 255
    then access_denied
    else if n == 254
    then server_error
    else other_state n

code_if :
    (n k : ℕ) (s t : State) → byte_of s ≡ k → byte_of t ≡ n → byte_of (if n == k then s else t) ≡ n
code_if n k s t h r = elim (Bool-cases (n == k)) [
  | inl e ↦ let same : n ≡ k = ground arith in rw e (h ∙ sym same)
  | inr e ↦ rw e r
]

-- Every byte stands for a state, and that state is sent as this byte: the states have different bytes.
pub byte_of-state_of : (n : ℕ) → byte_of (state_of n) ≡ n
unfolding byte_of state_of
byte_of-state_of n = code_if n 1 test_start _ refl (
    code_if n 2 test_running _ refl (
      code_if n 3 result_request _ refl (
        code_if n 4 test_end _ refl (
          code_if n 5 stream_begin _ refl (
            code_if n 6 stream_running _ refl (
              code_if n 7 stream_end _ refl (
                code_if n 8 all_streams_end _ refl (
                  code_if n 9 param_exchange _ refl (
                    code_if n 10 create_streams _ refl (
                      code_if n 11 server_terminate _ refl (
                        code_if n 12 client_terminate _ refl (
                          code_if n 13 exchange_results _ refl (
                            code_if n 14 display_results _ refl (
                              code_if n 15 iperf_start _ refl (
                                code_if n 16 iperf_done _ refl (
                                  code_if n 255 access_denied _ refl
                                    (code_if n 254 server_error _ refl refl)))))))))))))))))
