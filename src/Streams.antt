-- ===== src/Streams.antt =====
-- `iperf_new_stream`, `iperf_init_stream` and `iperf_free_stream` of iperf-3.1.3/src/iperf_api.c: the
-- memory and the files of a stream. Whether a call succeeds is an answer, as for the sockets.
pub mod Releases
mod Tests
use i_perf_demo_runtime.Common.{Bool, List, Option, [], if◌then◌else◌, none, not, some, ℕ, ◌∷◌}
use i_perf_demo_runtime.Common.Int.{is_zero}
use i_perf_demo_runtime.Config.{
  IperfTest, Text, iecreatestream, iefile, ieinitstream, iesetcos, iesettos,
}
use i_perf_demo_runtime.Net.Sockets.{
  Made, Resource, System, ask, ask_if, buffer_file, buffer_map, disk_file, give_back_all, hold,
  made, result_memory, stream_memory,
}

-- What a failure in `iperf_init_stream` makes `iperf_new_stream` give back.
abbrev pub of_stream : List Resource
of_stream = buffer_file ∷ buffer_map ∷ result_memory ∷ stream_memory ∷ []

-- Whether `setsockopt` for the type of service is called, and `i_errno` where it fails; `v6` says that
-- the socket is of IPv6.
unfoldable pub iperf_init_stream : IperfTest → Bool → (System → Made) → System → Made
iperf_init_stream t v6 next = ask of_stream (some ieinitstream) (
    ask of_stream (some ieinitstream) (
      ask_if (not (is_zero t.settings.tos)) of_stream (some (if v6 then iesetcos else iesettos))
        next))

unfoldable pub new_initialised : IperfTest → Bool → ℕ → System → Made
new_initialised t v6 s = iperf_init_stream t v6 (made s)

-- The file of -F.
unfoldable pub new_diskfile : Option Text → IperfTest → Bool → ℕ → System → Made
new_diskfile none t v6 s = new_initialised t v6 s
new_diskfile (some _) t v6 s =
    ask (buffer_map ∷ result_memory ∷ stream_memory ∷ []) (some iefile)
      (λ o. new_initialised t v6 s (hold disk_file o))

-- `mkstemp`, `unlink`, `ftruncate` and `mmap`.
unfoldable pub new_buffer : IperfTest → Bool → ℕ → System → Made
new_buffer t v6 s =
    let both = result_memory ∷ stream_memory ∷ [] in
    ask both (some iecreatestream) (λ o.
      ask both (some iecreatestream)
        (ask both (some iecreatestream) (
          ask both (some iecreatestream)
            (λ p. new_diskfile t.diskfile_name t v6 s (hold buffer_map p))))
        (hold buffer_file o))

-- `s` is the socket of the stream, which the result stands for.
unfoldable pub iperf_new_stream : IperfTest → Bool → ℕ → System → Made
iperf_new_stream t v6 s = ask [] (some iecreatestream) (λ o.
    ask (stream_memory ∷ []) (some iecreatestream) (λ p. new_buffer t v6 s (hold result_memory p))
      (hold stream_memory o))

-- A stream without a file of -F has -1 for it.
unfoldable pub iperf_free_stream : Option Text → System → System
iperf_free_stream none o = record o {
  held = give_back_all (buffer_map ∷ buffer_file ∷ result_memory ∷ stream_memory ∷ []) o.held;
}
iperf_free_stream (some _) o = record o {
  held =
      give_back_all (buffer_map ∷ buffer_file ∷ disk_file ∷ result_memory ∷ stream_memory ∷ [])
        o.held;
}
