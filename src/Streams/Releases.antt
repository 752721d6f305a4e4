-- ===== src/Streams/Releases.antt =====
-- What `iperf_new_stream` of iperf_api.c holds, and what `iperf_free_stream` gives back.
use i_perf_demo_runtime.Common.{
  Bool, List, Option, ap, inl, inr, none, not, refl, some, ℕ, ◌∷◌, ◌≡◌, ◌⊎◌,
}
use i_perf_demo_runtime.Common.Int.{is_zero}
use i_perf_demo_runtime.Config.{IErrno, IperfTest, Text}
use i_perf_demo_runtime.Net.Sockets.{
  Made, Resource, System, buffer_file, buffer_map, disk_file, error_, give_back_all, hold, made,
  result_memory, stream_memory,
}
use i_perf_demo_runtime.Net.Dialling.{Holds, ask-Holds, ask_if-Holds}
use i_perf_demo_runtime.Streams.{
  iperf_free_stream, iperf_init_stream, iperf_new_stream, new_buffer, new_diskfile, new_initialised,
  of_stream,
}

-- What a stream is made of.
abbrev pub stream_held : Option Text → List Resource → List Resource
stream_held none before = buffer_map ∷ buffer_file ∷ result_memory ∷ stream_memory ∷ before
stream_held (some _) before =
    disk_file ∷ buffer_map ∷ buffer_file ∷ result_memory ∷ stream_memory ∷ before

-- A failure is reported; a file may stay open, of the buffer or of -F.
abbrev pub MayKeepFile : List Resource → List Resource → Option IErrno → Type 0
MayKeepFile before held errno =
    ((held ≡ before) ⊎ (held ≡ buffer_file ∷ before) ⊎ (held ≡ disk_file ∷ before))
    × ((e : IErrno) × (errno ≡ some e))

init_stream-Holds :
    (t : IperfTest) (v6 : Bool) (s : ℕ) (o : System) (before held : List Resource)
    → o.held ≡ held
    → ((e : IErrno) → MayKeepFile before (give_back_all of_stream held) (some e))
    → Holds s held (MayKeepFile before) (new_initialised t v6 s o)
unfolding new_initialised iperf_init_stream
init_stream-Holds t v6 s o before held h b =
    let M = MayKeepFile before in
    ask-Holds s held M held _ _ _ o h (b _) (λ p q. ask-Holds s held M held _ _ _ p q (b _) (λ p q.
      ask_if-Holds s held M held _ _ _ (not (is_zero t.settings.tos)) p q (b _)
        (λ p q. record { ending = (refl, q) })))

new_diskfile-Holds :
    (d : Option Text) (t : IperfTest) (v6 : Bool) (s : ℕ) (o : System) (before : List Resource)
    → o.held ≡ stream_held none before
    → Holds s (stream_held d before) (MayKeepFile before) (new_diskfile d t v6 s o)
unfolding new_diskfile
new_diskfile-Holds none t v6 s o before h =
    init_stream-Holds t v6 s o before (stream_held none before) h (λ e. (inl refl, (e, refl)))
new_diskfile-Holds (some f) t v6 s o before h =
    ask-Holds s _ (MayKeepFile before) (stream_held none before) _ _ _ o h
      (inr (inl refl), (_, refl))
      (λ p q.
        init_stream-Holds t v6 s (hold disk_file p) before (stream_held (some f) before)
          (ap (◌∷◌ disk_file) q) (λ e. (inr (inr refl), (e, refl))))

new_buffer-Holds :
    (t : IperfTest) (v6 : Bool) (s : ℕ) (o : System) (before : List Resource)
    → o.held ≡ result_memory ∷ stream_memory ∷ before
    → Holds s (stream_held t.diskfile_name before) (MayKeepFile before) (new_buffer t v6 s o)
unfolding new_buffer
new_buffer-Holds t v6 s o before h =
    let M = MayKeepFile before in
    let held = buffer_file ∷ result_memory ∷ stream_memory ∷ before in
    ask-Holds s _ M _ _ _ _ o h (inl refl, (_, refl))
      (λ p q.
        ask-Holds s _ M held _ _ _ (hold buffer_file p) (ap (◌∷◌ buffer_file) q)
          (inr (inl refl), (_, refl))
          (λ p q.
            ask-Holds s _ M held _ _ _ p q (inr (inl refl), (_, refl))
              (λ p q.
                ask-Holds s _ M held _ _ _ p q (inr (inl refl), (_, refl))
                  (λ p q.
                    new_diskfile-Holds t.diskfile_name t v6 s (hold buffer_map p) before
                      (ap (◌∷◌ buffer_map) q)))))

-- `iperf_new_stream` gives a stream and holds what it is made of, or fails with `i_errno` set; then it
-- holds nothing, but it may leave one file open, the buffer's or that of -F.
pub iperf_new_stream-Holds :
    (t : IperfTest) (v6 : Bool) (s : ℕ) (o : System)
    → Holds s (stream_held t.diskfile_name o.held) (MayKeepFile o.held) (iperf_new_stream t v6 s o)
unfolding iperf_new_stream
iperf_new_stream-Holds t v6 s o =
    let M = MayKeepFile o.held in
    ask-Holds s _ M o.held _ _ _ o refl (inl refl, (_, refl))
      (λ p q.
        ask-Holds s _ M (stream_memory ∷ o.held) _ _ _ (hold stream_memory p)
          (ap (◌∷◌ stream_memory) q) (inl refl, (_, refl))
          (λ p q. new_buffer-Holds t v6 s (hold result_memory p) o.held (ap (◌∷◌ result_memory) q)))

-- The stream that `iperf_new_stream` gives, and `iperf_free_stream` on it.
abbrev pub Freed : Option Text → List Resource → Made → Type 0
Freed d before (made s o) = (iperf_free_stream d o).held ≡ before
Freed d before (error_ o) = Unit

freed :
    (d : Option Text) (o : System) (before : List Resource)
    → o.held ≡ stream_held d before
    → (iperf_free_stream d o).held ≡ before
unfolding iperf_free_stream
freed none o before h = rw h refl
freed (some f) o before h = rw h refl

Freed-of-Holds :
    (d : Option Text) (s : ℕ) (before : List Resource) (m : Made)
    → Holds s (stream_held d before) (MayKeepFile before) m
    → Freed d before m
Freed-of-Holds d s before (made n o) h = freed d o before h.ending.1
Freed-of-Holds d s before (error_ o) h = tt

-- `iperf_free_stream` gives back all that `iperf_new_stream` took for a stream, and nothing else.
pub iperf_free_stream-iperf_new_stream :
    (t : IperfTest) (v6 : Bool) (s : ℕ) (o : System)
    → Freed t.diskfile_name o.held (iperf_new_stream t v6 s o)
iperf_free_stream-iperf_new_stream t v6 s o =
    Freed-of-Holds t.diskfile_name s o.held _ (iperf_new_stream-Holds t v6 s o)
