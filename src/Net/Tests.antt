-- ===== src/Net/Tests.antt =====
-- Runs of the definitions for net.c, and its theorems at concrete sockets.
use i_perf_demo_runtime.Common.{List, [], arith, refl, ℕ, ◌∷◌, ◌≡◌}
use i_perf_demo_runtime.Net.{
  Incoming, arrives, count, eagain, enobufs, fails, nread, nsendfile, nwrite, refuses, takes,
}
use i_perf_demo_runtime.Net.Reads.{Sound, deliver, nread-Sound, nread-deliver}
use i_perf_demo_runtime.Net.Writes.{Prefix, nwrite-Accepts, nwrite-Prefix}

abbrev slow : List Incoming
slow = arrives (1 ∷ 2 ∷ []) ∷ arrives (3 ∷ []) ∷ fails eagain ∷ arrives (4 ∷ []) ∷ []

read_stops :
    nread 4 slow
    ≡ record { result = count 3; buffer = 1 ∷ 2 ∷ 3 ∷ []; rest = arrives (4 ∷ []) ∷ [] }
unfolding nread
read_stops = refl

nread-Sound_example : Sound 4 [] slow (nread 4 slow)
nread-Sound_example = nread-Sound 4 slow

abbrev cut : List (List ℕ)
cut = (1 ∷ []) ∷ (2 ∷ 3 ∷ 4 ∷ []) ∷ []

nread-deliver_example : (nread 2 (deliver cut)).buffer ≡ 1 ∷ 2 ∷ []
nread-deliver_example = (nread-deliver 2 cut (omega arith) (omega arith)).1

write_stops :
    nwrite (1 ∷ 2 ∷ 3 ∷ []) (takes 2 ∷ refuses eagain ∷ [])
    ≡ record { result = count 2; sent = 1 ∷ 2 ∷ [] }
unfolding nwrite
write_stops = refl

nwrite-Prefix_example :
    Prefix 0 (1 ∷ 2 ∷ 3 ∷ []) (nwrite (1 ∷ 2 ∷ 3 ∷ []) (takes 2 ∷ refuses enobufs ∷ []))
nwrite-Prefix_example = nwrite-Prefix (1 ∷ 2 ∷ 3 ∷ []) (takes 2 ∷ refuses enobufs ∷ [])

nwrite-Accepts_example :
    nwrite (1 ∷ 2 ∷ 3 ∷ []) (takes 2 ∷ takes 5 ∷ [])
    ≡ record { result = count 3; sent = 1 ∷ 2 ∷ 3 ∷ [] }
nwrite-Accepts_example =
    nwrite-Accepts (1 ∷ 2 ∷ 3 ∷ []) (takes 2 ∷ takes 5 ∷ []) ((1, refl), ((4, refl), tt))

send_file :
    nsendfile (7 ∷ 8 ∷ 9 ∷ []) 2 (takes 1 ∷ takes 5 ∷ [])
    ≡ record { result = count 2; sent = 7 ∷ 8 ∷ [] }
unfolding nsendfile
send_file = refl
