-- ===== src/Examples/Processes.antt =====
-- Processes and their messages at concrete data.
use a_simple_microkernel.Prelude.{◌≡◌, refl, [], ◌∷◌, ◌++◌, some, arith}
use a_simple_microkernel.Store.{Ptr, Mem, load8, load32, store8, store32}
use a_simple_microkernel.Store.Laws.{Apart}
use a_simple_microkernel.Store.Chain.{Chain, Away, before, since}
use a_simple_microkernel.Process.{matches, rec_msg, sig_to_parent}
use a_simple_microkernel.Process.Receive.{Queue, rec_msg-first}
use a_simple_microkernel.Process.Signal.{sig_to_parent-lost}

abbrev blank : Mem
blank = λ p. 0

-- The process at 1000 has a message at 3000, that process 1 is ready, and one at 4000, that process 2
-- is terminated.
abbrev waiting : Mem
waiting =
    store32
      (store32 (store8 (store32 (store8 (store32 blank 3000 1) 3004 1) 4000 3) 4004 2) 3008 4000)
      1036 3000

waiting-Queue : Queue waiting 1000 (3000 ∷ 4000 ∷ [])
unfolding load32 store32 store8
waiting-Queue = ((refl, omega arith, (refl, omega arith, refl)), omega arith, omega arith)

rec_msg-first_example :
    (m' : Mem) × (rec_msg 3 waiting 1000 3 65535 ≡ some (4000, m'))
    × Chain 8 m' (load32 m' 1036) (before (matches waiting 3 65535) (3000 ∷ 4000 ∷ []) ++ [])
    × ((b : Ptr) → Apart b 4 1036 4 → Away 8 b (3000 ∷ 4000 ∷ []) → load32 m' b ≡ load32 waiting b)
    × (Apart 4004 1 1036 4 → load8 m' 4004 ≡ load8 waiting 4004)
rec_msg-first_example =
    rec_msg-first waiting 1000 3 3 65535 (3000 ∷ 4000 ∷ []) waiting-Queue (omega arith) 4000 []
      (unfold since matches load32 load8 store32 store8 in refl)

-- A child at 2000 of the process at 1000, whose queue is empty.
abbrev child : Mem
child = store32 blank 2016 1000

-- The same child with the two messages above in the parent's queue.
abbrev busy : Mem
busy = store32 waiting 2016 1000

sig_to_parent-lost_example :
    let m' = sig_to_parent busy 2000 5000 in
    Chain 8 m' (load32 m' 1036) (3000 ∷ 4000 ∷ []) × (load32 m' 1036 ≡ 3000) × (load32 m' 1040 ≡ 0)
unfolding load32 store32
sig_to_parent-lost_example =
    sig_to_parent-lost busy 2000 5000 (3000 ∷ 4000 ∷ []) (unfold load32 store32 in omega arith)
      (unfold load32 store32 in (refl, omega arith, (refl, omega arith, refl)))
      (unfold load32 store32 in omega arith) (omega arith) (unfold load32 store32 in omega arith)
      (unfold load32 store32 in omega arith)
