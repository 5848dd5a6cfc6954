-- ===== src/Process/Signal.antt =====
-- `Process::sig_to_parent`: what the parent's queue is afterwards.
use a_simple_microkernel.Prelude.{◌+◌, ◌^◌, ◌<◌, ◌≡◌, ◌≢◌, List, [], ◌∷◌, arith, eq→==, ne→==}
use a_simple_microkernel.Store.{Ptr, null, Mem, load32, store32}
use a_simple_microkernel.Store.Laws.{Apart, load32-store32_self, load32-store32_ne}
use a_simple_microkernel.Store.Chain.{Chain, Away, Same-store32, Same-trans, Chain-frame}
use a_simple_microkernel.Process.{sig_to_parent}

module _ (m : Mem) (this t_msg : Ptr) where
  -- A message to a parent whose queue is empty becomes the whole queue of the parent, if its own link
  -- is null and does not overlap the fields of the parent.
  pub sig_to_parent-empty :
      let parent = load32 m (this + 16) in
      load32 m (parent + 36) ≡ null
      → t_msg ≢ null
      → t_msg < 2 ^ 32
      → load32 m (t_msg + 8) ≡ null
      → Apart (t_msg + 8) 4 (parent + 36) 8
      → let m' = sig_to_parent m this t_msg in
        Chain 8 m' (load32 m' (parent + 36)) (t_msg ∷ []) × (load32 m' (parent + 40) ≡ t_msg)
  unfolding sig_to_parent
  sig_to_parent-empty e ne lt link apart =
      let parent = load32 m (this + 16) in
      let k = store32 m (parent + 36) t_msg in
      rw (eq→== (load32 m (parent + 36)) 0 e) (
        (
          omega (
            arith,
            load32-store32_ne k (parent + 40) t_msg (parent + 36) (omega arith),
            load32-store32_self m (parent + 36) t_msg,
          ),
          ne,
          omega (
            arith,
            load32-store32_ne k (parent + 40) t_msg (t_msg + 8) (omega arith),
            load32-store32_ne m (parent + 36) t_msg (t_msg + 8) (omega arith),
          ),
        ),
        omega (arith, load32-store32_self k (parent + 40) t_msg),
      )

  -- A message to a parent whose queue is not empty never gets there: the parent's queue holds the same
  -- messages as before, and its head and tail do not change, as long as the link behind the sender's
  -- own tail, which the message is written to, and the sender's tail field are apart from them.
  pub sig_to_parent-lost :
      (xs : List Ptr)
      → let parent = load32 m (this + 16) in
        let tail = load32 m (this + 40) in
        load32 m (parent + 36) ≢ null
        → Chain 8 m (load32 m (parent + 36)) xs
        → Away 8 (tail + 8) xs
        → Away 8 (this + 40) xs
        → Apart (parent + 36) 8 (tail + 8) 4
        → Apart (parent + 36) 8 (this + 40) 4
        → let m' = sig_to_parent m this t_msg in
          Chain 8 m' (load32 m' (parent + 36)) xs
          × (load32 m' (parent + 36) ≡ load32 m (parent + 36))
          × (load32 m' (parent + 40) ≡ load32 m (parent + 40))
  unfolding sig_to_parent
  sig_to_parent-lost xs ne c w w' apart apart' =
      let parent = load32 m (this + 16) in
      let tail = load32 m (this + 40) in
      let k = store32 m (tail + 8) t_msg in
      let n = store32 k (this + 40) t_msg in
      let head : load32 n (parent + 36) ≡ load32 m (parent + 36) = omega (
        arith,
        load32-store32_ne k (this + 40) t_msg (parent + 36) (omega arith),
        load32-store32_ne m (tail + 8) t_msg (parent + 36) (omega arith),
      ) in
      let last : load32 n (parent + 40) ≡ load32 m (parent + 40) = omega (
        arith,
        load32-store32_ne k (this + 40) t_msg (parent + 40) (omega arith),
        load32-store32_ne m (tail + 8) t_msg (parent + 40) (omega arith),
      ) in
      let same =
        Same-trans 8 m k n xs (Same-store32 8 m (tail + 8) t_msg xs w)
          (Same-store32 8 k (this + 40) t_msg xs w') in
      rw (ne→== (load32 m (parent + 36)) 0 ne)
        (rw head (Chain-frame 8 m n xs (load32 m (parent + 36)) c same), head, last)
