-- ===== src/Lifecycle/Tell.antt =====
-- The message with which a process that ends tells its parent.
use a_simple_microkernel.Prelude.{◌+◌, ◌^◌, ◌<◌, ◌≡◌, ◌≢◌, refl, subst, ◌∙◌, [], ◌∷◌, arith}
use a_simple_microkernel.Store.{Ptr, null, Mem, load8, load32, store32}
use a_simple_microkernel.Store.Laws.{
  Apart, load8-lt, load32-store32_self, load32-store32_ne, load32-store8_ne, load8-store32_ne,
  load8-store8_self,
}
use a_simple_microkernel.Store.Chain.{Chain}
use a_simple_microkernel.Process.{terminated, sig_to_parent}
use a_simple_microkernel.Process.Signal.{sig_to_parent-empty}
use a_simple_microkernel.Lifecycle.{fill_message}

module _ (m : Mem) (msg root t : Ptr) (parent : load32 m (t + 16) ≡ root)
    (read : load32 m (root + 36) ≡ null) (ne : msg ≢ null) (lt : msg < 2 ^ 32)
    (apart : Apart msg 12 root 44) (other : Apart msg 12 t 44) where
  abbrev filled : Mem
  filled = fill_message m msg t

  filled-kept : (b : Ptr) → Apart b 4 msg 12 → load32 filled b ≡ load32 m b
  unfolding fill_message
  filled-kept b h =
      load32-store8_ne _ (msg + 4) _ b (omega arith)
      ∙ load32-store32_ne _ msg terminated b (omega arith)
      ∙ load32-store32_ne m (msg + 8) null b (omega arith)

  parent_same : load32 filled (t + 16) ≡ root
  parent_same = filled-kept (t + 16) (omega arith) ∙ parent

  none_waits : load32 filled (root + 36) ≡ null
  none_waits = filled-kept (root + 36) (omega arith) ∙ read

  abbrev pub told : Mem
  told = sig_to_parent filled t msg

  told-eq : told ≡ store32 (store32 filled (root + 36) msg) (root + 40) msg
  unfolding sig_to_parent
  told-eq = rw (parent_same, none_waits) refl

  pub told-kept :
      (b : Ptr) → Apart b 4 msg 12 → Apart b 4 (root + 36) 8 → load32 told b ≡ load32 m b
  told-kept b h g = rw told-eq (
      load32-store32_ne _ (root + 40) msg b (omega arith)
      ∙ load32-store32_ne _ (root + 36) msg b (omega arith)
      ∙ filled-kept b h)

  link_null : load32 filled (msg + 8) ≡ null
  unfolding fill_message
  link_null =
      load32-store8_ne _ (msg + 4) _ (msg + 8) (omega arith)
      ∙ load32-store32_ne _ msg terminated (msg + 8) (omega arith)
      ∙ load32-store32_self m (msg + 8) null

  pub told-Chain : Chain 8 told (load32 told (root + 36)) (msg ∷ [])
  told-Chain =
      subst (λ r. Chain 8 told (load32 told (r + 36)) (msg ∷ [])) parent_same
        (sig_to_parent-empty filled t msg (rw parent_same none_waits) ne lt link_null
          (rw parent_same (omega arith))).0

  pub told-state : load32 told msg ≡ terminated
  unfolding fill_message
  told-state = rw told-eq (
      load32-store32_ne _ (root + 40) msg msg (omega arith)
      ∙ load32-store32_ne _ (root + 36) msg msg (omega arith)
      ∙ load32-store8_ne _ (msg + 4) _ msg (omega arith)
      ∙ load32-store32_self _ msg terminated)

  pub told-sender : load8 told (msg + 4) ≡ load8 m (t + 12)
  unfolding fill_message
  told-sender = rw told-eq (
      load8-store32_ne _ (root + 40) msg (msg + 4) (omega arith)
      ∙ load8-store32_ne _ (root + 36) msg (msg + 4) (omega arith)
      ∙ load8-store8_self _ (msg + 4) _
      ∙ omega (arith, load8-lt _ (t + 12))
      ∙ load8-store32_ne _ msg terminated (t + 12) (omega arith)
      ∙ load8-store32_ne m (msg + 8) null (t + 12) (omega arith))
