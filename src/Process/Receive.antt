-- ===== src/Process/Receive.antt =====
-- `Process::rec_msg`: which message it takes out of the queue, and what is left.
use a_simple_microkernel.Prelude.{
  ℕ, ◌+◌, ◌<◌, ◌≡◌, ◌≢◌, ◌∙◌, List, [], ◌∷◌, ◌++◌, arith, eq→==, ne→==, subst, sym, some, length,
  last_or, All-at, ◌==◌, if◌then◌else◌, Bool-cases, inl, inr,
}
use a_simple_microkernel.Store.{Ptr, null, Mem, load8, load32, store32}
use a_simple_microkernel.Store.Laws.{
  Apart, load8-store32_ne, load32-store32_self, load32-store32_ne, load32-lt,
}
use a_simple_microkernel.Store.Chain.{
  walk-Chain, before, since, before-append-since, Chain, Away, Separate, Separate-Spaced,
  Separate-mid, Same-store32, Chain-frame, Chain-suffix, Chain-head_ne, Chain-unlink, Away-at,
}
use a_simple_microkernel.Process.{matches, rec_msg}

module _ (m : Mem) (this : Ptr) where
  -- The write of the loop's body at the message `t`.
  abbrev taken : Ptr → Ptr → Mem
  taken prev t =
      if t == load32 m (this + 36)
      then store32 m (this + 36) (load32 m (t + 8))
      else store32 m (prev + 8) (load32 m (t + 8))

  -- The queue is well linked and its messages and the head field are at distinct places.
  abbrev pub Queue : List Ptr → Type 0
  Queue xs = Chain 8 m (load32 m (this + 36)) xs × Separate 12 xs × Away 8 (this + 36) xs

  taken-Chain :
      (ys : List Ptr) (t : Ptr) (zs : List Ptr)
      → Queue (ys ++ t ∷ zs)
      → let m' = taken (last_or null ys) t in Chain 8 m' (load32 m' (this + 36)) (ys ++ zs)
  taken-Chain [] t zs (c, s, w) =
      let h = load32 m (t + 8) in
      let m' = store32 m (this + 36) h in
      let head : load32 m' (this + 36) ≡ h =
        omega (arith, load32-store32_self m (this + 36) h, load32-lt m (t + 8)) in
      rw (eq→== t (load32 m (this + 36)) (sym c.0))
        (rw head (Chain-frame 8 m m' zs h c.2 (Same-store32 8 m (this + 36) h zs w.1)))
  taken-Chain (y ∷ ys) t zs (c, s, w) =
      let spaced = Separate-Spaced 12 8 (y ∷ ys ++ t ∷ zs) (omega arith) s in
      let p = load32 m (this + 36) in
      let ne : t ≢ p = λ e. Chain-head_ne 8 m y ys (t ∷ zs) p c spaced (e ∙ c.0) in
      let m' = store32 m (last_or y ys + 8) (load32 m (t + 8)) in
      let head : load32 m' (this + 36) ≡ p =
        load32-store32_ne m (last_or y ys + 8) (load32 m (t + 8)) (this + 36)
          (Away-at 8 (this + 36) y ys (t ∷ zs) w) in
      let gone : m' ≡ taken (last_or y ys) t = rw (ne→== t p ne) in
      subst (λ n. Chain 8 n (load32 n (this + 36)) (y ∷ ys ++ zs)) gone
        (rw head (Chain-unlink 8 m y ys t zs p c spaced))

  -- What a write to the head of the queue or to a link of a message leaves alone.
  taken-kept :
      (ys : List Ptr) (t : Ptr) (zs : List Ptr)
      → Queue (ys ++ t ∷ zs)
      → (b : Ptr) → Apart b 4 (this + 36) 4
      → Away 8 b (ys ++ t ∷ zs)
      → load32 (taken (last_or null ys) t) b ≡ load32 m b
  taken-kept [] t zs q b h w =
      rw (eq→== t (load32 m (this + 36)) (sym q.0.0))
        (load32-store32_ne m (this + 36) (load32 m (t + 8)) b h)
  taken-kept (y ∷ ys) t zs q b h w = elim (Bool-cases (t == load32 m (this + 36))) [
    | inl e ↦ rw e (load32-store32_ne m (this + 36) (load32 m (t + 8)) b h)
    | inr e ↦
        rw e (
          load32-store32_ne m (last_or y ys + 8) (load32 m (t + 8)) b (Away-at 8 b y ys (t ∷ zs) w))
  ]

  -- The sender of the message that is taken out is not written.
  taken-pid :
      (ys : List Ptr) (t : Ptr) (zs : List Ptr)
      → Queue (ys ++ t ∷ zs)
      → Apart (t + 4) 1 (this + 36) 4
      → load8 (taken (last_or null ys) t) (t + 4) ≡ load8 m (t + 4)
  taken-pid [] t zs q h =
      rw (eq→== t (load32 m (this + 36)) (sym q.0.0))
        (load8-store32_ne m (this + 36) (load32 m (t + 8)) (t + 4) h)
  taken-pid (y ∷ ys) t zs q h =
      let apart : Apart t 12 (last_or y ys) 12 =
        All-at (λ x. Apart t 12 x 12) y ys zs (Separate-mid 12 (y ∷ ys) t zs q.1) in
      elim (Bool-cases (t == load32 m (this + 36))) [
        | inl e ↦ rw e (load8-store32_ne m (this + 36) (load32 m (t + 8)) (t + 4) h)
        | inr e ↦
            rw e (load8-store32_ne m (last_or y ys + 8) (load32 m (t + 8)) (t + 4) (omega arith))
      ]

  module _ (f state pid : ℕ) (xs : List Ptr) (q : Queue xs) (enough : length xs < f) where
    -- When a message of the queue has the state and the sender asked for (-1 stands for any sender),
    -- `rec_msg` returns the first such message, and the queue is then the other messages in order. The
    -- words away from the head of the queue and from the links of its messages are kept, and so is
    -- the sender in the message that is returned, if the head of the queue is not there.
    pub rec_msg-first :
        (t : Ptr) (zs : List Ptr)
        → since (matches m state pid) xs ≡ t ∷ zs
        → (m' : Mem) × (rec_msg f m this state pid ≡ some (t, m'))
          × Chain 8 m' (load32 m' (this + 36)) (before (matches m state pid) xs ++ zs)
          × ((b : Ptr) → Apart b 4 (this + 36) 4 → Away 8 b xs → load32 m' b ≡ load32 m b)
          × (Apart (t + 4) 1 (this + 36) 4 → load8 m' (t + 4) ≡ load8 m (t + 4))
    unfolding rec_msg
    rec_msg-first t zs e =
        let ys = before (matches m state pid) xs in
        let split : ys ++ t ∷ zs ≡ xs = rw (← e) (before-append-since (matches m state pid) xs) in
        let q' = subst Queue (sym split) q in
        let ne = (Chain-suffix 8 m ys (t ∷ zs) (load32 m (this + 36)) q'.0).1 in
        (
          taken (last_or null ys) t,
          rw
              (
                walk-Chain 8 (matches m state pid) f m null (load32 m (this + 36)) xs q.0 enough,
                e,
                ne→== t null ne,
              )
              (elim (Bool-cases (t == load32 m (this + 36))) [ inl h ↦ rw h | inr h ↦ rw h ]),
          taken-Chain ys t zs q',
          λ b h w. taken-kept ys t zs q' b h (subst (Away 8 b) (sym split) w),
          taken-pid ys t zs q',
        )

    -- When none has, it returns the null pointer and changes nothing.
    pub rec_msg-none :
        since (matches m state pid) xs ≡ [] → rec_msg f m this state pid ≡ some (null, m)
    unfolding rec_msg
    rec_msg-none e =
        rw (walk-Chain 8 (matches m state pid) f m null (load32 m (this + 36)) xs q.0 enough, e)
