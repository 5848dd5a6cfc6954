-- ===== src/Lifecycle/Term.antt =====
-- `term_proc` on a child of the init process.
use a_simple_microkernel.Prelude.{
  ℕ, suc, ◌+◌, ◌-◌, ◌%◌, ◌^◌, ◌≤◌, ◌<◌, ◌≡◌, ◌≢◌, refl, ap, ◌∙◌, List, [], ◌∷◌, ◌++◌, some, arith,
  All, All-unlink, length,
}
use a_simple_microkernel.Store.{Ptr, null, Mem, load8, load32}
use a_simple_microkernel.Store.Laws.{Apart}
use a_simple_microkernel.Store.Chain.{Chain, Away, Chain-frame, Separate-mid}
use a_simple_microkernel.MemManager.{MemManager, Allocated, get_limit}
use a_simple_microkernel.MemManager.Bump
use a_simple_microkernel.MemManager.Bump.{Granted, get_chunk-Granted}
use a_simple_microkernel.MemManager.Freed.{free-kept}
use a_simple_microkernel.Process.{terminated}
use a_simple_microkernel.ProcessManager.{ProcessManager, set_slot}
use a_simple_microkernel.Lifecycle.{term_proc}
use a_simple_microkernel.Lifecycle.Find.{find_process-first}
use a_simple_microkernel.Lifecycle.Copy.{load8-eq, load32-eq}
use a_simple_microkernel.Lifecycle.Adopt.{turned_onto}
use a_simple_microkernel.Lifecycle.Family.{
  Family, family-left, target-root, Entries-root, apart-target, All-mid, All-three, All-insert,
  Entries-Separate, All-all,
}
use a_simple_microkernel.Lifecycle.Tell.{told, told-kept, told-Chain, told-state, told-sender}

-- The process in slot `index`, the first one with the number `pid`, ends. It is a child of the init
-- process, which has read all messages,
-- and the memory for processes, which has never had a chunk given back, has room for a message that
-- is apart from the entries.
pub record CanEnd (s : ProcessManager) (pid index : ℕ) (xs ys zs : List Ptr) : Type 0 where
  pub slot : index < 256
  pub occupied : s.slots index ≢ null
  pub number : load8 s.mem (s.slots index + 12) ≡ pid
  pub first : (j : ℕ) → j < index → s.slots j ≢ null → load8 s.mem (s.slots j + 12) ≢ pid
  pub family : Family s.mem (s.slots 0) (s.slots index) xs ys zs
  pub read : load32 s.mem (s.slots 0 + 36) ≡ null
  pub chunks : Bump.IsValid s.process_mem_manager
  pub never_freed : s.process_mem_manager.free_list ≡ null
  pub fits : s.process_mem_manager.last_p + 21 ≤ get_limit s.process_mem_manager.segment_sl
  pub word : s.process_mem_manager.last_p + 21 < 2 ^ 32
  pub message_init : Apart s.process_mem_manager.last_p 21 (s.slots 0) 44
  pub message_children : All (λ x. Apart s.process_mem_manager.last_p 21 x 44) xs
  pub message_others :
      All (λ x. Apart s.process_mem_manager.last_p 21 x 44) (ys ++ s.slots index ∷ zs)
  pub some_left : s.num_of_processes ≢ 0
  pub few : s.num_of_processes ≤ 256

-- What `term_proc` leaves, when the process is gone.
pub record Gone (s : ProcessManager) (index : ℕ) (xs ys zs : List Ptr) (s' : ProcessManager)
    : Type 0 where
  pub slots : s'.slots ≡ set_slot s.slots index null
  pub less : s'.num_of_processes + 1 ≡ s.num_of_processes
  pub children : Chain 24 s'.mem (load32 s'.mem (s.slots 0 + 28)) (turned_onto xs ys ++ zs)
  pub messages :
      Chain 8 s'.mem (load32 s'.mem (s.slots 0 + 36)) ((s.process_mem_manager.last_p + 9) ∷ [])
  pub state : load32 s'.mem (s.process_mem_manager.last_p + 9) ≡ terminated
  pub sender : load8 s'.mem (s.process_mem_manager.last_p + 13) ≡ load8 s.mem (s.slots index + 12)

module _ (f : ℕ) (s : ProcessManager) (pid index : ℕ) (xs ys zs : List Ptr)
    (g : CanEnd s pid index xs ys zs)
    (enough : length xs + length (ys ++ s.slots index ∷ zs) < suc f) where
  abbrev t : Ptr
  t = s.slots index

  abbrev root : Ptr
  root = s.slots 0

  abbrev l : Ptr
  l = s.process_mem_manager.last_p

  -- What holds of words of the target's siblings and of its own.
  siblings-All :
      (P : Ptr → Type 0)
      → ((x : Ptr) → Apart t 44 x 44 → Apart root 44 x 44 → Apart l 21 x 44 → P x)
      → P t
      → All P (ys ++ t ∷ zs)
  siblings-All P far own =
      All-insert P ys t zs
        (All-three (λ x. Apart t 44 x 44) (λ x. Apart root 44 x 44) (λ x. Apart l 21 x 44) P far
          (ys ++ zs)
          (Separate-mid 44 ys t zs (Entries-Separate root (ys ++ t ∷ zs) g.family.others))
          (All-unlink (λ x. Apart root 44 x 44) ys t zs
            (Entries-root root (ys ++ t ∷ zs) g.family.others))
          (All-unlink (λ x. Apart l 21 x 44) ys t zs g.message_others))
        own

  children-All :
      (P : Ptr → Type 0)
      → ((x : Ptr) → Apart t 44 x 44 → Apart root 44 x 44 → Apart l 21 x 44 → P x)
      → All P xs
  children-All P far =
      All-three (λ x. Apart x 44 t 44) (λ x. Apart root 44 x 44) (λ x. Apart l 21 x 44) P
        (λ x a b c. far x (omega arith) b c) xs
        (apart-target (suc f) s.mem root t xs ys zs g.family) (Entries-root root xs g.family.own)
        g.message_children

  far_t : Apart l 21 t 44
  far_t = All-mid (λ x. Apart l 21 x 44) ys t zs g.message_others

  module _ (m2 : Mem) (chain : Chain 24 m2 (load32 m2 (root + 28)) (turned_onto xs ys ++ zs))
      (kept : (b : Ptr)
        → Away 24 b xs
        → Away 24 b (ys ++ t ∷ zs)
        → Apart b 4 (root + 28) 5
        → load32 m2 b ≡ load32 s.mem b)
      (r : Allocated) (granted : Granted s.process_mem_manager m2 12 r) where
    header_kept : (b : Ptr) → Apart b 4 l 9 → load32 r.2 b ≡ load32 m2 b
    unfolding load8
    header_kept b h =
        load32-eq r.2 m2 b b (λ j lt. ap (λ v. v % 256) (granted.kept (b + j) (omega arith)))

    target_word : (off : ℕ) → off + 4 ≤ 24 → load32 r.2 (t + off) ≡ load32 s.mem (t + off)
    target_word off h =
        let apart = target-root (suc f) s.mem root t xs ys zs g.family in
        let far = far_t in
        header_kept (t + off) (omega arith)
        ∙ kept (t + off) (children-All (λ x. Apart (x + 24) 4 (t + off) 4) (λ x a b c. omega arith))
            (siblings-All (λ x. Apart (x + 24) 4 (t + off) 4) (λ x a b c. omega arith)
              (omega arith))
            (omega arith)

    none_waits : load32 r.2 (root + 36) ≡ null
    none_waits =
        let apart = target-root (suc f) s.mem root t xs ys zs g.family in
        header_kept (root + 36) (omega (arith, g.message_init))
        ∙ kept (root + 36)
            (children-All (λ x. Apart (x + 24) 4 (root + 36) 4) (λ x a b c. omega arith))
            (siblings-All (λ x. Apart (x + 24) 4 (root + 36) 4) (λ x a b c. omega arith)
              (omega arith))
            (omega arith)
        ∙ g.read

    parent : load32 r.2 (t + 16) ≡ root
    parent = target_word 16 (omega arith) ∙ g.family.parent

    abbrev msg : Ptr
    msg = l + 9

    msg_some : msg ≢ null
    msg_some = λ e. absurd (omega arith)

    msg_word : msg < 2 ^ 32
    msg_word = omega (arith, g.word)

    msg_root : Apart msg 12 root 44
    msg_root = omega (arith, g.message_init)

    msg_t : Apart msg 12 t 44
    msg_t = omega (arith, far_t)

    abbrev m4 : Mem
    m4 = told r.2 msg root t parent none_waits msg_some msg_word msg_root msg_t

    told_word : (b : Ptr) → Apart b 4 l 21 → Apart b 4 (root + 36) 8 → load32 m4 b ≡ load32 m2 b
    told_word b h k =
        told-kept r.2 msg root t parent none_waits msg_some msg_word msg_root msg_t b (omega arith)
          k
        ∙ header_kept b (omega arith)

    stack_word : load32 m4 (t + 4) ≡ load32 s.mem (t + 4)
    stack_word =
        let apart = target-root (suc f) s.mem root t xs ys zs g.family in
        told-kept r.2 msg root t parent none_waits msg_some msg_word msg_root msg_t (t + 4)
          (omega (arith, far_t)) (omega arith)
        ∙ target_word 4 (omega arith)

    module _ (a' : MemManager) (m5 : Mem)
        (kept5 : (b : Ptr) → Apart b 4 (t + 4) 4 → Away 4 b [] → load32 m5 b ≡ load32 m4 b) where
      later :
          (b : Ptr)
          → Apart b 4 (t + 4) 4
          → Apart b 4 l 21
          → Apart b 4 (root + 36) 8
          → load32 m5 b ≡ load32 m2 b
      later b h k o = kept5 b h tt ∙ told_word b k o

      abbrev list : List Ptr
      list = turned_onto xs ys ++ zs

      links : All (λ x. load32 m5 (x + 24) ≡ load32 m2 (x + 24)) list
      links =
          let apart = target-root (suc f) s.mem root t xs ys zs g.family in
          let P : Ptr → Type 0 = λ x. load32 m5 (x + 24) ≡ load32 m2 (x + 24) in
          All-unlink P (turned_onto xs ys) t zs (
            All-all (suc f) s.mem root t xs ys zs g.family P
              (children-All P (λ x a b c. later (x + 24) (omega arith) (omega arith) (omega arith)))
              (siblings-All P (λ x a b c. later (x + 24) (omega arith) (omega arith) (omega arith))
                (later (t + 24) (omega arith) (omega (arith, far_t)) (omega arith))))

      abbrev left : ProcessManager
      left = record s {
        slots = set_slot s.slots index null;
        num_of_processes = (s.num_of_processes + 2 ^ 16 - 1) % 2 ^ 16;
        process_mem_manager = a';
        mem = m5;
      }

      head : load32 m5 (root + 28) ≡ load32 m2 (root + 28)
      head =
          let apart = target-root (suc f) s.mem root t xs ys zs g.family in
          later (root + 28) (omega arith) (omega (arith, g.message_init)) (omega arith)

      gone : Gone s index xs ys zs left
      gone =
          let apart = target-root (suc f) s.mem root t xs ys zs g.family in
          record {
            slots = refl;
            less = omega (arith, g.some_left, g.few);
            children = rw head (Chain-frame 24 m2 m5 list (load32 m2 (root + 28)) chain links);
            messages =
                let (e, ne, n) =
                  told-Chain r.2 msg root t parent none_waits msg_some msg_word msg_root msg_t in
                (
                  kept5 (root + 36) (omega arith) tt ∙ e,
                  ne,
                  kept5 (msg + 8) (omega (arith, far_t)) tt ∙ n,
                );
            state =
                kept5 msg (omega (arith, far_t)) tt
                ∙ told-state r.2 msg root t parent none_waits msg_some msg_word msg_root msg_t;
            sender =
                load8-eq m5 m4 (l + 13) (kept5 (l + 13) (omega (arith, far_t)) tt)
                ∙ ap (load8 m4) (omega arith)
                ∙ told-sender r.2 msg root t parent none_waits msg_some msg_word msg_root msg_t
                ∙ load8-eq r.2 s.mem (t + 12) (target_word 12 (omega arith));
          }

      -- The words that nothing is written to.
      untouched :
          (b : Ptr)
          → Away 24 b xs
          → Away 24 b (ys ++ t ∷ zs)
          → Apart b 4 (root + 28) 16
          → Apart b 4 l 21
          → Apart b 4 (t + 4) 4
          → load32 m5 b ≡ load32 s.mem b
      untouched b v w h k o = later b o k (omega arith) ∙ kept b v w (omega arith)

  pub term_proc-run :
      (s' : ProcessManager) × (term_proc (suc f) s pid ≡ some (load32 s.mem (t + 4), s'))
      × Gone s index xs ys zs s'
      × (s'.current_index ≡ s.current_index)
      × ((b : Ptr)
          → Away 24 b xs
          → Away 24 b (ys ++ t ∷ zs)
          → Apart b 4 (root + 28) 16
          → Apart b 4 l 21
          → Apart b 4 (t + 4) 4
          → load32 s'.mem b ≡ load32 s.mem b)
  unfolding term_proc
  term_proc-run =
      let (m1, m2, run1, run2, chain, kept) =
        family-left (suc f) s.mem root t xs ys zs g.family enough in
      let (r, run3, granted, _) =
        get_chunk-Granted s.process_mem_manager m2 12 f g.chunks g.never_freed
          (omega (arith, g.fits)) in
      let m' = m4 m2 chain kept r granted in
      let (freed, run5, kept5) =
        free-kept r.1 m' t (suc f) [] (granted.list ∙ g.never_freed) (omega arith) in
      (
        left m2 chain kept r granted freed.0 freed.1 kept5,
        rw
            (
              term_proc,
              find_process-first s.mem s.slots pid index g.slot g.occupied g.number g.first,
              run1,
              run2,
              run3,
              granted.place,
              run5,
              stack_word m2 chain kept r granted,
            )
            refl,
        gone m2 chain kept r granted freed.0 freed.1 kept5,
        refl,
        untouched m2 chain kept r granted freed.0 freed.1 kept5,
      )

  -- A child of the init process ends: it is in the first slot that has its number, the init process
  -- has no message that waits, the memory for processes has never had a chunk given back, has room
  -- for one message more, and that message would overlap no entry, as `CanEnd` says, and the fuel
  -- is more than it has children and siblings. Then `term_proc` finds the slot and returns its
  -- stack. The slot is empty and one process less counted. The children of the init process are
  -- those of the process that ended, in the opposite order, and behind them its siblings in order;
  -- and the init process has one message, that the process with the number in its entry is
  -- terminated.
  pub term_proc-Gone :
      (s' : ProcessManager) × (term_proc (suc f) s pid ≡ some (load32 s.mem (t + 4), s'))
      × Gone s index xs ys zs s'
  term_proc-Gone = let (s', run, left, _, _) = term_proc-run in (s', run, left)
