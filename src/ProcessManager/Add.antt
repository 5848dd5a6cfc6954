-- ===== src/ProcessManager/Add.antt =====
-- What `ProcessManager::add_proc` does to the table and to the entries.
use a_simple_microkernel.Prelude.{
  ℕ, zero, suc, ◌+◌, ◌%◌, ◌^◌, ◌≤◌, ◌<◌, ◌≡◌, ◌≢◌, refl, sym, subst, ◌∙◌, ℤ, pos, negsuc, true,
  some, arith, lt→ltb, lt→leb, ◌⊎◌, inl, inr, ℕ_discrete, ne→==, eq→==, ◌==◌, if◌then◌else◌,
}
use a_simple_microkernel.Store.{Ptr, null, Mem, load8, load32, store8, store32}
use a_simple_microkernel.Store.Laws.{
  Apart, load32-store32_self, load32-store32_ne, load32-store8_ne, load8-store32_ne,
  load8-store8_self, load8-store8_ne,
}
use a_simple_microkernel.Process.{ready}
use a_simple_microkernel.ProcessManager.{ProcessManager, is_ready, set_slot, find_slot, add_proc}
use a_simple_microkernel.ProcessManager.Table.{Objects, Occupied, IsValid, is_ready_of}

-- How many of `n` slots from `i` on hold a process.
unfoldable pub count : ℕ → (ℕ → Ptr) → ℕ → ℕ
count zero slots i = 0
count (suc n) slots i = (if slots i == null then 0 else 1) + count n slots (i + 1)

-- The first empty slot from `i` on.
pub record FirstEmpty (slots : ℕ → Ptr) (i j : ℕ) : Type 0 where
  pub from : i ≤ j
  pub empty : slots j ≡ null
  pub full : (k : ℕ) → i ≤ k → k < j → slots k ≢ null

find_slot-FirstEmpty :
    (n : ℕ) (slots : ℕ → Ptr) (i : ℕ)
    → count n slots i < n
    → FirstEmpty slots i (find_slot n slots i) × (find_slot n slots i < i + n)
unfolding count find_slot
find_slot-FirstEmpty zero slots i h = absurd (omega arith)
find_slot-FirstEmpty (suc n) slots i h = elim (ℕ_discrete (slots i) 0) [
  | yes e ↦
      rw (eq→== (slots i) 0 e) (
        record { from = omega arith; empty = e; full = λ k g l. absurd (omega arith) },
        omega arith,
      )
  | no ne ↦
      let (first, lt) = find_slot-FirstEmpty n slots (i + 1) (ground arith) in
      rw (ne→== (slots i) 0 ne) (
        record {
          from = omega (arith, first.from);
          empty = first.empty;
          full = λ k g l. elim (ℕ_discrete i k) [
            | yes e ↦ rw (← e) ne
            | no ne' ↦ first.full k (omega arith) l
          ];
        },
        omega arith,
      )
]

module _ (slots : ℕ → Ptr) (j : ℕ) (p : Ptr) where
  pub set_slot_self : set_slot slots j p j ≡ p
  unfolding set_slot
  set_slot_self = rw (eq→== j j refl)

  set_slot_ne : (i : ℕ) → i ≢ j → set_slot slots j p i ≡ slots i
  unfolding set_slot
  set_slot_ne i ne = rw (ne→== i j ne)

  count-outside : (n i : ℕ) → j < i → count n (set_slot slots j p) i ≡ count n slots i
  unfolding count
  count-outside zero i h = refl
  count-outside (suc n) i h =
      rw (set_slot_ne i (omega arith), count-outside n (i + 1) (omega arith))

  count-set_slot :
      (n i : ℕ)
      → slots j ≡ null
      → p ≢ null
      → i ≤ j
      → j < i + n
      → count n (set_slot slots j p) i ≡ suc (count n slots i)
  unfolding count
  count-set_slot zero i e ne le lt = absurd (omega arith)
  count-set_slot (suc n) i e ne le lt = elim (ℕ_discrete j i) [
    | yes same ↦
        let here : set_slot slots j p i ≡ p = rw (← same) set_slot_self in
        let was : slots i ≡ 0 = rw (← same) e in
        rw (here, was, ne→== p 0 ne, count-outside n (i + 1) (omega arith)) (omega arith)
    | no other ↦
        rw
          (
            set_slot_ne i (λ q. other (sym q)),
            count-set_slot n (i + 1) e ne (omega arith) (omega arith),
          )
          (omega arith)
  ]

module _ (slots : ℕ → Ptr) (j : ℕ) (p : Ptr) where
  -- A slot in use holds the new entry or the entry that it held before.
  set_slot-cases :
      (i : ℕ)
      → set_slot slots j p i ≢ null
      → ((i ≡ j) × (set_slot slots j p i ≡ p))
        ⊎ ((i ≢ j) × (slots i ≢ null) × (set_slot slots j p i ≡ slots i))
  set_slot-cases i occ = elim (ℕ_discrete i j) [
    | yes e ↦ inl (e, rw e (set_slot_self slots j p))
    | no ne ↦ let e = set_slot_ne slots j p i ne in inr (ne, subst (λ x. x ≢ null) e occ, e)
  ]

  Occupied-set_slot : (i : ℤ) → p ≢ null → Occupied slots i → Occupied (set_slot slots j p) i
  Occupied-set_slot (negsuc n) ne occ = occ
  Occupied-set_slot (pos i) ne occ = elim (ℕ_discrete i j) [
    | yes e ↦ rw (e, set_slot_self slots j p) ne
    | no other ↦ rw (set_slot_ne slots j p i other) occ
  ]

  Objects-set_slot :
      Objects slots
      → ((i : ℕ) → i < 256 → slots i ≢ null → Apart p 44 (slots i) 44)
      → Objects (set_slot slots j p)
  Objects-set_slot o apart a b la lb ne oa ob = elim (set_slot-cases a oa) [
    | inl (ea, va) ↦ elim (set_slot-cases b ob) [
      | inl (eb, vb) ↦ absurd (ne (ea ∙ sym eb))
      | inr (nb, ub, vb) ↦ rw (va, vb) (apart b lb ub)
    ]
    | inr (na, ua, va) ↦ elim (set_slot-cases b ob) [
      | inl (eb, vb) ↦ rw (va, vb) (let x = apart a la ua in omega arith)
      | inr (nb, ub, vb) ↦ rw (va, vb) (o a b la lb ne ua ub)
    ]
  ]

-- The part of the invariant that adding a process needs: the number of processes is that of the
-- slots in use.
abbrev pub Counted : ProcessManager → Type 0
Counted s = s.num_of_processes ≡ count 256 s.slots 0

-- What a call has done that puts the entry `p` into slot `j`.
pub record Added (s : ProcessManager) (p : Ptr) (j t_pid : ℕ) (s' : ProcessManager) : Type 0 where
  pub first : FirstEmpty s.slots 0 j
  pub inside : j < 256
  pub slots : s'.slots ≡ set_slot s.slots j p
  pub pid : t_pid ≡ (s.last_pid + 1) % 256
  pub recorded : load8 s'.mem (p + 12) ≡ t_pid
  pub ready : is_ready s'.mem s'.slots j ≡ true
  pub others :
      (i off : ℕ)
      → i < 256
      → s.slots i ≢ null
      → off + 4 ≤ 44
      → load32 s'.mem (s.slots i + off) ≡ load32 s.mem (s.slots i + off)
  pub kept :
      (a : Ptr) → Apart a 4 (p + 12) 1 → Apart a 4 (p + 20) 4 → load32 s'.mem a ≡ load32 s.mem a
  pub byte : (a : Ptr) → a ≢ p + 12 → Apart a 1 (p + 20) 4 → load8 s'.mem a ≡ load8 s.mem a
  pub number : s'.num_of_processes ≡ s.num_of_processes + 1
  pub current : s'.current_index ≡ s.current_index
  pub valid : IsValid s'
  pub counted : Counted s'

module _ (s : ProcessManager) (p : Ptr) (v : IsValid s) (c : Counted s)
    (room : s.num_of_processes < 256) (here : p ≢ null)
    (apart : (i : ℕ) → i < 256 → s.slots i ≢ null → Apart p 44 (s.slots i) 44) where
  abbrev last : ℕ
  last = (s.last_pid + 1) % 2 ^ 32

  abbrev mem : Mem
  mem = store32 (store8 s.mem (p + 12) last) (p + 20) ready

  abbrev slot : ℕ
  slot = find_slot 256 s.slots 0

  other-word :
      (i off : ℕ)
      → i < 256
      → s.slots i ≢ null
      → off + 4 ≤ 44
      → load32 mem (s.slots i + off) ≡ load32 s.mem (s.slots i + off)
  other-word i off lt occ fit =
      let a = apart i lt occ in
      load32-store32_ne (store8 s.mem (p + 12) last) (p + 20) ready (s.slots i + off) (omega arith)
      ∙ load32-store8_ne s.mem (p + 12) last (s.slots i + off) (omega arith)

  added-slot : FirstEmpty s.slots 0 slot × (slot < 256)
  added-slot = find_slot-FirstEmpty 256 s.slots 0 (omega arith)

  abbrev added : ProcessManager
  added = record s {
    slots = set_slot s.slots slot p;
    last_pid = last;
    num_of_processes = (s.num_of_processes + 1) % 2 ^ 16;
    mem = mem;
  }

  added-IsValid : IsValid added
  added-IsValid = record {
    index = v.index;
    occupied = Occupied-set_slot s.slots slot p s.current_index here v.occupied;
    objects = Objects-set_slot s.slots slot p v.objects apart;
    sole = λ i lt occ run. elim (set_slot-cases s.slots slot p i occ) [
      | inl (e, w) ↦ absurd (
          let stale = subst (λ x. load32 mem (x + 20) ≡ 0) w run in
          omega (arith, load32-store32_self (store8 s.mem (p + 12) last) (p + 20) ready))
      | inr (ne, u, w) ↦
          v.sole i lt u
            (sym (other-word i 20 lt u (omega arith)) ∙ subst (λ x. load32 mem (x + 20) ≡ 0) w run)
    ];
  }

  added-ready : is_ready mem added.slots slot ≡ true
  added-ready =
      let e = set_slot_self s.slots slot p in
      is_ready_of mem added.slots slot (rw e here)
        (rw e (load32-store32_self (store8 s.mem (p + 12) last) (p + 20) ready ∙ omega arith))

  added-Added : Added s p slot (load8 mem (p + 12)) added
  added-Added = record {
    first = added-slot.0;
    inside = added-slot.1;
    slots = refl;
    pid =
        load8-store32_ne (store8 s.mem (p + 12) last) (p + 20) ready (p + 12) (omega arith)
        ∙ load8-store8_self s.mem (p + 12) last
        ∙ omega arith;
    recorded = refl;
    ready = added-ready;
    others = other-word;
    kept = λ a h g.
        load32-store32_ne (store8 s.mem (p + 12) last) (p + 20) ready a g
        ∙ load32-store8_ne s.mem (p + 12) last a h;
    byte = λ a h g.
        load8-store32_ne (store8 s.mem (p + 12) last) (p + 20) ready a g
        ∙ load8-store8_ne s.mem (p + 12) last a h;
    number = omega arith;
    current = refl;
    valid = added-IsValid;
    counted =
        let e =
          count-set_slot s.slots slot p 256 0 added-slot.0.empty here (omega arith)
            (omega (arith, added-slot.1)) in
        omega (arith, e, c);
  }

  -- A valid table whose count is right and below 256 has an empty slot, and `add_proc` puts an entry,
  -- which is not null and is apart from all others, into the first one. The entry gets the next
  -- number, in eight bits, and is ready; nothing else in memory changes, and the table stays valid and the
  -- count right.
  pub add_proc-Added :
      (pid : ℕ) × (s' : ProcessManager) × (j : ℕ) × (add_proc s p ≡ some (pid, s'))
      × Added s p j pid s'
  unfolding add_proc
  add_proc-Added = (
    load8 mem (p + 12),
    added,
    slot,
    rw (lt→leb 256 s.num_of_processes room, lt→ltb slot 256 added-slot.1),
    added-Added,
  )
