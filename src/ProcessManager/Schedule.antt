-- ===== src/ProcessManager/Schedule.antt =====
-- What one call of `ProcessManager::schedule` does.
use a_simple_microkernel.Prelude.{
  ℕ, ◌+◌, ◌≤◌, ◌<◌, ◌≡◌, ◌≢◌, refl, subst, sym, ◌∙◌, ap, pos, negsuc, true, false, none, some,
  arith, ◌⊎◌, ℕ_discrete, ne→==,
}
use a_simple_microkernel.Store.{Ptr, null, Mem, load32, store32}
use a_simple_microkernel.Store.Laws.{Apart, load32-store32_self, load32-store32_ne}
use a_simple_microkernel.ProcessManager.{
  ProcessManager, is_ready, schedule, find_ready, print_processes,
}
use a_simple_microkernel.ProcessManager.Search.{
  origin, distance, FirstReady, find_ready_lem, find_ready-none,
}
use a_simple_microkernel.ProcessManager.Table.{
  IsValid, saved, save_current-saved, saved-is_ready, is_ready-true, saved-running,
}

-- The switch from `s` to the process of slot `j`, `e` slots on, at the saved state `m`.
pub record Switched (s : ProcessManager) (m : Mem) (j e : ℕ) (r : Ptr × ProcessManager)
    : Type 0 where
  pub current : r.1.current_index ≡ pos j
  pub first : FirstReady m s.slots (origin s.current_index) j e
  pub slots : r.1.slots ≡ s.slots
  pub number : r.1.num_of_processes ≡ s.num_of_processes
  pub frame : r.0 ≡ load32 m (s.slots j)
  pub state : load32 r.1.mem (s.slots j + 20) ≡ 0
  pub others :
      (k off : ℕ)
      → k < 256
      → s.slots k ≢ null
      → k ≢ j
      → off + 4 ≤ 44
      → load32 r.1.mem (s.slots k + off) ≡ load32 m (s.slots k + off)
  pub kept : (a : Ptr) → Apart a 4 (s.slots j + 20) 4 → load32 r.1.mem a ≡ load32 m a

module _ (s : ProcessManager) (t : Ptr) (v : IsValid s) where
  abbrev m1 : Mem
  m1 = saved s.mem s.slots t s.current_index

  abbrev m2 : ℕ → Mem
  m2 j = store32 m1 (s.slots j + 20) 0

  abbrev chosen : ℕ → ProcessManager
  chosen j = record s { mem = m2 j; current_index = pos j }

  abbrev outcome : ℕ → Ptr × ProcessManager
  outcome j = (load32 (m2 j) (s.slots j), record (chosen j) { screen = print_processes (chosen j) })

  FirstReady-lt : (j e : ℕ) → FirstReady m1 s.slots (origin s.current_index) j e → j < 256
  FirstReady-lt j e p = omega (arith, p.place)

  m2-other :
      (j e k off : ℕ)
      → FirstReady m1 s.slots (origin s.current_index) j e
      → k < 256
      → s.slots k ≢ null
      → k ≢ j
      → off + 4 ≤ 44
      → load32 (m2 j) (s.slots k + off) ≡ load32 m1 (s.slots k + off)
  m2-other j e k off p lt occ ne fit =
      let apart =
        v.objects k j lt (FirstReady-lt j e p) ne occ (is_ready-true m1 s.slots j p.ready).0 in
      load32-store32_ne m1 (s.slots j + 20) 0 (s.slots k + off) (omega arith)

  outcome-Switched :
      (j e : ℕ) → FirstReady m1 s.slots (origin s.current_index) j e → Switched s m1 j e (outcome j)
  outcome-Switched j e p = record {
    current = refl;
    first = p;
    slots = refl;
    number = refl;
    frame = load32-store32_ne m1 (s.slots j + 20) 0 (s.slots j) (omega arith);
    state = load32-store32_self m1 (s.slots j + 20) 0;
    others = λ k off lt occ ne fit. m2-other j e k off p lt occ ne fit;
    kept = λ a h. load32-store32_ne m1 (s.slots j + 20) 0 a h;
  }

  -- A process that is marked running in the saved memory would have been in execution, but that one
  -- is saved as ready.
  none_running : (k : ℕ) → k < 256 → s.slots k ≢ null → load32 m1 (s.slots k + 20) ≢ 0
  none_running k lt occ e =
      let (before, ne) =
        saved-running s.mem s.slots t s.current_index k v.objects v.index v.occupied lt occ e in
      ne (v.sole k lt occ before)

  outcome-IsValid :
      (j e : ℕ) → FirstReady m1 s.slots (origin s.current_index) j e → IsValid (outcome j).1
  outcome-IsValid j e p = record {
    index = FirstReady-lt j e p;
    occupied = (is_ready-true m1 s.slots j p.ready).0;
    objects = v.objects;
    sole = λ i lt occ run. elim (ℕ_discrete i j) [
      | yes same ↦ ap pos (sym same)
      | no ne ↦
          absurd (none_running i lt occ (sym (m2-other j e i 20 p lt occ ne (omega arith)) ∙ run))
    ];
  }

  schedule-outcome :
      (j : ℕ)
      → s.num_of_processes ≢ 0
      → find_ready 256 m1 s.slots s.current_index ≡ some j
      → schedule 256 s t ≡ some (outcome j)
  unfolding schedule
  schedule-outcome j some_left found = rw (
    ne→== s.num_of_processes 0 some_left,
    save_current-saved s.mem s.slots t s.current_index v.index,
    found,
  )

  -- While some process is ready or is in execution, a call of `schedule` on a valid table ends. The
  -- process in execution is saved with `t` as its state and made ready; then the first ready slot
  -- behind it, going round, is put into execution and its saved state returned. It alone is marked
  -- running, no other entry changes, and the table is valid again.
  pub schedule-Switched :
      (k : ℕ)
      → s.num_of_processes ≢ 0
      → k < 256
      → (is_ready s.mem s.slots k ≡ true) ⊎ (s.current_index ≡ pos k)
      → (r : Ptr × ProcessManager) × (j : ℕ) × (e : ℕ) × (schedule 256 s t ≡ some r)
        × Switched s (saved s.mem s.slots t s.current_index) j e r
        × IsValid r.1
        × (e ≤ distance (origin s.current_index) k)
  schedule-Switched k some_left lt r =
      let ready =
        saved-is_ready s.mem s.slots t s.current_index k v.objects v.index v.occupied lt r in
      let (j, e, found, p, le) = find_ready_lem m1 s.slots s.current_index k v.index lt ready in
      (
        outcome j,
        j,
        e,
        schedule-outcome j some_left found,
        outcome-Switched j e p,
        outcome-IsValid j e p,
        le,
      )

  -- When there are processes but none is ready and none is in execution, `schedule` never ends,
  -- whatever the fuel.
  pub schedule_hangs :
      (f : ℕ)
      → s.num_of_processes ≢ 0
      → s.current_index ≡ negsuc 0
      → ((k : ℕ) → k < 256 → is_ready s.mem s.slots k ≡ false)
      → schedule f s t ≡ none
  unfolding schedule
  schedule_hangs f some_left idle all =
      let same : m1 ≡ s.mem = ap (saved s.mem s.slots t) idle in
      let lost : find_ready f m1 s.slots s.current_index ≡ none =
        find_ready-none m1 s.slots f s.current_index v.index
          (subst (λ m. (k : ℕ) → k < 256 → is_ready m s.slots k ≡ false) (sym same) all) in
      rw (
        ne→== s.num_of_processes 0 some_left,
        save_current-saved s.mem s.slots t s.current_index v.index,
        lost,
      )

-- With no process `schedule` returns the state that it is given, and changes nothing.
pub schedule-none :
    (f : ℕ) (s : ProcessManager) (t : Ptr) → s.num_of_processes ≡ 0 → schedule f s t ≡ some (t, s)
unfolding schedule
schedule-none f s t e = rw e
