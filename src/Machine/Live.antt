-- ===== src/Machine/Live.antt =====
-- What an interrupt of the drivers does to the process table: nothing, or one switch.
use a_simple_microkernel.Prelude.{
  ℕ, ◌+◌, ◌%◌, ◌<◌, ◌≡◌, ◌≢◌, refl, ◌∙◌, pos, true, Option, some, ltb, ◌==◌, ◌⊎◌, inl, inr,
  Bool-cases, Option-cases, subst, sym, codes,
}
use a_simple_microkernel.Store.{Ptr, null, Mem, load32}
use a_simple_microkernel.Screen.{Screen, set_cell, printf, printf_char}
use a_simple_microkernel.ProcessManager.{ProcessManager, is_ready, schedule}
use a_simple_microkernel.ProcessManager.Table.{IsValid, saved, is_ready-true, is_ready_of}
use a_simple_microkernel.ProcessManager.Search.{IsIndex}
use a_simple_microkernel.ProcessManager.Schedule.{Switched, schedule-Switched}
use a_simple_microkernel.Keyboard
use a_simple_microkernel.Keyboard.{Console, key_char, other_key}
use a_simple_microkernel.Mouse
use a_simple_microkernel.Mouse.{MouseDriver, bit, move, pressed, packet}

-- The table is valid, and some process is ready or in execution: `slot` is one.
pub record Live (s : ProcessManager) : Type 0 where
  pub valid : IsValid s
  pub some_left : s.num_of_processes ≢ 0
  pub slot : ℕ
  pub inside : slot < 256
  pub runs : (is_ready s.mem s.slots slot ≡ true) ⊎ (s.current_index ≡ pos slot)

-- The table and the memory are as they were.
pub record Same (s s' : ProcessManager) : Type 0 where
  pub mem : s'.mem ≡ s.mem
  pub slots : s'.slots ≡ s.slots
  pub current : s'.current_index ≡ s.current_index
  pub number : s'.num_of_processes ≡ s.num_of_processes

-- Either the state `esp` is returned and the table is as it was, or the process in execution is saved
-- with `esp` and another one's state is returned.
abbrev pub Outcome : Ptr → ProcessManager → Ptr × ProcessManager → Type 0
Outcome esp s r =
    ((r.0 ≡ esp) × Same s r.1)
    ⊎ ((j e : ℕ) × Switched s (saved s.mem s.slots esp s.current_index) j e r)

pub Live-screen : (s : ProcessManager) (x : Screen) → Live s → Live (record s { screen = x })
Live-screen s x l = record {
  valid = record {
    index = l.valid.index;
    occupied = l.valid.occupied;
    objects = l.valid.objects;
    sole = l.valid.sole;
  };
  some_left = l.some_left;
  slot = l.slot;
  inside = l.inside;
  runs = l.runs;
}

-- A memory that keeps the processes' states keeps the rest too.
pub Live-mem :
    (s : ProcessManager) (m : Mem)
    → ((k : ℕ)
        → k < 256
        → s.slots k ≢ null
        → load32 m (s.slots k + 20) ≡ load32 s.mem (s.slots k + 20))
    → Live s
    → Live (record s { mem = m })
Live-mem s m same l = record {
  valid = record {
    index = l.valid.index;
    occupied = l.valid.occupied;
    objects = l.valid.objects;
    sole = λ i lt occ run. l.valid.sole i lt occ (sym (same i lt occ) ∙ run);
  };
  some_left = l.some_left;
  slot = l.slot;
  inside = l.inside;
  runs = elim l.runs [
    | inl r ↦
        let (occ, state) = is_ready-true s.mem s.slots l.slot r in
        inl (is_ready_of m s.slots l.slot occ (same l.slot l.inside occ ∙ state))
    | inr r ↦ inr r
  ];
}

Switched-screen :
    (s : ProcessManager) (x : Screen) (m : Mem) (j e : ℕ) (r : Ptr × ProcessManager)
    → Switched (record s { screen = x }) m j e r
    → Switched s m j e r
Switched-screen s x m j e r w = record {
  current = w.current;
  first = w.first;
  slots = w.slots;
  number = w.number;
  frame = w.frame;
  state = w.state;
  others = w.others;
  kept = w.kept;
}

-- What a handler leaves that has run on the table `s`.
pub record Left (esp : Ptr) (s : ProcessManager) (r : Ptr × ProcessManager) : Type 0 where
  pub live : Live r.1
  pub outcome : Outcome esp s r

-- What is printed behind the handler matters to none of this.
pub Left-screen :
    (esp f : Ptr) (s s' : ProcessManager) (x : Screen)
    → Left esp s (f, s')
    → Left esp s (f, record s' { screen = x })
Left-screen esp f s s' x l = record {
  live = Live-screen s' x l.live;
  outcome = elim l.outcome [
    | inl (e, w) ↦
        inl (e, record { mem = w.mem; slots = w.slots; current = w.current; number = w.number })
    | inr (j, e, w) ↦ inr (
      j,
      e,
      record {
        current = w.current;
        first = w.first;
        slots = w.slots;
        number = w.number;
        frame = w.frame;
        state = w.state;
        others = w.others;
        kept = w.kept;
      },
    )
  ];
}

pub shown-Left :
    (esp : Ptr) (s : ProcessManager) (x : Screen)
    → Live s
    → Left esp s (esp, record s { screen = x })
shown-Left esp s x l = record {
  live = Live-screen s x l;
  outcome = inl (refl, record { mem = refl; slots = refl; current = refl; number = refl });
}

schedule-Left :
    (esp : Ptr) (s : ProcessManager) (x : Screen)
    → Live s
    → (r : Ptr × ProcessManager) × (schedule 256 (record s { screen = x }) esp ≡ some r)
      × Left esp s r
schedule-Left esp s x l =
    let l' = Live-screen s x l in
    let (r, j, e, run, sw, v, _) =
      schedule-Switched (record s { screen = x }) esp l'.valid l'.slot l'.some_left l'.inside
        l'.runs in
    (
      r,
      run,
      record {
        live = record {
          valid = v;
          some_left = λ z. l.some_left (sym sw.number ∙ z);
          slot = j;
          inside = subst (λ i. IsIndex i) sw.current v.index;
          runs = inr sw.current;
        };
        outcome = inr (j, e, Switched-screen s x _ j e r sw);
      },
    )

-- The keyboard's handler, at any key.
module _ (esp : Ptr) (c : Console) (l : Live c.manager) where
  abbrev pub Handled : Option (Ptr × Console) → Type 0
  Handled o = (r : Ptr × Console) × (o ≡ some r) × Left esp c.manager (r.0, r.1.manager)

  other_key-Left : (key : ℕ) → Handled (other_key 256 c key esp)
  unfolding other_key
  other_key-Left key = elim (Bool-cases (key == 0x45)) [
    | inl e ↦ rw e ((esp, c), refl, shown-Left esp c.manager c.manager.screen l)
    | inr e ↦ elim (Bool-cases (key == 0x1C)) [
      | inl f ↦
          rw (e, f)
            (
              (esp, Keyboard.enter c),
              refl,
              shown-Left esp c.manager (printf c.manager.screen (codes "\n")) l,
            )
      | inr f ↦ elim (Bool-cases (key == 0x0F)) [
        | inl g ↦
            let (r, run, left) =
              schedule-Left esp c.manager (printf c.manager.screen (codes "\n")) l in
            rw (e, f, g) ((r.0, record c { manager = r.1 }), rw run refl, left)
        | inr g ↦ elim (Bool-cases (key == 0x0E)) [
          | inl h ↦ rw (e, f, g, h) (_, refl, shown-Left esp c.manager _ l)
          | inr h ↦ rw (e, f, g, h) (_, refl, shown-Left esp c.manager _ l)
        ]
      ]
    ]
  ]

  pub key-Left : (key : ℕ) → Handled (Keyboard.handle_interrupt 256 c key esp)
  unfolding Keyboard.handle_interrupt
  key-Left key = elim (Bool-cases (ltb key 0x80)) [
    | inr e ↦ rw e ((esp, c), refl, shown-Left esp c.manager c.manager.screen l)
    | inl e ↦ elim (Option-cases (key_char key)) [
      | inr (ch, f) ↦
          rw (e, f)
            (
              (esp, Keyboard.type_char c ch),
              refl,
              shown-Left esp c.manager (printf_char c.manager.screen ch) l,
            )
      | inl f ↦ rw (e, f) (other_key-Left key)
    ]
  ]

-- The mouse's handler, at any bytes.
abbrev pub Pointed : Ptr → ProcessManager → Option (Ptr × MouseDriver × ProcessManager) → Type 0
Pointed esp s o = (r : Ptr × MouseDriver × ProcessManager) × (o ≡ some r) × Left esp s (r.0, r.2)

packet-Left :
    (esp : Ptr) (m : MouseDriver) (s : ProcessManager) → Live s → Pointed esp s (packet 256 m s esp)
unfolding packet
packet-Left esp m s l =
    let video = (move m s.screen.video).1 in
    let m' = (move m s.screen.video).0 in
    elim (Bool-cases (pressed (m'.buffer 0) m'.buttons)) [
      | inl e ↦
          let (r, run, left) = schedule-Left esp s (record s.screen { video = video }) l in
          rw e ((r.0, m', r.1), rw run refl, left)
      | inr e ↦ rw e (
        (
          esp,
          record m' { buttons = m'.buffer 0 },
          record s { screen = record s.screen { video = video } },
        ),
        refl,
        shown-Left esp s (record s.screen { video = video }) l,
      )
    ]

pub mouse-Left :
    (esp : Ptr) (m : MouseDriver) (s : ProcessManager) (status byte : ℕ)
    → Live s
    → Pointed esp s (Mouse.handle_interrupt 256 m s status byte esp)
unfolding Mouse.handle_interrupt
mouse-Left esp m s status byte l =
    let m' = record m { buffer = set_cell m.buffer m.offset byte; offset = (m.offset + 1) % 3 } in
    elim (Bool-cases (bit status 0x20 == 0)) [
      | inl e ↦ rw e ((esp, m, s), refl, shown-Left esp s s.screen l)
      | inr e ↦ elim (Bool-cases ((m.offset + 1) % 3 == 0)) [
        | inl f ↦ rw (e, f) (packet-Left esp m' s l)
        | inr f ↦ rw (e, f) ((esp, m', s), refl, shown-Left esp s s.screen l)
      ]
    ]
