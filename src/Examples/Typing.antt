-- ===== src/Examples/Typing.antt =====
-- The keyboard and the input at concrete data.
use a_simple_microkernel.Prelude.{
  ℕ, ◌%◌, ◌<◌, ◌≡◌, refl, ap, pos, negsuc, eq_ℤ, false, if◌then◌else◌, some, List, [], ◌∷◌, ◌++◌,
  get_or, arith,
}
use a_simple_microkernel.Screen.{digits}
use a_simple_microkernel.Screen.Decimal.{decimal, turned}
use a_simple_microkernel.Tasks.{str_to_int}
use a_simple_microkernel.Input.{Input, gets, copy}
use a_simple_microkernel.Input.Line.{Holds, gets-line, gets-long}
use a_simple_microkernel.ProcessManager.{ProcessManager}
use a_simple_microkernel.Keyboard.{Console, key_char}
use a_simple_microkernel.Keyboard.Typing.{Types, press, enter_key, press-number}
use a_simple_microkernel.Keyboard.Editing.{edits, Refines}
use a_simple_microkernel.Ports.{Device}
use a_simple_microkernel.Interrupts.{World}
use a_simple_microkernel.Boot.{handlers}
use a_simple_microkernel.Boot.Run.{handlers-Connected}
use a_simple_microkernel.Machine.{Machine, typed}
use a_simple_microkernel.Machine.Typed.{Scans, acknowledged, typed-Refines}

abbrev manager : ProcessManager
manager = record {
  slots = λ i. 0;
  num_of_processes = 0;
  current_index = negsuc 0;
  last_pid = 0;
  process_mem_manager = record { segment_sl = 40; last_p = 2621440; free_list = 0 };
  mem = λ p. 0;
  screen = record { video = λ i. 0; row = 0; column = 0; half = 0 };
}

abbrev quiet : Console
quiet = record {
  input = record { in_buffer = λ i. 0; buf_index = negsuc 0; ready = pos 0 };
  manager = manager;
}

-- "42" on the keyboard.
forty_two : Types (0x05 ∷ 0x03 ∷ []) (decimal 42)
unfolding decimal turned digits key_char
forty_two = (omega arith, refl, (omega arith, refl, tt))

press-number_example :
    (c' : Console) × (line : List ℕ) × (s' : Input) × (press 1 quiet
        ((0x05 ∷ 0x03 ∷ []) ++ enter_key ∷ [])
        9000
      ≡ some c')
    × (gets c'.input 16 ≡ some (line, s'))
    × (str_to_int line 15 ≡ 42)
press-number_example =
    press-number 1 9000 quiet (0x05 ∷ 0x03 ∷ []) 42 16 15 (omega arith) forty_two
      (record { index = refl; bytes = unfold copy in refl })
      (unfold decimal turned digits in omega arith) (unfold decimal turned digits in omega arith)
      (omega arith)

quiet-Refines : Refines quiet.input (record { text = []; entered = false })
unfolding copy
quiet-Refines = record {
  text = record { index = refl; bytes = refl };
  entered = refl;
  fits = omega arith;
}

-- A controller at which scan codes wait.
abbrev bytes : List ℕ → List ℕ
bytes [] = []
bytes (b ∷ bs) = b % 256 ∷ bytes bs

abbrev tail : List ℕ → List ℕ
tail [] = []
tail (b ∷ bs) = bs

abbrev pub keyboard : Device (List ℕ)
keyboard = record {
  inb = λ port s. (get_or (bytes s) 0 0, tail s);
  inw = λ port s. (0, s);
  inl = λ port s. (0, s);
  out = λ e s. s;
}

bytes-lt : (s : List ℕ) (b : ℕ) (bs : List ℕ) → bytes s ≡ b ∷ bs → b < 256
bytes-lt [] b bs e = ground arith
bytes-lt (x ∷ xs) b bs e = let h : x % 256 ≡ b = ap (λ l. get_or l 0 0) e in omega arith

bytes-read :
    (s : List ℕ) (b : ℕ) (bs : List ℕ)
    → bytes s ≡ b ∷ bs
    → (get_or (bytes s) 0 0 ≡ b) × (bytes (tail s) ≡ bs)
bytes-read [] b bs e = ground arith
bytes-read (x ∷ xs) b bs e = (ap (λ l. get_or l 0 0) e, ap tail e)

abbrev keyboard_scans : Scans keyboard
keyboard_scans = record { codes = bytes; small = bytes-lt; code_read = bytes-read }

-- "a", then backspace twice, "b" and enter.
abbrev pressed : List ℕ
pressed = 0x1E ∷ 0x0E ∷ 0x0E ∷ 0x30 ∷ enter_key ∷ []

abbrev machine : World (Machine (List ℕ))
machine = record {
  objects = record {
    kernel = record { process_manager = manager; ss_manager = manager.process_mem_manager };
    mouse = record { buffer = λ i. 0; offset = 0; buttons = 0; x = 40; y = 12 };
    input = quiet.input;
    devices = pressed;
  };
  mem = manager.mem;
  screen = manager.screen;
  events = [];
}

typed-Refines_example :
    (w' : World (Machine (List ℕ))) × (typed keyboard 1 5 handlers machine 9000 ≡ some (9000, w'))
    × Refines w'.objects.input (edits pressed (record { text = []; entered = false }))
    × (bytes w'.objects.devices ≡ [])
    × (w'.events ≡ acknowledged 5 [])
typed-Refines_example =
    typed-Refines keyboard keyboard_scans 1 handlers handlers-Connected pressed machine 9000
      (record { text = []; entered = false }) refl (omega arith) quiet-Refines

-- The line "ab" with its null, entered.
abbrev line : Input
line = record {
  in_buffer = λ i. if eq_ℤ i (pos 0) then 97 else if eq_ℤ i (pos 1) then 98 else 0;
  buf_index = pos 2;
  ready = pos 1;
}

line-Holds : Holds line (97 ∷ 98 ∷ 0 ∷ [])
unfolding copy
line-Holds = record { index = refl; bytes = refl }

gets-line_example :
    (junk : List ℕ) × (s' : Input) × (gets line 16 ≡ some ((97 ∷ 98 ∷ 0 ∷ []) ++ junk, s'))
    × Holds s' []
    × (s'.ready ≡ pos 0)
gets-line_example = gets-line line (97 ∷ 98 ∷ 0 ∷ []) 16 line-Holds refl (omega arith)

gets-long_example :
    (s' : Input) × (gets line 1 ≡ some (98 ∷ [], s')) × Holds s' (97 ∷ []) × (s'.ready ≡ pos 0)
gets-long_example = gets-long line (97 ∷ []) (98 ∷ []) 0 1 line-Holds refl refl
