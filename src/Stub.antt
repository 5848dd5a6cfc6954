-- ===== src/Stub.antt =====
-- The stubs that an interrupt goes through, src/asm/interruptstubs.s, and the system calls on the
-- side of a process: `Kernel::fork`, `exit`, `waitpid` and `execve` of src/kernel.cpp.
pub mod Calls
pub mod Copies
pub mod Execve
pub mod Frames
pub mod Fork
pub mod Waitpid
use a_simple_microkernel.Prelude.{ℕ, ◌+◌, ◌-◌, ◌%◌, ◌^◌, Option, some, [], ◌∷◌, ◌>>=◌}
use a_simple_microkernel.Store.{Ptr, Mem, load32}
use a_simple_microkernel.Ports.{Device}
use a_simple_microkernel.Process.{store_fields}
use a_simple_microkernel.Interrupts.{InterruptManager, World}
use a_simple_microkernel.Machine.{Machine, interrupt}

-- What a process has in the registers.
pub record Registers : Type 0 where
  pub eax : ℕ
  pub ebx : ℕ
  pub ecx : ℕ
  pub edx : ℕ
  pub esi : ℕ
  pub edi : ℕ
  pub ebp : ℕ
  pub ds : ℕ
  pub eip : ℕ
  pub cs : ℕ
  pub eflags : ℕ
  pub esp : ℕ

-- The CPU pushes eflags, cs and eip, and the stub of a request pushes the rest, with an error of zero.
unfoldable pub save : Registers → Mem → Ptr × Mem
save r m =
    let esp = (r.esp + 2 ^ 32 - 48) % 2 ^ 32 in
    (
      esp,
      store_fields m esp (
          (44, r.eflags)
          ∷ (40, r.cs)
          ∷ (36, r.eip)
          ∷ (32, 0)
          ∷ (28, r.ds)
          ∷ (24, r.ebp)
          ∷ (20, r.edi)
          ∷ (16, r.esi)
          ∷ (12, r.edx)
          ∷ (8, r.ecx)
          ∷ (4, r.ebx)
          ∷ (0, r.eax)
          ∷ []),
    )

-- The pops from the stack that the handler returns, the error skipped, and `iret`. A segment register
-- has 16 bits.
unfoldable pub restore : Mem → Ptr → Registers
restore m esp = record {
  eax = load32 m esp;
  ebx = load32 m (esp + 4);
  ecx = load32 m (esp + 8);
  edx = load32 m (esp + 12);
  esi = load32 m (esp + 16);
  edi = load32 m (esp + 20);
  ebp = load32 m (esp + 24);
  ds = load32 m (esp + 28) % 2 ^ 16;
  eip = load32 m (esp + 36);
  cs = load32 m (esp + 40) % 2 ^ 16;
  eflags = load32 m (esp + 44);
  esp = (esp + 48) % 2 ^ 32;
}

-- An interrupt request or a system call, from the process that is interrupted to the one that goes on.
unfoldable pub request :
    {S : Type 0}
    → Device S
    → ℕ
    → InterruptManager
    → (v : ℕ) → Registers
    → World (Machine S)
    → Option (Registers × World (Machine S))
request d fuel m v r w =
    let (esp, mem) = save r w.mem in
    interrupt d fuel m v (record w { mem = mem }) esp >>= λ (esp', w').
    some (restore w'.mem esp', w')

-- The calls, where `trap` is the instruction `int $0x80`.
module _ {W : Type 0} (trap : Registers → W → Option (Registers × W)) where
  unfoldable pub fork : (return_address : ℕ) → Registers → W → Option (ℕ × Registers × W)
  fork return_address r w = trap (record r { eax = 2; ecx = return_address }) w >>= λ (r', w').
      some (r'.ebx % 2 ^ 16, r', w')

  unfoldable pub exit : Registers → W → Option (Registers × W)
  exit r w = trap (record r { eax = 1 }) w

  unfoldable pub waitpid : (pid status : ℕ) → Registers → W → Option (ℕ × Registers × W)
  waitpid pid status r w =
      trap (record r { eax = 7; ebx = pid % 2 ^ 16; ecx = status }) w >>= λ (r', w').
      some (r'.edx % 2 ^ 16, r', w')

  -- Without the `return -1` behind the instruction: the kernel lets the process go on elsewhere.
  unfoldable pub execve : (t_func_pointer t_argv : ℕ) → Registers → W → Option (Registers × W)
  execve t_func_pointer t_argv r w =
      trap (record r { eax = 11; ebx = t_func_pointer; ecx = t_argv }) w
