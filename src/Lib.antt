-- ===== src/Lib.antt =====
-- A formal model of the microkernel, with the theorems that make its parts correct.
--
-- The kernel is a set of C++ classes over one flat memory, the video memory and the ports of an
-- x86 machine. `Kernel::run` puts the parts together, makes the init process and waits for
-- interrupts. `InterruptManager::handle_interrupt` dispatches them to the handlers and acknowledges
-- the controllers. The keyboard driver fills the input buffer that `gets` drains for the tasks,
-- the tasks and drivers print with `printf`, the process manager keeps the process table and asks
-- the memory manager for memory, and the processes of the table exchange messages through queues
-- that are linked through memory. Processes are switched by the tab key, a button of the mouse and
-- the end of a process; the handler of the timer returns the state that it is given.
--
-- The parts, and the code that each models:
--   Prelude        shared names, Boolean tests, C integers, lists, text literals
--   Store          the byte memory: little-endian loads and stores of fields, and the linked chains
--                  that the free list and the message queues are
--   MemManager     src/memory/memmanager.cpp, include/memory/memmanager.h: `get_chunk`, `free` and
--                  the constructor, over the byte memory. Bump: allocation behind the last chunk;
--                  FreeList: releases and reuse; Freed: what a release leaves alone; Requests: sequences of
--                  allocations
--   Screen         src/iolib.cpp: `printf`, `clearf`, `printf_int`, `printfHex` and its wider kinds,
--                  over the video memory. Bounds, Decimal, Signed and Hex: what they print and
--                  where
--   Input          src/iolib.cpp: `getchar` and `gets`, and the buffer they share with the keyboard
--   Ports          src/hwcomm/port.cpp, include/hwcomm/port.h: the four classes of ports, in modules of
--                  their names, on a device that is a parameter
--   Keyboard       src/drivers/keyboard.cpp: the constructor of `KeyboardDriver` and its
--                  `handle_interrupt`, every scan code. Typing: from keys to the lines and the numbers
--                  that the tasks read; Editing: the line that each key edits; Start: the constructor
--                  on a keyboard controller, an interface of operations and laws
--   Mouse          src/drivers/mouse.cpp, include/drivers/mouse.h: the constructor of `MouseDriver`
--                  and its `handle_interrupt`. Cursor: where packets move the cursor to
--   Tasks          src/common/tests.cpp: `str_to_int`, the searches, `collatz_sequence` and the three
--                  tasks up to their call of `exit`. Decimal, Search and Collatz: what the functions
--                  return and print; Reading: the array that is read from a line
--   Gdt            src/gdt.cpp, include/gdt.h: segment descriptors, encoded and decoded
--   Process        src/multitasking/process.cpp, include/multitasking/process.h: `setup`, `rec_msg`,
--                  `sig_to_parent`. Entries, frames and messages are fields of the byte memory
--   ProcessManager src/multitasking/processmanager.cpp: construction, `add_proc`, `schedule` and
--                  `print_processes`. Table: the invariant; Add: `add_proc`; Search: the search for
--                  a ready slot; Schedule: one call; Fairness: many calls
--   Lifecycle      src/multitasking/processmanager.cpp: `term_proc`, `fork_proc` and `execve_proc`.
--                  Find: the slot of an ending process; Adopt, Leave and Family: its children and
--                  those of its parent;
--                  Tell: its message; Term: `term_proc` whole; Execve: the new frame; Copy, Linked
--                  and Fork: the child's stack, entry and frame; Child and Forking: `fork_proc`
--                  whole
--   Kernel         src/kernel.cpp: the system calls. Calls: what they return; Exit and Forks: `exit`
--                  and `fork`; Waitpid: `waitpid` when there is a message
--   Boot           src/kernel.cpp: `Kernel::run` up to its last loop, and src/main.cpp: `kernelMain`.
--                  Init: the init process; Run: the state in which the loop is entered
--   Interrupts     src/hwcomm/interrupts.cpp, include/hwcomm/interrupts.h: the descriptor table, the
--                  setting-up of the controllers and the dispatch. Gates: the table; Dispatch: one
--                  interrupt; Activation: which manager is active
--   Machine        the objects together: what stands behind the virtual calls of the dispatch, with
--                  the drivers' ports. Typed: from scan codes at the controller to the line
--                  Live and Reach: the machine as a state machine, whose steps are interrupts and what
--                  the processes and devices do between them
--   Stub           src/asm/interruptstubs.s: the registers that an interrupt saves and restores, and
--                  src/kernel.cpp: `fork`, `exit`, `waitpid` and `execve` as a process calls them.
--                  Frames: the saved registers; Calls: a system call from registers to registers;
--                  Copies, Fork, Execve and Waitpid: what these calls do for the
--                  caller
--   Flavors        src/flavor1.cpp, src/flavor2.cpp, src/flavor3.cpp: the programs of the init process,
--                  over the system calls as an interface. Jobs: the tasks that each is to start and
--                  what it is to print; Lines and Reports: that the programs do so
--   Examples       runs on concrete values
--
-- How the model stands to the code. Numbers are native naturals; a machine integer keeps its
-- wrap-around (`% 2 ^ 32`), and an `int` whose sign matters is a ℤ. A pointer is an address, the
-- null pointer is 0, and memory is a function from addresses to bytes, so that aliasing is what it
-- is in C: fields are read and written at the offsets of the packed structures, and a theorem that
-- needs two ranges apart says so. A routine takes the state that it reads and returns the state
-- that it leaves. A routine that waits for an interrupt or that need not end returns an option.
--
-- Fuel. The list walks of `free`, `get_chunk` and `rec_msg` take fuel, and a fuel greater than the
-- length of the list is enough, by the theorems on them. The loop of `schedule` takes fuel 256,
-- the number of slots; that is enough exactly when some slot is ready, and with no ready slot the
-- loop of the code never ends. `binary_search` takes fuel one above the number of the length's binary digits,
-- and `collatz_sequence` as much as the sequence is long; nothing is known of how long it gets.
-- The loop of `printf_int` takes 32 rounds, enough for every number below 2 ^ 31. The loop of
-- `printf` is structural recursion on the text. The loop of the keyboard's constructor takes more
-- fuel than bytes wait in the controller. The last loops of the programs of the init process never
-- end and are modelled by any number of rounds.
--
-- Not modelled. What answers at the ports, the instructions that load the tables, the loader and
-- the build are the machine's: the device and the addresses of the stubs are parameters, and the
-- port writes of the interrupt manager are events. The constructors that the linker collects are
-- left out, and so is that of `Kernel`, which writes through a pointer that is not yet set. Of the
-- stubs, the entry of the requests and of the system calls is modelled; an exception, for which the
-- CPU may push an error code, is not. The handlers run on the stack below the frame; what they leave
-- there is not in the model's memory. The start of the kernel is modelled with no interrupt on the
-- way. A task waits for a line in `gets`: what the interrupts do meanwhile is a parameter, and so
-- are, for the programs of the init process, the system calls.
pub mod Prelude
pub mod Store
pub mod MemManager
pub mod Screen
pub mod Tasks
pub mod Flavors
pub mod Gdt
pub mod Ports
pub mod Process
pub mod ProcessManager
pub mod Boot
pub mod Examples
pub mod Input
pub mod Kernel
pub mod Lifecycle
pub mod Machine
pub mod Stub
pub mod Keyboard
pub mod Mouse
pub mod Interrupts
