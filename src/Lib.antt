-- ===== src/Lib.antt =====
-- Verification of mon-os, a small x86_64 kernel in Rust (kernel/src).
--
-- The program. A boot loader hands the kernel a block that names the memory map; the kernel sets up its
-- page allocator from it, its text console, its interrupt handlers and its devices, and then runs a
-- shell that polls the keyboard, a cooperative run queue, and an agent that proposes changes of the
-- scheduling quantum to a gate that checks, applies and if need be rolls them back.
--
-- The files, and what they model.
--   Base: shared helpers. Machine words are native numbers with `%` written out (Base/Words), a raw
--   pointer is an address and memory a function from addresses to bytes (Base/Memory), a counted loop
--   is `rounds` (Base/Loops), masks and shifts are reduced to `/` and `%` (Base/Bits).
--   BootInfo: bootinfo.rs, the hand-over block, the entries of the memory map and the iterator.
--   Pmm: pmm.rs, the statics NEXT_FREE and LIMIT as a record. `alloc_contended` takes the values that
--   other cores leave in NEXT_FREE before each compare_exchange, so a run of it is any interleaving of
--   the loop with finitely many interferences; `alloc_aligned` is the run without any.
--   Vga: vga.rs, the cursor and the text buffer as memory; every write is kept with its address, so
--   that a write outside the buffer would show.
--   Keyboard: keyboard.rs, the key ring as the array with its two indices, the maps, the decoder. KBUF is an
--   immutable static that is written through a cast pointer, so what a load of it gives is a parameter.
--   Keyboard/Interleave lets the interrupt handler run between the loads and stores of a poll.
--   Decimal: the decimal printer of journal.rs and shell.rs, and the reader of shell.rs.
--   Journal, Apply: journal.rs, ai_action.rs and apply_action.rs. The two counters of idt.rs that the
--   self test reads are functions of the instant, since interrupts move them while it runs.
--   Task: task.rs, the eight slots and the index of the run queue.
--   Ramfs: ramfs.rs and ai_initrd.rs, on an image in memory; Ramfs/ModelFile sets the symbols of ai_link.rs.
--   Pci: pci.rs, with what the hardware answers to an address word as a parameter.
--   Model: ai_model.rs, the header of a model and the places of its layers.
--   Agent: ai_agent.rs, the inference on 32-bit patterns and the proposal made from its score;
--   Agent/Step is the step around it, Agent/Loop the agent with a loop of its own.
--   Serial: serial.rs, every write to a port with its port, and the answers of the line status register
--   as a function of the number of reads.
--   Shell: shell.rs, the line and the loop that takes keys (Shell), its texts (Shell/Text), and each
--   command as the calls that it makes, in order (Shell/Commands); Shell/Editor tells the line from the keys,
--   Shell/Reach runs it with the keyboard's interrupts, Shell/Sleep is its wait for a tick.
--   Gdt: gdt.rs, with the table of the x86_64 crate as a record of operations and laws.
--   Idt: the handlers of idt.rs with the ends of interrupt of pic.rs; Idt/Counters runs interrupts in turn.
--   Idt/Table fills the descriptor table of the x86_64 crate and Idt/Lines masks the controllers of the
--   pic8259 crate, each a record of operations and laws; Idt/Dispatch looks up what a vector reaches, and
--   Idt/Syscall is the entry of syscall.rs.
--   Xhci: xhci.rs. Xhci/Machine is the machine it runs on: what each read sees may depend on all accesses
--   before it, the lock of CONTROLLER_STATE is spun on for ever when it is held, and an index out of bounds
--   panics. Xhci/Regs, Rings, Events, Ports, Commands, Control, Init and Descriptors hold the functions
--   in the order of the file, Wrappers the rings that the driver does not use; Locking, Laps, Invariant,
--   Memory and the children of Descriptors hold proofs: Invariant of the state between calls, Memory of
--   where the writes go.
--   Main: main.rs, the order of the boot calls, the count of the memory map, the bring-up of the USB
--   controllers as a run of the driver; Main/MemoryMap holds the count against the allocator, and
--   Main/Bringup the bring-up against the driver's state.
--   In each folder a file Tests holds runs on concrete inputs.
--
-- How they interact. Pmm reads the memory map through BootInfo; Keyboard echoes through Vga; Apply
-- writes its lines through Journal, which prints numbers with Decimal. Agent finds the weights through
-- Model, and Agent/Proposal holds its proposals against the gate of Apply. Shell takes the keys out of the
-- ring of Keyboard, finds files with Ramfs and prints with Decimal. Xhci takes its blocks from Pmm, and
-- Main hands it the controllers that Pci finds.
--
-- Bounds and fuel. The loops of the map iterator, of `write_str`, of the run queue and of the self test
-- (50,000 reads) are bounded by the code. The loop of an archive reader runs on fuel one more than the
-- length of the image, which is enough because a round moves on by at least 110 bytes. The decimal
-- printer has the 20 rounds of its buffer, which is enough for 64 bits. The waits of xhci.rs have the
-- million rounds of the code; the loop over waiting events is bounded by the `patience` of the host, a run
-- beyond it is told apart from one that ends. The search in a configuration descriptor has a round more
-- than there are bytes, which is enough since a round moves on by one byte at least.
--
-- Not modelled: the lines that the driver and the boot sequence log, apart from the last one of the memory
-- map; what an exception prints of its stack frame; the boot sector and the second stage, which are assembly.
-- A build in which the store to the static KBUF faults or is dropped with what follows is not modelled.
-- Locks are not modelled where each call takes and releases its own.
pub mod Base
pub mod BootInfo
pub mod Pmm
pub mod Vga
pub mod Keyboard
pub mod Decimal
pub mod Journal
pub mod Apply
pub mod Task
pub mod Ramfs
pub mod Model
pub mod Agent
pub mod Pci
pub mod Serial
pub mod Shell
pub mod Gdt
pub mod Idt
pub mod Xhci
pub mod Main
