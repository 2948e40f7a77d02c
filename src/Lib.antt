-- ===== src/Lib.antt =====
-- Verification library of the RISC-V virtual prototype under riscv-vp-mine/vp.
--
-- The prototype runs guest programs on an instruction set simulator which is connected to models
-- of peripherals. Modelled are the processor, the accesses that connect it to the peripherals, and
-- some of these.
--
-- Core: the processor. Core/Trap is the state and the operations of
-- riscv-vp-mine/vp/src/core/rv32/iss.cpp that handle traps and interrupts. A Hart has the program
-- counters, the privilege level, the LR/SC reservation and the control registers that these
-- operations read and write; `take_interrupt` and `take_trap` are the two places of `run_step`
-- which enter a handler. The cast of a trap's value, `boost::lexical_cast<uint32_t>`, is a
-- parameter of these and of the step. Core/Opcode and Core/Instr are
-- riscv-vp-mine/vp/src/core/common/instr.h and instr.cpp: instruction words are numbers below 2 ^
-- 32, with one function for each field, `decode_normal` for uncompressed instructions over the
-- table of masks in Core/Opcode/Masks, `decode_compressed` and `expand_compressed` for compressed
-- ones, and the factory of words that the latter uses. A pattern of a signed 32-bit number is kept
-- as that pattern; a shift right of a signed operand is `sar`. Core/Mmu is
-- riscv-vp-mine/vp/src/core/common/mmu.h: the walk of the page tables over an interface of the
-- memory's three operations, and the translation buffer as functions of mode, kind of access and
-- index. Mmu/Walk is about what a walk grants, Mmu/Tlb, Mmu/Page and Mmu/History about what the
-- buffer keeps of it. The buffer is filled with a mask of 32 bits, as in the source. The timing of
-- a translation is left out.
--
-- Core/Exec is the execution of instructions: riscv-vp-mine/vp/src/core/rv32/iss.cpp and iss.h,
-- with mem.h and csr.h beside them. An Iss has a Hart, the registers, the control registers that
-- the trap handler does not use (`words`), the counters, the bus lock and the memory, whose type
-- is a parameter: Bus is the interface of translation, loads, stores and time that the memory
-- offers. An instruction is a term of Exec, which ends with a value, with a trap, or stopped by a
-- failed assertion; the state is kept in both of the first cases, as a C++ exception keeps it.
-- Exec/Operands has the values of the register instructions, Exec/Csr the layout and the access of
-- control registers, Exec/Step the instructions that jump, use memory or change the level, and
-- Step/Run `exec_step`, `run_step` and `run`, whose fuel is the number of steps, since a guest
-- program need not end. Exec/Keeps, Exec/Muldiv and the children of Exec/Csr hold the proofs. The
-- branches are those without PIPELINE_TIMING, which iss.h defines, and with NICE_CORE: with
-- PIPELINE_TIMING CSRRSI and CSRRCI check every access as a write, LR_W sets its counter again
-- while it runs, and the pipeline of Core/Timing is called. Floating-point instructions, the
-- system-call emulator, the instruction buffer, the wait of WFI and the debugger's interface are
-- not modelled; `sfence.vma` calls the bus. Exec/Interface is how mem.h fills that interface, from
-- the ranges of direct access of riscv-vp-mine/vp/src/core/common/dmi.h and the processor's
-- socket, on a platform without a memory management unit; Interface/Access is about a store and a
-- load that reach memory. The registers of the Iss are a function of the index, and those of
-- `csr_table` that several addresses share are one Slot.
--
-- Core/Timing is riscv-vp-mine/vp/src/core/rv32/timing.h: the pipeline with its pending results
-- and units, Timing/Branch the branch predictor and Timing/Cache the instruction cache, which
-- stall that pipeline. What `rand()` returns is an argument. The calls of these models inside the
-- instructions are not modelled. Timing/Hazards, Branch/Learning and Branch/Penalty hold the
-- proofs.
--
-- Tlm: what the code uses of a transaction: an address, bytes and a response. A Target is a
-- component that is accessed; its state is a Part of the platform's. Tlm/Bytes has the loads and
-- stores of bytes, and the words they make up; IsMemory in Tlm/Memory is what a component promises
-- that behaves as memory, and what the processor and the DMA controller rely on.
--
-- Platform: peripherals. Platform/Fe310Plic is the interrupt controller of
-- riscv-vp-mine/vp/src/platform/common/fe310_plic.h. Its targets are the harts of Core/Trap, which
-- it calls through their pins. Platform/Scan is its search for the source of the highest priority
-- and Platform/IrqBits the arrays of 32 interrupts in a word. The SystemC kernel is not modelled:
-- `run` is the thread's body from one wait to the next, and delays are left out. The callbacks of
-- the controllers get the offset and the size of the access. Platform/Fu540Plic is the controller
-- of riscv-vp-mine/vp/src/platform/common/fu540_plic.cpp, those of which get the hart and the
-- level, too; Fu540Plic/Claims and Fu540Plic/LastSource hold the proofs.
--
-- Platform/Registers is riscv-vp-mine/vp/src/util/memory_map.h: a range of registers with its
-- callbacks, and the routing of an access to the first range with the address. Platform/Bus is
-- riscv-vp-mine/vp/src/platform/common/bus.h, with the adapter for components that write and the
-- bus lock, and Platform/Memory riscv-vp-mine/vp/src/platform/common/memory.h; Bus/Routing is
-- about such a memory behind the bus. Platform/Dma is riscv-vp-mine/vp/src/platform/basic/dma.h
-- over any such target, and Dma/Copy about its copies. Its loop has len / 64 + 1 passes as fuel,
-- since every pass but the last copies 64 bytes.
--
-- Platform/Banks is riscv-vp-mine/vp/src/util/tlm_map.h: banks of registers and ranges of
-- addresses with handlers, and the routing of an access to the first that has the address.
-- Platform/Spi is the controller of riscv-vp-mine/vp/src/platform/hifive/spi.h on such a bank,
-- with the connected devices as a parameter; Spi/Kept has the part of a list that its queue holds,
-- and Spi/Queue is about the bytes that go to a device and come back.
--
-- Platform/Sharing has several harts and peripherals on one bus: the accesses of
-- riscv-vp-mine/vp/src/core/rv32/mem.h under the lock of bus.h, each of which completes, raises a
-- trap or is stopped, and Others, the runs of completed accesses of all but one hart in any order.
-- Sharing/Reservation is about the LR/SC reservation in such a run.
--
-- Platform/Clint is riscv-vp-mine/vp/src/core/common/clint.h, with the kernel's notifications as a
-- parameter and Clint/Timer about the timer interrupts. Clint/Transport has its register ranges,
-- and Clint/Software is about a software interrupt that a processor sends over the bus.
-- Platform/Slip is riscv-vp-mine/vp/src/platform/common/slip.cpp, with what the system call
-- returns as a parameter and Slip/Framing about packets that are escaped and written back.
--
-- Crypto: Crypto/Sm4 is the SM4 accelerator of riscv-vp-mine/vp/src/platform/tiny32/SM4.cpp with
-- one round in each clock; Sm4/Window compares its array of 36 words with the rounds on four words
-- in Crypto/Feistel, Sm4/Schedule is about the key schedule and Sm4/RoundTrip about both
-- directions of the cipher. Crypto/Sm3 is the SM3 accelerator of
-- riscv-vp-mine/vp/src/platform/tiny32/SM3.cpp in its builds, which Sm3/Clocks and Sm3/Builds
-- compare. Crypto/Nice is the coprocessor of riscv-vp-mine/vp/src/core/rv32/nice.h, whose tables
-- and those of the accelerator stand in Crypto/Tables.
--
-- Base holds what these share: numbers as words, `&`, `|` and `^` as arithmetic on fields and on
-- single digits, and rotations. The result of an operation that throws, fails an assertion or
-- indexes out of range is `none`. But for the steps of a guest program and the copies of the DMA
-- controller, loops are recursion on the number of passes left, which the source fixes, so that no
-- fuel is needed: the levels of the page tables, 32 clocks of the accelerator, the passes of a
-- controller's search over the sources and those of its thread over the harts.
--
-- Not modelled: the 64-bit processor, which repeats the structure of the 32-bit one, and floating
-- point, which is a library's; the CAN controller, which works on a socket of the host; the bus
-- wrappers of the accelerators, whose signals are updated by SystemC's kernel; the copies of other
-- projects (riscv-vp-mine/NVmain, vp/src/platform/atmi, the debugger library); the graphical front
-- ends and the guest programs; the power and temperature model, whose estimates are floating-point
-- numbers; host input and output; and the activity counters and trace output in modelled code.
pub mod Base
pub mod Tlm
pub mod Core
pub mod Platform
pub mod Crypto
