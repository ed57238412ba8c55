-- ===== src/Lib.antt =====
-- GameBloat, a Game Boy emulator in C: a model of its core and the theorems about it.
--
-- The program is a set of C files that share global variables. One record, `Machine` of Machine.antt,
-- holds them all, and code that changes them is a `Command`: it takes a machine to a result and the
-- next machine, or to `none` where C leaves the behaviour undefined (an access outside an array, a
-- call through a NULL pointer). Integers are natural numbers with the wrap-around of their type
-- written out; only the timestamps of the clock are signed.
--
-- The parts, and where each stands:
--   * src/registers.c, include/registers.h: Registers.antt. A pair of registers is its two bytes, the
--     first letter the high one.
--   * src/cpu.c: Cpu/Flags.antt (setFlag, removeFlag, checkFlag), Cpu/Alu.antt (8-bit arithmetic),
--     Cpu/Wide.antt (16-bit), Cpu/Shift.antt (rotates and bits), Cpu/Indirect.antt (the functions ending
--     in sHL), Cpu/Load.antt, Cpu/Control.antt (jumps, calls, the stack), Cpu/Reset.antt (cpuReset),
--     Cpu/Step.antt (cpuStep and what it calls). Names are those of the source in lower case.
--   * include/opcode.h, src/BaseOpcodeTable.c, src/CBOpcodeTable.c: Cpu/Opcode.antt and below it. An
--     entry's function pointer is a value of `Instruction`, which names the call in the body of the
--     function, and `execute` in Cpu/Step.antt is that call. Cpu/Opcode/Decode.antt decodes a byte by its
--     fields and compares the tables with it.
--   * src/memory.c: Memory.antt (mmuReadByte and the rest); Memory/Ram.antt views work RAM with its echo,
--     the object attributes and high RAM as one store of cells.
--   * src/interrupt.c: Interrupt.antt (writeInterrupt) and Interrupt/Step.antt (interruptStep), which calls
--     the CPU's call_nn.
--   * src/gpu.c: Gpu/State.antt, Gpu/Control.antt (the registers), Gpu/Tiles.antt (video memory),
--     Gpu/Render.antt (renderScan), Gpu/Step.antt (gpuStep), with the interrupt registers beside the GPU.
--   * src/MBC.c and src/MBC/: Mbc.antt and below it; Mbc/Rtc.antt is the clock in src/MBC/MBC3.c.
--   * src/cartridge.c, include/cartridge.h: Cartridge.antt (loadCartridge), with Cartridge/Fields.antt (the
--     header) and Cartridge/File.antt (fopen's stream, fread, malloc). src/bios.c: Bios.antt
--     (validateCart).
--   * src/Platforms/main_server.c and main_debug.c, with loadROM of src/cpu.c: Console.antt (the reset of
--     a game and the cycle cpuStep, gpuStep, interruptStep). Server.antt is the server's emulator thread
--     and the handlers of its client, as a relation between states that takes one atomic access at a time.
--   * src/logger.c, src/utils.c: Logger.antt (InitLogFiles, CreateLogfile, Log, SetLogLevel), with
--     Logger/Timestamp.antt (GetCurrentTimestamp, FormatArgString) and Logger/Printf.antt (snprintf).
--
-- Safety.antt and the modules below it carry the invariant of the whole machine, `IsWell`, through every
-- command: Safety/Access.antt and Safety/Write.antt the memory, Safety/Bits.antt and
-- Safety/Width.antt the register operations, Safety/Commands.antt, Safety/Loads.antt and
-- Safety/Indirect.antt the instructions that touch memory, Safety/Step.antt cpuStep, Safety/Video.antt
-- gpuStep, Safety/Interrupts.antt interruptStep. The invariant has two readings: with a cartridge that
-- has room and a file of the tiles that can be opened, no access and no call is undefined; with any, what
-- is not undefined keeps the invariant.
--
-- cpuStep reads and writes through the memory, the memory calls the GPU, the interrupt registers and the
-- controller of the cartridge, and the GPU requests interrupts. time(NULL) is the field `now` of the
-- cartridge, or an argument. The memory of a cartridge is a size and a function of the index.
--
-- Loops are structural recursion on what is left of them: the pixels of a line (160), the pixels of a
-- row of a tile, the entries of a table. The loop of latchRTC has fuel, one round more than the whole
-- steps in the elapsed time, which is enough because each round takes a step away.
--
-- A file is its size and its bytes, or missing; malloc is a function from a size to the bytes of the new
-- block, or to a NULL pointer. Both, and what an array on the stack holds before it is read, are
-- arguments. The client of the server is any sequence of its events, the wakeups without a signal that
-- POSIX allows among them.
--
-- The log's directory, its clock and what a format and its arguments come to are parameters too. A
-- text is the list of its bytes in front of the terminating zero.
--
-- Whether fopen opens tile0.bin, the file that every write to video memory dumps the tiles to, is the
-- field `tile_file` of the machine; without the file such a write is undefined. The accesses to wsClient,
-- which race in the source, are steps among the others.
--
-- Not modelled: the calls of Log in the other components, what is written to the dump, and the JSON that
-- is sent to the client, which change no state of theirs; what is written to stderr; the creation of the
-- threads and the reset that main does beside them; the window of src/Platforms/main_gtk.c, the tests,
-- and the copies of libraries under libs/.
pub mod Prelude
pub mod Registers
pub mod Mbc
pub mod Interrupt
pub mod Gpu
pub mod Machine
pub mod Memory
pub mod Cpu
pub mod Cartridge
pub mod Bios
pub mod Safety
pub mod Console
pub mod Server
pub mod Logger
pub mod Tests
