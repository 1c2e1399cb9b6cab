-- ===== src/Lib.antt =====
-- The debugger of the Sedona virtual machine: its wire protocol, JDWP (jdwp), the machine that it
-- controls (svm/vm.c, with svm/scode.h, svm/sedona.h and svm/errorcodes.h), and native methods of the
-- kit sys (natives), and the process that runs an image (main.c).
--
-- The debugger's handlers build and read packets, buffers that grow, by the functions of
-- packetHandler.c. mainHandler.c receives commands and answers them from the tables of types, objects
-- and event requests; eventDispatcher.c sends the events that are pending. The machine runs the
-- instructions of a code image in `vmCallDebug`, or without the debugger in `vmCall`, and the handlers
-- suspend and resume it. Native methods read and write its memory. The model is of a 64-bit
-- little-endian build for Unix with the debug mode on and without computed gotos.
--
-- - Base: lists, bytes and bits over the native numbers. Memory: the outcome of C code, which may exit
--   the process, run into undefined behaviour or not end, and the C allocator, a parameter that says
--   which blocks it grants and keeps its contract by the laws of its record.
-- - Packet.Buffer: `Packet` with the basic readers and writers; Packet.Append and Packet.RoundTrip are
--   its contract. A packet stands for the bytes before its offset, and a writer appends to them.
-- - Packet.Ids, Packet.Utf, Packet.Header, Packet.Chain: identifiers, locations and strings; modified
--   UTF-8; packet headers and the functions that make packets; lists of packets. Each has its theorems
--   in modules below it.
-- - Vm.Word: memory as bytes, cells as 64-bit patterns, and the C types by bit patterns. Vm.Opcode: the
--   opcodes and the table of the pointers that are tested for null. Vm.Machine: the registers. Vm.Exec:
--   the cases of the switch, by group; a float is its pattern, and the operators on floats are
--   parameters, as is the table of native methods. Vm.Loop: a round of the debugger's loop, its guards
--   first. Vm.Regular: the loop without the debugger, and the entry of a run.
-- - Vm.Init, Vm.Fields, Vm.Frames: `vmInit` and the start of a call; the getters and setters by which
--   native methods reach fields; the suspension counter and the frames that the debugger lists.
--   Vm.Effects: what each instruction without a jump or a call pops and pushes, by a table.
--   Vm.Effects.Faults: the operands for which C leaves `/`, `%`, `<<` and `>>` undefined.
-- - Jdwp.Types, Jdwp.Objects, Jdwp.Events: the lists of reference types (refTypHandler.c), variables
--   (objectHandler.c) and event requests (eventDispatcher.c). Jdwp.Types.Packets: types as packets.
-- - Jdwp.Session: `Session`, what the debugger's thread keeps, with what went over the socket as a list
--   of packets; reading the command and sending. Jdwp.Dispatch: events by suspend policy, and, in
--   Jdwp.Dispatch.Packets, as packets.
-- - Jdwp.Machine: `vmCallDebug` with the session. A `System` is the machine, the session and the phase
--   of a round in which the machine's thread stands: before the guards, at the test of the suspension
--   counter, or before the switch. Jdwp.Machine.Interleaving: a step relation, of that thread and of
--   the debugger's, which answers a packet in a step.
-- - Jdwp.Files, Jdwp.Bases: strings and files (fileManager.c), and the types that the debugger begins
--   with (initializer.c).
-- - Jdwp.Command: the command handlers of mainHandler.c, by command set in modules below it, the
--   switches over sets and commands, and the loop that receives. What `recv` stores is a list of pieces.
-- - Natives.Component, Natives.Sys: the native methods of sys_Component.c, and those of sys_Sys.c,
--   sys_Test.c, sys_Type.c and sys_Str.c. Natives.Sockets: TCP sockets (inet_TcpSocket_std.c and
--   inet_TcpServerSocket_std.c), in a Unix build; what the calls of the system give is a parameter
--   (`Net`), and the calls that open and close descriptors are listed.
-- - Main: the arguments, the image and the runs of main.c.
--
-- A Vm step is a function from the registers to the next ones or to the value that is returned. The
-- stack of cells and the memory of bytes are apart: an address of a cell is eight times its number, and
-- no instruction is taken to reach the stack through an address in memory. A sum, difference, product or
-- negation of signed values that overflows wraps, in the instructions (`exec_int`, `exec_long`) as in
-- `initArray`, where C leaves it undefined. A handler is a function from a session to the outcome with the next
-- one. Where C code reads bytes that nothing stored, they are a parameter (`Env`), or the access is
-- undefined where a pointer would be read.
--
-- Fuel: `grow_loop` has 64 rounds in `write_packet`, since a length that is not zero doubles in each;
-- `read_utf_loop` has one more than the bytes, since a round takes a byte or more; `remove_frame`,
-- `run`, `run_regular`, `remove_all`, `receive_loop`, `machine_steps`, `resume_loop` and
-- `run_in_platform_mode` take the number of rounds or calls as an argument.
--
-- Not modelled: the debugger's handshake, its sockets and threads, the log of packets, the native
-- methods for files, UDP sockets and clocks, and the printing of stacks and names: input and output. The
-- calls on files in fileManager.c and main.c are a parameter (`Files`). The two threads share the
-- session without a lock on all of it; here a phase of the one and a packet of the other are steps that
-- do not overlap. `main` is modelled with the loop without the debugger.
pub mod Base
pub mod Memory
pub mod Packet
pub mod Vm
pub mod Jdwp
pub mod Main
pub mod Natives
pub mod Tests
