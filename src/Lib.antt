-- ===== src/Lib.antt =====
-- iSCSI target: the server side of one connection, and what its operations do.
--
-- The program is an iSCSI target (RFC 3720) over one SCSI device. `main` (main.c) accepts
-- connections, forks a process for each, and runs two threads in it: `start_receiver` reads the
-- socket and has each PDU served, `start_transmit` sends what the server has answered. They share
-- the response buffer of the connection, which is a byte array with a length and a semaphore
-- (iscsi_buffer.c). A chunk of the socket goes through `incoming_request` (iscsi_connection.c) into
-- the receive buffer; a PDU that is whole goes to `iscsi_server_process` (iscsi_server.c), which
-- tests the command number and chooses the handler of request/*.c by the phase of the session and
-- the opcode; the handler writes its answer into the response buffer, and the PDU is taken off.
--
-- Files and sources:
--   Prelude       numbers, lists, 32-bit words, memory as a function from places to bytes, and
--                 `Outcome`: a call returns, waits for another thread, or does what C leaves
--                 undefined, fails an assertion or exits
--   Byte          iscsi_byte.h
--   Utility       iscsi_utility.c
--   Buffer        iscsi_buffer.c, iscsi_buffer.h; Buffer.Queue is the abstract bounded queue
--   Pdu           iscsi_pdu.h, iscsi_pdu.c
--   State         the structs of iscsi_connection.h, iscsi_session.h, iscsi_target.h,
--                 iscsi_transfer_entry.h and iscsi_connection_parameter.h, with their one-line
--                 operations
--   Parameter     iscsi_connection_parameter.c: Keys, Update, Lookup; Entry, Settled, Printed and
--                 Generated are about the text that is written, Same and Read about one that is read
--   Session       iscsi_session.c, iscsi_target.c, iscsi_transfer_entry.c
--   Response      the acquire, write and release that all handlers share
--   Request       request/*.c, a module for each handler, and under it what its answer is
--   Server        iscsi_server.c (Numbering, Dispatch), iscsi_connection.c, and main.c: the two loops
--                 (Loops), the rounds of the two threads in any order (Threads), the response
--                 buffer between their single steps (Threads.Shared), and `main` itself (Main)
--   Tests         the theorems at concrete inputs
--
-- How the code is modelled. A function of the source has its name; a field of a struct too, in
-- snake_case. An `int` is the natural number below 2 ^ 32 of its bit pattern, with the wrap-around
-- of each operation written out, and compared as a signed number where the source does. `byte *` is
-- the memory from that place on. A pointer to the static session or target is NULL or that object
-- (`Reference`), since the source has one of each. What the handlers do in place is written as the
-- state that goes in and the state that comes out. The lock is a counter; a call that would wait on
-- the semaphore, or for room, comes to `waits`. Where an access of a buffer, of the device's memory
-- or of a transfer would leave the array, the model has a fault; the sense buffer is read as far as
-- `sb_len_wr` says, which the kernel keeps within the 32 bytes of `mx_sb_len`. The padding of a
-- NOP-Out's answer that starts in front of the pointer makes zeros of bytes that wait, and is a fault
-- where fewer bytes wait; a text without its NUL is looked at no further than the largest array.
--
-- Parameters. The operating system is the record `System`: whether `open` of the device succeeds,
-- and the reply of `ioctl` with SG_IO to each command, which may depend on all commands before it.
-- `Target.issued` lists the commands that were issued, and is no field of the source. A command has
-- the bytes of the data buffer at the call beside the direction, which is always FROM the device:
-- the device is given none of these bytes.
-- `recv` and `send` are inputs: the chunks that came, and whether a `send` succeeded. That the
-- device's sense data are shorter than 256 bytes is a hypothesis (`ShortSense`), since `sb_len_wr`
-- is an `unsigned char`.
--
-- The threads. `Server.Threads.Step` is a round of one of the two loops, and `Reach` any sequence
-- of them: the receiver's round is a call of `incoming_request` that returns, the transmitter's a
-- `send` that succeeds. There a round is one step. What the threads share inside their rounds is
-- the response buffer, and `Server.Threads.Shared` takes it apart: each thread has a place in the
-- code, and a step is one operation on the semaphore, one look at the buffer, one byte written
-- through the pointer that `iscsi_buffer_acquire_lock_for_length` returned, or one `send`;
-- `play` takes the steps in the order of any schedule. The handlers are there reduced to what they
-- ask for and write, at any place of the array; that they write into the room that they asked for is
-- a hypothesis on the schedule (`StayWithin`), which that padding of a NOP-Out's answer breaks. A
-- thread that moves or zeroes bytes with the lock held does so in one step, since of what the
-- transmitter reads without the lock only bytes in front of the length count, and these it moves
-- itself.
--
-- Bounds. `string_to_int` and `strlen` are given 2 ^ 22 rounds, the size of the largest array.
-- The digits of an `int` take ten rounds at most. `iscsi_request_data_in_send` is given
-- `expected + 1` rounds, since with a positive largest segment each round but a last one sends a
-- byte at least (Request.DataIn.Stream).
--
-- Not modelled: the logger, what `bind`, `listen` and `pthread_create` return, the closing of
-- sockets, and the sleep between two rounds. `socket`, `accept`, `fork` and `malloc` are inputs of
-- `Server.Main`.
pub mod Prelude
pub mod Byte
pub mod Utility
pub mod Buffer
pub mod Pdu
pub mod State
pub mod Parameter
pub mod Session
pub mod Response
pub mod Request
pub mod Server
pub mod Tests
