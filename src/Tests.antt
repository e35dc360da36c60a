-- ===== src/Tests.antt =====
-- Concrete runs of the program's functions, and the theorems at concrete inputs.
pub mod Samples
mod Wire
mod Buffers
mod Parameters
mod Answers
mod Serving
mod Streams
mod Schedules
mod Forks
mod Writes
mod Reads
mod Refusals
mod Transfers
mod Logins
