-- ===== src/Request.antt =====
-- request/: one module for each kind of PDU that the server reads or writes.
pub mod R2t
pub mod Reject
pub mod Logout
pub mod Nop
pub mod Text
pub mod DataIn
pub mod Cmd
pub mod DataOut
pub mod Login
pub mod Extends
