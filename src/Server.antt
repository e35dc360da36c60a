-- ===== src/Server.antt =====
-- iscsi_server.c, iscsi_server.h, iscsi_connection.c and the loops of main.c: what the process does
-- with the bytes that come in, and with the PDUs that go out.
pub mod Numbering
pub mod Dispatch
pub mod Loops
pub mod Threads
pub mod Main
