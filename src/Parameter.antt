-- ===== src/Parameter.antt =====
-- iscsi_connection_parameter.c: the parameters that a login negotiates, and the text that carries
-- them.
pub mod Keys
pub mod Update
pub mod Negotiated
pub mod Entry
pub mod Same
pub mod Settled
pub mod Printed
pub mod Generated
pub mod Read
pub mod Lookup
