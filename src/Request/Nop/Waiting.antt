-- ===== src/Request/Nop/Waiting.antt =====
-- request/nop.c: a NOP-Out with a data segment longer than the largest one.
use iscsi.Prelude.Memory.{Memory}
