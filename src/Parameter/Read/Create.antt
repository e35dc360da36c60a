-- ===== src/Parameter/Read/Create.antt =====
-- iscsi_connection_parameter.c: the texts that `iscsi_connection_parameter_create` reads.
use iscsi.Prelude.{ℕ, ◌-◌, ◌≤◌, ◌≡◌, ap, ◌∙◌, arith, false, List, ◌∷◌}
use iscsi.Prelude.Word.{slt}
use iscsi.Prelude.Memory.{Memory, memcpy}
use iscsi.State.{Parameter}
use iscsi.Parameter.Keys.{parameter_buffer_size, set_default_parameter}
use iscsi.Parameter.Update.{create_loop, iscsi_connection_parameter_create}
use iscsi.Parameter.Entry.{Entry}
use iscsi.Parameter.Read.{AllStand, AreReadable, total_length, read_all}
use iscsi.Parameter.Read.Loop.{loop-eq}

-- The parameters before the first entry is read.
abbrev pub fresh : Parameter → Memory → ℕ → Parameter
fresh p text n = set_default_parameter (record p { buffer = memcpy p.buffer 0 text n; length = n })

-- On a text of at most `parameter_buffer_size` characters that consists of entries key=value, at
-- least one, each ended by NUL, with no = or NUL in keys and values and no empty key,
-- `iscsi_connection_parameter_create` does to the default parameters the update of each entry, in
-- their order, and nothing else.
pub create-read_all :
    (p : Parameter) (text : Memory) (n : ℕ) (e : Entry) (es : List Entry)
    → AreReadable (e ∷ es)
    → AllStand text 0 (e ∷ es)
    → n ≡ total_length (e ∷ es)
    → n ≤ parameter_buffer_size
    → iscsi_connection_parameter_create p text n ≡ read_all (e ∷ es) (fresh p text n)
unfolding iscsi_connection_parameter_create
create-read_all p text n e es readable stand size small =
    let whole : slt parameter_buffer_size n ≡ false = ground arith in
    rw whole (
      ap (λ k. create_loop (k - 1) 1 0 text (fresh p text n)) size
      ∙ loop-eq es text 0 e (fresh p text n) readable stand)
