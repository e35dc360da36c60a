-- ===== src/Parameter/Entry.antt =====
-- iscsi_connection_parameter.c: writing one key and its value behind the text of the parameters.
use iscsi.Prelude.{
  ℕ, zero, suc, ◌+◌, ◌≤◌, ◌<◌, ◌≡◌, refl, ap, ◌∙◌, arith, List, [], ◌∷◌, ◌++◌, append_assoc, length,
}
use mathlib.Core.Path.{ap₂}
use iscsi.Prelude.Word.{add}
use iscsi.Prelude.Memory.{Memory, bytes, memcpy, poke, c_string, bytes-memcpy, bytes-add, bytes_ext}
use iscsi.Prelude.Text.{codes}
use iscsi.Prelude.Outcome.{ok}
use iscsi.State.{Parameter}
use iscsi.Utility.Digits.{IsText}
use iscsi.Parameter.Update.{
  text_size, strlen, iscsi_connection_parameter_write, iscsi_connection_parameter_update,
  update_information,
}

strlen_from :
    (fuel : ℕ) (m : Memory) (i n : ℕ) → IsText m n → i ≤ n → n < i + fuel → strlen fuel m i ≡ ok n
unfolding strlen
strlen_from zero m i n h a b = absurd (omega arith)
strlen_from (suc fuel) m i n h a b =
    let ends = h.ends in ground (arith, strlen_from fuel m (suc i) n h, h.inside i)

-- Behind the text of `p` stands a text of `n` characters.
abbrev pub written : Parameter → Memory → ℕ → Parameter
written p source n = record p { buffer = memcpy p.buffer p.length source n; length = p.length + n }

pub write-eq :
    (p : Parameter) (source : Memory) (n : ℕ)
    → IsText source n
    → p.length + n < text_size
    → iscsi_connection_parameter_write p source ≡ ok (written p source n)
unfolding iscsi_connection_parameter_write
write-eq p source n h room =
    let sum : add p.length n ≡ p.length + n = omega arith in
    rw (strlen_from text_size source 0 n h (omega arith) (omega arith), sum) refl

-- The text of the parameters.
abbrev pub text_of : Parameter → List ℕ
text_of p = bytes p.buffer 0 p.length

pub text_of-written :
    (p : Parameter) (source : Memory) (n : ℕ)
    → text_of (written p source n) ≡ text_of p ++ bytes source 0 n
text_of-written p source n = bytes-memcpy p.buffer p.length source n

equals-IsText : IsText (c_string (codes "=")) 1
equals-IsText = record { ends = refl; inside = λ i lt. ground arith }

bytes-poke : (m : Memory) (p v : ℕ) → bytes (poke m p v) 0 (p + 1) ≡ bytes m 0 p ++ (v ∷ [])
bytes-poke m p v =
    let set = poke m p v in
    bytes-add set 0 p 1
    ∙ ap₂ ◌++◌ (bytes_ext set m 0 0 p (λ i lt. ground arith))
        (bytes_ext set (λ _. v) (0 + p) 0 1 (λ i lt. ground arith))

-- A key, and its value of `size` characters.
pub record Entry : Type 0 where
  pub key : List ℕ
  pub value : Memory
  pub size : ℕ

-- key=value, and the NUL.
abbrev pub entry_text : Entry → List ℕ
entry_text e =
    bytes (c_string e.key) 0 (length e.key) ++ (codes "=" ++ (bytes e.value 0 e.size ++ (0 ∷ [])))

-- The parameters with an entry behind their text.
abbrev pub ended : Parameter → Entry → Parameter
ended p e =
    let q =
      written (written (written p (c_string e.key) (length e.key)) (c_string (codes "=")) 1) e.value
        e.size in
    record q { buffer = poke q.buffer q.length 0; length = q.length + 1 }

pub record IsEntry (e : Entry) : Type 0 where
  pub key_text : IsText (c_string e.key) (length e.key)
  pub value_text : IsText e.value e.size

pub update-eq :
    (p : Parameter) (e : Entry)
    → IsEntry e
    → p.length + length e.key + e.size + 2 < text_size
    → iscsi_connection_parameter_update p (c_string e.key) e.value
      ≡ update_information (ended p e) (c_string e.key) e.value
unfolding iscsi_connection_parameter_update
update-eq p e h room =
    let first = written p (c_string e.key) (length e.key) in
    let second = written first (c_string (codes "=")) 1 in
    let third = written second e.value e.size in
    let sum : add third.length 1 ≡ third.length + 1 = omega arith in
    rw
      (
        write-eq p (c_string e.key) (length e.key) h.key_text (omega arith),
        write-eq first (c_string (codes "=")) 1 equals-IsText (omega arith),
        write-eq second e.value e.size h.value_text (omega arith),
        sum,
      )
      refl

pub text_of-ended : (p : Parameter) (e : Entry) → text_of (ended p e) ≡ text_of p ++ entry_text e
text_of-ended p e =
    let first = written p (c_string e.key) (length e.key) in
    let second = written first (c_string (codes "=")) 1 in
    let third = written second e.value e.size in
    let a = bytes (c_string e.key) 0 (length e.key) in
    let v = bytes e.value 0 e.size in
    bytes-poke third.buffer third.length 0
    ∙ ap (λ s. s ++ (0 ∷ []))
        (text_of-written second e.value e.size
          ∙ ap (λ s. s ++ v)
              (text_of-written first (c_string (codes "=")) 1
                ∙ ap (λ s. s ++ codes "=") (text_of-written p (c_string e.key) (length e.key))))
    ∙ append_assoc ((text_of p ++ a) ++ codes "=") v (0 ∷ [])
    ∙ append_assoc (text_of p ++ a) (codes "=") (v ++ (0 ∷ []))
    ∙ append_assoc (text_of p) a (codes "=" ++ (v ++ (0 ∷ [])))
