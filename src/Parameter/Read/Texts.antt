-- ===== src/Parameter/Read/Texts.antt =====
-- iscsi_connection_parameter.c: where the entries stand in a text that is made of them.
use iscsi.Prelude.{
  ℕ, suc, zero, ◌+◌, ◌-◌, ◌<◌, ◌≡◌, refl, sym, ap, ◌∙◌, arith, List, [], ◌∷◌, ◌++◌, length,
  append_assoc, length-append,
}
use mathlib.Core.Path.{ap₂}
use iscsi.Prelude.Memory.{Memory, bytes, c_string, length-bytes}
use iscsi.Parameter.Entry.{Entry, entry_text}
use iscsi.Parameter.Printed.{texts}
use iscsi.Parameter.Read.{Stands, AllStand, entry_length, total_length}

moved :
    (m : Memory) {o p n k : ℕ} {rest : List ℕ}
    → o ≡ p
    → n ≡ k
    → bytes m o n ≡ rest
    → bytes m p k ≡ rest
moved m place size h = sym (ap₂ (bytes m) place size) ∙ h

-- Bytes that begin with those of another memory hold them, and behind them the rest.
bytes_front :
    (m k : Memory) (o q n len : ℕ) (rest : List ℕ)
    → bytes m o n ≡ bytes k q len ++ rest
    → ((j : ℕ) → j < len → m (o + j) ≡ k (q + j)) × (bytes m (o + len) (n - len) ≡ rest)
bytes_front m k o q n zero rest h =
    (λ j lt. absurd (omega arith), moved m (omega arith) (omega arith) h)
bytes_front m k o q zero (suc len) rest h = absurd cc
bytes_front m k o q (suc n) (suc len) rest h =
    let first : m o ≡ k q = cc in
    let behind : bytes m (suc o) n ≡ bytes k (suc q) len ++ rest = cc in
    let (agree, left) = bytes_front m k (suc o) (suc q) n len rest behind in
    (λ j lt. grind (arith, agree (j - 1)), moved m (omega arith) (omega arith) left)

bytes_first :
    (m : Memory) (o n c : ℕ) (rest : List ℕ)
    → bytes m o n ≡ c ∷ rest
    → (m o ≡ c) × (bytes m (o + 1) (n - 1) ≡ rest)
bytes_first m o zero c rest h = absurd cc
bytes_first m o (suc n) c rest h =
    let behind : bytes m (suc o) n ≡ rest = cc in (cc, moved m (omega arith) (omega arith) behind)

entry_front :
    (e : Entry) (rest : List ℕ)
    → entry_text e ++ rest
      ≡ bytes (c_string e.key) 0 (length e.key) ++ (b'=' ∷ (bytes e.value 0 e.size ++ (0 ∷ rest)))
entry_front e rest =
    let v = bytes e.value 0 e.size in
    let a = bytes (c_string e.key) 0 (length e.key) in
    append_assoc a (b'=' ∷ (v ++ (0 ∷ []))) rest
    ∙ ap (λ s. a ++ (b'=' ∷ s)) (append_assoc v (0 ∷ []) rest)

texts-Stands :
    (m : Memory) (o n : ℕ) (e : Entry) (rest : List ℕ)
    → bytes m o n ≡ entry_text e ++ rest
    → Stands m o e × (bytes m (o + entry_length e) (n - entry_length e) ≡ rest)
texts-Stands m o n e rest h =
    let v = bytes e.value 0 e.size in
    let a = bytes (c_string e.key) 0 (length e.key) in
    let (key, after_key) =
      bytes_front m (c_string e.key) o 0 n (length e.key) (b'=' ∷ (v ++ (0 ∷ rest)))
        (h ∙ entry_front e rest) in
    let (equals, after_equals) = bytes_first m (o + length e.key) _ b'=' _ after_key in
    let (value, after_value) =
      bytes_front m e.value (o + length e.key + 1) 0 _ e.size (0 ∷ rest) after_equals in
    let (ends, left) = bytes_first m (o + length e.key + 1 + e.size) _ 0 rest after_value in
    (
      record {
        key = λ j lt. grind (arith, key j);
        equals = equals;
        value = λ j lt. grind (arith, value j);
        ends = ends;
      },
      moved m (omega arith) (omega arith) left,
    )

pub texts-AllStand :
    (es : List Entry) (m : Memory) (o n : ℕ) → bytes m o n ≡ texts es → AllStand m o es
texts-AllStand [] m o n h = tt
texts-AllStand (e ∷ es) m o n h =
    let (stands, rest) = texts-Stands m o n e (texts es) h in
    (stands, texts-AllStand es m (o + entry_length e) (n - entry_length e) rest)

pub length-texts : (es : List Entry) → length (texts es) ≡ total_length es
length-texts [] = refl
length-texts (e ∷ es) =
    let v = bytes e.value 0 e.size in
    let a = bytes (c_string e.key) 0 (length e.key) in
    omega (
      arith,
      length-append (entry_text e) (texts es),
      length-append a (b'=' ∷ (v ++ (0 ∷ []))),
      length-append v (0 ∷ []),
      length-bytes (c_string e.key) 0 (length e.key),
      length-bytes e.value 0 e.size,
      length-texts es,
    )
