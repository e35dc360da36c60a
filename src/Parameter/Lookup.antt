-- ===== src/Parameter/Lookup.antt =====
-- iscsi_connection_parameter.c: looking a key up in the text of a request.
use iscsi.Prelude.{
  ℕ, zero, suc, ◌+◌, ◌-◌, ◌≤◌, ◌≡◌, ◌≢◌, refl, sym, ◌∙◌, ◌<◌, arith, Bool, true, false, ◌&&◌, ◌||◌,
  Option, none, some, List, get_or, ◌==◌, ltb, if◌then◌else◌,
}
use iscsi.Prelude.Memory.{Memory, from}
use iscsi.State.{Parameter}

-- `enum CONNECTION_PARAMETER_SYMBOL`
pub data Symbol : Type 0 where
  equal key separator value : Symbol

unfoldable pub next_key : Symbol → ℕ → Symbol
next_key symbol b =
    if b == b'='
    then equal
    else if b == b',' || b == 0
    then separator
    else elim symbol [ equal ↦ value | separator ↦ key | key ↦ key | value ↦ value ]

-- What a separator and a character of a key do to the two variables of the loop.
unfoldable pub next_count : Symbol → Bool → ℕ → ℕ
next_count separator same count = 0
next_count key same count = if same then count + 1 else count
next_count _ same count = count

unfoldable pub next_valid : Symbol → Bool → Bool → Bool
next_valid separator same still_valid = true
next_valid key same still_valid = same && still_valid
next_valid _ same still_valid = still_valid

-- The loop from `i` on, with the rounds that are left; the place behind the `=` is returned.
unfoldable pub get_loop : ℕ → ℕ → Memory → List ℕ → Symbol → ℕ → Bool → Option ℕ
unfolding next_key next_count next_valid
get_loop zero i text name symbol count still_valid = none
get_loop (suc rounds) i text name symbol count still_valid =
    let now = next_key symbol (text i) in
    let same = text i == get_or name count 0 in
    let rest =
      get_loop rounds (suc i) text name now (next_count now same count)
        (next_valid now same still_valid) in
    let found : Option ℕ = if still_valid then some (i + 1) else rest in
    elim now [ equal ↦ found | _ ↦ rest ]

unfoldable pub iscsi_parameter_get : Memory → ℕ → List ℕ → Option ℕ
iscsi_parameter_get text n name = get_loop n 0 text name key 0 true

unfoldable pub iscsi_connection_parameter_get : Parameter → List ℕ → Option ℕ
unfolding iscsi_parameter_get
iscsi_connection_parameter_get p name = iscsi_parameter_get p.buffer p.length name

unfoldable pub iscsi_connection_parameter_is_vendor_specific : Memory → Bool
iscsi_connection_parameter_is_vendor_specific name =
    name 0 == b'X' && (name 1 == b'-' || name 1 == b'#')

unfoldable pub vendor_loop : ℕ → ℕ → Memory → Bool
vendor_loop zero i buffer = true
vendor_loop (suc rounds) i buffer =
    let rest = vendor_loop rounds (suc i) buffer in
    if buffer i == b',' && iscsi_connection_parameter_is_vendor_specific (from buffer (i + 1))
    then false
    else rest

-- Whether no key is vendor specific: the function returns 0 if it finds one.
unfoldable pub iscsi_connection_parameter_vendor_specific : Parameter → Bool
unfolding vendor_loop iscsi_connection_parameter_is_vendor_specific
iscsi_connection_parameter_vendor_specific p =
    if ltb 1 p.length && iscsi_connection_parameter_is_vendor_specific p.buffer
    then false
    else vendor_loop (p.length - 2) 0 p.buffer

-- A character of a key: no `=`, `,` or NUL.
abbrev pub IsPlain : ℕ → Type 0
IsPlain c = (c ≢ b'=') × (c ≢ b',') × (c ≢ 0)

plain_round :
    (rounds i count : ℕ) (text : Memory) (name : List ℕ) (c : ℕ)
    → text i ≡ c
    → IsPlain c
    → get_or name count 0 ≡ c
    → get_loop (suc rounds) i text name key count true
      ≡ get_loop rounds (suc i) text name key (count + 1) true
unfolding get_loop
plain_round rounds i count text name c at plain same = ground arith

equal_round :
    (rounds i count : ℕ) (text : Memory) (name : List ℕ)
    → text i ≡ b'='
    → get_loop (suc rounds) i text name key count true ≡ some (i + 1)
unfolding get_loop
equal_round rounds i count text name at = ground arith

-- From `i` on the text goes on as `name` does from there, up to an `=` at `i + left`.
key_rounds :
    (left i rounds : ℕ) (text : Memory) (name : List ℕ)
    → ((k : ℕ) → i ≤ k → k < i + left → (text k ≡ get_or name k 0) × IsPlain (text k))
    → text (i + left) ≡ b'='
    → left < rounds
    → get_loop rounds i text name key i true ≡ some (i + left + 1)
key_rounds left i zero text name same at more = absurd (omega arith)
key_rounds zero i (suc rounds) text name same at more =
    equal_round rounds i i text name (grind arith) ∙ grind arith
key_rounds (suc left) i (suc rounds) text name same at more =
    let (here, plain) = same i (omega arith) (omega arith) in
    let next : i + 1 ≡ suc i = omega arith in
    plain_round rounds i i text name (text i) refl plain (sym here)
    ∙ rw next (
        key_rounds left (suc i) rounds text name (λ k lo hi. same k (omega arith) (omega arith))
          (grind arith) (omega arith)
        ∙ grind arith)

-- A text of more than `m` characters that begins with the first `m` characters of the key that is
-- asked for, none of which is `=`, `,` or NUL, and then has `=`, is found to hold that key: the
-- place behind the `=` is returned. This is so for the whole key, and also for any shorter
-- beginning of it.
pub get_prefix :
    (text : Memory) (n : ℕ) (name : List ℕ) (m : ℕ)
    → m < n
    → ((k : ℕ) → k < m → (text k ≡ get_or name k 0) × IsPlain (text k))
    → text m ≡ b'='
    → iscsi_parameter_get text n name ≡ some (m + 1)
unfolding iscsi_parameter_get
get_prefix text n name m h same at =
    key_rounds m 0 n text name (λ k lo hi. same k (omega arith)) (grind arith) h ∙ grind arith

get_loop-found :
    (rounds i : ℕ) (text : Memory) (name : List ℕ) (symbol : Symbol) (count : ℕ) (valid : Bool)
    {p : ℕ}
    → get_loop rounds i text name symbol count valid ≡ some p
    → (text (p - 1) ≡ b'=') × (i < p) × (p ≤ i + rounds)
unfolding get_loop
get_loop-found zero i text name symbol count valid e = cc
get_loop-found (suc rounds) i text name symbol count valid {p} e =
    let now = next_key symbol (text i) in
    let same = text i == get_or name count 0 in
    ground (
      arith,
      get_loop-found rounds (suc i) text name now (next_count now same count)
          (next_valid now same valid) {p = p},
    )

-- What `iscsi_parameter_get` returns is a place in the text, or its end, behind an `=`.
pub get-found :
    (text : Memory) (n : ℕ) (name : List ℕ) {p : ℕ}
    → iscsi_parameter_get text n name ≡ some p
    → (text (p - 1) ≡ b'=') × (0 < p) × (p ≤ n)
unfolding iscsi_parameter_get
get-found text n name e =
    let (behind, some_way, inside) = get_loop-found n 0 text name key 0 true e in
    (behind, some_way, omega arith)
