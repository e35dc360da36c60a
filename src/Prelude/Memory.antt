-- ===== src/Prelude/Memory.antt =====
-- Memory from a pointer on: `m k` is the byte at `pointer + k`. Writes, and the C library's
-- `memcpy` and `memset`, on the bytes that they name.
use Prim.Native.Nat.{ℕ, zero, suc, ◌+◌, ◌-◌, ◌<◌}
use mathlib.Core.Path.{◌≡◌, refl, ap, ap₂, ◌∙◌}
use mathlib.Core.Bool.{Bool, ◌&&◌}
use mathlib.Core.List.{List, [], ◌∷◌, ◌++◌}
use native.Mathlib.Omega.{arith}
use iscsi.Prelude.Tests.{ltb, leb, ◌==◌, if◌then◌else◌}
use iscsi.Prelude.Lists.{length, get_or, drop}
use iscsi.Prelude.Word.{IsByte}

abbrev pub Memory : Type 0
Memory = ℕ → ℕ

-- `pointer + k`
abbrev pub from : Memory → ℕ → Memory
from m k i = m (k + i)

abbrev pub poke : Memory → ℕ → ℕ → Memory
poke m p v i = if p == i then v else m i

-- Whether `i` is one of the `n` addresses from `p` on.
abbrev pub within : ℕ → ℕ → ℕ → Bool
within p n i = leb p i && ltb i (p + n)

-- `memcpy(m + p, source, n)`
abbrev pub memcpy : Memory → ℕ → Memory → ℕ → Memory
memcpy m p source n i = if within p n i then source (i - p) else m i

-- `memset(m + p, v, n)`
abbrev pub memset : Memory → ℕ → ℕ → ℕ → Memory
memset m p v n i = if within p n i then v else m i

-- A text that ends with NUL, as a C string literal.
abbrev pub c_string : List ℕ → Memory
c_string s i = get_or s i 0

abbrev pub AreBytes : Memory → Type 0
AreBytes m = (i : ℕ) → IsByte (m i)

-- The `n` bytes from `p` on.
abbrev pub bytes : Memory → ℕ → ℕ → List ℕ
bytes m p zero = []
bytes m p (suc n) = m p ∷ bytes m (suc p) n

pub length-bytes : (m : Memory) (p n : ℕ) → length (bytes m p n) ≡ n
length-bytes m p zero = refl
length-bytes m p (suc n) = ap suc (length-bytes m (suc p) n)

-- Memories that agree on a range hold the same bytes there, also where one is shifted.
pub bytes_ext :
    (m k : Memory) (p q n : ℕ)
    → ((i : ℕ) → i < n → m (p + i) ≡ k (q + i))
    → bytes m p n ≡ bytes k q n
bytes_ext m k p q zero h = refl
bytes_ext m k p q (suc n) h =
    ap₂ ◌∷◌ (grind (arith, h 0 (omega arith)))
      (bytes_ext m k (suc p) (suc q) n λ i lt. grind (arith, h (suc i) (omega arith)))

pub bytes-add : (m : Memory) (p a b : ℕ) → bytes m p (a + b) ≡ bytes m p a ++ bytes m (p + a) b
bytes-add m p zero b = grind arith
bytes-add m p (suc a) b = grind (arith, bytes-add m (suc p) a b)

pub drop-bytes : (m : Memory) (p a b : ℕ) → drop a (bytes m p (a + b)) ≡ bytes m (p + a) b
drop-bytes m p zero b = grind arith
drop-bytes m p (suc a) b = grind (arith, drop-bytes m (suc p) a b)

pub memcpy-inside :
    (m : Memory) (p : ℕ) (source : Memory) (n i : ℕ)
    → i < n
    → memcpy m p source n (p + i) ≡ source i
memcpy-inside m p source n i h =
    let back : p + i - p ≡ i = omega arith in ground (arith, ap source back)

pub get_or-bytes : (m : Memory) (p n i : ℕ) → i < n → get_or (bytes m p n) i 0 ≡ m (p + i)
get_or-bytes m p zero i h = absurd (omega arith)
get_or-bytes m p (suc n) zero h = grind arith
get_or-bytes m p (suc n) (suc i) h = grind (arith, get_or-bytes m (suc p) n i)

-- What memory holds up to the end of the bytes that are copied there.
pub bytes-memcpy :
    (m : Memory) (p : ℕ) (source : Memory) (n : ℕ)
    → bytes (memcpy m p source n) 0 (p + n) ≡ bytes m 0 p ++ bytes source 0 n
bytes-memcpy m p source n =
    let copied = memcpy m p source n in
    bytes-add copied 0 p n
    ∙ ap₂ ◌++◌ (bytes_ext copied m 0 0 p (λ i lt. ground arith)) (
        bytes_ext copied source (0 + p) 0 n
          (λ i lt. grind (arith, memcpy-inside m p source n i lt)))
