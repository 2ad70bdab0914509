-- ===== src/Base/Words.antt =====
-- Machine words: bounds, checked and saturating arithmetic, big-endian bytes.
use Prim.Native.Nat.{ℕ, ◌+◌, ◌*◌, ◌/◌, ◌%◌, ◌<◌}
use mathlib.Core.Path.{◌≡◌, refl}
use mathlib.Core.List.{List, [], ◌∷◌, ◌++◌}
use mathlib.Core.Option.{Option, none, some}
use native.Mathlib.Omega.{arith}
use ssh_mobile.Base.Tests.{ltb, if◌then◌else◌}
use ssh_mobile.Base.Lists.{length}

abbrev pub u64_mod : ℕ
u64_mod = 18446744073709551616

abbrev pub u64_max : ℕ
u64_max = 18446744073709551615

abbrev pub IsByte : ℕ → Type 0
IsByte b = b < 256

-- `u64::checked_add`.
abbrev pub checked_add : ℕ → ℕ → Option ℕ
checked_add a b = if ltb (a + b) u64_mod then some (a + b) else none

-- `u64::saturating_add`.
abbrev pub saturating_add : ℕ → ℕ → ℕ
saturating_add a b = if ltb (a + b) u64_mod then a + b else u64_max

-- `to_be_bytes` of a u16, a u32 and a u64.
unfoldable pub be16 : ℕ → List ℕ
be16 n = (n / 256 % 256) ∷ (n % 256) ∷ []

unfoldable pub be32 : ℕ → List ℕ
unfolding be16
be32 n = be16 (n / 65536 % 65536) ++ be16 (n % 65536)

unfoldable pub be64 : ℕ → List ℕ
unfolding be32
be64 n = be32 (n / 4294967296 % 4294967296) ++ be32 (n % 4294967296)

of_be_from : ℕ → List ℕ → ℕ
of_be_from acc [] = acc
of_be_from acc (b ∷ bs) = of_be_from (acc * 256 + b) bs

-- `from_be_bytes`.
unfoldable pub of_be : List ℕ → ℕ
unfolding of_be_from
of_be bs = of_be_from 0 bs

pub of_be-be16 : (n : ℕ) → n < 65536 → of_be (be16 n) ≡ n
unfolding of_be be16
of_be-be16 n h = omega arith

pub of_be-be32 : (n : ℕ) → n < 4294967296 → of_be (be32 n) ≡ n
unfolding of_be be32
of_be-be32 n h = omega arith

pub of_be-be64 : (n : ℕ) → n < u64_mod → of_be (be64 n) ≡ n
unfolding of_be be64
of_be-be64 n h = omega arith

pub length-be16 : (n : ℕ) → length (be16 n) ≡ 2
unfolding be16
length-be16 n = refl

pub length-be32 : (n : ℕ) → length (be32 n) ≡ 4
unfolding be32
length-be32 n = refl

pub length-be64 : (n : ℕ) → length (be64 n) ≡ 8
unfolding be64
length-be64 n = refl
