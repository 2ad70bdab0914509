-- ===== src/Base/Utf8.antt =====
-- `std::str::from_utf8` as a test on bytes.
use ssh_mobile.Base.Tests.{ltb, leb, ◌==◌, if◌then◌else◌}
use Prim.Native.Nat.{ℕ, zero, suc}
use mathlib.Core.Bool.{Bool, true, false, ◌&&◌}
use mathlib.Core.List.{List, [], ◌∷◌}
use mathlib.Core.Option.{Option, none, some}
use mathlib.Core.Path.{◌≡◌, refl}

-- What may follow: so many bytes, the next of them within bounds.
record Expect : Type 0 where
  left : ℕ
  low : ℕ
  high : ℕ

expect : ℕ → ℕ → ℕ → Option Expect
expect left low high = some (record { left = left; low = low; high = high })

-- By the first byte of a character.
first : ℕ → Option Expect
unfolding expect
first b =
    if ltb b 0x80
    then expect 0 0 0
    else if ltb b 0xc2
    then none
    else if ltb b 0xe0
    then expect 1 0x80 0xbf
    else if b == 0xe0
    then expect 2 0xa0 0xbf
    else if b == 0xed
    then expect 2 0x80 0x9f
    else if ltb b 0xf0
    then expect 2 0x80 0xbf
    else if b == 0xf0
    then expect 3 0x90 0xbf
    else if ltb b 0xf4
    then expect 3 0x80 0xbf
    else if b == 0xf4
    then expect 3 0x80 0x8f
    else none

go : ℕ → ℕ → ℕ → List ℕ → Bool
unfolding first
go zero low high [] = true
go (suc n) low high [] = false
go zero low high (b ∷ bs) = elim (first b) [ none ↦ false | some x ↦ go x.left x.low x.high bs ]
go (suc n) low high (b ∷ bs) = let rest = go n 0x80 0xbf bs in leb low b && leb b high && rest

unfoldable pub is_utf8 : List ℕ → Bool
unfolding go
is_utf8 bs = go 0 0 0 bs

is_utf8_accents : is_utf8 (0x61 ∷ 0xc3 ∷ 0xa9 ∷ 0xe4 ∷ 0xb8 ∷ 0xad ∷ []) ≡ true
unfolding is_utf8
is_utf8_accents = refl

is_utf8_surrogate : is_utf8 (0xed ∷ 0xa0 ∷ 0x80 ∷ []) ≡ false
unfolding is_utf8
is_utf8_surrogate = refl

is_utf8_cut : is_utf8 (0xe4 ∷ 0xb8 ∷ []) ≡ false
unfolding is_utf8
is_utf8_cut = refl
