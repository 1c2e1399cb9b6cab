-- ===== src/Base/Bytes.antt =====
-- Bytes and machine words as native numbers, and the big-endian images of words.
use Prim.Native.Nat.{ℕ, ◌/◌, ◌%◌, ◌^◌, ◌<◌}
use mathlib.Core.List.{List, [], ◌∷◌}

-- Conversions to the unsigned C types.
abbrev pub to_u8 : ℕ → ℕ
to_u8 n = n % 2 ^ 8

abbrev pub to_u16 : ℕ → ℕ
to_u16 n = n % 2 ^ 16

abbrev pub to_u32 : ℕ → ℕ
to_u32 n = n % 2 ^ 32

-- `x >> k` of an unsigned value.
abbrev pub shr : ℕ → ℕ → ℕ
shr x k = x / 2 ^ k

abbrev pub All {ℓ κ} : {A : Type ℓ} → (A → Type κ) → List A → Type κ
All P [] = Unit
All P (x ∷ xs) = P x × All P xs

abbrev pub IsByte : ℕ → Type 0
IsByte b = b < 256

-- The bytes of a word, the high one first.
abbrev pub big_endian2 : ℕ → List ℕ
big_endian2 v = v / 256 % 256 ∷ v % 256 ∷ []

abbrev pub big_endian4 : ℕ → List ℕ
big_endian4 v = v / 2 ^ 24 % 256 ∷ v / 2 ^ 16 % 256 ∷ v / 2 ^ 8 % 256 ∷ v % 256 ∷ []

abbrev pub big_endian8 : ℕ → List ℕ
big_endian8 v =
    v / 2 ^ 56 % 256
    ∷ v / 2 ^ 48 % 256
    ∷ v / 2 ^ 40 % 256
    ∷ v / 2 ^ 32 % 256
    ∷ v / 2 ^ 24 % 256
    ∷ v / 2 ^ 16 % 256
    ∷ v / 2 ^ 8 % 256
    ∷ v % 256
    ∷ []
