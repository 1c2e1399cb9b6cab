-- ===== src/Vm/Word.antt =====
-- The machine of svm/vm.c, a 64-bit little-endian build: memory as bytes, words, signed values, and
-- the arithmetic of the C types by bit patterns.
use sedona_vm_debug.Base.{ℕ, zero, suc, ◌+◌, ◌-◌, ◌*◌, ◌/◌, ◌%◌, ◌^◌, Bool, true, false, not}
pub mod Laws
use sedona_vm_debug.Base.{ltb, leb, ◌==◌, ◌&&◌, if◌then◌else◌, Option, none, some}
use mathlib.Core.Bool.{xor}

-- Addresses are 64-bit patterns; a byte that nothing was stored to is whatever the memory holds.
abbrev pub Memory : Type 0
Memory = ℕ → ℕ

abbrev pub to_u64 : ℕ → ℕ
to_u64 n = n % 2 ^ 64

abbrev pub update : (ℕ → ℕ) → ℕ → ℕ → ℕ → ℕ
update f i v j = if j == i then v else f j

abbrev pub load_u8 : Memory → ℕ → ℕ
load_u8 m a = m (to_u64 a) % 256

abbrev pub load_u16 : Memory → ℕ → ℕ
load_u16 m a = load_u8 m a + 2 ^ 8 * load_u8 m (a + 1)

abbrev pub load_u32 : Memory → ℕ → ℕ
load_u32 m a = load_u16 m a + 2 ^ 16 * load_u16 m (a + 2)

abbrev pub load_u64 : Memory → ℕ → ℕ
load_u64 m a = load_u32 m a + 2 ^ 32 * load_u32 m (a + 4)

abbrev pub store_u8 : Memory → ℕ → ℕ → Memory
store_u8 m a v = update m (to_u64 a) (v % 256)

abbrev pub store_u16 : Memory → ℕ → ℕ → Memory
store_u16 m a v = store_u8 (store_u8 m a v) (a + 1) (v / 2 ^ 8)

abbrev pub store_u32 : Memory → ℕ → ℕ → Memory
store_u32 m a v = store_u16 (store_u16 m a v) (a + 2) (v / 2 ^ 16)

abbrev pub store_u64 : Memory → ℕ → ℕ → Memory
store_u64 m a v = store_u32 (store_u32 m a v) (a + 4) (v / 2 ^ 32)

-- A stack cell is a union, by its 64-bit pattern: `ival` and `fval` are its low half, and storing
-- to them leaves the high half; `aval` and an `int64_t` are the whole.
abbrev pub ival : ℕ → ℕ
ival cell = cell % 2 ^ 32

abbrev pub with_ival : ℕ → ℕ → ℕ
with_ival cell v = cell / 2 ^ 32 * 2 ^ 32 + v % 2 ^ 32

-- Sign extension to an address, from 8, 16 and 32 bits.
abbrev pub extend : ℕ → ℕ → ℕ
extend bits v = if ltb v (2 ^ (bits - 1)) then v else v + (2 ^ 64 - 2 ^ bits)

-- Signed comparison of two patterns of a width: both are moved by half the range.
abbrev pub signed_lt : ℕ → ℕ → ℕ → Bool
signed_lt bits a b = ltb ((a + 2 ^ (bits - 1)) % 2 ^ bits) ((b + 2 ^ (bits - 1)) % 2 ^ bits)

abbrev pub signed_le : ℕ → ℕ → ℕ → Bool
signed_le bits a b = not (signed_lt bits b a)

abbrev pub of_bool : Bool → ℕ
of_bool true = 1
of_bool false = 0

abbrev pub negate : ℕ → ℕ → ℕ
negate bits a = (2 ^ bits - a % 2 ^ bits) % 2 ^ bits

abbrev pub is_negative : ℕ → ℕ → Bool
is_negative bits a = leb (2 ^ (bits - 1)) a

abbrev pub magnitude : ℕ → ℕ → ℕ
magnitude bits a = if is_negative bits a then negate bits a else a

-- `/` and `%` round towards zero; a zero divisor and the one overflowing quotient are undefined.
unfoldable pub signed_div : ℕ → ℕ → ℕ → Option ℕ
signed_div bits a b =
    if b == 0
    then none
    else if (a == 2 ^ (bits - 1)) && (b == 2 ^ bits - 1)
    then none
    else (let q = magnitude bits a / magnitude bits b in
        some (if xor (is_negative bits a) (is_negative bits b) then negate bits q else q))

unfoldable pub signed_mod : ℕ → ℕ → ℕ → Option ℕ
signed_mod bits a b =
    if b == 0
    then none
    else if (a == 2 ^ (bits - 1)) && (b == 2 ^ bits - 1)
    then none
    else (let r = magnitude bits a % magnitude bits b in
        some (if is_negative bits a then negate bits r else r))

-- `<<` and `>>` by at most the width less one; `>>` repeats the sign.
unfoldable pub shift_left : ℕ → ℕ → ℕ → Option ℕ
shift_left bits a k = if ltb k bits then some (a * 2 ^ k % 2 ^ bits) else none

unfoldable pub shift_right : ℕ → ℕ → ℕ → Option ℕ
shift_right bits a k =
    if ltb k bits
    then some (if is_negative bits a then 2 ^ bits - 1 - (2 ^ bits - 1 - a) / 2 ^ k else a / 2 ^ k)
    else none
