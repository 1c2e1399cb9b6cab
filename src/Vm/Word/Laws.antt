-- ===== src/Vm/Word/Laws.antt =====
-- svm/vm.c: memory as bytes gives back the words that are stored in it.
use sedona_vm_debug.Base.{ℕ, ◌+◌, ◌/◌, ◌%◌, ◌^◌, ◌<◌, ◌≤◌, ◌≡◌, arith, ap, ◌∙◌}
use sedona_vm_debug.Base.{◌≢◌}
use sedona_vm_debug.Vm.Word.{
  Memory, to_u64, load_u8, load_u16, load_u32, load_u64, store_u8, store_u16, store_u32, store_u64,
}

pub load_u8-store_u8 : (m : Memory) (a v : ℕ) → load_u8 (store_u8 m a v) a ≡ v % 256
load_u8-store_u8 m a v = ground arith

pub load_u8-store_u8_other :
    (m : Memory) (a b v : ℕ) → to_u64 a ≢ to_u64 b → load_u8 (store_u8 m a v) b ≡ load_u8 m b
load_u8-store_u8_other m a b v h = ground arith

-- No byte of the `n` at `a` is the byte at `b`.
abbrev pub Apart : ℕ → ℕ → ℕ → Type 0
Apart n a b = (i : ℕ) → i < n → to_u64 (a + i) ≢ to_u64 b

load_u8-store_u16_other :
    (m : Memory) (a b v : ℕ) → Apart 2 a b → load_u8 (store_u16 m a v) b ≡ load_u8 m b
load_u8-store_u16_other m a b v h =
    load_u8-store_u8_other (store_u8 m a v) (a + 1) b (v / 2 ^ 8) (h 1 (omega arith))
    ∙ load_u8-store_u8_other m a b v (λ e. h 0 (omega arith) (ap to_u64 (omega arith) ∙ e))

load_u8-store_u32_other :
    (m : Memory) (a b v : ℕ) → Apart 4 a b → load_u8 (store_u32 m a v) b ≡ load_u8 m b
load_u8-store_u32_other m a b v h =
    load_u8-store_u16_other (store_u16 m a v) (a + 2) b (v / 2 ^ 16)
      (λ i k e. h (2 + i) (omega arith) (omega arith))
    ∙ load_u8-store_u16_other m a b v (λ i k. h i (omega arith))

pub load_u16-store_u16 : (m : Memory) (a v : ℕ) → load_u16 (store_u16 m a v) a ≡ v % 2 ^ 16
load_u16-store_u16 m a v =
    let low : load_u8 (store_u16 m a v) a ≡ v % 256 =
      load_u8-store_u8_other (store_u8 m a v) (a + 1) a (v / 2 ^ 8) (λ e. omega arith)
      ∙ load_u8-store_u8 m a v in
    let high : load_u8 (store_u16 m a v) (a + 1) ≡ v / 2 ^ 8 % 256 =
      load_u8-store_u8 (store_u8 m a v) (a + 1) (v / 2 ^ 8) in
    rw (low, high) (omega arith)

pub load_u32-store_u32 : (m : Memory) (a v : ℕ) → load_u32 (store_u32 m a v) a ≡ v % 2 ^ 32
load_u32-store_u32 m a v =
    let s = store_u16 m a v in
    let b0 : load_u8 (store_u32 m a v) a ≡ load_u8 s a =
      load_u8-store_u16_other s (a + 2) a (v / 2 ^ 16) (λ i k e. omega arith) in
    let b1 : load_u8 (store_u32 m a v) (a + 1) ≡ load_u8 s (a + 1) =
      load_u8-store_u16_other s (a + 2) (a + 1) (v / 2 ^ 16) (λ i k e. omega arith) in
    let low : load_u16 s a ≡ v % 2 ^ 16 = load_u16-store_u16 m a v in
    let high : load_u16 (store_u32 m a v) (a + 2) ≡ v / 2 ^ 16 % 2 ^ 16 =
      load_u16-store_u16 s (a + 2) (v / 2 ^ 16) in
    rw (b0, b1, high) (omega arith)

load_u32-store_u32_other :
    (m : Memory) (a b v : ℕ)
    → Apart 4 a b
    → Apart 4 a (b + 1)
    → Apart 4 a (b + 2)
    → Apart 4 a (b + 2 + 1)
    → load_u32 (store_u32 m a v) b ≡ load_u32 m b
load_u32-store_u32_other m a b v h0 h1 h2 h3 = rw (
  load_u8-store_u32_other m a b v h0,
  load_u8-store_u32_other m a (b + 1) v h1,
  load_u8-store_u32_other m a (b + 2) v h2,
  load_u8-store_u32_other m a (b + 2 + 1) v h3,
)

pub load_u64-store_u64 : (m : Memory) (a v : ℕ) → load_u64 (store_u64 m a v) a ≡ v % 2 ^ 64
load_u64-store_u64 m a v =
    let s = store_u32 m a v in
    let low : load_u32 (store_u64 m a v) a ≡ v % 2 ^ 32 =
      load_u32-store_u32_other s (a + 4) a (v / 2 ^ 32) (λ i k e. omega arith)
        (λ i k e. omega arith) (λ i k e. omega arith) (λ i k e. omega arith)
      ∙ load_u32-store_u32 m a v in
    let high : load_u32 (store_u64 m a v) (a + 4) ≡ v / 2 ^ 32 % 2 ^ 32 =
      load_u32-store_u32 s (a + 4) (v / 2 ^ 32) in
    rw (low, high) (omega arith)

load_u32-store_u32_above :
    (m : Memory) (a b v : ℕ)
    → b + 4 ≤ a
    → a < b + 2 ^ 63
    → load_u32 (store_u32 m a v) b ≡ load_u32 m b
load_u32-store_u32_above m a b v h k =
    load_u32-store_u32_other m a b v (λ i j e. omega arith) (λ i j e. omega arith)
      (λ i j e. omega arith) (λ i j e. omega arith)

pub load_u64-store_u64_above :
    (m : Memory) (a b v : ℕ)
    → b + 8 ≤ a
    → a < b + 2 ^ 62
    → load_u64 (store_u64 m a v) b ≡ load_u64 m b
load_u64-store_u64_above m a b v h k =
    let s = store_u32 m a v in
    let hi = v / 2 ^ 32 in
    let low : load_u32 (store_u64 m a v) b ≡ load_u32 m b =
      load_u32-store_u32_above s (a + 4) b hi (omega arith) (omega arith)
      ∙ load_u32-store_u32_above m a b v (omega arith) (omega arith) in
    let high : load_u32 (store_u64 m a v) (b + 4) ≡ load_u32 m (b + 4) =
      load_u32-store_u32_above s (a + 4) (b + 4) hi (omega arith) (omega arith)
      ∙ load_u32-store_u32_above m a (b + 4) v (omega arith) (omega arith) in
    rw (low, high)
