-- ===== src/Tests.antt =====
-- Theorems at concrete inputs, with an allocator that grants blocks of fewer than 32768 bytes.
mod Packets
mod Machine
mod Debugger
mod Threads
mod Startup
use sedona_vm_debug.Base.{ap, sym}
use mathlib.Core.Option.{some-injective, none-ne-some}
use sedona_vm_debug.Base.{
  ℕ, zero, suc, ◌+◌, ◌-◌, ◌*◌, ◌^◌, ◌≤◌, ◌<◌, ◌≡◌, refl, ◌∙◌, inl, inr, arith, Option, some, none,
  List, [], ◌∷◌, ◌++◌, length, take, get_elem?, Bool, true, false, Bool-cases, ltb, ltb→lt, lt→ltb,
  if◌then◌else◌, length-append, length-take,
}
use sedona_vm_debug.Memory.{Allocator}
use sedona_vm_debug.Packet.Chain.Laws.{Grants}

abbrev pub zeros : ℕ → List ℕ
zeros zero = []
zeros (suc n) = 0 ∷ zeros n

pub zeros-length : (n : ℕ) → length (zeros n) ≡ n
zeros-length zero = refl
zeros-length (suc n) = omega (arith, zeros-length n)

abbrev pub limited : ℕ → List ℕ → Option (List ℕ)
limited n b = if ltb n 32768 then some b else none

pub limited-some : (n : ℕ) (b c : List ℕ) → limited n b ≡ some c → (n < 32768) × (b ≡ c)
limited-some n b c h = elim (Bool-cases (ltb n 32768)) [
  | inl less ↦ (ltb→lt n 32768 less, some-injective b c (rw less at h))
  | inr more ↦ absurd (none-ne-some c (rw more at h))
]

-- The block cut or filled up to a size.
abbrev pub resize : List ℕ → ℕ → List ℕ
resize a zero = []
resize [] (suc n) = 0 ∷ resize [] n
resize (x ∷ a) (suc n) = x ∷ resize a n

pub resize-length : (a : List ℕ) (n : ℕ) → length (resize a n) ≡ n
resize-length a zero = refl
resize-length [] (suc n) = omega (arith, resize-length [] n)
resize-length (x ∷ a) (suc n) = omega (arith, resize-length a n)

pub resize-keeps :
    (a : List ℕ) (n i : ℕ) → i < length a → i < n → get_elem? (resize a n) i ≡ get_elem? a i
resize-keeps a zero i h k = absurd (omega arith)
resize-keeps [] (suc n) i h k = absurd (omega arith)
resize-keeps (x ∷ a) (suc n) zero h k = refl
resize-keeps (x ∷ a) (suc n) (suc i) h k = resize-keeps a n i (omega arith) (omega arith)

abbrev pub allocator : Allocator
allocator = record {
  malloc = λ n. limited n (zeros n);
  realloc = λ a n. limited n (resize a n);
  malloc_size = λ n b e. ap length (sym (limited-some n (zeros n) b e).1) ∙ zeros-length n;
  malloc_limit = λ n b e. small n (limited-some n (zeros n) b e).0;
  realloc_size = λ a n b e. ap length (sym (limited-some n (resize a n) b e).1) ∙ resize-length a n;
  realloc_limit = λ a n b e. small n (limited-some n (resize a n) b e).0;
  realloc_keeps = λ a n b e i h k.
      ap (λ c. get_elem? c i) (sym (limited-some n (resize a n) b e).1) ∙ resize-keeps a n i h k;
}
  where
    small : (n : ℕ) → n < 32768 → n < 2 ^ 62
    small n h = omega arith

pub allocator-Grants : Grants allocator 4095
allocator-Grants a n h = (resize a n, rw (lt→ltb n 32768 (omega arith)) refl)
