-- ===== src/Memory.antt =====
-- The outcome of C code that may exit or run into undefined behaviour, and the C allocator, which
-- is not part of the repository.
use sedona_vm_debug.Base.{le→leb, leb, take, drop, ◌++◌, ◌&&◌, ◌≤◌}
use sedona_vm_debug.Base.{ℕ, ◌+◌, ◌%◌, ◌^◌, ◌<◌, ◌≡◌, refl}
use sedona_vm_debug.Base.{List, [], Option, none, some, length, get_elem?, if◌then◌else◌}

-- `exits` is a call of `MHandler->error_exit`, which ends the process. `undefined` is behaviour
-- that C leaves undefined: an access outside a block, a null pointer, an oversized shift.
-- `out_of_fuel` is a loop that has not ended after the rounds that the model gives it.
pub data Outcome {ℓ} (A : Type ℓ) : Type ℓ where
  done : A → Outcome A
  exits undefined out_of_fuel : Outcome A

infixl 5 ◌>>=◌ ◌>>◌
abbrev pub ◌>>=◌ {ℓ κ} : {A : Type ℓ} {B : Type κ} → Outcome A → (A → Outcome B) → Outcome B
done a >>= f = f a
exits >>= f = exits
undefined >>= f = undefined
out_of_fuel >>= f = out_of_fuel

abbrev pub ◌>>◌ {ℓ} : {B : Type ℓ} → Outcome (Unit {0}) → Outcome B → Outcome B
m >> k = m >>= λ _. k

-- A value of an array, or an access outside it.
abbrev pub defined {ℓ} : {A : Type ℓ} → Option A → Outcome A
defined none = undefined
defined (some a) = done a

-- Arithmetic on `size_t`, in a 64-bit build.
abbrev pub to_size : ℕ → ℕ
to_size n = n % 2 ^ 64

-- `malloc` and `realloc` by what they return: a block with its contents, or `none` for NULL.
-- What a fresh block holds is unspecified, so it is the allocator's choice. No block has 2^62
-- bytes or more.
pub record Allocator : Type 0 where
  pub malloc : ℕ → Option (List ℕ)
  pub realloc : List ℕ → ℕ → Option (List ℕ)
  pub malloc_size : (n : ℕ) (b : List ℕ) → malloc n ≡ some b → length b ≡ n
  pub malloc_limit : (n : ℕ) (b : List ℕ) → malloc n ≡ some b → n < 2 ^ 62
  pub realloc_size : (a : List ℕ) (n : ℕ) (b : List ℕ) → realloc a n ≡ some b → length b ≡ n
  pub realloc_limit : (a : List ℕ) (n : ℕ) (b : List ℕ) → realloc a n ≡ some b → n < 2 ^ 62
  pub realloc_keeps :
      (a : List ℕ) (n : ℕ) (b : List ℕ)
      → realloc a n ≡ some b
      → (i : ℕ) → i < length a
      → i < n
      → get_elem? b i ≡ get_elem? a i

-- A pointer to a block; NULL is the empty block, on which every access is undefined.
abbrev pub block : Option (List ℕ) → List ℕ
block none = []
block (some b) = b

-- The process does not exit by `error_exit`.
pub data NeverExits {ℓ} {A : Type ℓ} : Outcome A → Type ℓ where
  returned : {a : A} → NeverExits (done a)
  faulted : NeverExits undefined

pub NeverExits-bind {ℓ κ} :
    {A : Type ℓ} {B : Type κ} {r : Outcome A} {f : A → Outcome B}
    → NeverExits r
    → ((a : A) → NeverExits (f a))
    → NeverExits (r >>= f)
NeverExits-bind (returned {a}) k = k a
NeverExits-bind faulted k = faulted

pub defined-NeverExits {ℓ} : {A : Type ℓ} (o : Option A) → NeverExits (defined o)
defined-NeverExits none = faulted
defined-NeverExits (some a) = returned

-- What ends in undefined behaviour is undefined as a whole.
pub bind-undefined {ℓ κ} :
    {A : Type ℓ} {B : Type κ} {r : Outcome A} {f : A → Outcome B}
    → NeverExits r
    → ((a : A) → f a ≡ undefined)
    → (r >>= f) ≡ undefined
bind-undefined (returned {a}) k = k a
bind-undefined faulted k = refl

-- `memcpy(dst + at, src, n)`.
unfoldable pub memcpy : List ℕ → ℕ → List ℕ → ℕ → Outcome (List ℕ)
memcpy dst at src n =
    if leb (at + n) (length dst) && leb n (length src)
    then done (take at dst ++ (take n src ++ drop (at + n) dst))
    else undefined

pub memcpy_lem :
    (dst : List ℕ) (at : ℕ) (src : List ℕ) (n : ℕ)
    → at + n ≤ length dst
    → n ≤ length src
    → memcpy dst at src n ≡ done (take at dst ++ (take n src ++ drop (at + n) dst))
unfolding memcpy
memcpy_lem dst at src n h k = rw (le→leb (at + n) (length dst) h, le→leb n (length src) k)

-- What holds of the result, if there is one.
abbrev pub Yields {ℓ κ} : {A : Type ℓ} → (A → Type κ) → Outcome A → Type κ
Yields P (done a) = P a
Yields P exits = Unit
Yields P undefined = Unit
Yields P out_of_fuel = Unit

pub Yields-bind {ℓ κ μ ν} :
    {A : Type ℓ} {B : Type κ} (Q : A → Type μ) (P : B → Type ν) (r : Outcome A) (f : A → Outcome B)
    → Yields Q r
    → ((a : A) → Q a → Yields P (f a))
    → Yields P (r >>= f)
Yields-bind Q P (done a) f q k = k a q
Yields-bind Q P exits f q k = tt
Yields-bind Q P undefined f q k = tt
Yields-bind Q P out_of_fuel f q k = tt

pub Yields-after {ℓ κ ν} :
    {A : Type ℓ} {B : Type κ} (P : B → Type ν) (r : Outcome A) (f : A → Outcome B)
    → ((a : A) → Yields P (f a))
    → Yields P (r >>= f)
Yields-after P (done a) f k = k a
Yields-after P exits f k = tt
Yields-after P undefined f k = tt
Yields-after P out_of_fuel f k = tt

pub Yields-map {ℓ κ ν} :
    {A : Type ℓ} (P : A → Type κ) (Q : A → Type ν) (r : Outcome A)
    → ((a : A) → P a → Q a)
    → Yields P r
    → Yields Q r
Yields-map P Q (done a) k p = k a p
Yields-map P Q exits k p = tt
Yields-map P Q undefined k p = tt
Yields-map P Q out_of_fuel k p = tt
