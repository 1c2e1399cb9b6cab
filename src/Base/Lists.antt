-- ===== src/Base/Lists.antt =====
-- Lists measured and indexed by native numbers, under the library's names.
use Prim.Native.Nat.{ℕ, zero, suc, ◌+◌, ◌-◌, ◌≤◌, ◌<◌}
use mathlib.Core.Path.{◌≡◌, refl, ap, sym, ◌∙◌}
use mathlib.Core.Logic.{◌≢◌}
use mathlib.Core.List.{List, [], ◌∷◌, ◌++◌, append_assoc}
use mathlib.Core.Option.{Option, none, some}
use native.Mathlib.Nat.{add-zero}
use native.Mathlib.Omega.{arith}

module _ {ℓ} {A : Type ℓ} where
  abbrev pub length : List A → ℕ
  length [] = 0
  length (x ∷ xs) = suc (length xs)

  abbrev pub get_elem? : List A → ℕ → Option A
  get_elem? [] i = none
  get_elem? (x ∷ xs) zero = some x
  get_elem? (x ∷ xs) (suc i) = get_elem? xs i

  -- A write out of bounds changes nothing.
  abbrev pub set : List A → ℕ → A → List A
  set [] i v = []
  set (x ∷ xs) zero v = v ∷ xs
  set (x ∷ xs) (suc i) v = x ∷ set xs i v

  abbrev pub take : ℕ → List A → List A
  take zero xs = []
  take (suc n) [] = []
  take (suc n) (x ∷ xs) = x ∷ take n xs

  abbrev pub drop : ℕ → List A → List A
  drop zero xs = xs
  drop (suc n) [] = []
  drop (suc n) (x ∷ xs) = drop n xs

  abbrev pub replicate : ℕ → A → List A
  replicate zero a = []
  replicate (suc n) a = a ∷ replicate n a

module _ {ℓ} {A : Type ℓ} where
  pub length-append : (xs ys : List A) → length (xs ++ ys) ≡ length xs + length ys
  length-append [] ys = omega arith
  length-append (x ∷ xs) ys = omega (arith, length-append xs ys)

  pub length-set : (xs : List A) (i : ℕ) (v : A) → length (set xs i v) ≡ length xs
  length-set [] i v = refl
  length-set (x ∷ xs) zero v = refl
  length-set (x ∷ xs) (suc i) v = ap suc (length-set xs i v)

  pub get_elem?-set_self :
      (xs : List A) (i : ℕ) (v : A) → i < length xs → get_elem? (set xs i v) i ≡ some v
  get_elem?-set_self [] i v h = absurd (omega arith)
  get_elem?-set_self (x ∷ xs) zero v h = refl
  get_elem?-set_self (x ∷ xs) (suc i) v h = get_elem?-set_self xs i v (omega arith)

  pub get_elem?-set_ne :
      (xs : List A) (i j : ℕ) (v : A) → i ≢ j → get_elem? (set xs i v) j ≡ get_elem? xs j
  get_elem?-set_ne [] i j v ne = refl
  get_elem?-set_ne (x ∷ xs) zero zero v ne = absurd (ne refl)
  get_elem?-set_ne (x ∷ xs) zero (suc j) v ne = refl
  get_elem?-set_ne (x ∷ xs) (suc i) zero v ne = refl
  get_elem?-set_ne (x ∷ xs) (suc i) (suc j) v ne = get_elem?-set_ne xs i j v (λ e. ne (ap suc e))

  pub length-take : (n : ℕ) (xs : List A) → n ≤ length xs → length (take n xs) ≡ n
  length-take zero xs h = refl
  length-take (suc n) [] h = absurd (omega arith)
  length-take (suc n) (x ∷ xs) h = omega (arith, length-take n xs)

  pub length-drop : (n : ℕ) (xs : List A) → length (drop n xs) ≡ length xs - n
  length-drop zero xs = omega arith
  length-drop (suc n) [] = omega arith
  length-drop (suc n) (x ∷ xs) = omega (arith, length-drop n xs)

  pub length-replicate : (n : ℕ) (a : A) → length (replicate n a) ≡ n
  length-replicate zero a = refl
  length-replicate (suc n) a = ap suc (length-replicate n a)

  pub take-append-drop : (n : ℕ) (xs : List A) → take n xs ++ drop n xs ≡ xs
  take-append-drop zero xs = refl
  take-append-drop (suc n) [] = refl
  take-append-drop (suc n) (x ∷ xs) = ap (λ r. x ∷ r) (take-append-drop n xs)

  -- The element after a prefix joins the prefix.
  pub take-suc-set :
      (xs : List A) (i : ℕ) (v : A)
      → i < length xs
      → take (suc i) (set xs i v) ≡ take i xs ++ v ∷ []
  take-suc-set [] i v h = absurd (omega arith)
  take-suc-set (x ∷ xs) zero v h = refl
  take-suc-set (x ∷ xs) (suc i) v h = ap (λ r. x ∷ r) (take-suc-set xs i v (omega arith))

  pub drop-suc :
      (xs : List A) (i : ℕ) (b : A) (rest : List A) → drop i xs ≡ b ∷ rest → drop (suc i) xs ≡ rest
  drop-suc [] zero b rest h = absurd (ground arith)
  drop-suc [] (suc i) b rest h = absurd (ground arith)
  drop-suc (x ∷ xs) zero b rest h = ground arith
  drop-suc (x ∷ xs) (suc i) b rest h = drop-suc xs i b rest h

  pub get_elem?-of_drop :
      (xs : List A) (i : ℕ) (b : A) (rest : List A) → drop i xs ≡ b ∷ rest → get_elem? xs i ≡ some b
  get_elem?-of_drop [] zero b rest h = absurd (ground arith)
  get_elem?-of_drop [] (suc i) b rest h = absurd (ground arith)
  get_elem?-of_drop (x ∷ xs) zero b rest h = ground arith
  get_elem?-of_drop (x ∷ xs) (suc i) b rest h = get_elem?-of_drop xs i b rest h

  -- Lists that agree below `n` have the same prefix.
  pub take_ext :
      (n : ℕ) (xs ys : List A)
      → n ≤ length xs
      → n ≤ length ys
      → ((i : ℕ) → i < n → get_elem? ys i ≡ get_elem? xs i)
      → take n ys ≡ take n xs
  take_ext zero xs ys p q h = refl
  take_ext (suc n) [] ys p q h = absurd (omega arith)
  take_ext (suc n) (x ∷ xs) [] p q h = absurd (omega arith)
  take_ext (suc n) (x ∷ xs) (y ∷ ys) p q h = ground (
    arith,
    h 0 (omega arith),
    take_ext n xs ys (omega arith) (omega arith) (λ i l. h (suc i) (omega arith)),
  )

  pub drop-append : (xs ys : List A) → drop (length xs) (xs ++ ys) ≡ ys
  drop-append [] ys = refl
  drop-append (x ∷ xs) ys = drop-append xs ys

  -- What follows the first part of a known prefix.
  pub drop-of_take :
      (n : ℕ) (xs front bs : List A)
      → take n xs ≡ front ++ bs
      → drop (length front) xs ≡ bs ++ drop n xs
  drop-of_take n xs front bs h =
      ap (drop (length front))
        (sym (take-append-drop n xs) ∙ ap (λ t. t ++ drop n xs) h ∙ append_assoc front bs _)
      ∙ drop-append front (bs ++ drop n xs)

  -- Past a known front.
  pub drop-front :
      (xs : List A) (n : ℕ) (bs rest : List A)
      → drop n xs ≡ bs ++ rest
      → drop (n + length bs) xs ≡ rest
  drop-front xs n [] rest h = rw add-zero h
  drop-front xs n (b ∷ bs) rest h =
      let shifted : n + suc (length bs) ≡ suc n + length bs = omega arith in
      rw shifted (drop-front xs (suc n) bs rest (drop-suc xs n b (bs ++ rest) h))

  pub take-append : (xs ys : List A) → take (length xs) (xs ++ ys) ≡ xs
  take-append [] ys = refl
  take-append (x ∷ xs) ys = ap (λ t. x ∷ t) (take-append xs ys)

  pub take-all : (xs : List A) → take (length xs) xs ≡ xs
  take-all [] = refl
  take-all (x ∷ xs) = ap (λ t. x ∷ t) (take-all xs)

  pub drop-all : (n : ℕ) (xs : List A) → length xs ≤ n → drop n xs ≡ []
  drop-all zero [] h = refl
  drop-all zero (x ∷ xs) h = absurd (omega arith)
  drop-all (suc n) [] h = refl
  drop-all (suc n) (x ∷ xs) h = drop-all n xs (omega arith)
