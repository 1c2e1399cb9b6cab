-- ===== src/Jdwp/Files/Laws.antt =====
-- jdwp/fileManager.c: what a string is split into, and the numbers that are read.
use sedona_vm_debug.Base.{
  ℕ, zero, suc, ◌+◌, ◌-◌, ◌*◌, ◌/◌, ◌^◌, ◌≤◌, ◌<◌, ◌≡◌, refl, sym, ap, ◌∙◌, arith, List, [], ◌∷◌,
  ◌++◌, none, some, true, false, Bool-cases, inl, inr, ◌==◌, ==→eq, ==-self, ltb-false,
  if◌then◌else◌, length, length-drop, take, drop, map, All,
}
use native.Mathlib.Nat.{add-mul-mod_self_left, div-add-mod, pow-suc}
use sedona_vm_debug.Memory.{done, to_size}
use sedona_vm_debug.Jdwp.Files.{
  cast_loop, cast_to_int, count_char, index_of, substr, split_loop, split,
}

-- The pieces between the delimiters, by the structure of the string.
abbrev pub onto_first : ℕ → List (List ℕ) → List (List ℕ)
onto_first x [] = []
onto_first x (p ∷ ps) = (x ∷ p) ∷ ps

unfoldable pub pieces : ℕ → List ℕ → List (List ℕ)
pieces dil [] = [] ∷ []
pieces dil (x ∷ str) = if x == dil then [] ∷ pieces dil str else onto_first x (pieces dil str)

-- What stands before the first delimiter, and what behind it.
data Cut (dil : ℕ) (str : List ℕ) : Type 0 where
  absent :
      index_of str dil ≡ none → count_char str dil ≡ 0 → pieces dil str ≡ str ∷ [] → Cut dil str
  found :
      (i : ℕ)
      → index_of str dil ≡ some i
      → i < length str
      → count_char str dil ≡ suc (count_char (drop (suc i) str) dil)
      → pieces dil str ≡ take i str ∷ pieces dil (drop (suc i) str)
      → Cut dil str

cut : (dil : ℕ) (str : List ℕ) → Cut dil str
unfolding index_of count_char pieces
cut dil [] = absent refl refl refl
cut dil (x ∷ str) = elim (Bool-cases (x == dil)) [
  | inl here ↦ found 0 (rw here refl) (omega arith) (rw here refl) (rw here refl)
  | inr other ↦ elim (cut dil str) [
    | absent nowhere no_count whole ↦
        absent (rw (other, nowhere) refl) (rw (other, no_count) refl) (rw (other, whole) refl)
    | found i at inside more first ↦
        found (suc i) (rw (other, at) refl) (omega arith) (rw (other, more) refl)
          (rw (other, first) refl)
  ]
]

add_one : (n : ℕ) → n + 1 ≡ suc n
add_one n = omega arith

take-all : (str : List ℕ) (n : ℕ) → n ≡ length str → take n str ≡ str
take-all [] zero h = refl
take-all [] (suc n) h = refl
take-all (x ∷ str) zero h = absurd (omega arith)
take-all (x ∷ str) (suc n) h = ap (λ r. x ∷ r) (take-all str n (omega arith))

suc_add : (m n : ℕ) → suc (m + n) ≡ suc m + n
suc_add m n = omega arith

drop-drop : (m n : ℕ) (str : List ℕ) → drop n (drop m str) ≡ drop (m + n) str
drop-drop zero n str = ap (λ k. drop k str) (omega arith)
drop-drop (suc m) zero [] = ap (λ (k : ℕ). drop k []) (suc_add m 0)
drop-drop (suc m) (suc n) [] = ap (λ (k : ℕ). drop k []) (suc_add m (suc n))
drop-drop (suc m) n (x ∷ str) = drop-drop m n str ∙ ap (λ k. drop k (x ∷ str)) (suc_add m n)

substr-take :
    (str : List ℕ) (from count : ℕ)
    → from + count ≤ length str
    → substr str from count ≡ done (take count (drop from str))
unfolding substr
substr-take str from count h = rw (ltb-false (length str + 1) (from + count) (omega arith)) refl

split_loop-pieces :
    (n : ℕ) (str : List ℕ) (dil from : ℕ)
    → from ≤ length str
    → count_char (drop from str) dil ≡ n
    → split_loop (suc n) str dil from ≡ done (pieces dil (drop from str))
unfolding split_loop
split_loop-pieces zero str dil from inside counted =
    let here = ltb-false (length str) from inside in
    elim (cut dil (drop from str)) [
      | absent nowhere no_count whole ↦
          let size = length-drop from str in
          let piece = substr-take str from (length str - from) (omega arith) in
          let all = take-all (drop from str) (length str - from) (omega (arith, size)) in
          rw (here, nowhere, piece, all, whole) refl
      | found i at i_inside more first ↦ absurd (cc (counted, more))
    ]
split_loop-pieces (suc n) str dil from inside counted =
    let here = ltb-false (length str) from inside in
    elim (cut dil (drop from str)) [
      | absent nowhere no_count whole ↦ absurd (cc (counted, no_count))
      | found i at i_inside more first ↦
          let size = length-drop from str in
          let piece = substr-take str from i (omega (arith, size)) in
          let behind : drop (suc i) (drop from str) ≡ drop (from + (i + 1)) str =
            drop-drop from (suc i) str ∙ ap (λ k. drop k str) (omega arith) in
          let fewer : count_char (drop (from + (i + 1)) str) dil ≡ n =
            omega (arith, ap (λ r. count_char r dil) behind) in
          let rest = split_loop-pieces n str dil (from + (i + 1)) (omega (arith, size)) fewer in
          rw (here, at, piece, rest, first, behind) refl
    ]

-- `split` gives the pieces between the delimiters.
split-pieces : (str : List ℕ) (dil : ℕ) → split str dil ≡ done (pieces dil str)
unfolding split
split-pieces str dil =
    rw (add_one (count_char str dil))
      (split_loop-pieces (count_char str dil) str dil 0 (omega arith) refl)

-- Pieces with a delimiter between every two.
abbrev pub join : ℕ → List (List ℕ) → List ℕ
join dil [] = []
join dil (p ∷ []) = p
join dil (p ∷ q ∷ ps) = p ++ (dil ∷ join dil (q ∷ ps))

-- Without a delimiter.
abbrev pub Lacks : ℕ → List ℕ → Type 0
Lacks dil p = count_char p dil ≡ 0

count_char-here :
    (dil x : ℕ) (str : List ℕ)
    → (x == dil) ≡ true
    → count_char (x ∷ str) dil ≡ suc (count_char str dil)
unfolding count_char
count_char-here dil x str here = rw here refl

count_char-other :
    (dil x : ℕ) (str : List ℕ) → (x == dil) ≡ false → count_char (x ∷ str) dil ≡ count_char str dil
unfolding count_char
count_char-other dil x str other = rw other refl

Lacks-cons : (dil x : ℕ) (p : List ℕ) → Lacks dil (x ∷ p) → ((x == dil) ≡ false) × Lacks dil p
Lacks-cons dil x p h = elim (Bool-cases (x == dil)) [
  | inl here ↦ absurd (cc (h, count_char-here dil x p here))
  | inr other ↦ (other, sym (count_char-other dil x p other) ∙ h)
]

pieces-Lacks : (dil : ℕ) (p : List ℕ) → Lacks dil p → pieces dil p ≡ p ∷ []
unfolding pieces
pieces-Lacks dil [] h = refl
pieces-Lacks dil (x ∷ p) h =
    let (other, rest) = Lacks-cons dil x p h in rw (other, pieces-Lacks dil p rest) refl

pieces-append :
    (dil : ℕ) (p rest : List ℕ) → Lacks dil p → pieces dil (p ++ (dil ∷ rest)) ≡ p ∷ pieces dil rest
unfolding pieces
pieces-append dil [] rest h = rw (==-self dil) refl
pieces-append dil (x ∷ p) rest h =
    let (other, lacks) = Lacks-cons dil x p h in rw (other, pieces-append dil p rest lacks) refl

pieces-join :
    (dil : ℕ) (p : List ℕ) (ps : List (List ℕ))
    → All (Lacks dil) (p ∷ ps)
    → pieces dil (join dil (p ∷ ps)) ≡ p ∷ ps
pieces-join dil p [] (h, hs) = pieces-Lacks dil p h
pieces-join dil p (q ∷ ps) (h, hs) =
    pieces-append dil p (join dil (q ∷ ps)) h ∙ ap (λ r. p ∷ r) (pieces-join dil q ps hs)

-- Pieces that hold no delimiter, with one between every two, are split into these pieces.
pub split-join :
    (dil : ℕ) (p : List ℕ) (ps : List (List ℕ))
    → All (Lacks dil) (p ∷ ps)
    → split (join dil (p ∷ ps)) dil ≡ done (p ∷ ps)
split-join dil p ps h = split-pieces (join dil (p ∷ ps)) dil ∙ ap done (pieces-join dil p ps h)

-- What the pieces of a string are.
pub record IsPieces (dil : ℕ) (str : List ℕ) (ps : List (List ℕ)) : Type 0 where
  pub joined : join dil ps ≡ str
  pub lacking : All (Lacks dil) ps
  pub number : length ps ≡ suc (count_char str dil)

IsPieces-delimiter :
    (dil : ℕ) (str : List ℕ) (ps : List (List ℕ))
    → IsPieces dil str ps
    → (join dil ([] ∷ ps) ≡ dil ∷ str) × All (Lacks dil) ([] ∷ ps)
unfolding count_char
IsPieces-delimiter dil str [] h = absurd (cc h.number)
IsPieces-delimiter dil str (p ∷ ps) h = (ap (λ r. dil ∷ r) h.joined, (refl, h.lacking))

onto_first-joined :
    (dil x : ℕ) (str : List ℕ) (ps : List (List ℕ))
    → (x == dil) ≡ false
    → IsPieces dil str ps
    → (join dil (onto_first x ps) ≡ x ∷ str)
      × All (Lacks dil) (onto_first x ps)
      × (length (onto_first x ps) ≡ length ps)
unfolding count_char
onto_first-joined dil x str [] other h = absurd (cc h.number)
onto_first-joined dil x str (p ∷ []) other h =
    (ap (λ r. x ∷ r) h.joined, (rw other h.lacking.0, tt), refl)
onto_first-joined dil x str (p ∷ q ∷ ps) other h =
    (ap (λ r. x ∷ r) h.joined, (rw other h.lacking.0, h.lacking.1), refl)

pieces-IsPieces : (dil : ℕ) (str : List ℕ) → IsPieces dil str (pieces dil str)
unfolding pieces count_char
pieces-IsPieces dil [] = record { joined = refl; lacking = (refl, tt); number = refl }
pieces-IsPieces dil (x ∷ str) =
    let ih = pieces-IsPieces dil str in
    elim (Bool-cases (x == dil)) [
      | inl here ↦
          let (joined, lacking) = IsPieces-delimiter dil str (pieces dil str) ih in
          rw here (record {
            joined = joined ∙ ap (λ y. y ∷ str) (sym (==→eq x dil here));
            lacking = lacking;
            number = ap suc ih.number ∙ ap suc (sym (count_char-here dil x str here));
          })
      | inr other ↦
          let (joined, lacking, number) = onto_first-joined dil x str (pieces dil str) other ih in
          rw other (record {
            joined = joined;
            lacking = lacking;
            number = number ∙ ih.number ∙ ap suc (sym (count_char-other dil x str other));
          })
    ]

-- Every string is split, into one piece more than it has delimiters; no piece has one, and with one
-- between every two the pieces are the string again.
pub split-IsPieces :
    (str : List ℕ) (dil : ℕ)
    → (ps : List (List ℕ)) × (split str dil ≡ done ps) × IsPieces dil str ps
split-IsPieces str dil = (pieces dil str, split-pieces str dil, pieces-IsPieces dil str)

-- The number that digits stand for.
abbrev pub value : List ℕ → ℕ
value [] = 0
value (d ∷ ds) = d * 10 ^ length ds + value ds

abbrev pub digit_char : ℕ → ℕ
digit_char d = d + 48

mod_mul : (a b c : ℕ) → to_size (to_size a * b + c) ≡ to_size (a * b + c)
mod_mul a b c =
    let split_up : a * b + c ≡ to_size a * b + c + 2 ^ 64 * (a / 2 ^ 64 * b) =
      grind (arith, ap (λ n. n * b) (div-add-mod a (2 ^ 64))) in
    sym (ap to_size split_up ∙ add-mul-mod_self_left (to_size a * b + c) (2 ^ 64) (a / 2 ^ 64 * b))

flat_digits : (result d p v : ℕ) → (result * 10 + d) * p + v ≡ result * (p * 10) + (d * p + v)
flat_digits result d p v = grind arith

cast_loop-value :
    (ds : List ℕ) (result : ℕ)
    → result < 2 ^ 64
    → cast_loop (map digit_char ds) result ≡ to_size (result * 10 ^ length ds + value ds)
unfolding cast_loop
cast_loop-value [] result small = omega arith
cast_loop-value (d ∷ ds) result small =
    let next = to_size (to_size (result * 10) + (d + 48 + 2 ^ 64 - 48)) in
    let congruent : next ≡ to_size (result * 10 + d) = omega arith in
    let p = 10 ^ length ds in
    let flat : (result * 10 + d) * p + value ds
        ≡ result * 10 ^ suc (length ds) + (d * p + value ds) =
      flat_digits result d (10 ^ length ds) (value ds)
      ∙ ap (λ q. result * q + (d * p + value ds)) (sym (pow-suc 10 (length ds))) in
    cast_loop-value ds next (omega arith)
    ∙ ap (λ n. to_size (n * p + value ds)) congruent
    ∙ mod_mul (result * 10 + d) p (value ds)
    ∙ ap to_size flat

-- Decimal digits are read as the number that they stand for, modulo 2^64.
pub cast_to_int-value : (ds : List ℕ) → cast_to_int (map digit_char ds) ≡ to_size (value ds)
unfolding cast_to_int
cast_to_int-value ds = cast_loop-value ds 0 (omega arith) ∙ ap to_size (omega arith)
