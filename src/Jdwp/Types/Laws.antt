-- ===== src/Jdwp/Types/Laws.antt =====
-- jdwp/refTypHandler.c: the arrays of a reference type and their capacity.
use sedona_vm_debug.Base.{
  ℕ, suc, ◌+◌, ◌*◌, ◌%◌, ◌^◌, ◌≤◌, ◌<◌, ◌≡◌, ◌⊎◌, inl, inr, refl, arith, true, [], ◌∷◌, ◌++◌,
  length, length-append, ltb, leb, Bool-cases, ltb-false, lt→ltb, le→leb, leb-false,
}
use sedona_vm_debug.Base.{ltb→lt, leb→le}
use native.Mathlib.Nat.{pow-suc, pow-le-pow_right}
use sedona_vm_debug.Memory.{Outcome, done, undefined}
use sedona_vm_debug.Jdwp.Types.{Slots, add_slot}

-- An array whose capacity grew from zero by `2 * (1 + max)`: the powers of two less two, as far as
-- they are a `u2`.
pub record IsSlots {ℓ} {A : Type ℓ} (s : Slots A) : Type ℓ where
  pub rounds : ℕ
  pub capacity : s.max + 2 ≡ 2 ^ suc rounds
  pub capacity_limit : s.max < 2 ^ 16
  pub fits : s.num ≤ s.max
  pub all_items : length s.items ≡ s.num

-- What adding to an array of `num` items comes to.
pub data Added {ℓ} {A : Type ℓ} (a : A) (s : Slots A) : Outcome (Slots A) → Type ℓ where
  added :
      {t : Slots A}
      → s.num < 65534
      → IsSlots t
      → t.num ≡ s.num + 1
      → t.items ≡ s.items ++ (a ∷ [])
      → Added a s (done t)
  full : s.num ≡ 65534 → Added a s undefined

powers : (i j : ℕ) → i ≤ j → 2 ^ i ≤ 2 ^ j
powers i j h = pow-le-pow_right (omega arith) h

-- A capacity is the largest one, or it can double.
capacities : (k max : ℕ) → max + 2 ≡ 2 ^ k → max < 2 ^ 16 → (max ≡ 65534) ⊎ (max + 2 ≤ 2 ^ 15)
capacities k max h small = elim (Bool-cases (leb k 15)) [
  | inl below ↦ let bound : 2 ^ k ≤ 2 ^ 15 = powers k 15 (leb→le k 15 below) in inr (omega arith)
  | inr above ↦ elim (Bool-cases (leb k 16)) [
    | inl at ↦
        let bound : 2 ^ k ≤ 2 ^ 16 = powers k 16 (leb→le k 16 at) in
        let reached : 2 ^ 16 ≤ 2 ^ k = powers 16 k (ground arith) in inl (omega arith)
    | inr past ↦ let passed : 2 ^ 17 ≤ 2 ^ k = powers 17 k (ground arith) in absurd (omega arith)
  ]
]

module _ {ℓ} {A : Type ℓ} (a : A) (s : Slots A) (i : IsSlots s) where
  -- There is room.
  added-below : s.num < s.max → Added a s (add_slot (λ bytes. true) a s)
  unfolding add_slot
  added-below room =
      let last : s.max < 65535 =
        elim (capacities (suc i.rounds) s.max i.capacity i.capacity_limit) [
          | inl at ↦ omega arith
          | inr middle ↦ omega arith
        ] in
      let next : (s.num + 1) % 65536 ≡ s.num + 1 = omega arith in
      rw (leb-false s.max s.num room, lt→ltb s.num s.max room, next)
        (added (omega arith)
          (record {
            rounds = i.rounds;
            capacity = i.capacity;
            capacity_limit = i.capacity_limit;
            fits = omega arith;
            all_items = omega (arith, length-append s.items (a ∷ []), i.all_items);
          })
          refl refl)

  -- There is none, and the capacity doubles.
  added-grown : s.num ≡ s.max → s.max + 2 ≤ 2 ^ 15 → Added a s (add_slot (λ bytes. true) a s)
  unfolding add_slot
  added-grown at middle =
      let twice : 2 ^ suc (suc i.rounds) ≡ 2 ^ suc i.rounds * 2 = pow-suc 2 (suc i.rounds) in
      let wide : (1 + s.max) * 2 % 65536 ≡ 2 * s.max + 2 = omega arith in
      let next : (s.num + 1) % 65536 ≡ s.num + 1 = omega arith in
      rw (le→leb s.max s.num (omega arith), wide, lt→ltb s.num (2 * s.max + 2) (omega arith), next)
        (added (omega arith)
          (record {
            rounds = suc i.rounds;
            capacity = omega (arith, i.capacity, twice);
            capacity_limit = omega arith;
            fits = omega arith;
            all_items = omega (arith, length-append s.items (a ∷ []), i.all_items);
          })
          refl refl)

  added-full : s.num ≡ s.max → s.max ≡ 65534 → Added a s (add_slot (λ bytes. true) a s)
  unfolding add_slot
  added-full at last =
      let wide : (1 + s.max) * 2 % 65536 ≡ 65534 = omega arith in
      rw (le→leb s.max s.num (omega arith), wide, ltb-false s.num 65534 (omega arith))
        (full (omega arith))

-- Adding to an array of fields, methods or interfaces whose capacity grew from zero, with `realloc`
-- granting every size: below 65534 items the item is the last one, the count is one more, and the
-- capacity is again one that growing reaches and not exceeded; at 65534 items the capacity no
-- longer grows and the store is past the end of the array.
pub add_slot-Added {ℓ} :
    {A : Type ℓ} (a : A) (s : Slots A) → IsSlots s → Added a s (add_slot (λ bytes. true) a s)
add_slot-Added a s i = elim (Bool-cases (ltb s.num s.max)) [
  | inl room ↦ added-below a s i (ltb→lt s.num s.max room)
  | inr none_left ↦ elim (capacities (suc i.rounds) s.max i.capacity i.capacity_limit) [
    | inl last ↦ added-full a s i (ground (arith, i.fits)) last
    | inr middle ↦ added-grown a s i (ground (arith, i.fits)) middle
  ]
]
