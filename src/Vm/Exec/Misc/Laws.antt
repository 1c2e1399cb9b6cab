-- ===== src/Vm/Exec/Misc/Laws.antt =====
-- svm/vm.c: what `initArray` leaves in an array of objects.
use sedona_vm_debug.Base.{
  ℕ, zero, suc, ◌+◌, ◌*◌, ◌%◌, ◌^◌, ◌<◌, ◌≡◌, refl, arith, ◌∙◌, ◌⊎◌, inl, inr,
}
use sedona_vm_debug.Base.{lt→ltb, leb-false}
use sedona_vm_debug.Vm.Word.{Memory, to_u64, extend, load_u64}
use sedona_vm_debug.Vm.Word.Laws.{load_u64-store_u64, load_u64-store_u64_above}
use sedona_vm_debug.Vm.Exec.Misc.{init_array, init_array_loop}

last_or_before : (i n : ℕ) → i < suc n → (i < n) ⊎ (i ≡ n)
last_or_before i n h = ground arith

init_array_loop_lem :
    (m : Memory) (refs objs size n i : ℕ)
    → i < n
    → 8 * n < 2 ^ 62
    → load_u64 (init_array_loop m refs objs size n) (refs + 8 * i)
      ≡ to_u64 (objs + extend 32 (size * i % 2 ^ 32))
unfolding init_array_loop
init_array_loop_lem m refs objs size zero i h k = elim h [ ]
init_array_loop_lem m refs objs size (suc n) i h k =
    let before = init_array_loop m refs objs size n in
    let v : ℕ → ℕ = λ j. to_u64 (objs + extend 32 (size * j % 2 ^ 32)) in
    elim (last_or_before i n h) [
      | inl below ↦
          load_u64-store_u64_above before (refs + 8 * n) (refs + 8 * i) (v n) (omega arith)
            (omega arith)
          ∙ init_array_loop_lem m refs objs size n i below (omega arith)
      | inr e ↦ rw e (load_u64-store_u64 before (refs + 8 * n) (v n) ∙ (omega arith))
    ]

-- After `initArray` the reference `i` of the array, below its length, is the address of the object
-- `i`: the objects follow the references, each `size` bytes long. The length is less than 2^31, and
-- so is the `int` product `size * i`.
pub init_array_lem :
    (m : Memory) (base length size i : ℕ)
    → i < length
    → length < 2 ^ 31
    → size * i < 2 ^ 31
    → load_u64 (init_array m base length size) (base + 8 * i)
      ≡ to_u64 (base + 8 * length + size * i)
unfolding init_array
init_array_lem m base length size i h k small =
    let whole : size * i % 2 ^ 32 ≡ size * i = omega arith in
    let signed : to_u64 (base + 8 * length + extend 32 (size * i % 2 ^ 32))
        ≡ to_u64 (base + 8 * length + size * i) =
      rw (whole, lt→ltb (size * i) (2 ^ 31) small) refl in
    rw (leb-false (2 ^ 31) length k)
      (init_array_loop_lem m base (base + 8 * length) size length i h (omega arith) ∙ signed)
