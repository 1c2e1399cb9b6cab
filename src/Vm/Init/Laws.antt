-- ===== src/Vm/Init/Laws.antt =====
-- svm/vm.c: which code images `vmInit` accepts, and the first frame of a call.
use sedona_vm_debug.Base.{
  ℕ, ◌+◌, ◌<◌, ◌≡◌, refl, inl, inr, arith, ◌==◌, ==→eq, Bool-cases, Option, none, some,
}
use sedona_vm_debug.Vm.Word.{load_u8, load_u32}
use sedona_vm_debug.Vm.Machine.{Vm, Step, returned}
use sedona_vm_debug.Vm.Init.{vm_init, vm_magic, init_data}

-- The header of a code image that fits this machine.
pub record IsImage (code_size : ℕ) (vm : Vm) : Type 0 where
  pub magic : load_u32 vm.memory vm.cb ≡ vm_magic
  pub major : load_u8 vm.memory (vm.cb + 4) ≡ 1
  pub minor : load_u8 vm.memory (vm.cb + 5) ≡ 5
  pub block_size : load_u8 vm.memory (vm.cb + 6) ≡ 4
  pub ref_size : load_u8 vm.memory (vm.cb + 7) ≡ 8
  pub size : load_u32 vm.memory (vm.cb + 8) ≡ code_size

-- What is in a step that returned zero.
pub data Accepts (code_size : ℕ) (vm : Vm) : Step → Type 0 where
  accepted :
      {after : Vm}
      → IsImage code_size vm
      → after.assert_successes ≡ 0
      → after.assert_failures ≡ 0
      → Accepts code_size vm (returned 0 after)
  refused :
      {error : ℕ} {after : Vm}
      → 0 < error
      → after.memory ≡ vm.memory
      → Accepts code_size vm (returned error after)

init_data-Accepts :
    (u4 code_size : ℕ) (db : Option ℕ) (vm : Vm)
    → IsImage code_size vm
    → Accepts code_size vm (init_data u4 db vm)
init_data-Accepts u4 code_size none vm i = refused (omega arith) refl
init_data-Accepts u4 code_size (some db) vm i = accepted i refl refl

-- `vmInit` gives back zero only for an image whose header fits the machine, with the assert
-- counters at zero; otherwise it gives back an error and has written no memory.
pub vm_init-Accepts :
    (malloc : ℕ → Option ℕ) (code_size : ℕ) (vm : Vm)
    → Accepts code_size vm (vm_init malloc code_size vm)
unfolding vm_init
vm_init-Accepts malloc code_size vm =
    let u4 = load_u32 vm.memory (vm.cb + 12) in
    elim (Bool-cases (load_u32 vm.memory vm.cb == vm_magic)) [
      | inr e ↦ rw e (refused (omega arith) refl)
      | inl magic ↦ rw magic (elim (Bool-cases (load_u8 vm.memory (vm.cb + 4) == 1)) [
        | inr e ↦ rw e (refused (omega arith) refl)
        | inl major ↦ rw major (elim (Bool-cases (load_u8 vm.memory (vm.cb + 5) == 5)) [
          | inr e ↦ rw e (refused (omega arith) refl)
          | inl minor ↦ rw minor (elim (Bool-cases (load_u8 vm.memory (vm.cb + 6) == 4)) [
            | inr e ↦ rw e (refused (omega arith) refl)
            | inl block_size ↦
                rw block_size (elim (Bool-cases (load_u8 vm.memory (vm.cb + 7) == 8)) [
                  | inr e ↦ rw e (refused (omega arith) refl)
                  | inl ref_size ↦
                      rw ref_size (elim (Bool-cases (load_u32 vm.memory (vm.cb + 8) == code_size)) [
                        | inr e ↦ rw e (refused (omega arith) refl)
                        | inl size ↦ rw size (
                            init_data-Accepts u4 code_size (malloc u4) vm (record {
                              magic = ==→eq (load_u32 vm.memory vm.cb) (vm_magic) magic;
                              major = ==→eq (load_u8 vm.memory (vm.cb + 4)) (1) major;
                              minor = ==→eq (load_u8 vm.memory (vm.cb + 5)) (5) minor;
                              block_size = ==→eq (load_u8 vm.memory (vm.cb + 6)) (4) block_size;
                              ref_size = ==→eq (load_u8 vm.memory (vm.cb + 7)) (8) ref_size;
                              size = ==→eq (load_u32 vm.memory (vm.cb + 8)) (code_size) size;
                            }))
                      ])
                ])
          ])
        ])
      ])
    ]
