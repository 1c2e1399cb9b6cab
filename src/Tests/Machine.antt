-- ===== src/Tests/Machine.antt =====
-- The theorems on the virtual machine at concrete inputs.
use sedona_vm_debug.Base.{ltb, leb, ◌/◌, false, ◌<◌, ◌↔◌}
use sedona_vm_debug.Vm.Exec.Arith.{Fpu, FloatOps}
use sedona_vm_debug.Vm.Exec.Calls.{Natives}
use sedona_vm_debug.Vm.Exec.Values.{exec_literals}
use sedona_vm_debug.Vm.Exec.Values.Laws.{exec_literals-load_null}
use sedona_vm_debug.Vm.Loop.{guarded, run, step, exec}
use sedona_vm_debug.Vm.Regular.{run_regular}
use sedona_vm_debug.Vm.Regular.Laws.{run_regular-run}
use sedona_vm_debug.Base.{
  ℕ, ◌+◌, ◌-◌, ◌*◌, ◌%◌, ◌^◌, ◌≡◌, refl, arith, true, get_elem?, Option, some, none, List, [], ◌∷◌,
  ◌==◌,
}
use sedona_vm_debug.Memory.{done}
use sedona_vm_debug.Vm.Word.{to_u64, update, load_u64}
use sedona_vm_debug.Vm.Opcode.{Opcode, decode, pointer_offset}
use sedona_vm_debug.Vm.Machine.{Vm, running, next}
use sedona_vm_debug.Vm.Fields.{
  get_byte, get_short, get_int, get_float, get_wide, get_ref, set_byte_field, set_short, set_int,
  set_float, set_wide, set_ref,
}
use sedona_vm_debug.Vm.Fields.Laws.{getters-setters}
use sedona_vm_debug.Vm.Exec.Calls.{
  call_static, call_virtual, return_pop, return_pop_wide, return_void,
}
use sedona_vm_debug.Vm.Exec.Calls.Laws.{IsFrame, IsLeaving, resumed, returns-resumed, calls-IsFrame}
use sedona_vm_debug.Vm.Exec.Jumps.Laws.{eq, Decides, exec_int_near-exec_int}
use sedona_vm_debug.Vm.Exec.Misc.{init_array}
use sedona_vm_debug.Vm.Exec.Misc.Laws.{init_array_lem}
use sedona_vm_debug.Vm.Frames.{is_vm_suspended}
use sedona_vm_debug.Vm.Frames.Laws.{resumes, resumes-is_vm_suspended}
use sedona_vm_debug.Vm.Effects.{effect, height, exec_all}
use sedona_vm_debug.Vm.Effects.Faults.{Faults}
use sedona_vm_debug.Vm.Effects.Cases.{Runs}
use sedona_vm_debug.Vm.Effects.Laws.{exec_all-Runs}
use sedona_vm_debug.Vm.Init.{vm_init}
use sedona_vm_debug.Vm.Init.Laws.{Accepts, vm_init-Accepts}

-- A machine in a method of no parameters and no locals, with memory that holds zeros.
abbrev pub machine : Vm
machine = record {
  sp = 10;
  cp = 100;
  fp = 4;
  pp = 4;
  lp = 7;
  num_params = 0;
  num_locals = 0;
  stack = λ i. i;
  memory = λ a. 0;
  cb = 64;
  db = 4096;
  assert_successes = 0;
  assert_failures = 0;
}

machine-IsFrame : IsFrame machine
machine-IsFrame = record {
  params_at = refl;
  locals_at = refl;
  counts_params = refl;
  counts_locals = refl;
}

calls-IsFrame_example :
    (IsFrame (call_static machine) × IsLeaving machine (to_u64 (100 + 3)) (call_static machine))
    × (IsFrame (call_virtual machine) × IsLeaving machine (to_u64 (100 + 4)) (call_virtual machine))
calls-IsFrame_example = calls-IsFrame machine (omega arith)

-- The frame of a callee whose return address is 103.
abbrev callee : Vm
callee = record machine {
  sp = 20;
  fp = 11;
  num_params = 2;
  stack = update (update (λ i. i) 11 103) 12 32;
}

callee-IsLeaving : IsLeaving machine 103 callee
callee-IsLeaving = record {
  same_frame = refl;
  return_cp = refl;
  caller_fp = refl;
  caller_method = refl;
  same_params = refl;
  same_locals = refl;
}

returns-resumed_example :
    (return_pop callee
      ≡ running (record (resumed machine 103 9 callee) { stack = update callee.stack 9 20 }))
    × (return_pop_wide callee
        ≡ running (record (resumed machine 103 10 callee) { stack = update callee.stack 9 19 }))
    × (return_void callee ≡ running (resumed machine 103 8 callee))
returns-resumed_example =
    returns-resumed machine callee 103 machine-IsFrame callee-IsLeaving (λ e. omega arith)

init_array_lem_example :
    load_u64 (init_array (λ a. 0) 5000 3 12) (5000 + 8 * 2) ≡ to_u64 (5000 + 8 * 3 + 12 * 2)
init_array_lem_example =
    init_array_lem (λ a. 0) 5000 3 12 2 (omega arith) (omega arith) (omega arith)

exec_int_near-exec_int_example :
    Decides machine Opcode.int_eq Opcode.jump_int_eq Opcode.jump_far_int_eq
exec_int_near-exec_int_example =
    exec_int_near-exec_int Opcode.int_eq Opcode.jump_int_eq Opcode.jump_far_int_eq machine eq

getters-setters_example :
    (get_byte (set_byte_field (λ a. 0) 5000 4 300) 5000 4 ≡ 300 % 2 ^ 8)
    × (get_short (set_short (λ a. 0) 5000 4 300) 5000 4 ≡ 300 % 2 ^ 16)
    × (get_int (set_int (λ a. 0) 5000 4 300) 5000 4 ≡ 300 % 2 ^ 32)
    × (get_float (set_float (λ a. 0) 5000 4 300) 5000 4 ≡ 300 % 2 ^ 32)
    × (get_wide (set_wide (λ a. 0) 5000 4 300) 5000 4 ≡ 300 % 2 ^ 64)
    × (get_ref (set_ref (λ a. 0) 5000 4 300) 5000 4 ≡ 300 % 2 ^ 64)
getters-setters_example = getters-setters (λ a. 0) 5000 4 300

resumes-is_vm_suspended_example : is_vm_suspended (resumes 1 0) ≡ true
resumes-is_vm_suspended_example = resumes-is_vm_suspended 0 (omega arith)

-- The header of an image of 400 bytes of code and 16 bytes of data, at the address 64.
abbrev image : List ℕ
image = 0x07 ∷ 0xba ∷ 0xd0 ∷ 0x5e ∷ 1 ∷ 5 ∷ 4 ∷ 8 ∷ 0x90 ∷ 1 ∷ 0 ∷ 0 ∷ 16 ∷ 0 ∷ 0 ∷ 0 ∷ []

abbrev byte_or_zero : Option ℕ → ℕ
byte_or_zero none = 0
byte_or_zero (some b) = b

abbrev loaded : Vm
loaded = record machine { memory = λ a. byte_or_zero (get_elem? image (a - 64)) }

vm_init-Accepts_example : Accepts 400 loaded (vm_init (λ n. some 8192) 400 loaded)
vm_init-Accepts_example = vm_init-Accepts (λ n. some 8192) 400 loaded

-- No native methods, and numbers without a fraction for floats.
abbrev pub no_natives : Natives
no_natives = record {
  is_valid = λ kit method. false;
  native = λ kit method base vm. 0;
  effect = λ kit method base vm. vm.memory;
}

abbrev whole : FloatOps
whole = record {
  is_nan = λ a. false;
  eq = ◌==◌;
  lt = λ a b. ltb a b;
  le = λ a b. leb a b;
  mul = λ a b. a * b;
  div = λ a b. a / b;
  add = λ a b. a + b;
  sub = λ a b. a - b;
  neg = λ a. a;
  to_int = λ a. a;
  to_long = λ a. a;
  of_int = λ a. a;
  of_long = λ a. a;
}

abbrev pub whole_fpu : Fpu
whole_fpu = record { single = whole; double = whole; narrow = λ a. a; promote = λ a. a }

exec_literals-load_null_example :
    (after : Vm) × (exec_literals Opcode.load_null machine ≡ some (next 1 after))
    × (after.sp ≡ 10 + 1)
    × ((after.stack after.sp ≡ 0) ↔ (11 < 2 ^ 32))
exec_literals-load_null_example = exec_literals-load_null machine

-- Two rounds on opcodes that do nothing.
two_rounds :
    run no_natives whole_fpu 1000 2 (running machine) ≡ done (running (record machine { cp = 102 }))
unfolding run step guarded exec exec_literals decode pointer_offset
two_rounds = refl

run_regular-run_example :
    run_regular false no_natives whole_fpu 1000 2 (running machine)
    ≡ done (running (record machine { cp = 102 }))
run_regular-run_example =
    run_regular-run false no_natives whole_fpu 1000 2 machine (record machine { cp = 102 })
      two_rounds

-- The sum of two and three into a local.
abbrev sum : List Opcode
sum = Opcode.load_i2 ∷ Opcode.load_i3 ∷ Opcode.int_add ∷ Opcode.store_local0 ∷ []

sum_height : height sum 0 ≡ some 0
unfolding height effect
sum_height = refl

exec_all-Runs_example :
    Runs
      (Faults no_natives whole_fpu sum machine)
      (some (0, 0))
      machine
      (exec_all no_natives whole_fpu sum machine)
exec_all-Runs_example = exec_all-Runs no_natives whole_fpu sum 0 0 machine sum_height (omega arith)
