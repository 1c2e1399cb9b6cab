-- ===== src/Vm/Regular/Laws.antt =====
-- svm/vm.c: `vmCall` does what `vmCallDebug` does.
use sedona_vm_debug.Base.{
  ℕ, zero, suc, ◌≡◌, refl, Bool, ◌+◌, inl, inr, Option, none, some, Bool-cases,
}
use sedona_vm_debug.Memory.{Outcome, done, exits, undefined, out_of_fuel, ◌>>=◌}
use sedona_vm_debug.Vm.Word.{load_u8}
use sedona_vm_debug.Vm.Opcode.{Opcode, decode}
use sedona_vm_debug.Vm.Machine.{Vm, Step, running, returned}
use sedona_vm_debug.Vm.Exec.Arith.{Fpu}
use sedona_vm_debug.Vm.Exec.Calls.{
  Natives, exec_calls, native_call, native_call_void, err_missing_native,
}
use sedona_vm_debug.Vm.Exec.Values.{exec_literals, exec_params, exec_locals, exec_stack}
use sedona_vm_debug.Vm.Exec.Arith.{exec_int, exec_long, exec_float, exec_double, exec_casts}
use sedona_vm_debug.Vm.Exec.Jumps.{exec_near, exec_far, exec_int_near, exec_int_far, exec_switch}
use sedona_vm_debug.Vm.Exec.Storage.{
  exec_fields8, exec_fields16, exec_fields32, exec_fields64, exec_refs, exec_consts, exec_inline,
}
use sedona_vm_debug.Vm.Exec.Calls.{exec_returns}
use sedona_vm_debug.Vm.Exec.Misc.{exec_misc}
use sedona_vm_debug.Vm.Loop.{exec, guarded, guarded_byte, step, run, default_case, ◌or_else◌}
use sedona_vm_debug.Vm.Loop.Laws.{Guards, null_pointer, stack_overflow, executed, guarded-Guards}
use mathlib.Core.Path.{subst}
use sedona_vm_debug.Vm.Regular.{
  unchecked, exec_regular, guarded_regular, regular_byte, step_regular, run_regular,
}

-- What the two tables of native methods make of a case: the same, or the checked one the error.
data Agree (vm : Vm) : Option (Outcome Step) → Option (Outcome Step) → Type 0 where
  same : (p : Option (Outcome Step)) → Agree vm p p
  missing : (q : Option (Outcome Step)) → Agree vm (some (done (returned err_missing_native vm))) q

native_call-Agree :
    (natives : Natives) (height : ℕ) (vm : Vm)
    → Agree vm
        (some (done (native_call natives height vm)))
        (some (done (native_call (unchecked natives) height vm)))
unfolding native_call
native_call-Agree natives height vm =
    let kit = load_u8 vm.memory (vm.cp + 1) in
    elim (Bool-cases (natives.is_valid kit (load_u8 vm.memory (vm.cp + 2)))) [
      | inl there ↦ rw there (same _)
      | inr absent ↦ rw absent (missing _)
    ]

exec_calls-Agree :
    (natives : Natives) (op : Opcode) (vm : Vm)
    → Agree vm (exec_calls natives op vm) (exec_calls (unchecked natives) op vm)
unfolding exec_calls native_call_void
exec_calls-Agree natives Opcode.call_native vm = native_call-Agree natives 0 vm
exec_calls-Agree natives Opcode.call_native_wide vm = native_call-Agree natives 1 vm
exec_calls-Agree natives _ vm = same _

later :
    {vm : Vm} (r : Option (Outcome Step)) {p q : Option (Outcome Step)}
    → Agree vm p q
    → Agree vm (r or_else p) (r or_else q)
later none h = h
later (some r) h = same (some r)

earlier :
    {vm : Vm} (r : Option (Outcome Step)) {p q : Option (Outcome Step)}
    → Agree vm p q
    → Agree vm (p or_else r) (q or_else r)
earlier r (same p) = same (p or_else r)
earlier r (missing q) = missing (q or_else r)

Agree-default_case :
    {vm after : Vm} {p q : Option (Outcome Step)}
    → Agree vm p q
    → default_case vm p ≡ done (running after)
    → default_case vm q ≡ done (running after)
Agree-default_case (same p) e = e
Agree-default_case (missing q) e = absurd cc

exec-unchecked :
    (natives : Natives) (fpu : Fpu) (op : Opcode) (vm after : Vm)
    → exec natives fpu op vm ≡ done (running after)
    → exec (unchecked natives) fpu op vm ≡ done (running after)
unfolding exec
exec-unchecked natives fpu op vm after e =
    let calls =
      earlier (exec_returns op vm or_else exec_misc op vm or_else exec_switch op vm)
        (exec_calls-Agree natives op vm) in
    Agree-default_case
      (later (exec_literals op vm) (
        later (exec_params op vm) (
          later (exec_locals op vm) (
            later (exec_int op vm) (
              later (exec_long op vm) (
                later (exec_float fpu op vm) (
                  later (exec_double fpu op vm) (
                    later (exec_casts fpu op vm) (
                      later (exec_stack op vm) (
                        later (exec_near op vm) (
                          later (exec_far op vm) (
                            later (exec_int_near op vm) (
                              later (exec_int_far op vm) (
                                later (exec_inline op vm) (
                                  later (exec_fields8 op vm) (
                                    later (exec_fields16 op vm) (
                                      later (exec_fields32 op vm) (
                                        later (exec_fields64 op vm) (
                                          later (exec_refs op vm)
                                            (later (exec_consts op vm) calls))))))))))))))))))))
      e

Guards-exec :
    {natives : Natives} {fpu : Fpu} {max_stack : ℕ} {op : Opcode} {vm after : Vm} {r : Outcome Step}
    → Guards natives fpu max_stack op vm r
    → r ≡ done (running after)
    → exec natives fpu op vm ≡ done (running after)
Guards-exec (null_pointer null) e = absurd cc
Guards-exec (stack_overflow full) e = absurd cc
Guards-exec (executed there room) e = e

module _ (scode_debug : Bool) (natives : Natives) (fpu : Fpu) (max_stack : ℕ) where
  exec_regular-exec :
      (op : Opcode) (vm after : Vm)
      → exec natives fpu op vm ≡ done (running after)
      → exec_regular scode_debug natives fpu op vm ≡ done (running after)
  unfolding exec_regular
  exec_regular-exec op vm after e = elim (Bool-cases scode_debug) [
    | inl checked ↦ rw checked e
    | inr release ↦ rw release (exec-unchecked natives fpu op vm after e)
  ]

  guarded_regular-guarded :
      (op : Opcode) (vm after : Vm)
      → guarded natives fpu max_stack op vm ≡ done (running after)
      → guarded_regular scode_debug natives fpu max_stack op vm ≡ done (running after)
  unfolding guarded_regular guarded
  guarded_regular-guarded op vm after e = elim (Bool-cases scode_debug) [
    | inl checked ↦ rw checked e
    | inr release ↦
        (let plain = Guards-exec (guarded-Guards natives fpu max_stack op vm) e in
          let regular = exec_regular-exec op vm after plain in
          rw release
            (subst (λ b. exec_regular b natives fpu op vm ≡ done (running after)) release regular))
  ]

  regular_byte-guarded_byte :
      (op : Option Opcode) (vm after : Vm)
      → guarded_byte natives fpu max_stack op vm ≡ done (running after)
      → regular_byte scode_debug natives fpu max_stack op vm ≡ done (running after)
  regular_byte-guarded_byte none vm after e = absurd cc
  regular_byte-guarded_byte (some op) vm after e = guarded_regular-guarded op vm after e

  step_regular-step :
      (vm after : Vm)
      → step natives fpu max_stack vm ≡ done (running after)
      → step_regular scode_debug natives fpu max_stack vm ≡ done (running after)
  unfolding step_regular step
  step_regular-step vm after e =
      regular_byte-guarded_byte (decode (load_u8 vm.memory vm.cp)) vm after e

  returned-stays :
      (n v : ℕ) (vm : Vm) → run natives fpu max_stack n (returned v vm) ≡ done (returned v vm)
  unfolding run
  returned-stays zero v vm = refl
  returned-stays (suc n) v vm = refl

  run-split :
      (n : ℕ) (after : Vm) (r : Outcome Step)
      → (r >>= run natives fpu max_stack n) ≡ done (running after)
      → (mid : Vm) × (r ≡ done (running mid))
        × (run natives fpu max_stack n (running mid) ≡ done (running after))
  run-split n after (done (running mid)) e = (mid, refl, e)
  run-split n after (done (returned v vm)) e = absurd (cc (returned-stays n v vm))
  run-split n after exits e = absurd cc
  run-split n after undefined e = absurd cc
  run-split n after out_of_fuel e = absurd cc

  -- The regular loop refines the debugger's: where a number of rounds of `vmCallDebug` neither ends
  -- nor meets an error, as many rounds of `vmCall` lead to the same machine, whether or not its
  -- guards and its test of native methods are compiled in.
  pub run_regular-run :
      (n : ℕ) (vm after : Vm)
      → run natives fpu max_stack n (running vm) ≡ done (running after)
      → run_regular scode_debug natives fpu max_stack n (running vm) ≡ done (running after)
  unfolding run_regular run
  run_regular-run zero vm after e = e
  run_regular-run (suc n) vm after e =
      let (mid, first, rest) = run-split n after (step natives fpu max_stack vm) e in
      rw (step_regular-step vm mid first) (run_regular-run n mid after rest)
