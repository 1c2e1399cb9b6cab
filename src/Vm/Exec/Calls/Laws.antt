-- ===== src/Vm/Exec/Calls/Laws.antt =====
-- svm/vm.c: a call and its return, and the frames between.
use sedona_vm_debug.Base.{
  ℕ, ◌+◌, ◌-◌, ◌*◌, ◌≡◌, ◌≢◌, ◌≤◌, ==-self, refl, ap, ◌∙◌, false, ◌==◌, arith,
}
use sedona_vm_debug.Vm.Word.{update, to_u64, load_u8}
use sedona_vm_debug.Vm.Machine.{Vm, running, push_cell, cell_addr, cell_index}
use sedona_vm_debug.Vm.Exec.Calls.{
  enter, call_static, call_virtual, restore, return_pop, return_pop_wide, return_void,
}

-- The registers say what the frame on the stack says: its method's counts, and the places of the
-- parameters and the locals beside it.
pub record IsFrame (vm : Vm) : Type 0 where
  pub params_at : vm.pp ≡ vm.fp - vm.num_params
  pub locals_at : vm.lp ≡ vm.fp + 3
  pub counts_params : vm.num_params ≡ load_u8 vm.memory (vm.stack (vm.fp + 2))
  pub counts_locals : vm.num_locals ≡ load_u8 vm.memory (vm.stack (vm.fp + 2) + 1)

-- A callee that ran from `vm`, entered with the return address `ret`, is about to leave: it has its
-- frame still, and has not written to its caller's method or to the words that link the frames.
pub record IsLeaving (vm : Vm) (ret : ℕ) (back : Vm) : Type 0 where
  pub same_frame : back.fp ≡ vm.sp + 1
  pub return_cp : back.stack (vm.sp + 1) ≡ ret
  pub caller_fp : back.stack (vm.sp + 2) ≡ cell_addr vm.fp
  pub caller_method : back.stack (vm.fp + 2) ≡ vm.stack (vm.fp + 2)
  pub same_params :
      load_u8 back.memory (vm.stack (vm.fp + 2)) ≡ load_u8 vm.memory (vm.stack (vm.fp + 2))
  pub same_locals :
      load_u8 back.memory (vm.stack (vm.fp + 2) + 1) ≡ load_u8 vm.memory (vm.stack (vm.fp + 2) + 1)

-- The caller's registers again, with the stack down to the height `sp`, and `back`'s memory.
abbrev pub resumed : Vm → ℕ → ℕ → Vm → Vm
resumed vm ret sp back = record back {
  sp = sp;
  cp = ret;
  fp = vm.fp;
  pp = vm.pp;
  lp = vm.lp;
  num_params = vm.num_params;
  num_locals = vm.num_locals;
}

link :
    (vm back : Vm) (ret : ℕ) → IsLeaving vm ret back → cell_index (back.stack (back.fp + 1)) ≡ vm.fp
link vm back ret l =
    let at : back.fp + 1 ≡ vm.sp + 2 = omega arith in
    let word : back.stack (back.fp + 1) ≡ 8 * vm.fp = ap back.stack at ∙ l.caller_fp in omega arith

restore_lem :
    (vm back : Vm) (ret sp : ℕ)
    → IsFrame vm
    → IsLeaving vm ret back
    → restore sp ret back ≡ resumed vm ret sp back
unfolding restore
restore_lem vm back ret sp f l = rw (
  link vm back ret l,
  l.caller_method,
  l.same_params,
  l.same_locals,
  f.params_at,
  f.locals_at,
  f.counts_params,
  f.counts_locals,
)

not_zero : (n : ℕ) → n ≢ 0 → (n == 0) ≡ false
not_zero n h = ground arith

-- A callee that leaves with its frame and its caller's intact (`IsLeaving`), whose caller's
-- registers described the caller's frame (`IsFrame`), gives the caller all its registers back, at
-- the return address, if that is not zero. The stack goes down to where the arguments began, and
-- the result stands there: a cell, a wide value in two cells, or nothing.
pub returns-resumed :
    (vm back : Vm) (ret : ℕ)
    → IsFrame vm
    → IsLeaving vm ret back
    → ret ≢ 0
    → let base = vm.sp + 1 - back.num_params in
      (return_pop back
        ≡ running (record (resumed vm ret base back) {
          stack = update back.stack base (back.stack back.sp);
        }))
      × (return_pop_wide back
          ≡ running (record (resumed vm ret (base + 1) back) {
            stack = update back.stack base (back.stack (back.sp - 1));
          }))
      × (return_void back ≡ running (resumed vm ret (base - 1) back))
unfolding return_pop return_pop_wide return_void
returns-resumed vm back ret f l h =
    let base = vm.sp + 1 - back.num_params in
    let cp : back.stack back.fp ≡ ret = ap back.stack l.same_frame ∙ l.return_cp in
    let high : back.fp - back.num_params ≡ base = omega arith in
    (
      rw (cp, not_zero ret h, high, restore_lem vm back ret base f l) refl,
      rw (cp, not_zero ret h, high, restore_lem vm back ret base f l) refl,
      rw (cp, not_zero ret h, high, restore_lem vm back ret (base - 1) f l) refl,
    )

enter-IsFrame : (addr : ℕ) (vm : Vm) → IsFrame (enter addr vm)
unfolding enter
enter-IsFrame addr vm = record {
  params_at = refl;
  locals_at = refl;
  counts_params = rw (==-self (vm.sp + 2));
  counts_locals = rw (==-self (vm.sp + 2));
}

enter-IsLeaving :
    (addr ret : ℕ) (vm : Vm) → vm.fp + 2 ≤ vm.sp → IsLeaving vm ret (enter addr (push_cell ret vm))
unfolding enter
enter-IsLeaving addr ret vm h = record {
  same_frame = refl;
  return_cp = ground arith;
  caller_fp = ground arith;
  caller_method = ground arith;
  same_params = refl;
  same_locals = refl;
}

-- If the caller's frame is below the top of the stack, both kinds of call of a method build a frame
-- from which a return can find its way back: the new registers describe the new frame, the words
-- that link it to its caller are in place, and the return address is that of the next instruction.
pub calls-IsFrame :
    (vm : Vm)
    → vm.fp + 2 ≤ vm.sp
    → (IsFrame (call_static vm) × IsLeaving vm (to_u64 (vm.cp + 3)) (call_static vm))
      × (IsFrame (call_virtual vm) × IsLeaving vm (to_u64 (vm.cp + 4)) (call_virtual vm))
unfolding call_static call_virtual
calls-IsFrame vm h = (
  (enter-IsFrame _ _, enter-IsLeaving _ (to_u64 (vm.cp + 3)) vm h),
  (enter-IsFrame _ _, enter-IsLeaving _ (to_u64 (vm.cp + 4)) vm h),
)
