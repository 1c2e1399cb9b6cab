-- ===== src/Jdwp/Machine/Laws.antt =====
-- svm/vm.c, `vmCallDebug` with its debugger: how long the machine waits.
use sedona_vm_debug.Base.{ℕ, zero, suc, ◌+◌, ◌%◌, ◌<◌, ◌≡◌, refl, arith, true, false}
use sedona_vm_debug.Jdwp.Machine.Quiet.{IsQuiet, dispatch_all-quiet}
use sedona_vm_debug.Memory.{done}
use sedona_vm_debug.Vm.Machine.{Vm, running}
use sedona_vm_debug.Vm.Exec.Arith.{Fpu}
use sedona_vm_debug.Vm.Exec.Calls.{Natives}
use sedona_vm_debug.Vm.Frames.{is_vm_suspended, on_vm_resume}
use sedona_vm_debug.Jdwp.Events.{can_dispatch_all}
use sedona_vm_debug.Jdwp.Session.{Env, Session, vm_resume}
use sedona_vm_debug.Jdwp.Dispatch.{dispatch_all}
use sedona_vm_debug.Jdwp.Machine.{
  guarding, waiting, executing, System, wait_round, machine_step, machine_steps, machine_round,
  phase_round,
}

-- A running machine before its guards, before the test of its counter, and before the switch.
abbrev pub at_guards : Vm → Session → System
at_guards vm s = record { machine = running vm; phase = guarding; session = s }

abbrev pub at_test : Vm → Session → System
at_test vm s = record { machine = running vm; phase = waiting; session = s }

abbrev pub at_switch : Vm → Session → System
at_switch vm s = record { machine = running vm; phase = executing; session = s }

suspended_above : (c n : ℕ) → n ≡ suc c → is_vm_suspended n ≡ true
unfolding is_vm_suspended
suspended_above c n e = ground arith

module _ (natives : Natives) (fpu : Fpu) (max_stack : ℕ) (env : Env) (vm : Vm) where
  test_once :
      (c : ℕ) (s : Session)
      → c < 255
      → s.suspend_count ≡ suc c
      → can_dispatch_all s.events ≡ true
      → (s₁ : Session) → dispatch_all env s ≡ done s₁
      → s₁.suspend_count ≡ suc c
      → machine_step natives fpu max_stack env (at_test vm s)
        ≡ done (at_test vm (record s₁ { suspend_count = c }))
  unfolding machine_step machine_round phase_round wait_round vm_resume on_vm_resume
  test_once c s small count free s₁ sent count₁ =
      let suspended = suspended_above c s.suspend_count count in
      let less : (s₁.suspend_count + 255) % 256 ≡ c = omega arith in
      rw (suspended, free, sent, less) refl

  go_on :
      (s : Session)
      → machine_step natives fpu max_stack env (at_test vm (record s { suspend_count = 0 }))
        ≡ done (at_switch vm (record s { suspend_count = 0 }))
  unfolding machine_step machine_round phase_round wait_round is_vm_suspended
  go_on s = refl

  wait_count :
      (c : ℕ) (s : Session)
      → c < 256
      → IsQuiet s
      → can_dispatch_all s.events ≡ true
      → machine_steps natives fpu max_stack env
          (suc c)
          (at_test vm (record s { suspend_count = c }))
        ≡ done (at_switch vm (record s { suspend_count = 0 }))
  unfolding machine_steps
  wait_count zero s small q free =
      let there : machine_step natives fpu max_stack env
            (at_test vm (record s { suspend_count = 0 }))
          ≡ done (at_switch vm (record s { suspend_count = 0 })) =
        go_on s in
      rw there refl
  wait_count (suc c) s small q free =
      let now : Session = record s { suspend_count = suc c } in
      let sent : dispatch_all env now ≡ done now =
        dispatch_all-quiet env now (record { size_right = q.size_right; settled = q.settled }) in
      rw (test_once c now (omega arith) refl free now sent refl)
        (wait_count c s (omega arith) q free)

  held_once :
      (s : Session)
      → is_vm_suspended s.suspend_count ≡ true
      → can_dispatch_all s.events ≡ false
      → machine_step natives fpu max_stack env (at_test vm s) ≡ done (at_test vm s)
  unfolding machine_step machine_round phase_round wait_round
  held_once s suspended held = rw (suspended, held) refl

add_one : (n : ℕ) → n + 1 ≡ suc n
add_one n = omega arith

-- A suspended machine waits as many tests as its counter says and one, and goes on, its counter at
-- zero and nothing sent, whoever suspended it: if no request is to be reported, events are not
-- held, the size of the list of requests is right and the counter is a `u1`.
pub machine_steps-resumes :
    (natives : Natives) (fpu : Fpu) (max_stack : ℕ) (env : Env) (vm : Vm) (s : Session)
    → s.suspend_count < 256
    → IsQuiet s
    → can_dispatch_all s.events ≡ true
    → machine_steps natives fpu max_stack env (s.suspend_count + 1) (at_test vm s)
      ≡ done (at_switch vm (record s { suspend_count = 0 }))
machine_steps-resumes natives fpu max_stack env vm s small q free =
    rw (add_one s.suspend_count)
      (wait_count natives fpu max_stack env vm s.suspend_count s small q free)

-- While events are held a suspended machine stays as it is, however often it tests, and so does the
-- session.
pub machine_steps-held :
    (natives : Natives) (fpu : Fpu) (max_stack : ℕ) (env : Env) (vm : Vm) (k : ℕ) (s : Session)
    → is_vm_suspended s.suspend_count ≡ true
    → can_dispatch_all s.events ≡ false
    → machine_steps natives fpu max_stack env k (at_test vm s) ≡ done (at_test vm s)
unfolding machine_steps
machine_steps-held natives fpu max_stack env vm zero s suspended held = refl
machine_steps-held natives fpu max_stack env vm (suc k) s suspended held =
    rw (held_once natives fpu max_stack env vm s suspended held)
      (machine_steps-held natives fpu max_stack env vm k s suspended held)
