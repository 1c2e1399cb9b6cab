-- ===== src/Jdwp/Machine/Interleaving/Laws.antt =====
-- svm/vm.c and jdwp/mainHandler.c: what holds of the machine however the debugger interferes.
use sedona_vm_debug.Base.{
  ℕ, zero, suc, ◌≡◌, refl, false, Option, none, some, leb, Bool-cases, inl, inr,
}
use sedona_vm_debug.Base.{ap, ◌∙◌}
use mathlib.Core.Path.{subst}
use sedona_vm_debug.Memory.{
  Outcome, done, exits, undefined, out_of_fuel, ◌>>=◌, Yields, Yields-after,
}
use sedona_vm_debug.Vm.Frames.{is_vm_suspended}
use sedona_vm_debug.Jdwp.Events.{can_dispatch_all}
use sedona_vm_debug.Jdwp.Dispatch.{dispatch_all}
use sedona_vm_debug.Jdwp.Machine.{on_exception_event}
use sedona_vm_debug.Vm.Word.{load_u8}
use sedona_vm_debug.Vm.Opcode.{Opcode, decode, pointer_offset}
use sedona_vm_debug.Vm.Machine.{Vm, Step, running, returned}
use sedona_vm_debug.Vm.Exec.Arith.{Fpu}
use sedona_vm_debug.Vm.Exec.Calls.{Natives}
use sedona_vm_debug.Vm.Loop.{exec, guarded, guarded_byte, step, run, is_null_at}
use sedona_vm_debug.Jdwp.Session.{Env, Session}
use sedona_vm_debug.Jdwp.Machine.{
  Phase, guarding, waiting, executing, System, handle_error, check_events, guard_round, wait_round,
  switch_round, phase_round, machine_round, machine_step,
}
use sedona_vm_debug.Jdwp.Machine.Interleaving.{Move, of_machine, of_debugger, Reach, start, after}

-- The instruction at the code pointer would pass the guards.
pub data Passes (max_stack : ℕ) (vm : Vm) : Type 0 where
  passes :
      (op : Opcode)
      → decode (load_u8 vm.memory vm.cp) ≡ some op
      → is_null_at (pointer_offset op) vm ≡ false
      → leb max_stack vm.sp ≡ false
      → Passes max_stack vm

-- Behind the guards the instruction has passed them.
unfoldable pub IsGuarded : ℕ → Phase → Step → Type 0
IsGuarded max_stack guarding s = Unit
IsGuarded max_stack waiting (running vm) = Passes max_stack vm
IsGuarded max_stack executing (running vm) = Passes max_stack vm
IsGuarded max_stack waiting (returned v vm) = Unit
IsGuarded max_stack executing (returned v vm) = Unit

-- A call that began as `first` is where a number of rounds of the loop without a debugger lead.
pub data Tracks (natives : Natives) (fpu : Fpu) (max_stack : ℕ) (first : Step) (x : System)
    : Type 0 where
  tracks :
      (rounds : ℕ)
      → run natives fpu max_stack rounds first ≡ done x.machine
      → IsGuarded max_stack x.phase x.machine
      → Tracks natives fpu max_stack first x

module _ (natives : Natives) (fpu : Fpu) (max_stack : ℕ) where
  run-zero : (r : Outcome Step) → (r >>= run natives fpu max_stack 0) ≡ r
  unfolding run
  run-zero (done s) = refl
  run-zero exits = refl
  run-zero undefined = refl
  run-zero out_of_fuel = refl

  bind-next :
      (n : ℕ) (vm : Vm) (r : Outcome Step)
      → ((s : Step)
          → run natives fpu max_stack n s ≡ done (running vm)
          → run natives fpu max_stack (suc n) s ≡ step natives fpu max_stack vm)
      → (r >>= run natives fpu max_stack n) ≡ done (running vm)
      → (r >>= run natives fpu max_stack (suc n)) ≡ step natives fpu max_stack vm
  bind-next n vm (done s) ih e = ih s e
  bind-next n vm exits ih e = absurd cc
  bind-next n vm undefined ih e = absurd cc
  bind-next n vm out_of_fuel ih e = absurd cc

  -- One more round is a round after the others.
  pub run-next :
      (n : ℕ) (s : Step) (vm : Vm)
      → run natives fpu max_stack n s ≡ done (running vm)
      → run natives fpu max_stack (suc n) s ≡ step natives fpu max_stack vm
  unfolding run
  run-next zero (running v) vm e =
      let same : v ≡ vm = cc in rw same (run-zero (step natives fpu max_stack vm))
  run-next zero (returned v at) vm e = absurd cc
  run-next (suc n) (running v) vm e =
      bind-next n vm (step natives fpu max_stack v) (λ s. run-next n s vm) e
  run-next (suc n) (returned v at) vm e = absurd cc

module _ (natives : Natives) (fpu : Fpu) (max_stack : ℕ) (env : Env) (first : Step) where
  guard_round-Tracks :
      (n : ℕ) (vm : Vm) (s : Session) (op : Option Opcode)
      → decode (load_u8 vm.memory vm.cp) ≡ op
      → run natives fpu max_stack n first ≡ done (running vm)
      → Yields (Tracks natives fpu max_stack first) (guard_round env max_stack vm s op)
  unfolding guard_round handle_error step guarded IsGuarded
  guard_round-Tracks n vm s none at ran = tt
  guard_round-Tracks n vm s (some op) at ran =
      let once : run natives fpu max_stack (suc n) first ≡ guarded natives fpu max_stack op vm =
        run-next natives fpu max_stack n first vm ran
        ∙ ap (λ o. guarded_byte natives fpu max_stack o vm) at in
      elim (Bool-cases (is_null_at (pointer_offset op) vm)) [
        | inl null ↦ rw null (
            Yields-after _ (on_exception_event env s) _
              (λ a. tracks (suc n) (once ∙ rw null refl) (tt)))
        | inr there ↦ elim (Bool-cases (leb max_stack vm.sp)) [
          | inl full ↦
              rw (there, full)
                (Yields-after _ (on_exception_event env s) _
                  (λ a. tracks (suc n) (once ∙ rw (there, full) refl) (tt)))
          | inr room ↦
              rw (there, room)
                (Yields-after _ (check_events s) _
                  (λ a. tracks (n) (ran) (passes op at there room)))
        ]
      ]

  wait_round-Tracks :
      (n : ℕ) (vm : Vm) (s : Session)
      → Passes max_stack vm
      → run natives fpu max_stack n first ≡ done (running vm)
      → Yields (Tracks natives fpu max_stack first) (wait_round env vm s)
  unfolding wait_round IsGuarded
  wait_round-Tracks n vm s passed ran = elim (Bool-cases (is_vm_suspended s.suspend_count)) [
    | inr free ↦ rw free (tracks (n) (ran) (passed))
    | inl suspended ↦ elim (Bool-cases (can_dispatch_all s.events)) [
      | inr held ↦ rw (suspended, held) (tracks (n) (ran) (passed))
      | inl free ↦
          rw (suspended, free)
            (Yields-after _ (dispatch_all env s) _ (λ a. tracks (n) (ran) (passed)))
    ]
  ]

  switched-Tracks :
      (n : ℕ) (s : Session) (r : Outcome Step)
      → run natives fpu max_stack n first ≡ r
      → Yields
          (Tracks natives fpu max_stack first)
          (r >>= λ next. done (record { machine = next; phase = guarding; session = s }))
  unfolding IsGuarded
  switched-Tracks n s (done next) once = tracks n once tt
  switched-Tracks n s exits once = tt
  switched-Tracks n s undefined once = tt
  switched-Tracks n s out_of_fuel once = tt

  switch_round-Tracks :
      (n : ℕ) (vm : Vm) (s : Session)
      → Passes max_stack vm
      → run natives fpu max_stack n first ≡ done (running vm)
      → Yields
          (Tracks natives fpu max_stack first)
          (switch_round natives fpu vm s (decode (load_u8 vm.memory vm.cp)))
  unfolding switch_round step guarded IsGuarded
  switch_round-Tracks n vm s (passes op at there room) ran =
      let once : run natives fpu max_stack (suc n) first ≡ exec natives fpu op vm =
        run-next natives fpu max_stack n first vm ran ∙ rw (at, there, room) refl in
      rw at (switched-Tracks (suc n) s (exec natives fpu op vm) once)

  machine_round-Tracks :
      (n : ℕ) (phase : Phase) (s : Session) (m : Step)
      → run natives fpu max_stack n first ≡ done m
      → IsGuarded max_stack phase m
      → Yields
          (Tracks natives fpu max_stack first)
          (machine_round natives fpu max_stack env phase s m)
  unfolding machine_round phase_round IsGuarded
  machine_round-Tracks n guarding s (running vm) ran g =
      guard_round-Tracks n vm s (decode (load_u8 vm.memory vm.cp)) refl ran
  machine_round-Tracks n waiting s (running vm) ran g = wait_round-Tracks n vm s g ran
  machine_round-Tracks n executing s (running vm) ran g = switch_round-Tracks n vm s g ran
  machine_round-Tracks n phase s (returned v vm) ran g = tracks n ran g

  Move-Tracks :
      (x y : System)
      → Tracks natives fpu max_stack first x
      → Move natives fpu max_stack env x y
      → Tracks natives fpu max_stack first y
  unfolding machine_step
  Move-Tracks x _ (tracks n ran g) (of_machine y e) =
      subst (Yields (Tracks natives fpu max_stack first)) e
        (machine_round-Tracks n x.phase x.session x.machine ran g)
  Move-Tracks x _ (tracks n ran g) (of_debugger calls p s e) = tracks n ran g

  Reach-Tracks :
      (x y : System)
      → Tracks natives fpu max_stack first x
      → Reach natives fpu max_stack env x y
      → Tracks natives fpu max_stack first y
  Reach-Tracks x _ t start = t
  Reach-Tracks x _ t (after {y} {z} r m) = Move-Tracks y z (Reach-Tracks x y t r) m

-- However the client's packets come between the phases of the machine's thread: the machine is one
-- that a number of rounds of the loop without the debugger lead to from where the call began, and
-- the instruction between the guards and the switch has passed the guards, at the stack's height
-- and with the pointer that it has then.
pub Reach-run :
    (natives : Natives) (fpu : Fpu) (max_stack : ℕ) (env : Env) (first : Step) (s : Session)
    (x : System)
    → Reach natives fpu max_stack env (record { machine = first; phase = guarding; session = s }) x
    → (n : ℕ) × (run natives fpu max_stack n first ≡ done x.machine)
      × IsGuarded max_stack x.phase x.machine
unfolding IsGuarded run
Reach-run natives fpu max_stack env first s x r =
    elim (Reach-Tracks natives fpu max_stack env first
      (record { machine = first; phase = guarding; session = s }) x (tracks 0 refl tt) r) [
        | tracks n ran g ↦ (n, ran, g)
      ]
