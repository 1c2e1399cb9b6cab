-- ===== src/Jdwp/Machine.antt =====
-- svm/vm.c, `vmCallDebug` with its debugger: the entry, and the loop with the queue of events that a
-- round serves between its guards and its instruction; jdwp/mainHandler.c: the events of an error.
pub mod Quiet
pub mod Laws
pub mod Interleaving
use sedona_vm_debug.Base.{ℕ, zero, suc, List, [], ◌∷◌, Option, none, some, ◌==◌, leb, if◌then◌else◌}
use sedona_vm_debug.Memory.{◌>>=◌, Outcome, done, undefined}
use sedona_vm_debug.Vm.Word.{load_u8}
use sedona_vm_debug.Vm.Opcode.{Opcode, decode, pointer_offset}
use sedona_vm_debug.Vm.Machine.{Vm, Step, running, returned}
use sedona_vm_debug.Vm.Exec.Arith.{Fpu}
use sedona_vm_debug.Vm.Exec.Calls.{Natives}
use sedona_vm_debug.Vm.Loop.{exec, is_null_at, err_null_pointer, err_stack_overflow}
use sedona_vm_debug.Vm.Init.{vm_call}
use sedona_vm_debug.Vm.Frames.{is_vm_suspended, add_frame, new_location, get_frames}
use sedona_vm_debug.Jdwp.Types.{findref_byclassname, get_start_ref, non_null}
use sedona_vm_debug.Jdwp.Events.{
  exception_only, exception, sp_all, new_event_request, check_for_events, can_dispatch_all,
}
use sedona_vm_debug.Jdwp.Session.{Env, Session, vm_suspend, vm_resume}
use sedona_vm_debug.Jdwp.Dispatch.{dispatch_event, dispatch_all}

-- Where the thread of the machine stands in a round: before the guards, at the test of
-- `while(isVM_Suspended())`, or before the switch.
pub data Phase : Type 0 where
  guarding waiting executing : Phase

-- The two threads share the session; the registers are the machine's own.
pub record System : Type 0 where
  pub machine : Step
  pub phase : Phase
  pub session : Session

-- "java.lang.Error".
abbrev pub java_lang_error : List ℕ
java_lang_error =
    106 ∷ 97 ∷ 118 ∷ 97 ∷ 46 ∷ 108 ∷ 97 ∷ 110 ∷ 103 ∷ 46 ∷ 69 ∷ 114 ∷ 114 ∷ 111 ∷ 114 ∷ []

-- `onStackOverFlow` and `onNullPointerException`, which do the same. The number of modifiers is what
-- the fresh request holds; the members of the modifier that are not stored are never read.
unfoldable pub on_exception_event : Env → Session → Outcome Session
on_exception_event env s = do
  let (e, events) = new_event_request env.blank s.events
  found ← findref_byclassname s.types java_lang_error
  t ← non_null found
  dispatch_event env
      (record e {
        request_id = 0;
        event_kind = exception;
        suspend_policy = sp_all;
        mods = exception_only t.ref_clazzid 0 0 ∷ [];
      })
      (record s { events = events })

-- `handleNullPointer` and `handleStackOverflow`: the event, then the error.
unfoldable pub handle_error : Env → ℕ → Vm → Session → Outcome System
handle_error env err vm s = do
  s ← on_exception_event env s
  done (record { machine = returned err vm; phase = guarding; session = s })

-- `check_forEvents`.
unfoldable pub check_events : Session → Outcome Session
check_events s = do pending ← check_for_events s.events; done (if pending then vm_suspend s else s)

-- A round up to the test of the suspension counter.
unfoldable pub guard_round : Env → ℕ → Vm → Session → Option Opcode → Outcome System
guard_round env max_stack vm s none = undefined
guard_round env max_stack vm s (some op) =
    if is_null_at (pointer_offset op) vm
    then handle_error env err_null_pointer vm s
    else if leb max_stack vm.sp
    then handle_error env err_stack_overflow vm s
    else (do
      s ← check_events s
      done (record { machine = running vm; phase = waiting; session = s }))

-- `while(isVM_Suspended())`: a test and the body, whose own loop sleeps while events are held.
unfoldable pub wait_round : Env → Vm → Session → Outcome System
wait_round env vm s =
    if is_vm_suspended s.suspend_count
    then (if can_dispatch_all s.events
        then (do
          s ← dispatch_all env s
          done (record { machine = running vm; phase = waiting; session = vm_resume s }))
        else done (record { machine = running vm; phase = waiting; session = s }))
    else done (record { machine = running vm; phase = executing; session = s })

-- The switch. A byte past the opcodes has not come past the guards.
unfoldable pub switch_round : Natives → Fpu → Vm → Session → Option Opcode → Outcome System
switch_round natives fpu vm s none = undefined
switch_round natives fpu vm s (some op) = do
  next ← exec natives fpu op vm
  done (record { machine = next; phase = guarding; session = s })

unfoldable pub phase_round : Natives → Fpu → ℕ → Env → Phase → Vm → Session → Outcome System
phase_round natives fpu max_stack env guarding vm s =
    guard_round env max_stack vm s (decode (load_u8 vm.memory vm.cp))
phase_round natives fpu max_stack env waiting vm s = wait_round env vm s
phase_round natives fpu max_stack env executing vm s =
    switch_round natives fpu vm s (decode (load_u8 vm.memory vm.cp))

-- What the thread of the machine does next. When `vmCallDebug` has returned there is nothing left.
unfoldable pub machine_round : Natives → Fpu → ℕ → Env → Phase → Session → Step → Outcome System
machine_round natives fpu max_stack env phase s (running vm) =
    phase_round natives fpu max_stack env phase vm s
machine_round natives fpu max_stack env phase s (returned v vm) =
    done (record { machine = returned v vm; phase = phase; session = s })

unfoldable pub machine_step : Natives → Fpu → ℕ → Env → System → Outcome System
machine_step natives fpu max_stack env x =
    machine_round natives fpu max_stack env x.phase x.session x.machine

-- A number of steps of that thread, while the debugger's own does nothing.
unfoldable pub machine_steps : Natives → Fpu → ℕ → Env → ℕ → System → Outcome System
machine_steps natives fpu max_stack env zero x = done x
machine_steps natives fpu max_stack env (suc k) x =
    machine_step natives fpu max_stack env x >>= machine_steps natives fpu max_stack env k

abbrev pub tag_class_object : ℕ
tag_class_object = 99

-- The first call makes a frame for the debugger, at a location in the main class.
unfoldable pub note_frame : ℕ → ℕ → Session → Outcome Session
note_frame methodid fp s =
    if get_frames s.frames == 0
    then (do
      main_class ← non_null (get_start_ref s.types)
      done (record s {
        frames = add_frame fp (new_location tag_class_object main_class methodid 0) s.frames;
      }))
    else done s

abbrev pub note_entry : ℕ → Session → Step → Outcome System
note_entry methodid s (running vm) = do
  s ← note_frame methodid vm.fp s
  done (record { machine = running vm; phase = guarding; session = s })
note_entry methodid s (returned v vm) =
    done (record { machine = returned v vm; phase = guarding; session = s })

-- `vmCallDebug` up to its loop.
unfoldable pub vm_call_debug : ℕ → List ℕ → Vm → Session → Outcome System
vm_call_debug methodid args vm s = note_entry methodid s (vm_call methodid args vm)
