-- ===== src/Tests/Threads.antt =====
-- The theorems on the machine with its debugger at concrete inputs.
use sedona_vm_debug.Base.{ℕ, ◌+◌, ◌≡◌, refl, arith, true, false, [], ◌∷◌, ◌++◌}
use sedona_vm_debug.Memory.{done}
use sedona_vm_debug.Vm.Frames.{is_vm_suspended}
use sedona_vm_debug.Vm.Opcode.{Opcode, decode, pointer_offset}
use sedona_vm_debug.Vm.Machine.{running}
use sedona_vm_debug.Vm.Loop.{run, exec}
use sedona_vm_debug.Vm.Exec.Values.{exec_literals}
use sedona_vm_debug.Jdwp.Events.{Events, can_dispatch_all, check_for_events, check_loop}
use sedona_vm_debug.Jdwp.Session.{Session}
use sedona_vm_debug.Jdwp.Machine.{
  guarding, System, machine_step, machine_steps, machine_round, phase_round, guard_round,
  wait_round, switch_round, check_events,
}
use sedona_vm_debug.Jdwp.Machine.Interleaving.{Reach, start, after, of_machine, of_debugger}
use sedona_vm_debug.Jdwp.Machine.Interleaving.Laws.{IsGuarded, Reach-run}
use sedona_vm_debug.Jdwp.Machine.Quiet.{IsQuiet}
use sedona_vm_debug.Jdwp.Machine.Laws.{
  at_guards, at_test, at_switch, machine_steps-resumes, machine_steps-held,
}
use sedona_vm_debug.Jdwp.Session.Laws.{error_reply}
use sedona_vm_debug.Jdwp.Command.{on_packet}
use sedona_vm_debug.Jdwp.Command.Laws.{on_packet-unknown}
use sedona_vm_debug.Tests.Machine.{machine, no_natives, whole_fpu}
use sedona_vm_debug.Tests.Debugger.{
  request, env, session, started, command, from_client, in_set, with_id,
}

-- A request that was reported.
abbrev settled : Events
settled = record started {
  queue = record (request 7 6) { triggered = false; isremoved = true } ∷ [];
}

settled-IsQuiet : IsQuiet (record (session settled) { suspend_count = 2 })
settled-IsQuiet = record { size_right = refl; settled = (refl, tt) }

machine_steps-resumes_example :
    machine_steps no_natives whole_fpu 1000 env
      (2 + 1)
      (at_test machine (record (session settled) { suspend_count = 2 }))
    ≡ done (at_switch machine (record (session settled) { suspend_count = 0 }))
unfolding can_dispatch_all
machine_steps-resumes_example =
    machine_steps-resumes no_natives whole_fpu 1000 env machine
      (record (session settled) { suspend_count = 2 }) (omega arith) settled-IsQuiet refl

abbrev held : Session
held = record (session (record started { hold_events = true })) { suspend_count = 1 }

held_back : can_dispatch_all held.events ≡ false
unfolding can_dispatch_all
held_back = refl

stopped : is_vm_suspended 1 ≡ true
unfolding is_vm_suspended
stopped = refl

machine_steps-held_example :
    machine_steps no_natives whole_fpu 1000 env 500 (at_test machine held)
    ≡ done (at_test machine held)
machine_steps-held_example =
    machine_steps-held no_natives whole_fpu 1000 env machine 500 held stopped held_back

-- The machine passes its guards and its test, a packet of the client comes, and the instruction runs.
abbrev passed : System
passed = at_test machine (session settled)

abbrev tested : System
tested = at_switch machine (session settled)

abbrev answered : Session
answered = record (session settled) {
  packet_error = record {
    contents = error_reply (0 ∷ 0 ∷ 0 ∷ 0 ∷ []) 5 0 99 ++ [];
    offset = 11;
    length = 11;
  };
  sent = [] ++ (error_reply (0 ∷ 0 ∷ 0 ∷ 0 ∷ []) 5 0 99 ∷ []);
}

passing :
    machine_step no_natives whole_fpu 1000 env (at_guards machine (session settled)) ≡ done passed
unfolding machine_step machine_round phase_round guard_round decode pointer_offset check_events
    check_for_events check_loop
passing = refl

testing : machine_step no_natives whole_fpu 1000 env passed ≡ done tested
unfolding machine_step machine_round phase_round wait_round is_vm_suspended
testing = refl

answering : on_packet 4 env (record (session settled) { command = command }) ≡ done answered
answering =
    on_packet-unknown 4 env (session settled) 64 5 0 0 0 0 0 0 0 0 0 0 0 [] refl from_client in_set
      with_id (omega arith)

running_on :
    machine_step no_natives whole_fpu 1000 env (at_switch machine answered)
    ≡ done (at_guards (record machine { cp = 101 }) answered)
unfolding machine_step machine_round phase_round switch_round decode exec exec_literals
running_on = refl

interleaved :
    Reach no_natives whole_fpu 1000 env
      (at_guards machine (session settled))
      (at_guards (record machine { cp = 101 }) answered)
interleaved =
    after
      (after (after (after start (of_machine passed passing)) (of_machine tested testing))
        (of_debugger 4 command answered answering))
      (of_machine (at_guards (record machine { cp = 101 }) answered) running_on)

Reach-run_example :
    (n : ℕ) × (run no_natives whole_fpu 1000 n (running machine)
      ≡ done (running (record machine { cp = 101 })))
    × IsGuarded 1000 guarding (running (record machine { cp = 101 }))
Reach-run_example =
    Reach-run no_natives whole_fpu 1000 env (running machine) (session settled)
      (at_guards (record machine { cp = 101 }) answered) interleaved

-- The composite event of a start of a thread.
abbrev reported_session : Session
reported_session = record (session settled) {
  suspend_count = 1;
  packet_id_unique = 2;
  sent =
      (0 ∷ 0 ∷ 0 ∷ 25 ∷ 0 ∷ 0 ∷ 0 ∷ 1 ∷ 0 ∷ 64 ∷ 100 ∷ 1 ∷ 0 ∷ 0 ∷ 0 ∷ 1 ∷ 6 ∷ 0 ∷ 0 ∷ 0 ∷ 7 ∷ 0 ∷ 0
        ∷ 0 ∷ 1 ∷ [])
      ∷ [];
}
