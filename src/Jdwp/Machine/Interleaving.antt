-- ===== src/Jdwp/Machine/Interleaving.antt =====
-- svm/vm.c and jdwp/mainHandler.c: the thread of the machine and the debugger's, in any order. One
-- step is a phase of a round of `vmCallDebug`, the other a whole packet of the client.
pub mod Laws
use sedona_vm_debug.Base.{ℕ, ◌≡◌}
use sedona_vm_debug.Memory.{done}
use sedona_vm_debug.Packet.Buffer.{Packet}
use sedona_vm_debug.Vm.Exec.Arith.{Fpu}
use sedona_vm_debug.Vm.Exec.Calls.{Natives}
use sedona_vm_debug.Jdwp.Session.{Env, Session}
use sedona_vm_debug.Jdwp.Command.{on_packet}
use sedona_vm_debug.Jdwp.Machine.{System, machine_step}

module _ (natives : Natives) (fpu : Fpu) (max_stack : ℕ) (env : Env) where
  pub data Move (x : System) : System → Type 0 where
    of_machine : (y : System) → machine_step natives fpu max_stack env x ≡ done y → Move x y
    of_debugger :
        (calls : ℕ) (p : Packet) (s : Session)
        → on_packet calls env (record x.session { command = p }) ≡ done s
        → Move x (record x { session = s })

  -- What a system comes to.
  pub data Reach (x : System) : System → Type 0 where
    start : Reach x x
    after : {y z : System} → Reach x y → Move y z → Reach x z
