-- ===== src/Jdwp/Command/Shared.antt =====
-- jdwp/mainHandler.c: what the command handlers share.
use sedona_vm_debug.Base.{ℕ, ◌+◌, List, [], ◌∷◌, Option, none, some, ◌==◌, if◌then◌else◌}
use sedona_vm_debug.Memory.{◌>>=◌, Outcome, to_size}
use sedona_vm_debug.Packet.Buffer.{write_u4}
use sedona_vm_debug.Packet.Ids.{int_size}
use sedona_vm_debug.Packet.Chain.{PacketList, get_byte_size, write_list}
use sedona_vm_debug.Jdwp.Session.{Env, Session, jdwp_send, jdwp_send_error, new_reply}

abbrev pub Handler : Type 0
Handler = Env → Session → Outcome Session

-- A switch over the commands of a set.
abbrev pub switch {ℓ} : {A : Type ℓ} → ℕ → List (ℕ × A) → A → A
switch command [] default = default
switch command ((c, handler) ∷ cases) default =
    if command == c then handler else switch command cases default

-- A pointer that is tested for NULL, which an error answers.
abbrev pub or_error {ℓ} :
    {A : Type ℓ} → ℕ → Option A → Session → (A → Outcome Session) → Outcome Session
or_error errorcode none s f = jdwp_send_error errorcode s
or_error errorcode (some a) s f = f a

-- A reply of one number, and one of a list of packets behind its count.
unfoldable pub send_u4 : ℕ → Handler
send_u4 v env s = do p ← new_reply env s int_size; p ← write_u4 env.mem p v; jdwp_send p s

unfoldable pub send_list : ℕ → PacketList → Handler
send_list n plist env s = do
  bytes ← get_byte_size plist
  p ← new_reply env s (to_size (bytes + int_size))
  p ← write_u4 env.mem p n
  p ← write_list env.mem p plist
  jdwp_send p s
