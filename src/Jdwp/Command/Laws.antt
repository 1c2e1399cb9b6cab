-- ===== src/Jdwp/Command/Laws.antt =====
-- jdwp/mainHandler.c: commands that no case answers, and the buffer of the payload.
use sedona_vm_debug.Base.{
  ℕ, zero, suc, ◌-◌, ◌<◌, ◌≡◌, refl, arith, ap, ◌∙◌, true, false, List, [], ◌∷◌, ◌++◌, length, take,
  drop, some, ◌==◌, ltb-false, lt→ltb, le→leb, leb-false, take-all, drop-all, Option-cases, inl,
  inr,
}
use sedona_vm_debug.Memory.{done, undefined, Allocator, block}
use sedona_vm_debug.Packet.Buffer.{read_u4_buff}
use sedona_vm_debug.Packet.Header.{read_id, read_commandset, is_packet_reply}
use mathlib.Core.List.{append-nil}
use sedona_vm_debug.Base.{All}
use sedona_vm_debug.Jdwp.Command.Shared.{Handler, switch}
use sedona_vm_debug.Jdwp.Session.{Env, Session, jdwp_send_not_implemented}
use sedona_vm_debug.Jdwp.Session.Laws.{error_reply, jdwp_send_error-error_reply}
use sedona_vm_debug.Jdwp.Command.{
  command_sets, on_cs_unknown, on_command, on_packet, Stream, read_stream, receive_round,
  receive_loop, on_receive,
}

-- A switch on a number past its cases takes the default.
switch-default {ℓ} :
    {A : Type ℓ} (set : ℕ) (cases : List (ℕ × A)) (default : A)
    → All (λ entry. entry.0 < set) cases
    → switch set cases default ≡ default
switch-default set [] default h = refl
switch-default set ((c, handler) ∷ cases) default (h, hs) =
    let other : (set == c) ≡ false = ground arith in rw other (switch-default set cases default hs)

on_command-unknown :
    (calls : ℕ) (env : Env) (s : Session) (set : ℕ)
    → read_commandset s.command ≡ done set
    → 17 < set
    → on_command calls env s ≡ on_cs_unknown env s
unfolding on_command
on_command-unknown calls env s set read beyond =
    let cases : All (λ entry. entry.0 < set) (command_sets calls) = (
      omega arith,
      (
        omega arith,
        (
          omega arith,
          (
            omega arith,
            (
              omega arith,
              (
                omega arith,
                (
                  omega arith,
                  (
                    omega arith,
                    (
                      omega arith,
                      (
                        omega arith,
                        (
                          omega arith,
                          (
                            omega arith,
                            (omega arith, (omega arith, (omega arith, (omega arith, tt)))),
                          ),
                        ),
                      ),
                    ),
                  ),
                ),
              ),
            ),
          ),
        ),
      ),
    ) in
    let default = switch-default set (command_sets calls) on_cs_unknown cases in
    rw read (ap (λ (h : Handler). h env s) default)

-- A command of a command set above 17 is answered by one packet of eleven bytes with the command's
-- identifier and the error 99, whose first four bytes, the length, are what stood in the packet for
-- errors, which has a header's bytes; nothing else of the session changes but that packet.
pub on_packet-unknown :
    (calls : ℕ) (env : Env) (s : Session) (set id l₀ l₁ l₂ l₃ i₀ i₁ i₂ i₃ flags e₀ e₁ : ℕ)
    (rest : List ℕ)
    → s.packet_error.contents ≡ l₀ ∷ l₁ ∷ l₂ ∷ l₃ ∷ i₀ ∷ i₁ ∷ i₂ ∷ i₃ ∷ flags ∷ e₀ ∷ e₁ ∷ rest
    → is_packet_reply s.command ≡ done false
    → read_commandset s.command ≡ done set
    → read_id s.command ≡ done id
    → 17 < set
    → on_packet calls env s
      ≡ done (record s {
        packet_error = record s.packet_error {
          contents = error_reply (l₀ ∷ l₁ ∷ l₂ ∷ l₃ ∷ []) id flags 99 ++ rest;
        };
        sent = s.sent ++ (error_reply (l₀ ∷ l₁ ∷ l₂ ∷ l₃ ∷ []) id flags 99 ∷ []);
      })
unfolding on_packet on_cs_unknown jdwp_send_not_implemented
on_packet-unknown calls env s set id l₀ l₁ l₂ l₃ i₀ i₁ i₂ i₃ flags e₀ e₁ rest at command read here
      beyond =
    rw (command, on_command-unknown calls env s set read beyond)
      (jdwp_send_error-error_reply s 99 id l₀ l₁ l₂ l₃ i₀ i₁ i₂ i₃ flags e₀ e₁ rest at here)

-- A buffer that `malloc` gives has the bytes that were asked for.
read_stream-whole :
    (buff bytes : List ℕ) (b : ℕ) (stream : Stream)
    → length buff ≡ suc (length bytes)
    → read_stream (suc (length bytes)) buff ((b ∷ bytes) ∷ stream) ≡ done (b ∷ bytes, stream)
unfolding read_stream
read_stream-whole buff bytes b stream size =
    let got = take-all bytes in
    let room = le→leb (suc (length bytes)) (length buff) (omega arith) in
    let none_left : drop (suc (length (take (length bytes) bytes))) buff ≡ [] =
      drop-all (suc (length (take (length bytes) bytes))) buff (omega (arith, ap length got)) in
    let whole = ap (λ bs. bytes ++ bs) none_left ∙ append-nil bytes in
    rw (got, room) (ap (λ bs. done (b ∷ bs, stream)) whole)

read_stream-none :
    (n b : ℕ) (bytes : List ℕ) (stream : Stream)
    → 0 < n
    → read_stream n [] ((b ∷ bytes) ∷ stream) ≡ undefined
unfolding read_stream
read_stream-none zero b bytes stream h = absurd (omega arith)
read_stream-none (suc n) b bytes stream h =
    rw (leb-false (suc (length (take n bytes))) 0 (omega arith)) refl

-- A block of no bytes, or NULL.
empty-block : (mem : Allocator) → block (mem.malloc 0) ≡ []
empty-block mem = elim (Option-cases (mem.malloc 0)) [
  | inl null ↦ ap block null
  | inr (b, got) ↦ ap block got ∙ nothing b (mem.malloc_size 0 b got)
]
  where
    nothing : (b : List ℕ) → length b ≡ 0 → b ≡ []
    nothing [] h = refl
    nothing (x ∷ b) h = absurd (omega arith)

receive_round-payload :
    (calls : ℕ) (env : Env) (buff hs bytes : List ℕ) (h b plen : ℕ) (stream : Stream) (s : Session)
    → length buff ≡ suc (length hs)
    → length hs ≡ 10
    → read_u4_buff (h ∷ hs) ≡ done plen
    → 11 < plen
    → receive_round calls env
        (record { mheader = buff; mpayload = []; mbuff_size = 0 })
        ((h ∷ hs) ∷ (b ∷ bytes) ∷ stream)
        s
      ≡ undefined
unfolding receive_round
receive_round-payload calls env buff hs bytes h b plen stream s size ten read more =
    let whole : read_stream 11 buff ((h ∷ hs) ∷ (b ∷ bytes) ∷ stream)
        ≡ done (h ∷ hs, (b ∷ bytes) ∷ stream) =
      rw ten at (read_stream-whole buff hs h ((b ∷ bytes) ∷ stream) size) in
    let past : read_stream (plen - 11) [] ((b ∷ bytes) ∷ stream) ≡ undefined =
      read_stream-none (plen - 11) b bytes stream (omega arith) in
    rw (whole, read, ltb-false plen 11 (omega arith), lt→ltb 11 plen more, past) refl

-- A first packet that is longer than a header, and comes with a byte of payload, makes `onReceive`
-- run into undefined behaviour, whatever it holds. `malloc` grants the header, which comes in one
-- piece.
pub on_receive-undefined :
    (rounds calls : ℕ) (env : Env) (buff hs bytes : List ℕ) (h b plen : ℕ) (stream : Stream)
    (s : Session)
    → env.mem.malloc 11 ≡ some buff
    → length hs ≡ 10
    → read_u4_buff (h ∷ hs) ≡ done plen
    → 11 < plen
    → on_receive (suc rounds) calls env ((h ∷ hs) ∷ (b ∷ bytes) ∷ stream) s ≡ undefined
unfolding on_receive receive_loop
on_receive-undefined rounds calls env buff hs bytes h b plen stream s got ten read more =
    let size = env.mem.malloc_size 11 buff got in
    rw
      (
        got,
        empty-block env.mem,
        receive_round-payload calls env buff hs bytes h b plen stream
            (record s { init_jdwp = true }) (omega arith) ten read more,
      )
      refl
