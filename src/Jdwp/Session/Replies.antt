-- ===== src/Jdwp/Session/Replies.antt =====
-- jdwp/mainHandler.c: replies, byte by byte.
use sedona_vm_debug.Base.{
  ℕ, zero, suc, ◌+◌, ◌*◌, ◌^◌, ◌<◌, ◌≡◌, refl, sym, ap, ◌∙◌, arith, List, [], ◌∷◌, ◌++◌, some,
  length, take, drop, big_endian4,
}
use sedona_vm_debug.Memory.{Outcome, done, exits, Allocator, ◌>>=◌}
use mathlib.Core.Path.{subst}
use sedona_vm_debug.Packet.Buffer.{Packet}
use sedona_vm_debug.Packet.Header.{read_id}
use sedona_vm_debug.Packet.Header.Laws.{new_reply_packet-IsReply}
use sedona_vm_debug.Packet.Append.{
  IsValid, Appends, appended, out_of_memory, Extends, written, Refused, Refused-weaken,
}
use sedona_vm_debug.Jdwp.Session.{Env, Session, jdwp_send, new_reply}
use sedona_vm_debug.Jdwp.Session.Laws.{send_contents}

-- A reply without error to the command `id`: its length, the identifier, the flag of replies, the
-- error code zero, and the data.
abbrev pub reply_bytes : ℕ → List ℕ → List ℕ
reply_bytes id body = big_endian4 (11 + length body) ++ (big_endian4 id ++ (128 ∷ 0 ∷ 0 ∷ body))

-- One reply is sent and nothing else of the session changes, or the process exits since `realloc`
-- gave NULL for a block of at most three times the bytes of the reply.
pub data Replies (mem : Allocator) (id : ℕ) (body : List ℕ) (s : Session)
    : Outcome Session → Type 0 where
  replied : Replies mem id body s (done (record s { sent = s.sent ++ (reply_bytes id body ∷ []) }))
  no_memory : Refused mem (3 * (11 + length body)) → Replies mem id body s exits

take-empty : (k : ℕ) → take {A = ℕ} k [] ≡ []
take-empty zero = refl
take-empty (suc k) = refl

take-behind :
    (k : ℕ) (xs : List ℕ) → take k (drop 4 xs) ≡ drop 4 (take (suc (suc (suc (suc k)))) xs)
take-behind k [] = take-empty k
take-behind k (a ∷ []) = take-empty k
take-behind k (a ∷ b ∷ []) = take-empty k
take-behind k (a ∷ b ∷ c ∷ []) = take-empty k
take-behind k (a ∷ b ∷ c ∷ d ∷ xs) = refl

drop-front : (xs zs ys : List ℕ) (y : ℕ) → drop 4 xs ≡ y ∷ ys → drop 4 (xs ++ zs) ≡ y ∷ (ys ++ zs)
drop-front [] zs ys y e = absurd cc
drop-front (a ∷ []) zs ys y e = absurd cc
drop-front (a ∷ b ∷ []) zs ys y e = absurd cc
drop-front (a ∷ b ∷ c ∷ []) zs ys y e = absurd cc
drop-front (a ∷ b ∷ c ∷ d ∷ xs) zs ys y e = ap (λ r. r ++ zs) e

sent_whole :
    (mem : Allocator) (id : ℕ) (body : List ℕ) (s : Session) (p q : Packet)
    → p.offset ≡ 11
    → drop 4 (written p) ≡ big_endian4 id ++ (128 ∷ 0 ∷ 0 ∷ [])
    → Extends 0 p body q
    → Replies mem id body s (jdwp_send q s)
sent_whole mem id body s p q at header e =
    let k = 7 + length body in
    let offset : q.offset ≡ suc (suc (suc (suc k))) = omega (arith, e.moved) in
    let behind : take k (drop 4 q.contents) ≡ big_endian4 id ++ (128 ∷ 0 ∷ 0 ∷ body) =
      take-behind k q.contents
      ∙ ap (λ n. drop 4 (take n q.contents)) (sym offset)
      ∙ ap (drop 4) e.bytes
      ∙ drop-front (written p) body _ _ header in
    let total : q.offset ≡ 11 + length body = omega (arith, e.moved) in
    let sends = send_contents k q.contents q s refl offset (omega arith) in
    subst (Replies mem id body s)
      (sym (
        sends
        ∙ ap
            (λ n.
              done (record s {
                sent = s.sent ++ ((big_endian4 n ++ take k (drop 4 q.contents)) ∷ []);
              }))
            total
        ∙ ap
            (λ bs.
              done (record s { sent = s.sent ++ ((big_endian4 (11 + length body) ++ bs) ∷ []) }))
            behind))
      replied

-- What a writer that appends `body` makes of the packet, sent.
written_reply :
    (mem : Allocator) (id : ℕ) (body : List ℕ) (s : Session) (p : Packet) (r : Outcome Packet)
    → p.offset ≡ 11
    → drop 4 (written p) ≡ big_endian4 id ++ (128 ∷ 0 ∷ 0 ∷ [])
    → Appends mem 0 p body r
    → Replies mem id body s (r >>= λ q. jdwp_send q s)
written_reply mem id body s p _ at header (appended {q} e) =
    sent_whole mem id body s p q at header e
written_reply mem id body s p _ at header (out_of_memory refused) =
    no_memory (Refused-weaken (omega arith) refused)

-- A reply whose data a writer appends to the packet goes out as the header of a reply to the
-- command and the data, byte by byte, or the process exits since `realloc` gave NULL for a block of
-- at most three times the bytes of the reply. The command has the identifier, and `malloc` grants
-- the packet, of less than 2^32 bytes.
pub new_reply-Replies :
    (env : Env) (s : Session) (id bytes : ℕ) (body b : List ℕ) (write : Packet → Outcome Packet)
    → read_id s.command ≡ done id
    → bytes + 11 < 2 ^ 32
    → env.mem.malloc (bytes + 11) ≡ some b
    → ((p : Packet) → IsValid p → Appends env.mem 0 p body (write p))
    → Replies env.mem id body s (new_reply env s bytes >>= λ p. write p >>= λ q. jdwp_send q s)
unfolding new_reply
new_reply-Replies env s id bytes body b write here small got appends =
    let (p, made, r) = new_reply_packet-IsReply env.mem id bytes b small got in
    rw (here, made)
      (written_reply env.mem id body s p (write p) r.at_payload r.header (appends p r.valid))
