-- ===== src/Jdwp/Session/Laws.antt =====
-- jdwp/mainHandler.c: what a packet that was sent holds.
use sedona_vm_debug.Base.{
  ℕ, ◌-◌, ◌%◌, ◌/◌, ◌^◌, ◌≤◌, ◌≡◌, refl, arith, List, [], ◌∷◌, ◌++◌, length, bit_and, big_endian4,
}
use sedona_vm_debug.Base.{suc, take, drop, le→leb, length-append, take-append}
use sedona_vm_debug.Base.Bits.{bit_and-mask}
use sedona_vm_debug.Memory.{done}
use sedona_vm_debug.Base.{length-take, length-drop}
use sedona_vm_debug.Packet.RoundTrip.{read_u4_buff-big_endian4}
use sedona_vm_debug.Packet.Buffer.{Packet, read_u4_buff}
use sedona_vm_debug.Packet.Header.{read_id, write_id, write_errorcode, write_length, set_byte}
use sedona_vm_debug.Jdwp.Session.{Session, send, jdwp_send, jdwp_send_error}

-- The first bytes of a block are sent.
pub send-front :
    (front rest : List ℕ) (s : Session)
    → send (front ++ rest) (length front) s ≡ done (record s { sent = s.sent ++ (front ∷ []) })
unfolding send
send-front front rest s =
    rw
      (
        le→leb (length front) (length (front ++ rest)) (omega (arith, length-append front rest)),
        take-append front rest,
      )
      refl

-- The bytes that an error answers with: the length is what stood there, and so are the flags.
abbrev pub error_reply : List ℕ → ℕ → ℕ → ℕ → List ℕ
error_reply old id flags errorcode =
    old ++ (big_endian4 id ++ (flags ∷ errorcode / 256 % 256 ∷ errorcode % 256 ∷ []))

pub jdwp_send_error-error_reply :
    (s : Session) (errorcode id l₀ l₁ l₂ l₃ i₀ i₁ i₂ i₃ flags e₀ e₁ : ℕ) (rest : List ℕ)
    → s.packet_error.contents ≡ l₀ ∷ l₁ ∷ l₂ ∷ l₃ ∷ i₀ ∷ i₁ ∷ i₂ ∷ i₃ ∷ flags ∷ e₀ ∷ e₁ ∷ rest
    → read_id s.command ≡ done id
    → jdwp_send_error errorcode s
      ≡ done (record s {
        packet_error = record s.packet_error {
          contents = error_reply (l₀ ∷ l₁ ∷ l₂ ∷ l₃ ∷ []) id flags errorcode ++ rest;
        };
        sent = s.sent ++ (error_reply (l₀ ∷ l₁ ∷ l₂ ∷ l₃ ∷ []) id flags errorcode ∷ []);
      })
unfolding jdwp_send_error write_errorcode write_id set_byte send
jdwp_send_error-error_reply s errorcode id l₀ l₁ l₂ l₃ i₀ i₁ i₂ i₃ flags e₀ e₁ rest at here =
    let low : bit_and errorcode 0xff % 256 ≡ errorcode % 256 =
      omega (arith, bit_and-mask 8 errorcode) in
    let low_id : bit_and id 0xff % 256 ≡ id % 256 = omega (arith, bit_and-mask 8 id) in
    let p = record s.packet_error {
      contents = error_reply (l₀ ∷ l₁ ∷ l₂ ∷ l₃ ∷ []) id flags errorcode ++ rest;
    } in
    rw (at, here, low, low_id)
      (send-front (error_reply (l₀ ∷ l₁ ∷ l₂ ∷ l₃ ∷ []) id flags errorcode) rest
        (record s { packet_error = p }))

pub send_contents :
    (k : ℕ) (contents : List ℕ) (p : Packet) (s : Session)
    → p.contents ≡ contents
    → p.offset ≡ suc (suc (suc (suc k)))
    → p.offset ≤ length contents
    → jdwp_send p s
      ≡ done
          (record s { sent = s.sent ++ ((big_endian4 p.offset ++ take k (drop 4 contents)) ∷ []) })
unfolding jdwp_send write_length set_byte send
send_contents k (c₀ ∷ c₁ ∷ c₂ ∷ c₃ ∷ rest) p s at o room =
    let n = suc (suc (suc (suc k))) in
    let low : bit_and n 0xff % 256 ≡ n % 256 = omega (arith, bit_and-mask 8 n) in
    let fits = le→leb n (suc (suc (suc (suc (length rest))))) (omega arith) in
    rw (at, o, low, fits) refl
send_contents k contents p s at o room = absurd (omega arith)

-- A packet with a header's length and no more bytes than its block holds goes out whole: the bytes
-- that are sent number its offset, and begin with that number, modulo 2^32, as the reader of
-- lengths takes it; the others are those of the packet.
pub jdwp_send-read_u4_buff :
    (p : Packet) (s : Session)
    → 4 ≤ p.offset
    → p.offset ≤ length p.contents
    → (bytes : List ℕ) × (jdwp_send p s ≡ done (record s { sent = s.sent ++ (bytes ∷ []) }))
      × (length bytes ≡ p.offset)
      × (read_u4_buff bytes ≡ done (p.offset % 2 ^ 32))
      × (drop 4 bytes ≡ take (p.offset - 4) (drop 4 p.contents))
jdwp_send-read_u4_buff p s header room =
    let k = p.offset - 4 in
    let body = take k (drop 4 p.contents) in
    let o : p.offset ≡ suc (suc (suc (suc k))) = omega arith in
    (
      big_endian4 p.offset ++ body,
      send_contents k p.contents p s refl o room,
      omega (arith, length-take k (drop 4 p.contents), length-drop 4 p.contents),
      read_u4_buff-big_endian4 p.offset body,
      refl,
    )
