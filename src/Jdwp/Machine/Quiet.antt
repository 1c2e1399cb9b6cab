-- ===== src/Jdwp/Machine/Quiet.antt =====
-- jdwp/eventDispatcher.c: a dispatch, by what it leaves to report and what it leaves as it was.
use sedona_vm_debug.Base.{
  ℕ, ◌+◌, ◌≡◌, refl, sym, ap, ◌∙◌, arith, false, List, [], ◌∷◌, length, Bool-cases, inl, inr, leb,
  ◌==◌, ◌&&◌, All,
}
use mathlib.Core.Path.{subst}
use sedona_vm_debug.Memory.{
  Outcome, done, ◌>>=◌, Allocator, Yields, Yields-after, Yields-bind, Yields-map, to_size,
}
use sedona_vm_debug.Packet.Buffer.{Packet}
use sedona_vm_debug.Packet.Chain.{PacketList, get_byte_size, write_list}
use sedona_vm_debug.Vm.Frames.{is_vm_suspended}
use sedona_vm_debug.Jdwp.Types.Packets.{empty_list}
use sedona_vm_debug.Jdwp.Events.{EventRequest, is_pending}
use sedona_vm_debug.Jdwp.Session.{Env, Session, send, jdwp_send}
use sedona_vm_debug.Packet.Header.{write_length, new_command_packet}
use sedona_vm_debug.Packet.Buffer.{write_u1, write_u4}
use sedona_vm_debug.Jdwp.Dispatch.{
  composite_extra, composite_command, event_command_set, is_due, policy_loop, get_by_suspend_policy,
  internal_dispatch_set, dispatch_all,
}
use sedona_vm_debug.Jdwp.Dispatch.Packets.{internal_dispatch}
use sedona_vm_debug.Jdwp.Dispatch.Laws.{IsReady, Remaining, ended, get_by_suspend_policy-IsReady}

-- No request is to be reported, and the size of the list is right.
pub record IsQuiet (s : Session) : Type 0 where
  pub size_right : s.events.size ≡ length s.events.queue
  pub settled : All (λ e. is_pending e ≡ false) s.events.queue

policy_loop-quiet :
    (mem : Allocator) (packet_of : EventRequest → Outcome Packet) (pol : ℕ)
    (queue : List EventRequest) (plist : PacketList)
    → All (λ e. is_pending e ≡ false) queue
    → policy_loop mem packet_of pol (length queue) queue plist ≡ done (queue, plist)
unfolding policy_loop
policy_loop-quiet mem packet_of pol [] plist h = refl
policy_loop-quiet mem packet_of pol (e ∷ queue) plist (h, hs) =
    let skipped : is_due pol e ≡ false = ap (λ b. b && (e.suspend_policy == pol)) h in
    rw (skipped, policy_loop-quiet mem packet_of pol queue plist hs) refl

get_by_suspend_policy-quiet :
    (env : Env) (s : Session) (pol : ℕ)
    → IsQuiet s
    → get_by_suspend_policy env s pol ≡ done (empty_list, s)
unfolding get_by_suspend_policy
get_by_suspend_policy-quiet env s pol q =
    let packet_of = internal_dispatch env s.types (is_vm_suspended s.suspend_count) in
    let found : policy_loop env.mem packet_of pol s.events.size s.events.queue empty_list
        ≡ done (s.events.queue, empty_list) =
      rw q.size_right
        (policy_loop-quiet env.mem packet_of pol s.events.queue empty_list q.settled) in
    ap
      (λ r. r >>= λ (queue, plist).
        done (plist, record s { events = record s.events { queue = queue } }))
      found

-- A dispatch without a request to report sends nothing.
pub dispatch_all-quiet : (env : Env) (s : Session) → IsQuiet s → dispatch_all env s ≡ done s
unfolding dispatch_all internal_dispatch_set
dispatch_all-quiet env s q =
    rw
      (
        get_by_suspend_policy-quiet env s 0 q,
        get_by_suspend_policy-quiet env s 1 q,
        get_by_suspend_policy-quiet env s 2 q,
      )
      refl

-- The session after a dispatch, with the counter as it was and nothing left to report.
pub record IsServed (s after : Session) : Type 0 where
  pub count : after.suspend_count ≡ s.suspend_count
  pub held : after.events.hold_events ≡ s.events.hold_events
  pub quiet : IsQuiet after

-- Sending leaves the counter and the events.
record Sends (s after : Session) : Type 0 where
  count : after.suspend_count ≡ s.suspend_count
  events : after.events ≡ s.events

send-Sends :
    (base : Session) (bytes : List ℕ) (n : ℕ) (s : Session)
    → Sends base s
    → Yields (Sends base) (send bytes n s)
unfolding send
send-Sends base bytes n s h = elim (Bool-cases (leb n (length bytes))) [
  | inl fits ↦ rw fits (record { count = h.count; events = h.events })
  | inr past ↦ rw past tt
]

jdwp_send-Sends :
    (base : Session) (p : Packet) (s : Session) → Sends base s → Yields (Sends base) (jdwp_send p s)
unfolding jdwp_send
jdwp_send-Sends base p s h =
    Yields-after (Sends base) (write_length p p.offset) _
      (λ p. send-Sends base p.contents p.offset s h)

internal_dispatch_set-Sends :
    (env : Env) (base : Session) (plist : PacketList) (pol : ℕ) (s : Session)
    → Sends base s
    → Yields (Sends base) (internal_dispatch_set env plist pol s)
unfolding internal_dispatch_set
internal_dispatch_set-Sends env base plist pol s h = elim (Bool-cases (plist.size == 0)) [
  | inl empty ↦ rw empty h
  | inr there ↦ rw there (
      Yields-after (Sends base) (get_byte_size plist) _ (λ bytes.
        Yields-after (Sends base)
          (new_command_packet env.mem env.locked env.unlocked s.packet_id_unique
            (to_size (composite_extra + bytes)) composite_command event_command_set)
          _
          (λ (cmd, unique). Yields-after (Sends base) (write_u1 env.mem cmd pol) _ (λ cmd.
            Yields-after (Sends base) (write_u4 env.mem cmd plist.size) _ (λ cmd.
              Yields-after (Sends base) (write_list env.mem cmd plist) _ (λ cmd.
                jdwp_send-Sends base cmd (record s { packet_id_unique = unique })
                  (record { count = h.count; events = h.events })))))))
]

-- The counter and the hold are as they were.
abbrev Stays : Session → PacketList × Session → Type 0
Stays s r = (r.1.suspend_count ≡ s.suspend_count) × (r.1.events.hold_events ≡ s.events.hold_events)

get_by_suspend_policy-Stays :
    (env : Env) (s : Session) (pol : ℕ) → Yields (Stays s) (get_by_suspend_policy env s pol)
unfolding get_by_suspend_policy
get_by_suspend_policy-Stays env s pol =
    let packet_of = internal_dispatch env s.types (is_vm_suspended s.suspend_count) in
    let stay : (r : List EventRequest × PacketList)
        → Stays s (r.1, record s { events = record s.events { queue = r.0 } }) =
      λ r. (refl, refl) in
    Yields-after (Stays s)
      (policy_loop env.mem packet_of pol s.events.size s.events.queue empty_list) _ stay

stayed :
    (env : Env) (s : Session) (pol : ℕ) (plist : PacketList) (after : Session)
    → get_by_suspend_policy env s pol ≡ done (plist, after)
    → Stays s (plist, after)
stayed env s pol plist after e = subst (Yields (Stays s)) e (get_by_suspend_policy-Stays env s pol)

Remaining-quiet :
    (queue : List EventRequest) → All (Remaining 3) queue → All (λ e. is_pending e ≡ false) queue
Remaining-quiet [] h = tt
Remaining-quiet (e ∷ queue) (inl settled, hs) = (settled, Remaining-quiet queue hs)
Remaining-quiet (e ∷ queue) (inr (low, high), hs) = absurd (omega arith)

pub dispatch_all-IsServed :
    (env : Env) (s : Session) → IsReady 0 env s → Yields (IsServed s) (dispatch_all env s)
unfolding dispatch_all
dispatch_all-IsServed env s r = elim (get_by_suspend_policy-IsReady 0 env s r) [
  | ended of_none first run₀ r₁ ↦ elim (get_by_suspend_policy-IsReady 1 env first r₁) [
    | ended of_thread second run₁ r₂ ↦ elim (get_by_suspend_policy-IsReady 2 env second r₂) [
      | ended of_all third run₂ r₃ ↦
          let same : third.suspend_count ≡ s.suspend_count =
            (stayed env second 2 of_all third run₂).0
            ∙ (stayed env first 1 of_thread second run₁).0
            ∙ (stayed env s 0 of_none first run₀).0 in
          let same_hold : third.events.hold_events ≡ s.events.hold_events =
            (stayed env second 2 of_all third run₂).1
            ∙ (stayed env first 1 of_thread second run₁).1
            ∙ (stayed env s 0 of_none first run₀).1 in
          let sent : Yields (Sends third) (
              internal_dispatch_set env of_none 0 third >>= λ a.
              internal_dispatch_set env of_thread 1 a >>= λ b.
              internal_dispatch_set env of_all 2 b) =
            Yields-bind (Sends third) (Sends third) (internal_dispatch_set env of_none 0 third) _
              (internal_dispatch_set-Sends env third of_none 0 third
                (record { count = refl; events = refl }))
              (λ a h₁.
                Yields-bind (Sends third) (Sends third) (internal_dispatch_set env of_thread 1 a) _
                  (internal_dispatch_set-Sends env third of_thread 1 a h₁)
                  (λ b h₂. internal_dispatch_set-Sends env third of_all 2 b h₂)) in
          rw (run₀, run₁, run₂)
            (Yields-map (Sends third) (IsServed s) _
              (λ t h. record {
                count = h.count ∙ same;
                held = ap (λ e. e.hold_events) h.events ∙ same_hold;
                quiet = record {
                  size_right =
                      ap (λ e. e.size) h.events
                      ∙ r₃.size_right
                      ∙ ap (λ e. length e.queue) (sym h.events);
                  settled =
                      subst (λ e. All (λ e. is_pending e ≡ false) e.queue) (sym h.events)
                        (Remaining-quiet third.events.queue r₃.remaining);
                };
              })
              sent)
    ]
  ]
]
