-- ===== src/Jdwp/Dispatch/Laws.antt =====
-- jdwp/eventDispatcher.c: requests that are reported are no longer pending.
use sedona_vm_debug.Base.{
  ℕ, suc, ◌+◌, ◌≤◌, ◌<◌, ◌≡◌, ◌⊎◌, inl, inr, refl, ap, ◌∙◌, arith, Bool, true, false, List, [], ◌∷◌,
  length, map, ◌==◌, ltb, Bool-cases, le→leb, if◌then◌else◌, All,
}
use sedona_vm_debug.Memory.{to_size, Outcome, done, Allocator, block}
use sedona_vm_debug.Base.{sym, ◌&&◌}
use mathlib.Core.Path.{subst}
use sedona_vm_debug.Packet.Buffer.{Packet}
use sedona_vm_debug.Packet.Chain.{PacketList, add_packet}
use sedona_vm_debug.Vm.Frames.{is_vm_suspended}
use sedona_vm_debug.Jdwp.Types.Packets.{empty_list}
use sedona_vm_debug.Jdwp.Events.{EventRequest, is_pending, check_loop, check_for_events}
use sedona_vm_debug.Jdwp.Session.{Env, Session}
use sedona_vm_debug.Jdwp.Dispatch.{
  reported, is_due, add_unless_empty, policy_loop, get_by_suspend_policy,
}
use sedona_vm_debug.Jdwp.Dispatch.Packets.{internal_dispatch}

-- What a round for a policy makes of a request.
abbrev pub report : ℕ → EventRequest → EventRequest
report pol e = if is_due pol e then reported e else e

-- The list of packets can grow.
abbrev pub GrantsPackets : Allocator → Type 0
GrantsPackets mem = 16 ≤ length (block (mem.malloc 16))

-- A request that is pending can be made a packet.
abbrev pub Reportable : (EventRequest → Outcome Packet) → EventRequest → Type 0
Reportable packet_of e = is_pending e ≡ true → (p : Packet) × (packet_of e ≡ done p)

add_unless_empty-done :
    (mem : Allocator) (p : Packet) (plist : PacketList)
    → GrantsPackets mem
    → (after : PacketList) × (add_unless_empty mem p plist ≡ done after)
unfolding add_packet
add_unless_empty-done mem p plist grants = elim (Bool-cases (ltb 0 p.offset)) [
  | inl some_bytes ↦ (
    record { head = p ∷ plist.head; size = to_size (plist.size + 1) },
    rw (some_bytes, le→leb 16 (length (block (mem.malloc 16))) grants) refl,
  )
  | inr no_bytes ↦ (plist, rw no_bytes refl)
]

and_left : (a b : Bool) → (a && b) ≡ true → a ≡ true
and_left true b h = refl
and_left false b h = h

due_pending : (pol : ℕ) (e : EventRequest) → is_due pol e ≡ true → is_pending e ≡ true
due_pending pol e due = and_left (is_pending e) (e.suspend_policy == pol) due

policy_loop-report :
    (mem : Allocator) (packet_of : EventRequest → Outcome Packet) (pol : ℕ)
    (queue : List EventRequest) (plist : PacketList)
    → GrantsPackets mem
    → All (Reportable packet_of) queue
    → (after : PacketList) × (policy_loop mem packet_of pol (length queue) queue plist
        ≡ done (map (report pol) queue, after))
unfolding policy_loop
policy_loop-report mem packet_of pol [] plist grants h = (plist, refl)
policy_loop-report mem packet_of pol (e ∷ queue) plist grants (h, hs) =
    elim (Bool-cases (is_due pol e)) [
      | inl due ↦
          let (p, made) = h (due_pending pol e due) in
          let (mid, listed) = add_unless_empty-done mem p plist grants in
          let (after, rest) = policy_loop-report mem packet_of pol queue mid grants hs in
          (after, rw (due, made, listed, rest) refl)
      | inr skipped ↦
          let (after, rest) = policy_loop-report mem packet_of pol queue plist grants hs in
          (after, rw (skipped, rest) refl)
    ]

-- What is left after the rounds for the policies below `k`.
abbrev pub Remaining : ℕ → EventRequest → Type 0
Remaining k e = (is_pending e ≡ false) ⊎ (k ≤ e.suspend_policy) × (e.suspend_policy < 3)

report-cases :
    (k : ℕ) (e : EventRequest) → (report k e ≡ reported e) ⊎ (is_due k e ≡ false) × (report k e ≡ e)
report-cases k e = elim (Bool-cases (is_due k e)) [
  | inl due ↦ inl (ap (λ b. if b then reported e else e) due)
  | inr skipped ↦ inr (skipped, ap (λ b. if b then reported e else e) skipped)
]

Remaining-skipped :
    (k : ℕ) (e : EventRequest) → is_due k e ≡ false → Remaining k e → Remaining (k + 1) e
Remaining-skipped k e skipped (inl settled) = inl settled
Remaining-skipped k e skipped (inr (low, high)) = elim (Bool-cases (is_pending e)) [
  | inr settled ↦ inl settled
  | inl pending ↦
      let apart : (e.suspend_policy == k) ≡ false =
        ap (λ b. b && (e.suspend_policy == k)) (sym pending) ∙ skipped in
      inr (ground arith, high)
]

report-Remaining : (k : ℕ) (e : EventRequest) → Remaining k e → Remaining (k + 1) (report k e)
report-Remaining k e h = elim (report-cases k e) [
  | inl done_with ↦ subst (Remaining (k + 1)) (sym done_with) (inl refl)
  | inr (skipped, same) ↦ subst (Remaining (k + 1)) (sym same) (Remaining-skipped k e skipped h)
]

report-Reportable :
    (packet_of : EventRequest → Outcome Packet) (k : ℕ) (e : EventRequest)
    → Reportable packet_of e
    → Reportable packet_of (report k e)
report-Reportable packet_of k e h = elim (report-cases k e) [
  | inl done_with ↦ subst (Reportable packet_of) (sym done_with) (λ never. absurd cc)
  | inr (skipped, same) ↦ subst (Reportable packet_of) (sym same) h
]

All-map :
    (P Q : EventRequest → Type 0) (f : EventRequest → EventRequest) (queue : List EventRequest)
    → ((e : EventRequest) → P e → Q (f e))
    → All P queue
    → All Q (map f queue)
All-map P Q f [] h all = tt
All-map P Q f (e ∷ queue) h (p, ps) = (h e p, All-map P Q f queue h ps)

length-map :
    (f : EventRequest → EventRequest) (queue : List EventRequest)
    → length (map f queue) ≡ length queue
length-map f [] = refl
length-map f (e ∷ queue) = ap suc (length-map f queue)

-- A debugger whose pending requests can all be reported, with the rounds below `k` done.
pub record IsReady (k : ℕ) (env : Env) (s : Session) : Type 0 where
  pub grants : GrantsPackets env.mem
  pub size_right : s.events.size ≡ length s.events.queue
  pub reportable :
      All
        (Reportable (internal_dispatch env s.types (is_vm_suspended s.suspend_count)))
        s.events.queue
  pub remaining : All (Remaining k) s.events.queue

-- A round succeeds.
pub data Round (k : ℕ) (env : Env) (s : Session) : Type 0 where
  ended :
      (plist : PacketList) (after : Session)
      → get_by_suspend_policy env s k ≡ done (plist, after)
      → IsReady (k + 1) env after
      → Round k env s

pub get_by_suspend_policy-IsReady :
    (k : ℕ) (env : Env) (s : Session) → IsReady k env s → Round k env s
unfolding get_by_suspend_policy
get_by_suspend_policy-IsReady k env s r =
    let packet_of = internal_dispatch env s.types (is_vm_suspended s.suspend_count) in
    let (plist, run) =
      policy_loop-report env.mem packet_of k s.events.queue empty_list r.grants r.reportable in
    let queue = map (report k) s.events.queue in
    let after : Session = record s { events = record s.events { queue = queue } } in
    let sized : policy_loop env.mem packet_of k s.events.size s.events.queue empty_list
        ≡ done (queue, plist) =
      rw r.size_right run in
    ended plist after (rw sized refl) (record {
      grants = r.grants;
      size_right = r.size_right ∙ sym (length-map (report k) s.events.queue);
      reportable =
          All-map (Reportable packet_of) (Reportable packet_of) (report k) s.events.queue
            (report-Reportable packet_of k) r.reportable;
      remaining =
          All-map (Remaining k) (Remaining (k + 1)) (report k) s.events.queue (report-Remaining k)
            r.remaining;
    })

check_loop-none :
    (queue : List EventRequest)
    → All (Remaining 3) queue
    → check_loop (length queue) queue ≡ done false
unfolding check_loop
check_loop-none [] h = refl
check_loop-none (e ∷ queue) (inl settled, hs) = rw (settled, check_loop-none queue hs) refl
check_loop-none (e ∷ queue) (inr (low, high), hs) = absurd (omega arith)

-- The three rounds of a dispatch: what is sent for each policy, and the sessions between them.
pub data Rounds (env : Env) (s : Session) : Type 0 where
  rounds :
      (of_none of_thread of_all : PacketList) (first second after : Session)
      → get_by_suspend_policy env s 0 ≡ done (of_none, first)
      → get_by_suspend_policy env first 1 ≡ done (of_thread, second)
      → get_by_suspend_policy env second 2 ≡ done (of_all, after)
      → check_for_events after.events ≡ done false
      → Rounds env s

-- The three rounds of a dispatch, one for each suspend policy, end, and after them no request is
-- pending: `check_forEvents` does not suspend the machine. The size of the list is right, the
-- allocator grants places in lists of packets, every request that is pending can be made a packet,
-- and has a suspend policy below three.
pub get_by_suspend_policy-Rounds : (env : Env) (s : Session) → IsReady 0 env s → Rounds env s
unfolding check_for_events
get_by_suspend_policy-Rounds env s r = elim (get_by_suspend_policy-IsReady 0 env s r) [
  | ended of_none first run₀ r₁ ↦ elim (get_by_suspend_policy-IsReady 1 env first r₁) [
    | ended of_thread second run₁ r₂ ↦ elim (get_by_suspend_policy-IsReady 2 env second r₂) [
      | ended of_all after run₂ r₃ ↦
          let checked : check_loop after.events.size after.events.queue ≡ done false =
            rw r₃.size_right (check_loop-none after.events.queue r₃.remaining) in
          rounds of_none of_thread of_all first second after run₀ run₁ run₂ checked
    ]
  ]
]
