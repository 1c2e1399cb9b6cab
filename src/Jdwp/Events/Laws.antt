-- ===== src/Jdwp/Events/Laws.antt =====
-- jdwp/eventDispatcher.c: what removing the requests of a kind does.
use sedona_vm_debug.Base.{
  ℕ, zero, suc, ◌+◌, ◌-◌, ◌^◌, ◌<◌, ◌≡◌, refl, arith, true, false, List, [], ◌∷◌, ◌++◌, sym, ==→eq,
  ==-self, Option, none, some, ◌==◌, Bool-cases, inl, inr, All,
}
use mathlib.Core.Path.{subst}
use sedona_vm_debug.Memory.{Outcome, done, out_of_fuel, to_size}
use sedona_vm_debug.Jdwp.Events.{
  EventRequest, Events, unlink, emptied, internal_remove, internal_remove_from, first_of_kind,
  remove_all,
}

-- No request has the kind, and none has the identifier.
abbrev pub WithoutKind : ℕ → List EventRequest → Type 0
WithoutKind ekind = All (λ e. (e.event_kind == ekind) ≡ false)

abbrev pub WithoutId : ℕ → List EventRequest → Type 0
WithoutId id = All (λ e. (e.request_id == id) ≡ false)

-- The requests have identifiers of their own.
pub data IsDistinct : List EventRequest → Type 0 where
  distinct_nil : IsDistinct []
  distinct_cons :
      {e : EventRequest} {queue : List EventRequest}
      → WithoutId e.request_id queue
      → IsDistinct queue
      → IsDistinct (e ∷ queue)

distinct_after :
    (before : List EventRequest) (e : EventRequest) (after : List EventRequest)
    → IsDistinct (before ++ (e ∷ after))
    → WithoutId e.request_id after
distinct_after [] e after (distinct_cons w d) = w
distinct_after (b ∷ before) e after (distinct_cons w d) = distinct_after before e after d

-- What the search for a kind gives.
data Found (ekind : ℕ) : List EventRequest → Outcome (Option EventRequest) → Type 0 where
  absent : {queue : List EventRequest} → WithoutKind ekind queue → Found ekind queue (done none)
  present :
      (before : List EventRequest) (e : EventRequest) (after : List EventRequest)
      → WithoutKind ekind before
      → (e.event_kind == ekind) ≡ true
      → Found ekind (before ++ (e ∷ after)) (done (some e))

Found-later :
    (ekind : ℕ) (e : EventRequest) {queue : List EventRequest} {r : Outcome (Option EventRequest)}
    → (e.event_kind == ekind) ≡ false
    → Found ekind queue r
    → Found ekind (e ∷ queue) r
Found-later ekind e other (absent w) = absent (other, w)
Found-later ekind e other (present before f after w same) =
    present (e ∷ before) f after (other, w) same

first_of_kind-Found :
    (ekind : ℕ) (queue : List EventRequest) → Found ekind queue (first_of_kind true ekind queue)
unfolding first_of_kind
first_of_kind-Found ekind [] = absent tt
first_of_kind-Found ekind (e ∷ queue) = elim (Bool-cases (e.event_kind == ekind)) [
  | inl same ↦ rw same (present [] e queue tt same)
  | inr other ↦ rw other (Found-later ekind e other (first_of_kind-Found ekind queue))
]

-- Nothing is unlinked where no later request has the identifier.
unlink-after :
    (kind id : ℕ) (cur : EventRequest) (queue : List EventRequest)
    → WithoutId id queue
    → unlink true kind id cur queue ≡ done (queue, 0)
unfolding unlink
unlink-after kind id cur [] w = refl
unlink-after kind id cur (e ∷ queue) (other, w) = rw (other, unlink-after kind id e queue w) refl

-- Nor where the only request with the identifier follows one of another kind.
unlink-before :
    (kind : ℕ) (cur : EventRequest) (before : List EventRequest) (e : EventRequest)
    (after : List EventRequest)
    → (cur.event_kind == kind) ≡ false
    → WithoutKind kind before
    → WithoutId e.request_id after
    → unlink true kind e.request_id cur (before ++ (e ∷ after)) ≡ done (before ++ (e ∷ after), 0)
unfolding unlink
unlink-before kind cur [] e after other w d = elim (Bool-cases (e.request_id == e.request_id)) [
  | inl same ↦ rw (same, other, unlink-after kind e.request_id e after d) refl
  | inr never ↦ rw (never, unlink-after kind e.request_id e after d) refl
]
unlink-before kind cur (b ∷ before) e after other (otherb, w) d =
    elim (Bool-cases (b.request_id == e.request_id)) [
      | inl same ↦ rw (same, other, unlink-before kind b before e after otherb w d) refl
      | inr never ↦ rw (never, unlink-before kind b before e after otherb w d) refl
    ]

-- What removing every request of a kind comes to.
pub data Removal (ekind : ℕ) (s : Events) : Outcome Events → Type 0 where
  unchanged : WithoutKind ekind s.queue → Removal ekind s (done s)
  everything :
      (head : EventRequest) (rest : List EventRequest)
      → s.queue ≡ head ∷ rest
      → (head.event_kind == ekind) ≡ true
      → Removal ekind s (done (emptied s))
  endless :
      (head : EventRequest) (before : List EventRequest) (e : EventRequest)
      (after : List EventRequest)
      → s.queue ≡ head ∷ (before ++ (e ∷ after))
      → WithoutKind ekind (head ∷ before)
      → (e.event_kind == ekind) ≡ true
      → Removal ekind s out_of_fuel

-- A list of requests that is used as C code leaves it: its chain ends and its size is a `size_t`.
pub record IsQueue (s : Events) : Type 0 where
  pub ends : s.terminated ≡ true
  pub size_limit : s.size < 2 ^ 64
  pub distinct : IsDistinct s.queue

first_of_kind-absent :
    (ekind : ℕ) (queue : List EventRequest)
    → WithoutKind ekind queue
    → first_of_kind true ekind queue ≡ done none
unfolding first_of_kind
first_of_kind-absent ekind [] w = refl
first_of_kind-absent ekind (e ∷ queue) (other, w) =
    rw (other, first_of_kind-absent ekind queue w) refl

first_of_kind-present :
    (ekind : ℕ) (before : List EventRequest) (e : EventRequest) (after : List EventRequest)
    → WithoutKind ekind before
    → (e.event_kind == ekind) ≡ true
    → first_of_kind true ekind (before ++ (e ∷ after)) ≡ done (some e)
unfolding first_of_kind
first_of_kind-present ekind [] e after w same = rw same refl
first_of_kind-present ekind (b ∷ before) e after (other, w) same =
    rw (other, first_of_kind-present ekind before e after w same) refl

remove_all-suc :
    (ekind calls : ℕ) (s : Events)
    → s.terminated ≡ true
    → WithoutKind ekind s.queue
    → remove_all (suc calls) ekind s ≡ done s
unfolding remove_all
remove_all-suc ekind calls s ends w =
    let found : first_of_kind s.terminated ekind s.queue ≡ done none =
      rw ends (first_of_kind-absent ekind s.queue w) in
    rw found refl

resized : (size : ℕ) → size < 2 ^ 64 → to_size (size + 2 ^ 64 - 0) ≡ size
resized size h = omega arith

-- A request behind another of the same list is not removed when those before it have other kinds.
internal_remove-later :
    (ekind : ℕ) (s : Events) (head : EventRequest) (before : List EventRequest) (e : EventRequest)
    (after : List EventRequest)
    → IsQueue s
    → s.queue ≡ head ∷ (before ++ (e ∷ after))
    → WithoutKind ekind (head ∷ before)
    → internal_remove ekind e.request_id s ≡ done s
unfolding internal_remove internal_remove_from
internal_remove-later ekind s head before e after q at (other, w) =
    let apart = distinct_after (head ∷ before) e after (subst IsDistinct at q.distinct) in
    let kept = unlink-before ekind head before e after other w apart in
    elim (Bool-cases (head.request_id == e.request_id)) [
      | inl same ↦
          rw (at, same, other, q.ends, kept, resized s.size q.size_limit) (rw (sym at) refl)
      | inr never ↦ rw (at, never, q.ends, kept, resized s.size q.size_limit) (rw (sym at) refl)
    ]

-- Where the first request of the kind is not the head, a call leaves the list as it was, so the
-- next call does the same.
remove_all-endless :
    (ekind calls : ℕ) (s : Events) (head : EventRequest) (before : List EventRequest)
    (e : EventRequest) (after : List EventRequest)
    → IsQueue s
    → s.queue ≡ head ∷ (before ++ (e ∷ after))
    → WithoutKind ekind (head ∷ before)
    → (e.event_kind == ekind) ≡ true
    → remove_all calls ekind s ≡ out_of_fuel
unfolding remove_all
remove_all-endless ekind zero s head before e after q at w same = refl
remove_all-endless ekind (suc calls) s head before e after q at w same =
    let found : first_of_kind s.terminated ekind s.queue ≡ done (some e) =
      rw (q.ends, at) (first_of_kind-present ekind (head ∷ before) e after w same) in
    let kept : internal_remove e.event_kind e.request_id s ≡ done s =
      rw (==→eq e.event_kind ekind same)
        (internal_remove-later ekind s head before e after q at w) in
    rw (found, kept) (remove_all-endless ekind calls s head before e after q at w same)

-- The head is removed with all that follows it.
remove_all-head :
    (ekind calls : ℕ) (s : Events) (head : EventRequest) (rest : List EventRequest)
    → s.terminated ≡ true
    → s.queue ≡ head ∷ rest
    → (head.event_kind == ekind) ≡ true
    → remove_all (suc (suc calls)) ekind s ≡ done (emptied s)
unfolding remove_all internal_remove internal_remove_from
remove_all-head ekind calls s head rest ends at same =
    let found : first_of_kind s.terminated ekind s.queue ≡ done (some head) =
      rw (ends, at) (first_of_kind-present ekind [] head rest tt same) in
    rw (found, at, ==-self head.request_id, ==-self head.event_kind)
      (remove_all-suc ekind calls (emptied s) refl tt)

Removal-Found :
    (ekind calls : ℕ) (s : Events) (queue : List EventRequest) (r : Outcome (Option EventRequest))
    → IsQueue s
    → s.queue ≡ queue
    → Found ekind queue r
    → Removal ekind s (remove_all (suc (suc calls)) ekind s)
Removal-Found ekind calls s queue _ q at (absent w) =
    rw (remove_all-suc ekind (suc calls) s q.ends (rw at w)) (unchanged (rw at w))
Removal-Found ekind calls s _ _ q at (present [] e after w same) =
    rw (remove_all-head ekind calls s e after q.ends at same) (everything e after at same)
Removal-Found ekind calls s _ _ q at (present (head ∷ before) e after w same) =
    rw (remove_all-endless ekind (suc (suc calls)) s head before e after q at w same)
      (endless head before e after at w same)

-- Removing every request of a kind, from a list of requests with identifiers of their own whose
-- chain ends and whose size is a `size_t`, with two calls or more: the list is as before if none
-- has the kind; it is emptied, of the other kinds too, if the head has the kind; and the calls do
-- not end, however many there are, if the first of the kind stands behind the head.
pub remove_all-Removal :
    (ekind calls : ℕ) (s : Events)
    → IsQueue s
    → Removal ekind s (remove_all (suc (suc calls)) ekind s)
remove_all-Removal ekind calls s q =
    Removal-Found ekind calls s s.queue _ q refl (first_of_kind-Found ekind s.queue)
