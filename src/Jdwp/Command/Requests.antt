-- ===== src/Jdwp/Command/Requests.antt =====
-- jdwp/mainHandler.c: the command set EventRequest.
use sedona_vm_debug.Base.{
  ℕ, zero, suc, ◌+◌, ◌-◌, Bool, true, false, not, ◌||◌, List, [], ◌∷◌, length, get_elem?, set, take,
  none, some, ◌==◌, ltb, leb, if◌then◌else◌,
}
use sedona_vm_debug.Memory.{◌>>=◌, Outcome, done, undefined, defined}
use sedona_vm_debug.Packet.Header.{read_command}
use sedona_vm_debug.Jdwp.Types.{findref_byclassname}
use sedona_vm_debug.Jdwp.Events.{
  ModKind, count, conditional, thread_only, class_only, instance_only, class_match, class_exclude,
  source_name_match, location_only, exception_only, field_only, step, EventRequest,
  new_event_request, add_event_request, remove_event_request, remove_all, breakpoint, exception,
  class_unload, vm_death, thread_death_end,
}
use sedona_vm_debug.Jdwp.Session.{
  Env, Session, readu1, readu4, readfieldid, readobjectid, readthreadid, readlocation, readstr,
  jdwp_send, jdwp_send_error, jdwp_send_not_implemented, new_reply,
}
use sedona_vm_debug.Jdwp.Command.Shared.{Handler, switch, send_u4}
use sedona_vm_debug.Jdwp.Command.Reference.{invalid_class}

-- The characters of a C string up to its terminator.
abbrev pub c_str : List ℕ → List ℕ
c_str [] = []
c_str (c ∷ str) = if c == 0 then [] else c ∷ c_str str

abbrev pub contains : ℕ → List ℕ → Bool
contains x [] = false
contains x (y ∷ ys) = y == x || contains x ys

-- A pattern with a star loses its last character, or its last two before a dollar sign, which is
-- looked for before the first character where there is one only.
unfoldable pub unstar : List ℕ → Outcome (List ℕ)
unstar pattern =
    if not (contains 42 pattern)
    then done pattern
    else (if leb 2 (length pattern)
        then (do
          c ← defined (get_elem? pattern (length pattern - 2))
          done (take (if c == 36 then length pattern - 2 else length pattern - 1) pattern))
        else undefined)

-- `e->mods[i] = m`; the array has one place.
unfoldable pub set_mod : ℕ → ModKind → EventRequest → Outcome EventRequest
set_mod i m e =
    if ltb i (length e.mods) then done (record e { mods = set e.mods i m }) else undefined

-- One modifier that is a number.
abbrev pub number_mod :
    ℕ
    → (ℕ → ModKind)
    → (Session → Outcome (ℕ × Session))
    → EventRequest
    → Session
    → Outcome (EventRequest × Session)
number_mod i made read e s = do (v, s) ← read s; e ← set_mod i (made v) e; done (e, s)

unfoldable pub class_match_mod : Env → ℕ → EventRequest → Session → Outcome (EventRequest × Session)
class_match_mod env i e s = do
  (str, s) ← readstr env.mem s
  pattern ← unstar (c_str str)
  e ← set_mod i (class_match pattern) e
  found ← findref_byclassname s.types pattern
  s ← (elim found [ none ↦ jdwp_send_error invalid_class s | some t ↦ done s ])
  done (e, s)

-- The switch over the kind of a modifier.
unfoldable pub read_mod : Env → ℕ → EventRequest → Session → Outcome (EventRequest × Session)
read_mod env i e s = do
  (kind, s) ← readu1 s
  switch kind
      ((1, number_mod i count readu4)
        ∷ (2, number_mod i conditional readu4)
        ∷ (3, number_mod i thread_only readthreadid)
        ∷ (4, number_mod i class_only readobjectid)
        ∷ (5, class_match_mod env i)
        ∷ (
          6,
          λ e s. do
            (str, s) ← readstr env.mem s
            e ← set_mod i (class_exclude (c_str str)) e
            done (e, s),
        )
        ∷ (7, λ e s. do (loc, s) ← readlocation s; e ← set_mod i (location_only loc) e; done (e, s))
        ∷ (
          8,
          λ e s. do
            (rtid, s) ← readobjectid s
            (caught, s) ← readu1 s
            (uncaught, s) ← readu1 s
            e ← set_mod i (exception_only rtid caught uncaught) e
            done (record e { isremoved = true; triggered = false }, s),
        )
        ∷ (
          9,
          λ e s. do
            (rtid, s) ← readobjectid s
            (fid, s) ← readfieldid s
            e ← set_mod i (field_only rtid fid) e
            done (e, s),
        )
        ∷ (
          10,
          λ e s. do
            (tid, s) ← readthreadid s
            (size, s) ← readu4 s
            (depth, s) ← readu4 s
            e ← set_mod i (step tid size depth) e
            done (e, s),
        )
        ∷ (11, number_mod i instance_only readobjectid)
        ∷ (
          12,
          λ e s. do
            (str, s) ← readstr env.mem s
            e ← set_mod i (source_name_match (c_str str)) e
            done (e, s),
        )
        ∷ [])
      (λ e s. done (e, s)) e s

-- The loop over the modifiers from `i` on.
unfoldable pub read_mods : Env → ℕ → ℕ → EventRequest → Session → Outcome (EventRequest × Session)
read_mods env zero i e s = done (e, s)
read_mods env (suc left) i e s = do (e, s) ← read_mod env i e s; read_mods env left (i + 1) e s

-- The kinds that never occur, and so are not triggered.
abbrev pub is_muted : ℕ → Bool
is_muted kind =
    (kind == vm_death || kind == thread_death_end) || (kind == exception || kind == class_unload)

unfoldable pub on_send_cs_er_set : Handler
on_send_cs_er_set env s = do
  let (e, events) = new_event_request env.blank s.events
  let s = record s { events = events }
  (kind, s) ← readu1 s
  (policy, s) ← readu1 s
  (mods, s) ← readu4 s
  let e = record e {
    event_kind = kind;
    suspend_policy = policy;
    mod_count = mods;
    triggered = not (is_muted kind);
  }
  (e, s) ← read_mods env mods 0 e s
  let s = if e.isremoved then s else record s { events = add_event_request e s.events }
  send_u4 e.request_id env s

unfoldable pub on_send_cs_er_clear : Handler
on_send_cs_er_clear env s = do
  (kind, s) ← readu1 s
  (id, s) ← readu4 s
  events ← remove_event_request kind id s.events
  let s = record s { events = events }
  p ← new_reply env s 0
  jdwp_send p s

-- No reply is sent. The list has fewer requests than the calls that `calls` allows.
unfoldable pub on_send_cs_er_clear_all_breakpoints : ℕ → Handler
on_send_cs_er_clear_all_breakpoints calls env s = do
  events ← remove_all calls breakpoint s.events
  done (record s { events = events })

unfoldable pub on_cs_event_request : ℕ → Handler
on_cs_event_request calls env s = do
  command ← read_command s.command
  switch command
      ((1, on_send_cs_er_set)
        ∷ (2, on_send_cs_er_clear)
        ∷ (3, on_send_cs_er_clear_all_breakpoints calls)
        ∷ [])
      (λ env s. jdwp_send_not_implemented s) env s
