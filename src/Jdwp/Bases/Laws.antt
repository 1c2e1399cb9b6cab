-- ===== src/Jdwp/Bases/Laws.antt =====
-- jdwp/initializer.c: what the debugger knows of the main class.
use sedona_vm_debug.Base.{
  ◌∙◌, ℕ, suc, ◌+◌, ◌^◌, ◌<◌, ◌≡◌, ◌≢◌, refl, arith, false, ==-self, ◌==◌, none, some, List, [],
  ◌∷◌,
}
use sedona_vm_debug.Memory.{done}
use sedona_vm_debug.Jdwp.Types.{
  Types, RefTypeId, get_method, get_method_loop, findref_byrid, find_ref, add_class_ref, add_ref,
  add_inner_classes_stared_of,
}
use sedona_vm_debug.Jdwp.Bases.{main_class, constructor_method, main_method}

-- By its identifier the type is found again, and of its two methods the constructor alone.
pub record HidesMain (t : RefTypeId) (types : Types) : Type 0 where
  pub found : findref_byrid types t.ref_clazzid ≡ done (some t)
  pub first : get_method types t.ref_clazzid 1 ≡ done (some constructor_method)
  pub others : (mid : ℕ) → mid ≢ 1 → get_method types t.ref_clazzid mid ≡ done none

find_second :
    (types : Types) (k : ℕ) (head t : RefTypeId) (rest : List RefTypeId)
    → types.list ≡ head ∷ t ∷ rest
    → types.size ≡ suc (suc k)
    → (head.ref_clazzid == t.ref_clazzid) ≡ false
    → findref_byrid types t.ref_clazzid ≡ done (some t)
unfolding findref_byrid find_ref
find_second types k head t rest at size other =
    let this = ==-self t.ref_clazzid in rw (at, size, other, this) refl

get_method-two :
    (types : Types) (t : RefTypeId) (mid : ℕ)
    → findref_byrid types t.ref_clazzid ≡ done (some t)
    → get_method types t.ref_clazzid mid ≡ get_method_loop t.methods.num t.methods.items mid
unfolding get_method
get_method-two types t mid found = rw found refl

hides :
    (types : Types) (t : RefTypeId)
    → findref_byrid types t.ref_clazzid ≡ done (some t)
    → t.methods.num ≡ 2
    → t.methods.items ≡ constructor_method ∷ main_method ∷ []
    → HidesMain t types
unfolding get_method_loop
hides types t found two methods = record {
  found = found;
  first = get_method-two types t 1 found ∙ rw (two, methods) refl;
  others = λ mid other.
      let absent : (1 == mid) ≡ false = ground arith in
      get_method-two types t mid found ∙ rw (two, methods, absent) refl;
}

-- The main class is found by its identifier, but both its methods have the identifier 1: the first,
-- the constructor, is found for it, and for any other nothing, so that `main` is not found. The
-- types are fewer than 2^64 with the two that are added, and the identifiers do not wrap.
pub main_class-HidesMain :
    (types : Types)
    → types.size + 2 < 2 ^ 64
    → types.oid + 1 < 2 ^ 32
    → (t : RefTypeId) × (after : Types) × (main_class types ≡ done (t, after)) × HidesMain t after
unfolding main_class add_class_ref add_ref add_inner_classes_stared_of
main_class-HidesMain types room ids = (
  _,
  _,
  refl,
  hides _ _ (find_second _ types.size _ _ types.list refl (omega arith) (ground arith)) refl refl,
)
