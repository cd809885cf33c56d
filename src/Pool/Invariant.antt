-- ===== src/Pool/Invariant.antt =====
-- The pool's two tables agree between any two turns of its event loop.
use samples_python.Base.{
  String, Bool, true, false, ◌&&◌, Option, none, some, List, [], ◌∷◌, ◌≡◌, inl, inr, arith,
  if◌then◌else◌, is_none, string_eq, contains, get, set_item, del_item, Unique, get-set_item,
  get-del_item, set_item-Unique, Bool-cases,
}
use samples_python.Pool.{InternalAcquireRequest, Pending, ResourcePoolWorkflow, add_new}

abbrev pub Resources : Type 0
Resources = List (String × Option InternalAcquireRequest)

-- The release key of a resource's holder.
abbrev pub key_of : Option (Option InternalAcquireRequest) → Option String
key_of none = none
key_of (some none) = none
key_of (some (some holder)) = holder.release_signal

abbrev pub is_held : Option (Option InternalAcquireRequest) → Bool
is_held none = false
is_held (some none) = false
is_held (some (some holder)) = true

-- The resource that is being assigned is free, and its key is new.
abbrev pub PendingIsConsistent : Option Pending → Resources → List (String × String) → Type 0
PendingIsConsistent none resources keys = Unit
PendingIsConsistent (some p) resources keys =
    (get p.resource resources ≡ some none) × (get p.release_signal keys ≡ none)

-- Every holder has a release key, and the keys are those of the holders.
pub record Agree (resources : Resources) (keys : List (String × String)) : Type 0 where
  pub keyed :
      (r : String) → is_held (get r resources) ≡ true → is_none (key_of (get r resources)) ≡ false
  pub forward : (k r : String) → get k keys ≡ some r → key_of (get r resources) ≡ some k
  pub backward : (k r : String) → key_of (get r resources) ≡ some k → get k keys ≡ some r

pub record IsConsistent (w : ResourcePoolWorkflow) : Type 0 where
  pub unique : Unique w.resources
  pub agree : Agree w.resources w.release_key_to_resource
  pub awaiting : PendingIsConsistent w.pending w.resources w.release_key_to_resource

pub get-add_new :
    (rs : List String) (r : String) (held : Resources)
    → get r (add_new rs held)
      ≡ (if is_none (get r held) && contains r rs then some none else get r held)
unfolding add_new contains
get-add_new [] r held = ground arith
get-add_new (x ∷ rs) r held = ground (
  arith,
  string_eq.same_iff r x,
  get-add_new rs r (if is_none (get x held) then set_item x none held else held),
  get-set_item x r none held,
)

pub add_new-Unique : (rs : List String) (held : Resources) → Unique held → Unique (add_new rs held)
unfolding add_new
add_new-Unique [] held u = u
add_new-Unique (x ∷ rs) held u = elim (Bool-cases (is_none (get x held))) [
  | inl new ↦ rw new (add_new-Unique rs (set_item x none held) (set_item-Unique x none held u))
  | inr old ↦ rw old (add_new-Unique rs held u)
]

pub add_new-Agree :
    (rs : List String) (held : Resources) (keys : List (String × String))
    → Agree held keys
    → Agree (add_new rs held) keys
add_new-Agree rs held keys a = record {
  keyed = λ r. ground (arith, get-add_new rs r held, a.keyed r);
  forward = λ k r. ground (arith, get-add_new rs r held, a.forward k r);
  backward = λ k r. ground (arith, get-add_new rs r held, a.backward k r);
}

-- A release takes the holder and its key out together.
pub release-Agree :
    (held : Resources) (keys : List (String × String)) (k r : String)
    → get k keys ≡ some r
    → Agree held keys
    → Agree (set_item r none held) (del_item k keys)
release-Agree held keys k r e a = record {
  keyed = λ r'. ground (arith, get-set_item r r' none held, a.keyed r');
  forward = λ k' r'. ground (
    arith,
    get-set_item r r' none held,
    get-del_item k k' keys,
    string_eq.same_iff r' r,
    string_eq.same_iff k' k,
    a.forward k r,
    a.forward k' r',
  );
  backward = λ k' r'. ground (
    arith,
    get-set_item r r' none held,
    get-del_item k k' keys,
    string_eq.same_iff r' r,
    string_eq.same_iff k' k,
    a.forward k r,
    a.backward k' r',
  );
}

pub register-Agree :
    (held : Resources) (keys : List (String × String)) (p : Pending)
    → PendingIsConsistent (some p) held keys
    → Agree held keys
    → Agree
        (set_item p.resource
          (some (record (p.internal_request) { release_signal = some p.release_signal }))
          held)
        (set_item p.release_signal p.resource keys)
register-Agree held keys p (free, new) a =
    let h = record (p.internal_request) { release_signal = some p.release_signal } in
    record {
      keyed = λ r. ground (arith, get-set_item p.resource r (some h) held, a.keyed r);
      forward = λ k r. ground (
        arith,
        get-set_item p.resource r (some h) held,
        get-set_item p.release_signal k p.resource keys,
        string_eq.same_iff r p.resource,
        string_eq.same_iff k p.release_signal,
        a.forward k r,
      );
      backward = λ k r. ground (
        arith,
        get-set_item p.resource r (some h) held,
        get-set_item p.release_signal k p.resource keys,
        string_eq.same_iff r p.resource,
        string_eq.same_iff k p.release_signal,
        a.backward k r,
      );
    }
