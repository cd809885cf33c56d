-- ===== src/Pool/Rebuild.antt =====
-- `__init__` rebuilds the table of release keys from the holders.
use samples_python.Base.{
  String, false, Option, none, some, List, [], ◌∷◌, ◌≡◌, refl, sym, ◌∙◌, inl, inr, ◌⊎◌, arith,
  if◌then◌else◌, is_none, string_eq, get, set_item, Unique, get-set_item, ◌==◌, Option-cases,
}
use samples_python.Pool.{
  InternalAcquireRequest, ResourcePoolWorkflow, index_holder, index_keys, init, next_input,
}
use samples_python.Pool.Invariant.{Resources, key_of, Agree, IsConsistent}

-- What the table answers for `k` once the key `key` of the resource `x` is in it.
abbrev added : Option String → String → String → Option String → Option String
added none x k before = before
added (some key) x k before = if k == key then some x else before

get-index_holder :
    (x k : String) (h : Option InternalAcquireRequest) (keys : List (String × String))
    → get k (index_holder x h keys) ≡ added (key_of (some h)) x k (get k keys)
unfolding index_holder
get-index_holder x k none keys = refl
get-index_holder x k (some h) keys = go h.release_signal
  where
    go :
        (o : Option String)
        → get k (elim o [ none ↦ keys | some j ↦ set_item j x keys ]) ≡ added o x k (get k keys)
    go none = refl
    go (some j) = get-set_item j k x keys

added_cases :
    (o : Option String) (x k r : String) (before : Option String)
    → added o x k before ≡ some r
    → (before ≡ some r) ⊎ ((o ≡ some k) × (x ≡ r))
added_cases none x k r before e = inl e
added_cases (some key) x k r before e = ground (arith, string_eq.same_iff k key)

-- A key in the rebuilt table is that of a holder.
index_keys_sound :
    (items : Resources) (keys : List (String × String)) (k r : String)
    → Unique items
    → get k (index_keys items keys) ≡ some r
    → (get k keys ≡ some r) ⊎ (key_of (get r items) ≡ some k)
unfolding index_keys get
index_keys_sound [] keys k r u e = inl e
index_keys_sound ((x, none) ∷ items) keys k r u e = ground (
  arith,
  index_keys_sound items (index_holder x none keys) k r u.1 e,
  get-index_holder x k none keys,
  string_eq.same_iff r x,
)
index_keys_sound ((x, some h) ∷ items) keys k r u e = ground (
  arith,
  index_keys_sound items (index_holder x (some h) keys) k r u.1 e,
  get-index_holder x k (some h) keys,
  string_eq.same_iff r x,
  string_eq.same_iff r r,
  added_cases h.release_signal x k r (get k keys),
)

index_keys_keeps :
    (items : Resources) (keys : List (String × String)) (k : String)
    → is_none (get k keys) ≡ false
    → is_none (get k (index_keys items keys)) ≡ false
unfolding index_keys
index_keys_keeps [] keys k e = e
index_keys_keeps ((x, h) ∷ items) keys k e =
    index_keys_keeps items (index_holder x h keys) k (ground (arith, get-index_holder x k h keys))

-- The key of each holder is in it.
index_keys_complete :
    (items : Resources) (keys : List (String × String)) (k r : String)
    → key_of (get r items) ≡ some k
    → is_none (get k (index_keys items keys)) ≡ false
unfolding index_keys get
index_keys_complete [] keys k r e = cc
index_keys_complete ((x, h) ∷ items) keys k r e = ground (
  arith,
  index_keys_complete items (index_holder x h keys) k r,
  index_keys_keeps items (index_holder x h keys) k,
  get-index_holder x k h keys,
  string_eq.same_iff k k,
  string_eq.same_iff r x,
)

module _ (held : Resources) (keys : List (String × String)) (u : Unique held)
    (a : Agree held keys) where
  get-index_keys-some : (k r : String) → get k keys ≡ some r → get k (index_keys held []) ≡ some r
  unfolding get
  get-index_keys-some k r e = elim (Option-cases (get k (index_keys held []))) [
    | inl gone ↦ ground (arith, index_keys_complete held [] k r (a.forward k r e))
    | inr (r', e') ↦ ground (arith, index_keys_sound held [] k r' u e', a.backward k r')
  ]

  get-index_keys-none : (k : String) → get k keys ≡ none → get k (index_keys held []) ≡ none
  unfolding get
  get-index_keys-none k e = elim (Option-cases (get k (index_keys held []))) [
    | inl gone ↦ gone
    | inr (r', e') ↦ ground (arith, index_keys_sound held [] k r' u e', a.backward k r')
  ]

  -- The rebuilt table answers as the old one.
  pub get-index_keys : (k : String) → get k (index_keys held []) ≡ get k keys
  get-index_keys k = elim (Option-cases (get k keys)) [
    | inl gone ↦ get-index_keys-none k gone ∙ sym gone
    | inr (r, e) ↦ get-index_keys-some k r e ∙ sym e
  ]

  pub index_keys-Agree : Agree held (index_keys held [])
  index_keys-Agree = record {
    keyed = a.keyed;
    forward = λ k r e. a.forward k r (sym (get-index_keys k) ∙ e);
    backward = λ k r e. get-index_keys k ∙ a.backward k r e;
  }

-- Continuing as new loses no release key: the run that follows has the same resources, holders and
-- waiters, and its `__init__` rebuilds a table that gives every release key the same resource.
pub init-next_input :
    (w : ResourcePoolWorkflow)
    → IsConsistent w
    → let next = init (next_input w) in
      (next.resources ≡ w.resources)
      × (next.waiters ≡ w.waiters)
      × ((k : String) → get k next.release_key_to_resource ≡ get k w.release_key_to_resource)
unfolding init next_input
init-next_input w v =
    (refl, refl, get-index_keys w.resources w.release_key_to_resource v.unique v.agree)
