-- ===== src/Base/Dict.antt =====
-- Python's dict: an association list in insertion order. Assignment to a key that is present
-- keeps its place.
use mathlib.Core.Path.{◌≡◌, refl}
use mathlib.Core.Bool.{Bool, false}
use mathlib.Core.Option.{Option, none, some}
use mathlib.Core.List.{List, [], ◌∷◌}
use native.Mathlib.Omega.{arith}
use samples_python.Base.Tests.{if◌then◌else◌}
use samples_python.Base.Eq.{Hashable, ◌==◌, contains}

-- `test` of the value under a key, false where there is none.
abbrev pub holds {ℓ} : {V : Type ℓ} → (V → Bool) → Option V → Bool
holds test none = false
holds test (some v) = test v

module _ {ℓ κ} {K : Type ℓ} {V : Type κ} ⦃e : Hashable K⦄ where
  -- `d.get(k)`
  unfoldable pub get : K → List (K × V) → Option V
  get k [] = none
  get k ((j, v) ∷ d) = if k == j then some v else get k d

  -- `d[k] = v`
  unfoldable pub set_item : K → V → List (K × V) → List (K × V)
  set_item k v [] = (k, v) ∷ []
  set_item k v ((j, w) ∷ d) = if k == j then (j, v) ∷ d else (j, w) ∷ set_item k v d

  -- `del d[k]`
  unfoldable pub del_item : K → List (K × V) → List (K × V)
  del_item k [] = []
  del_item k ((j, w) ∷ d) = if k == j then del_item k d else (j, w) ∷ del_item k d

  -- `for k in ks: d[k] = v`
  unfoldable pub set_all : List K → V → List (K × V) → List (K × V)
  unfolding set_item
  set_all [] v d = d
  set_all (k ∷ ks) v d = set_all ks v (set_item k v d)

  -- `[k for k, v in d.items() if test(v)]`
  unfoldable pub keys_where : (V → Bool) → List (K × V) → List K
  keys_where test [] = []
  keys_where test ((j, v) ∷ d) = if test v then j ∷ keys_where test d else keys_where test d

  -- Each key stands once.
  abbrev pub Unique : List (K × V) → Type κ
  Unique [] = Unit
  Unique ((j, v) ∷ d) = (get j d ≡ none) × Unique d

  pub get-set_item :
      (k j : K) (v : V) (d : List (K × V))
      → get j (set_item k v d) ≡ (if j == k then some v else get j d)
  unfolding get set_item
  get-set_item k j v [] = refl
  get-set_item k j v ((i, w) ∷ d) =
      ground (arith, e.same_iff j k, e.same_iff k i, e.same_iff j i, get-set_item k j v d)

  pub get-del_item :
      (k j : K) (d : List (K × V)) → get j (del_item k d) ≡ (if j == k then none else get j d)
  unfolding get del_item
  get-del_item k j [] = ground arith
  get-del_item k j ((i, w) ∷ d) =
      ground (arith, e.same_iff j k, e.same_iff k i, e.same_iff j i, get-del_item k j d)

  pub get-set_all :
      (ks : List K) (j : K) (v : V) (d : List (K × V))
      → get j (set_all ks v d) ≡ (if contains j ks then some v else get j d)
  unfolding set_all contains
  get-set_all [] j v d = refl
  get-set_all (k ∷ ks) j v d =
      ground (arith, get-set_all ks j v (set_item k v d), get-set_item k j v d)

  pub set_item-Unique : (k : K) (v : V) (d : List (K × V)) → Unique d → Unique (set_item k v d)
  unfolding set_item get
  set_item-Unique k v [] u = (refl, tt)
  set_item-Unique k v ((i, w) ∷ d) u =
      ground
        (arith, set_item-Unique k v d u.1, get-set_item k i v d, e.same_iff k i, e.same_iff i k)

  pub set_all-Unique : (ks : List K) (v : V) (d : List (K × V)) → Unique d → Unique (set_all ks v d)
  unfolding set_all
  set_all-Unique [] v d u = u
  set_all-Unique (k ∷ ks) v d u = set_all-Unique ks v (set_item k v d) (set_item-Unique k v d u)

  pub del_item-Unique : (k : K) (d : List (K × V)) → Unique d → Unique (del_item k d)
  unfolding del_item
  del_item-Unique k [] u = tt
  del_item-Unique k ((i, w) ∷ d) u = ground (arith, del_item-Unique k d u.1, get-del_item k i d)

  -- A key is selected exactly if the dict holds a value for it that passes the test.
  pub contains-keys_where :
      (test : V → Bool) (k : K) (d : List (K × V))
      → Unique d
      → contains k (keys_where test d) ≡ holds test (get k d)
  unfolding contains keys_where get
  contains-keys_where test k [] u = refl
  contains-keys_where test k ((j, v) ∷ d) u =
      ground (arith, e.same_iff k j, contains-keys_where test k d u.1)
