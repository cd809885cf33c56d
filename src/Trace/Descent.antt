-- ===== src/Trace/Descent.antt =====
-- The recursion over the tree of observations ends where their ids are distinct.
use samples_python.Base.{
  ℕ, suc, zero, ◌+◌, ◌≤◌, ◌<◌, true, false, Option, none, some, List, [], ◌∷◌, ◌++◌, map, ◌≡◌, ◌≢◌,
  refl, sym, ◌∙◌, ap, inl, inr, arith, if◌then◌else◌, length, length-map, contains, contains-remove,
  remove, Distinct, ◌==◌, Hashable, All, All-append, All-map, Bool-cases, subst, get, set_item,
  get-set_item, eq_refl,
}
use samples_python.Base.Text.{Text, text_eq}
use samples_python.Trace.{
  Observation, Row, parent_eq, children_from, or_nil, sorted_by_name, insert_by_name, joined, below,
  walk_all, build_tree, text_leb, normalized_name,
}

module _ {A : Type 0} ⦃e : Hashable A⦄ where
  length-remove :
      (a : A) (ys : List A)
      → (length (remove a ys) ≤ length ys)
        × (contains a ys ≡ true → length (remove a ys) < length ys)
  unfolding remove contains
  length-remove a [] = ground arith
  length-remove a (y ∷ ys) = ground (arith, length-remove a ys)

  within-remove :
      (a : A) (xs ys : List A)
      → contains a xs ≡ false
      → All (λ x. contains x ys ≡ true) xs
      → All (λ x. contains x (remove a ys) ≡ true) xs
  unfolding contains
  within-remove a [] ys _ _ = tt
  within-remove a (x ∷ xs) ys new within = (
    ground (arith, new, within.0, contains-remove a x ys),
    within-remove a xs ys (ground (arith, new)) within.1,
  )

  -- Distinct entries of a list are no more than the list has.
  length-Distinct :
      (xs ys : List A) → Distinct xs → All (λ x. contains x ys ≡ true) xs → length xs ≤ length ys
  length-Distinct [] ys _ _ = omega arith
  length-Distinct (x ∷ xs) ys distinct within =
      let fewer =
        length-Distinct xs (remove x ys) distinct.1 (within-remove x xs ys distinct.0 within.1) in
      ground (arith, fewer, (length-remove x ys).1 within.0)

  -- The entry after one that is in a list.
  abbrev next : A → List A → Option A
  next a [] = none
  next a (x ∷ []) = none
  next a (x ∷ y ∷ ys) = if a == x then some y else next a (y ∷ ys)

  next-contains : (a b x : A) (ys : List A) → next a (x ∷ ys) ≡ some b → contains b ys ≡ true
  unfolding contains
  next-contains a b x [] h = ground (arith, h)
  next-contains a b x (y ∷ ys) h = ground (arith, h, next-contains a b y ys, e.same_iff b y)

abbrev head : List Text → Option Text
head [] = none
head (t ∷ ts) = some t

ids : List Observation → List Text
ids os = map (λ (o : Observation). o.id) os

-- The parent of the first observation with an id.
abbrev parent_of : List Observation → Text → Option (Option Text)
parent_of [] i = none
parent_of (o ∷ os) i = if i == o.id then some o.parent_observation_id else parent_of os i

contains-ids :
    (os : List Observation) (i : Text) (p : Option Text)
    → parent_of os i ≡ some p
    → contains i (ids os) ≡ true
unfolding contains ids
contains-ids [] i p h = ground (arith, h)
contains-ids (o ∷ os) i p h = ground (arith, h, contains-ids os i p)

-- The ids from an observation up to its root.
abbrev Ascent : List Observation → List Text → Type 0
Ascent os [] = Unit
Ascent os (i ∷ up) = (parent_of os i ≡ some (head up)) × Ascent os up

next-Ascent :
    (os : List Observation) (i : Text) (up : List Text)
    → Ascent os up
    → contains i up ≡ true
    → parent_of os i ≡ some (next i up)
unfolding contains
next-Ascent os i [] _ there = ground (arith, there)
next-Ascent os i (j ∷ []) path there = ground (arith, path.0, there, text_eq.same_iff i j)
next-Ascent os i (j ∷ k ∷ up) path there =
    ground (arith, path.0, there, text_eq.same_iff i j, next-Ascent os i (k ∷ up) path.1)

some_injective {ℓ} : {A : Type ℓ} {a b : A} → some a ≡ some b → a ≡ b
some_injective e = ground (arith, e)

-- A child is not on the path up from its parent.
child-new :
    (os : List Observation) (i : Text) (up : List Text)
    → Ascent os up
    → Distinct up
    → parent_of os i ≡ some (head up)
    → contains i up ≡ false
unfolding contains
child-new os i [] path distinct child = refl
child-new os i (j ∷ up) path distinct child = elim (Bool-cases (contains i (j ∷ up))) [
  | inr new ↦ new
  | inl there ↦
      let same = sym (next-Ascent os i (j ∷ up) path there) ∙ child in
      let again : contains j up ≡ true = next-contains i j j up (some_injective same) in
      ground (arith, again, distinct.0)
]

within-ids :
    (os : List Observation) (up : List Text)
    → Ascent os up
    → All (λ i. contains i (ids os) ≡ true) up
within-ids os [] path = tt
within-ids os (i ∷ up) path = (contains-ids os i (head up) path.0, within-ids os up path.1)

-- The children under a key are observations whose parent is that key.
abbrev Children : List Observation → List (Option Text × List Observation) → Type 0
Children os children =
    (key : Option Text) → All (λ o. parent_of os o.id ≡ some key) (or_nil (get key children))

insert_by_name-All {ℓ} :
    (P : Observation → Type ℓ) (o : Observation) (os : List Observation)
    → P o
    → All P os
    → All P (insert_by_name o os)
insert_by_name-All P o [] h k = (h, tt)
insert_by_name-All P o (p ∷ os) h k = elim (Bool-cases (text_leb o.name p.name)) [
  | inl first ↦ rw first (h, k)
  | inr later ↦ rw later (k.0, insert_by_name-All P o os h k.1)
]

sorted_by_name-All {ℓ} :
    (P : Observation → Type ℓ) (os : List Observation) → All P os → All P (sorted_by_name os)
sorted_by_name-All P [] h = tt
sorted_by_name-All P (o ∷ os) h =
    insert_by_name-All P o (sorted_by_name os) h.0 (sorted_by_name-All P os h.1)

children_from-Children :
    (os : List Observation) (children : List (Option Text × List Observation))
    (rest : List Observation)
    → Children os children
    → All (λ o. parent_of os o.id ≡ some o.parent_observation_id) rest
    → Children os (children_from children rest)
unfolding children_from
children_from-Children os children [] good _ = good
children_from-Children os children (o ∷ rest) good own =
    let key = o.parent_observation_id in
    let siblings = or_nil (get key children) ++ o ∷ [] in
    children_from-Children os (set_item key siblings children) rest
      (λ j. elim (Bool-cases (j == key)) [
        | inl same ↦
            let at_key : j ≡ key = (parent_eq.same_iff j key).0 same in
            rw (get-set_item key j siblings children, same)
              (All-append (λ p. parent_of os p.id ≡ some j) (or_nil (get key children)) (o ∷ [])
                (subst (λ k. All (λ p. parent_of os p.id ≡ some j) (or_nil (get k children))) at_key
                  (good j))
                (own.0 ∙ ap some (sym at_key), tt))
        | inr other ↦ rw (get-set_item key j siblings children, other) (good j)
      ])
      own.1

own_parents :
    (os : List Observation)
    → Distinct (ids os)
    → All (λ o. parent_of os o.id ≡ some o.parent_observation_id) os
unfolding ids
own_parents [] _ = tt
own_parents (o ∷ os) distinct = (
  rw (eq_refl o.id) refl,
  All-map (λ p. (parent_of os p.id ≡ some p.parent_observation_id))
      (λ p. parent_of (o ∷ os) p.id ≡ some p.parent_observation_id)
      (λ p h. ground (
        arith,
        h,
        distinct.0,
        text_eq.same_iff p.id o.id,
        contains-ids os p.id p.parent_observation_id h,
      ))
      os (own_parents os distinct.1),
)

joined-some :
    (row : Row) (xs ys : Option (List Row))
    → xs ≢ none
    → ys ≢ none
    → joined (below row xs) ys ≢ none
joined-some row none ys h k = ground (arith, h)
joined-some row (some xs) none h k = ground (arith, k)
joined-some row (some xs) (some ys) h k = ground arith

walk_all-some :
    (os : List Observation) (children : List (Option Text × List Observation)) (fuel depth : ℕ)
    (up : List Text) (rest : List Observation)
    → Children os children
    → Ascent os up
    → Distinct up
    → fuel + length up ≡ suc (length os)
    → All (λ o. parent_of os o.id ≡ some (head up)) rest
    → walk_all fuel children depth rest ≢ none
unfolding walk_all ids
walk_all-some os children zero depth up [] good path distinct enough own = ground arith
walk_all-some os children zero depth up (o ∷ rest) good path distinct enough own =
    let short : length up ≤ length (ids os) =
      length-Distinct up (ids os) distinct (within-ids os up path) in
    let size : length (ids os) ≡ length os = length-map (λ (o : Observation). o.id) os in
    omega (arith, short, size, enough)
walk_all-some os children (suc fuel) depth up [] good path distinct enough own = ground arith
walk_all-some os children (suc fuel) depth up (o ∷ rest) good path distinct enough own =
    let new = child-new os o.id up path distinct own.0 in
    let key = some o.id in
    joined-some ((depth, normalized_name o), o.type)
      (walk_all fuel children (depth + 1) (sorted_by_name (or_nil (get key children))))
      (walk_all (suc fuel) children depth rest)
      (walk_all-some os children fuel (depth + 1) (o.id ∷ up)
        (sorted_by_name (or_nil (get key children))) good (own.0, path) (new, distinct)
        (omega (arith, enough))
        (sorted_by_name-All (λ p. parent_of os p.id ≡ some key) (or_nil (get key children))
          (good key)))
      (walk_all-some os children (suc fuel) depth up rest good path distinct enough own.1)

-- Where the ids of the observations are distinct, the recursion over the tree of observations ends
-- and gives rows, whatever their parents are.
pub build_tree-some :
    (os : List Observation) → Distinct (map (λ (o : Observation). o.id) os) → build_tree os ≢ none
unfolding build_tree ids get
build_tree-some os distinct =
    let children = children_from [] os in
    let good = children_from-Children os [] os (λ key. tt) (own_parents os distinct) in
    walk_all-some os children (suc (length os)) 0 [] (sorted_by_name (or_nil (get none children)))
      good tt tt (omega arith)
      (sorted_by_name-All (λ p. parent_of os p.id ≡ some none) (or_nil (get none children))
        (good none))
