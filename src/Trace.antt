-- ===== src/Trace.antt =====
-- langfuse_tracing/verify_trace.py: a check of the tree of observations that a trace has. What the
-- API answers is given as records; a text is its UTF-8 bytes, whose order is that of the characters.
pub mod Expected
pub mod Descent
pub mod Check
mod Duplicates
mod Stable
pub mod Verify
mod Tests
use samples_python.Base.{
  ℕ, suc, ◌+◌, nat_eq, Bool, true, false, ◌&&◌, ◌||◌, not, Option, none, some, List, [], ◌∷◌, ◌++◌,
  map, if◌then◌else◌, ltb, nat_beq, length, get, set_item, contains, Hashable, ◌≡◌, ◌↔◌, arith,
  ◌==◌, select,
}
use samples_python.Base.Text.{Text, text, text_eq}

pub record Observation : Type 0 where
  pub id : Text
  pub parent_observation_id : Option Text
  pub name : Text
  pub type : Text
  pub model : Option Text
  pub usage_input : Option ℕ
  pub usage_output : Option ℕ
  pub input : Option Text
  pub output : Option Text

pub record LangfuseTrace : Type 0 where
  pub observations : List Observation
  pub name : Option Text
  pub session_id : Option Text
  pub user_id : Option Text
  pub tags : List Text

-- A row of the tree: the depth, the name and the type.
abbrev pub Row : Type 0
Row = (ℕ × Text) × Text

pub row_beq_iff : (j k : Row) → ((j.0.0 == k.0.0 && j.0.1 == k.0.1 && j.1 == k.1) ≡ true) ↔ (j ≡ k)
row_beq_iff j k =
    ground
      (arith, nat_eq.same_iff j.0.0 k.0.0, text_eq.same_iff j.0.1 k.0.1, text_eq.same_iff j.1 k.1)

instance abbrev pub row_eq : Hashable Row
row_eq = record {
  same = λ j k. j.0.0 == k.0.0 && j.0.1 == k.0.1 && j.1 == k.1;
  same_iff = row_beq_iff;
}

abbrev same_parent : Option Text → Option Text → Bool
same_parent none none = true
same_parent none (some t) = false
same_parent (some s) none = false
same_parent (some s) (some t) = s == t

pub same_parent_iff : (p q : Option Text) → (same_parent p q ≡ true) ↔ (p ≡ q)
same_parent_iff none none = ground arith
same_parent_iff none (some t) = ground arith
same_parent_iff (some s) none = ground arith
same_parent_iff (some s) (some t) = ground (arith, text_eq.same_iff s t)

instance abbrev pub parent_eq : Hashable (Option Text)
parent_eq = record { same = same_parent; same_iff = same_parent_iff }

abbrev pub generation : Text
generation = text "GENERATION"

-- `_normalized_name`
unfoldable pub normalized_name : Observation → Text
normalized_name o = if o.type == generation then text "<generation>" else o.name

abbrev pub or_nil : Option (List Observation) → List Observation
or_nil none = []
or_nil (some os) = os

-- `children.setdefault(parent, []).append(observation)`, for each observation
unfoldable pub children_from :
    List (Option Text × List Observation) → List Observation → List (Option Text × List Observation)
children_from children [] = children
children_from children (o ∷ os) =
    let siblings = or_nil (get o.parent_observation_id children) in
    children_from (set_item o.parent_observation_id (siblings ++ o ∷ []) children) os

-- `<=` on texts
unfoldable pub text_leb : Text → Text → Bool
text_leb [] t = true
text_leb (c ∷ cs) [] = false
text_leb (c ∷ cs) (d ∷ ds) = if nat_beq c d then text_leb cs ds else ltb c d

-- `sorted(observations, key=lambda o: str(o["name"]))`
abbrev pub insert_by_name : Observation → List Observation → List Observation
insert_by_name o [] = o ∷ []
insert_by_name o (p ∷ ps) = if text_leb o.name p.name then o ∷ p ∷ ps else p ∷ insert_by_name o ps

abbrev pub sorted_by_name : List Observation → List Observation
sorted_by_name [] = []
sorted_by_name (o ∷ os) = insert_by_name o (sorted_by_name os)

abbrev pub joined : Option (List Row) → Option (List Row) → Option (List Row)
joined none rows = none
joined (some xs) none = none
joined (some xs) (some ys) = some (xs ++ ys)

abbrev pub below : Row → Option (List Row) → Option (List Row)
below row none = none
below row (some rows) = some (row ∷ rows)

-- `walk`, for each of a list of observations; `none` where the recursion is deeper than the fuel.
unfoldable pub walk_all :
    (fuel : ℕ)
    → List (Option Text × List Observation)
    → (depth : ℕ) → List Observation
    → Option (List Row)
unfolding normalized_name
walk_all ℕ.zero children depth [] = some []
walk_all ℕ.zero children depth (o ∷ os) = none
walk_all (suc fuel) children depth [] = some []
walk_all (suc fuel) children depth (o ∷ os) =
    let subtree =
      walk_all fuel children (depth + 1) (sorted_by_name (or_nil (get (some o.id) children))) in
    joined (below ((depth, normalized_name o), o.type) subtree)
      (walk_all (suc fuel) children depth os)

-- `_build_tree`
unfoldable pub build_tree : List Observation → Option (List Row)
unfolding walk_all children_from
build_tree observations =
    let children = children_from [] observations in
    walk_all (suc (length observations)) children 0 (sorted_by_name (or_nil (get none children)))
