-- ===== src/Window/Sets.antt =====
-- Sets of record ids as lists without repetition.
use samples_python.Base.{
  ℕ, ◌+◌, ◌<◌, ◌≤◌, true, false, List, [], ◌∷◌, ◌++◌, ◌≡◌, refl, arith, length, All, All-append,
  nat_eq, contains, add, remove, Distinct, contains-remove, contains-append,
}

abbrev pub Below : ℕ → List ℕ → Type 0
Below n ids = All (λ id. id < n) ids

pub Below-mono : (m n : ℕ) (ids : List ℕ) → m ≤ n → Below m ids → Below n ids
Below-mono m n [] h b = tt
Below-mono m n (id ∷ ids) h b = (omega arith, Below-mono m n ids h b.1)

pub not-contains-Below : (n : ℕ) (ids : List ℕ) → Below n ids → contains n ids ≡ false
unfolding contains
not-contains-Below n [] b = refl
not-contains-Below n (id ∷ ids) b = ground (arith, not-contains-Below n ids b.1)

pub remove-Below : (a n : ℕ) (ids : List ℕ) → Below n ids → Below n (remove a ids)
unfolding remove
remove-Below a n [] b = tt
remove-Below a n (id ∷ ids) b = ground (arith, remove-Below a n ids b.1)

pub remove-Distinct : (a : ℕ) (ids : List ℕ) → Distinct ids → Distinct (remove a ids)
unfolding remove
remove-Distinct a [] d = tt
remove-Distinct a (id ∷ ids) d = ground (arith, remove-Distinct a ids d.1, contains-remove a id ids)

remove_absent : (a : ℕ) (ids : List ℕ) → contains a ids ≡ false → remove a ids ≡ ids
unfolding contains remove
remove_absent a [] h = refl
remove_absent a (id ∷ ids) h = ground (arith, remove_absent a ids)

pub length-remove :
    (a : ℕ) (ids : List ℕ)
    → Distinct ids
    → contains a ids ≡ true
    → length (remove a ids) + 1 ≡ length ids
unfolding contains remove
length-remove a [] d h = cc
length-remove a (id ∷ ids) d h = ground (arith, length-remove a ids d.1, remove_absent a ids)

append-Distinct :
    (a : ℕ) (ids : List ℕ) → Distinct ids → contains a ids ≡ false → Distinct (ids ++ a ∷ [])
unfolding contains
append-Distinct a [] d h = (refl, tt)
append-Distinct a (id ∷ ids) d h =
    ground (arith, append-Distinct a ids d.1, contains-append id ids (a ∷ []))

-- Adding an id above all others.
pub add_fresh : (n : ℕ) (ids : List ℕ) → Below n ids → add n ids ≡ ids ++ n ∷ []
unfolding add
add_fresh n ids b = ground (arith, not-contains-Below n ids b)

pub add_fresh-Distinct :
    (n : ℕ) (ids : List ℕ) → Distinct ids → Below n ids → Distinct (ids ++ n ∷ [])
add_fresh-Distinct n ids d b = append-Distinct n ids d (not-contains-Below n ids b)

pub add_fresh-Below : (n : ℕ) (ids : List ℕ) → Below n ids → Below (n + 1) (ids ++ n ∷ [])
add_fresh-Below n ids b =
    All-append (λ id. id < n + 1) ids (n ∷ []) (Below-mono n (n + 1) ids (omega arith) b)
      (omega arith, tt)
