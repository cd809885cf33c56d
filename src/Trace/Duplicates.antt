-- ===== src/Trace/Duplicates.antt =====
-- When the comparison of sizes finds a duplicate.
use samples_python.Base.{
  ◌+◌, ◌≤◌, false, List, [], ◌∷◌, ◌≡◌, ◌↔◌, refl, ◌∙◌, inl, inr, arith, if◌then◌else◌, length,
  length-append, contains, contains-add, add, Distinct, Hashable, Bool-cases,
}
use samples_python.Base.Text.{text_eq}
use samples_python.Trace.{row_eq}
use samples_python.Trace.Check.{set_of, has_duplicates}

module _ {A : Type 0} ⦃e : Hashable A⦄ where
  contains-set_of : (y : A) (xs : List A) → contains y (set_of xs) ≡ contains y xs
  unfolding set_of contains
  contains-set_of y [] = refl
  contains-set_of y (x ∷ xs) = contains-add x y (set_of xs) ∙ ground (arith, contains-set_of y xs)

  length-add :
      (x : A) (xs : List A)
      → length (add x xs) ≡ (if contains x xs then length xs else length xs + 1)
  unfolding add
  length-add x xs = elim (Bool-cases (contains x xs)) [
    | inl there ↦ rw there refl
    | inr new ↦ rw new (length-append xs (x ∷ []))
  ]

  length-set_of : (xs : List A) → length (set_of xs) ≤ length xs
  unfolding set_of
  length-set_of [] = omega arith
  length-set_of (x ∷ xs) = ground (arith, length-set_of xs, length-add x (set_of xs))

  pub has_duplicates-Distinct : (xs : List A) → (has_duplicates xs ≡ false) ↔ Distinct xs
  unfolding set_of
  has_duplicates-Distinct [] = ((λ h. tt), (λ h. refl))
  has_duplicates-Distinct (x ∷ xs) = (
    (λ h. ground (
      arith,
      h,
      has_duplicates-Distinct xs,
      length-set_of xs,
      length-add x (set_of xs),
      contains-set_of x xs,
    )),
    (λ h. ground (
      arith,
      h.0,
      has_duplicates-Distinct xs,
      h.1,
      length-set_of xs,
      length-add x (set_of xs),
      contains-set_of x xs,
    )),
  )
