-- ===== src/Codec/Decode.antt =====
-- The index loop of `_decode_non_refs` decodes each payload that is no reference, in its place.
use samples_python.Base.{
  ◌>>=◌, ℕ, suc, ◌+◌, true, false, some, List, [], ◌∷◌, ◌++◌, map, ◌≡◌, refl, sym, ◌∙◌, ap, inl,
  inr, arith, if◌then◌else◌, not, Bool-cases, select, All, length,
}
use samples_python.Codec.Storage.{Payload, PayloadCodec}
use samples_python.Codec.{
  is_storage_reference, non_ref_idx, select_one, select_indices, set_at, set_indices,
  decode_non_refs,
}

-- The payloads that are no references.
abbrev pub non_refs : List Payload → List Payload
non_refs = select (λ p. not (is_storage_reference p))

-- The payloads with those that are no references replaced, in order.
abbrev pub merge : (decoded payloads : List Payload) → List Payload
merge decoded [] = []
merge [] (p ∷ ps) = p ∷ ps
merge (d ∷ ds) (p ∷ ps) = if is_storage_reference p then p ∷ merge (d ∷ ds) ps else d ∷ merge ds ps

-- `n` more than each index.
abbrev shift : List ℕ → List ℕ
shift = map suc

non_ref_idx-suc : (i : ℕ) (ps : List Payload) → non_ref_idx (i + 1) ps ≡ shift (non_ref_idx i ps)
unfolding non_ref_idx
non_ref_idx-suc i [] = refl
non_ref_idx-suc i (p ∷ ps) = elim (Bool-cases (is_storage_reference p)) [
  | inl ref ↦ rw ref (non_ref_idx-suc (i + 1) ps)
  | inr plain ↦ rw plain (
      let step : i + 1 ≡ suc i = omega arith in
      ap (λ (j : ℕ). j ∷ non_ref_idx (i + 1 + 1) ps) step
      ∙ ap (λ (js : List ℕ). suc i ∷ js) (non_ref_idx-suc (i + 1) ps))
]

select_indices-shift :
    (p : Payload) (ps : List Payload) (is : List ℕ)
    → select_indices (p ∷ ps) (shift is) ≡ select_indices ps is
unfolding select_indices
select_indices-shift p ps [] = refl
select_indices-shift p ps (i ∷ is) =
    ap (λ (rest : List Payload). select_one ps i ++ rest) (select_indices-shift p ps is)

set_indices-shift :
    (p : Payload) (is : List ℕ) (ds ps : List Payload)
    → set_indices (shift is) ds (p ∷ ps) ≡ p ∷ set_indices is ds ps
unfolding set_indices
set_indices-shift p [] ds ps = refl
set_indices-shift p (i ∷ is) [] ps = refl
set_indices-shift p (i ∷ is) (d ∷ ds) ps = set_indices-shift p is ds (set_at i d ps)

select_indices-non_ref_idx :
    (ps : List Payload) → select_indices ps (non_ref_idx 0 ps) ≡ non_refs ps
unfolding non_ref_idx select_indices
select_indices-non_ref_idx [] = refl
select_indices-non_ref_idx (p ∷ ps) =
    let rest : select_indices (p ∷ ps) (non_ref_idx (0 + 1) ps) ≡ non_refs ps =
      ap (select_indices (p ∷ ps)) (non_ref_idx-suc 0 ps)
      ∙ select_indices-shift p ps (non_ref_idx 0 ps)
      ∙ select_indices-non_ref_idx ps in
    elim (Bool-cases (is_storage_reference p)) [
      | inl ref ↦ rw ref rest
      | inr plain ↦ rw plain (ap (λ (qs : List Payload). p ∷ qs) rest)
    ]

merge_nil : (ps : List Payload) → merge [] ps ≡ ps
merge_nil [] = refl
merge_nil (p ∷ ps) = refl

merge_cons :
    (p : Payload) (ds ps : List Payload)
    → is_storage_reference p ≡ true
    → merge ds (p ∷ ps) ≡ p ∷ merge ds ps
merge_cons p [] ps e = ap (λ (qs : List Payload). p ∷ qs) (sym (merge_nil ps))
merge_cons p (d ∷ ds) ps e = rw e refl

-- The first payload is no reference.
set_indices_first :
    (p : Payload) (ds ps : List Payload)
    → ((es : List Payload) (q : Payload)
        → set_indices (non_ref_idx 1 ps) es (q ∷ ps) ≡ q ∷ merge es ps)
    → is_storage_reference p ≡ false
    → set_indices (0 ∷ non_ref_idx 1 ps) ds (p ∷ ps) ≡ merge ds (p ∷ ps)
unfolding set_indices
set_indices_first p [] ps rest plain = refl
set_indices_first p (d ∷ ds) ps rest plain = rw plain (rest ds d)

set_indices-non_ref_idx :
    (ds ps : List Payload) → set_indices (non_ref_idx 0 ps) ds ps ≡ merge ds ps
unfolding non_ref_idx
set_indices-non_ref_idx [] [] = unfold set_indices in refl
set_indices-non_ref_idx (d ∷ ds) [] = unfold set_indices in refl
set_indices-non_ref_idx ds (p ∷ ps) =
    let rest : (es : List Payload) (q : Payload)
        → set_indices (non_ref_idx (0 + 1) ps) es (q ∷ ps) ≡ q ∷ merge es ps =
      λ es q.
        ap (λ (is : List ℕ). set_indices is es (q ∷ ps)) (non_ref_idx-suc 0 ps)
        ∙ set_indices-shift q (non_ref_idx 0 ps) es ps
        ∙ ap (λ (qs : List Payload). q ∷ qs) (set_indices-non_ref_idx es ps) in
    elim (Bool-cases (is_storage_reference p)) [
      | inl ref ↦ rw ref (rest ds p ∙ sym (merge_cons p ds ps ref))
      | inr plain ↦ rw plain (set_indices_first p ds ps rest plain)
    ]

-- The index loop of `_decode_non_refs`: the codec decodes the payloads that are no storage
-- references, all in one call and in their order, and the results take their places; the references
-- stay where they are. Where the codec gives fewer results, the last payloads stay undecoded;
-- where it raises, so does the handler.
pub decode_non_refs-merge :
    (codec : PayloadCodec) (ps : List Payload)
    → decode_non_refs (some codec) ps
      ≡ (codec.decode (non_refs ps) >>= λ decoded. some (merge decoded ps))
unfolding decode_non_refs
decode_non_refs-merge codec ps =
    ap
      (λ (qs : List Payload).
        codec.decode qs >>= λ decoded. some (set_indices (non_ref_idx 0 ps) decoded ps))
      (select_indices-non_ref_idx ps)
    ∙ ap
        (λ (f : List Payload → List Payload).
          codec.decode (non_refs ps) >>= λ decoded. some (f decoded))
        (λ i decoded. set_indices-non_ref_idx decoded ps i)

non_refs-All : (ps : List Payload) → All (λ p. is_storage_reference p ≡ false) ps → non_refs ps ≡ ps
non_refs-All [] h = refl
non_refs-All (p ∷ ps) h = rw h.0 (ap (λ (qs : List Payload). p ∷ qs) (non_refs-All ps h.1))

merge-All :
    (ds ps : List Payload)
    → All (λ p. is_storage_reference p ≡ false) ps
    → length ds ≡ length ps
    → merge ds ps ≡ ds
merge-All [] [] h e = refl
merge-All (d ∷ ds) [] h e = ground (arith, e)
merge-All [] (p ∷ ps) h e = ground (arith, e)
merge-All (d ∷ ds) (p ∷ ps) h e =
    rw h.0 (ap (λ (qs : List Payload). d ∷ qs) (merge-All ds ps h.1 (omega (arith, e))))

-- Payloads none of which is a reference are decoded as a whole.
pub decode_non_refs-All :
    (codec : PayloadCodec) (ps decoded : List Payload)
    → All (λ p. is_storage_reference p ≡ false) ps
    → codec.decode ps ≡ some decoded
    → length decoded ≡ length ps
    → decode_non_refs (some codec) ps ≡ some decoded
decode_non_refs-All codec ps decoded h e l =
    decode_non_refs-merge codec ps ∙ rw (non_refs-All ps h, e) (ap some (merge-All decoded ps h l))
