-- ===== src/Redis/Key.antt =====
-- What a Redis key tells: the digest and the scope.
use samples_python.Base.{
  ℕ, Option, none, some, List, [], ◌∷◌, ◌++◌, ◌≡◌, ◌≢◌, refl, sym, ◌∙◌, ap, inl, inr, arith, All,
  All-append, Bool-cases,
}
use samples_python.Base.Text.{Text, text, quote, quote_byte, is_unreserved}
use samples_python.Redis.{
  StorageInfo, Target, no_target, workflow_target, activity_target, quote_value, or_null,
  namespace_of, namespace_segments, target_segments, segments, build_key,
}
use samples_python.Redis.Quote.{
  Without, AreBytes, quote_without_colon, join-injective, quote-injective,
}

or_null_without_colon : (o : Option Text) → Without b':' (or_null (quote_value o))
unfolding or_null quote_value
or_null_without_colon none = (refl, (refl, (refl, (refl, tt))))
or_null_without_colon (some []) = (refl, (refl, (refl, (refl, tt))))
or_null_without_colon (some (c ∷ cs)) = go (quote (c ∷ cs)) (quote_without_colon (c ∷ cs))
  where
    go : (v : Text) → Without b':' v → Without b':' (or_null (some v))
    go [] h = (refl, (refl, (refl, (refl, tt))))
    go (d ∷ ds) h = h

namespace_segments_without_colon :
    (o : Option Text) → All (Without b':') (namespace_segments (quote_value o))
unfolding namespace_segments quote_value
namespace_segments_without_colon none = tt
namespace_segments_without_colon (some []) = tt
namespace_segments_without_colon (some (c ∷ cs)) =
    ((refl, (refl, tt)), (quote_without_colon (c ∷ cs), tt))

target_segments_without_colon : (t : Target) → All (Without b':') (target_segments t)
unfolding target_segments
target_segments_without_colon no_target = tt
target_segments_without_colon (workflow_target i) = (
  (refl, (refl, tt)),
  (
    or_null_without_colon i.type,
    (
      (refl, (refl, tt)),
      (or_null_without_colon i.id, ((refl, (refl, tt)), (or_null_without_colon i.run_id, tt))),
    ),
  ),
)
target_segments_without_colon (activity_target i) = (
  (refl, (refl, tt)),
  (
    or_null_without_colon i.type,
    (
      (refl, (refl, tt)),
      (or_null_without_colon i.id, ((refl, (refl, tt)), (or_null_without_colon i.run_id, tt))),
    ),
  ),
)

segments_without_colon :
    (t : Target) (h : Text) → Without b':' h → All (Without b':') (segments t h)
unfolding segments
segments_without_colon t h k = (
  (refl, (refl, tt)),
  All-append (Without b':') (namespace_segments (quote_value (namespace_of t))) _
      (namespace_segments_without_colon (namespace_of t))
      (All-append (Without b':') (target_segments t) _ (target_segments_without_colon t)
        ((refl, tt), ((refl, (refl, (refl, (refl, (refl, (refl, tt)))))), (k, tt)))),
)

append_cancel : (p s t : Text) → p ++ s ≡ p ++ t → s ≡ t
append_cancel [] s t e = e
append_cancel (c ∷ cs) s t e = append_cancel cs s t (cc)

build_key-segments :
    (prefix : Text) (t u : Target) (h k : Text)
    → Without b':' h
    → Without b':' k
    → build_key prefix t h ≡ build_key prefix u k
    → segments t h ≡ segments u k
unfolding build_key segments
build_key-segments [] t u h k wh wk e =
    join-injective b':' _ _ _ _ (segments_without_colon t h wh) (segments_without_colon u k wk) e
build_key-segments (c ∷ cs) t u h k wh wk e =
    let joined = append_cancel (c ∷ cs) _ _ e in
    join-injective b':' _ _ _ _ (segments_without_colon t h wh) (segments_without_colon u k wk)
      (append_cancel (b':' ∷ []) _ _ joined)

-- A segment list that does not begin with a namespace.
NotNamespace : List Text → Type 0
NotNamespace [] = Unit {0}
NotNamespace (s ∷ ss) = s ≢ text "ns"

target_segments-NotNamespace :
    (t : Target) (h : Text) → NotNamespace (target_segments t ++ text "d" ∷ text "sha256" ∷ h ∷ [])
unfolding target_segments NotNamespace
target_segments-NotNamespace no_target h = λ e. ground (arith, e)
target_segments-NotNamespace (workflow_target i) h = λ e. ground (arith, e)
target_segments-NotNamespace (activity_target i) h = λ e. ground (arith, e)

namespace_segments-append :
    (a b : Option Text) (ss ts : List Text)
    → NotNamespace ss
    → NotNamespace ts
    → namespace_segments a ++ ss ≡ namespace_segments b ++ ts
    → (a ≡ b) × (ss ≡ ts)
unfolding namespace_segments NotNamespace
namespace_segments-append none none ss ts h k e = (refl, e)
namespace_segments-append none (some v) [] ts h k e = ground (arith, e)
namespace_segments-append none (some v) (s ∷ ss) ts h k e = ground (arith, h (cc))
namespace_segments-append (some v) none ss [] h k e = ground (arith, e)
namespace_segments-append (some v) none ss (t ∷ ts) h k e = ground (arith, k (cc))
namespace_segments-append (some v) (some w) ss ts h k e = (cc, cc)

-- A field that is absent, or is a text of bytes that is neither empty nor `null`, which is what an
-- absent field is written as.
abbrev pub IsField : Option Text → Type 0
IsField none = Unit {0}
IsField (some s) = AreBytes s × (s ≢ []) × (s ≢ text "null")

quote_value-injective :
    (a b : Option Text) → IsField a → IsField b → quote_value a ≡ quote_value b → a ≡ b
unfolding quote_value
quote_value-injective none none h k e = refl
quote_value-injective (some []) b h k e = ground (arith, h.1 refl)
quote_value-injective a (some []) h k e = ground (arith, k.1 refl)
quote_value-injective none (some (c ∷ cs)) h k e = ground (arith, e)
quote_value-injective (some (c ∷ cs)) none h k e = ground (arith, e)
quote_value-injective (some (c ∷ cs)) (some (d ∷ ds)) h k e =
    ap some (quote-injective (c ∷ cs) (d ∷ ds) h.0 k.0 (cc))

or_null-some : (c : ℕ) (cs : Text) → or_null (quote_value (some (c ∷ cs))) ≡ quote (c ∷ cs)
unfolding or_null quote_value quote quote_byte
or_null-some c cs = elim (Bool-cases (is_unreserved c)) [
  | inl plain ↦ rw plain refl
  | inr coded ↦ rw coded refl
]

null-bytes : AreBytes (text "null")
null-bytes = ground arith

or_null-injective :
    (a b : Option Text)
    → IsField a
    → IsField b
    → or_null (quote_value a) ≡ or_null (quote_value b)
    → a ≡ b
unfolding or_null quote_value quote
or_null-injective none none h k e = refl
or_null-injective (some []) b h k e = ground (arith, h.1 refl)
or_null-injective a (some []) h k e = ground (arith, k.1 refl)
or_null-injective none (some (d ∷ ds)) h k e = ground (
  arith,
  k.2 (sym (quote-injective (text "null") (d ∷ ds) null-bytes k.0 (e ∙ or_null-some d ds))),
)
or_null-injective (some (c ∷ cs)) none h k e = ground (
  arith,
  h.2 (quote-injective (c ∷ cs) (text "null") h.0 null-bytes (sym (or_null-some c cs) ∙ e)),
)
or_null-injective (some (c ∷ cs)) (some (d ∷ ds)) h k e =
    ap some
      (quote-injective (c ∷ cs) (d ∷ ds) h.0 k.0 (sym (or_null-some c cs) ∙ e ∙ or_null-some d ds))

-- The fields of a workflow or an activity.
abbrev pub IsInfo : StorageInfo → Type 0
IsInfo i = (IsField i.namespace × IsField i.type) × (IsField i.id × IsField i.run_id)

abbrev pub IsTarget : Target → Type 0
IsTarget no_target = Unit {0}
IsTarget (workflow_target i) = IsInfo i
IsTarget (activity_target i) = IsInfo i

info_ext :
    (i j : StorageInfo)
    → i.namespace ≡ j.namespace
    → i.type ≡ j.type
    → i.id ≡ j.id
    → i.run_id ≡ j.run_id
    → i ≡ j
info_ext i j a b c d = cc

namespace-IsField : (t : Target) → IsTarget t → IsField (namespace_of t)
namespace-IsField no_target h = tt
namespace-IsField (workflow_target i) h = h.0.0
namespace-IsField (activity_target i) h = h.0.0

target_segments-digest :
    (t u : Target) (h k : Text)
    → target_segments t ++ text "d" ∷ text "sha256" ∷ h ∷ []
      ≡ target_segments u ++ text "d" ∷ text "sha256" ∷ k ∷ []
    → h ≡ k
unfolding target_segments
target_segments-digest no_target no_target h k e = cc
target_segments-digest no_target (workflow_target j) h k e = ground (arith, e)
target_segments-digest no_target (activity_target j) h k e = ground (arith, e)
target_segments-digest (workflow_target i) no_target h k e = ground (arith, e)
target_segments-digest (workflow_target i) (workflow_target j) h k e = cc
target_segments-digest (workflow_target i) (activity_target j) h k e = ground (arith, e)
target_segments-digest (activity_target i) no_target h k e = ground (arith, e)
target_segments-digest (activity_target i) (workflow_target j) h k e = ground (arith, e)
target_segments-digest (activity_target i) (activity_target j) h k e = cc

target_segments-injective :
    (t u : Target) (h k : Text)
    → IsTarget t
    → IsTarget u
    → namespace_of t ≡ namespace_of u
    → target_segments t ++ text "d" ∷ text "sha256" ∷ h ∷ []
      ≡ target_segments u ++ text "d" ∷ text "sha256" ∷ k ∷ []
    → t ≡ u
unfolding target_segments
target_segments-injective no_target no_target h k p q n e = refl
target_segments-injective no_target (workflow_target j) h k p q n e = ground (arith, e)
target_segments-injective no_target (activity_target j) h k p q n e = ground (arith, e)
target_segments-injective (workflow_target i) no_target h k p q n e = ground (arith, e)
target_segments-injective (workflow_target i) (workflow_target j) h k p q n e = ap workflow_target (
    info_ext i j n (or_null-injective i.type j.type p.0.1 q.0.1 (cc))
      (or_null-injective i.id j.id p.1.0 q.1.0 (cc))
      (or_null-injective i.run_id j.run_id p.1.1 q.1.1 (cc)))
target_segments-injective (workflow_target i) (activity_target j) h k p q n e = ground (arith, e)
target_segments-injective (activity_target i) no_target h k p q n e = ground (arith, e)
target_segments-injective (activity_target i) (workflow_target j) h k p q n e = ground (arith, e)
target_segments-injective (activity_target i) (activity_target j) h k p q n e = ap activity_target (
    info_ext i j n (or_null-injective i.type j.type p.0.1 q.0.1 (cc))
      (or_null-injective i.id j.id p.1.0 q.1.0 (cc))
      (or_null-injective i.run_id j.run_id p.1.1 q.1.1 (cc)))

segments-append :
    (t u : Target) (h k : Text)
    → segments t h ≡ segments u k
    → (quote_value (namespace_of t) ≡ quote_value (namespace_of u))
      × (target_segments t ++ text "d" ∷ text "sha256" ∷ h ∷ []
          ≡ target_segments u ++ text "d" ∷ text "sha256" ∷ k ∷ [])
unfolding segments
segments-append t u h k e =
    namespace_segments-append _ _ _ _ (target_segments-NotNamespace t h)
      (target_segments-NotNamespace u k) (cc)

-- Keys under one prefix tell the digests apart, for any two targets.
pub build_key-digest :
    (key_prefix : Text) (t u : Target) (h k : Text)
    → Without b':' h
    → Without b':' k
    → build_key key_prefix t h ≡ build_key key_prefix u k
    → h ≡ k
build_key-digest key_prefix t u h k wh wk e =
    target_segments-digest t u h k
      (segments-append t u h k (build_key-segments key_prefix t u h k wh wk e)).1

-- Under one prefix, with digests that hold no colon, two keys are equal only if the digests are
-- equal and so are the targets: the kind, the namespace, the type, the id and the run id. A field
-- of a target is absent, or a nonempty text of bytes other than `null`; it may hold colons and
-- percent signs.
pub build_key-injective :
    (key_prefix : Text) (t u : Target) (h k : Text)
    → Without b':' h
    → Without b':' k
    → IsTarget t
    → IsTarget u
    → build_key key_prefix t h ≡ build_key key_prefix u k
    → (t ≡ u) × (h ≡ k)
build_key-injective key_prefix t u h k wh wk p q e =
    let parts = segments-append t u h k (build_key-segments key_prefix t u h k wh wk e) in
    let same_namespace =
      quote_value-injective (namespace_of t) (namespace_of u) (namespace-IsField t p)
        (namespace-IsField u q) parts.0 in
    (
      target_segments-injective t u h k p q same_namespace parts.1,
      target_segments-digest t u h k parts.1,
    )
