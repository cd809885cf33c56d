-- ===== src/Redis/Store.antt =====
-- What is in Redis under the driver's keys, and what a claim brings back.
use samples_python.Base.{
  Bool, false, none, some, List, [], ◌∷◌, ◌≡◌, refl, sym, ◌∙◌, ap, subst, inl, inr, arith, All,
  Option-cases, get, get-del_item, ◌⊎◌,
}
use samples_python.Base.Text.{Text, text, text_beq, text_eq}
use samples_python.Redis.{
  Target, RedisStorageDriver, Redis, StorageDriverClaim, payload_not_found, ok, raised, build_key,
  set_if_absent, store_payload, retrieve_payload, check_found, check_hash, Event, stored, expired,
  apply, apply_all,
}
use samples_python.Redis.Quote.{Without}
use samples_python.Redis.Cases.{get-set_if_absent, claim_for, store_payload_cases}
use samples_python.Redis.Key.{build_key-digest}

module _ {Payload : Type 0} (serialize : Payload → Text) (parse : Text → Payload)
    (sha256 : Text → Text) (hex : (s : Text) → Without b':' (sha256 s)) where
  -- What stands under a key of the prefix has the digest in the key.
  unfoldable pub IsSound : (key_prefix : Text) → Redis → Type 0
  IsSound key_prefix redis =
      (t : Target) (h v : Text)
      → Without b':' h
      → get (build_key key_prefix t h) redis ≡ some v
      → sha256 v ≡ h

  set_if_absent-IsSound :
      (key_prefix : Text) (t : Target) (v : Text) (redis : Redis)
      → IsSound key_prefix redis
      → IsSound key_prefix (set_if_absent (build_key key_prefix t (sha256 v)) v redis)
  unfolding IsSound
  set_if_absent-IsSound key_prefix t v redis sound u h w wh e = ground (
    arith,
    get-set_if_absent (build_key key_prefix t (sha256 v)) v redis (build_key key_prefix u h),
    text_eq.same_iff (build_key key_prefix u h) (build_key key_prefix t (sha256 v)),
    build_key-digest key_prefix u t h (sha256 v) wh (hex v),
    sound u h w wh,
  )

  unfoldable pub OfPrefix : (key_prefix : Text) → Event Payload → Type 0
  OfPrefix key_prefix (stored driver t fails payload) = driver.key_prefix ≡ key_prefix
  OfPrefix key_prefix (expired key) = Unit {0}

  pub apply-IsSound :
      (key_prefix : Text) (e : Event Payload) (redis : Redis)
      → OfPrefix key_prefix e
      → IsSound key_prefix redis
      → IsSound key_prefix (apply serialize parse sha256 e redis)
  unfolding apply OfPrefix
  apply-IsSound key_prefix (stored driver t fails payload) redis p sound =
      elim (store_payload_cases serialize parse sha256 driver t fails payload redis) [
        | inl (e, refused) ↦ subst (λ x. IsSound key_prefix x.1) (sym refused) sound
        | inr written ↦
            subst (λ x. IsSound key_prefix x.1) (sym written)
              (rw p (set_if_absent-IsSound key_prefix t (serialize payload) redis sound))
      ]
  apply-IsSound key_prefix (expired key) redis p sound =
      unfold IsSound in
      λ u h v w e. sound u h v w (
        ground (
          arith,
          e,
          get-del_item key (build_key key_prefix u h) redis,
          text_eq.same_iff (build_key key_prefix u h) key,
        ))

  -- If what stands under the keys of a prefix has the digests in the keys, it still does after any
  -- sequence of stores by drivers with that prefix, for any targets, and of expiries of any keys.
  pub apply_all-IsSound :
      (key_prefix : Text) (es : List (Event Payload)) (redis : Redis)
      → All (OfPrefix key_prefix) es
      → IsSound key_prefix redis
      → IsSound key_prefix (apply_all serialize parse sha256 es redis)
  unfolding apply_all
  apply_all-IsSound key_prefix [] redis p sound = sound
  apply_all-IsSound key_prefix (e ∷ es) redis p sound =
      apply_all-IsSound key_prefix es _ p.1 (apply-IsSound key_prefix e redis p.0 sound)

  pub store_payload-claim :
      (driver : RedisStorageDriver) (t : Target) (fails : Text → Bool) (payload : Payload)
      (redis redis' : Redis) (claim : StorageDriverClaim)
      → store_payload serialize parse sha256 driver t fails payload redis ≡ (ok claim, redis')
      → claim ≡ claim_for serialize parse sha256 driver t payload
  store_payload-claim driver t fails payload redis redis' claim e =
      elim (store_payload_cases serialize parse sha256 driver t fails payload redis) [
        | inl (x, refused) ↦ ground (arith, sym refused ∙ e)
        | inr written ↦ ground (arith, sym written ∙ e)
      ]

  check_hash-own :
      (key v : Text)
      → check_hash serialize parse sha256 key v (some (sha256 v)) (some (text "sha256"))
        ≡ ok (parse v)
  unfolding check_hash text_beq
  check_hash-own key v = go (sha256 v) refl
    where
      go :
          (h : Text)
          → sha256 v ≡ h
          → check_hash serialize parse sha256 key v (some h) (some (text "sha256")) ≡ ok (parse v)
      go [] e = refl
      go (c ∷ cs) e = ground (arith, e, text_eq.same_iff (sha256 v) (c ∷ cs))

  pub retrieve_payload-claim_for :
      (driver : RedisStorageDriver) (t : Target) (fails : Text → Bool) (payload : Payload)
      (redis : Redis)
      → ((s : Text) → sha256 s ≡ sha256 (serialize payload) → s ≡ serialize payload)
      → parse (serialize payload) ≡ payload
      → IsSound driver.key_prefix redis
      → fails (claim_for serialize parse sha256 driver t payload).key ≡ false
      → (retrieve_payload serialize parse sha256 fails
            (claim_for serialize parse sha256 driver t payload)
            redis
          ≡ ok payload)
        ⊎ ((get (claim_for serialize parse sha256 driver t payload).key redis ≡ none)
            × (retrieve_payload serialize parse sha256 fails
                  (claim_for serialize parse sha256 driver t payload)
                  redis
                ≡ raised
                    (payload_not_found (claim_for serialize parse sha256 driver t payload).key)))
  unfolding retrieve_payload claim_for check_found IsSound
  retrieve_payload-claim_for driver t fails payload redis unique round sound alive =
      elim (Option-cases (get (claim_for serialize parse sha256 driver t payload).key redis)) [
        | inl gone ↦ inr (gone, rw (alive, gone) refl)
        | inr (v, there) ↦
            let same =
              unique v (sound t (sha256 (serialize payload)) v (hex (serialize payload)) there) in
            inl (
              rw (alive, there ∙ ap some same) (check_hash-own _ (serialize payload) ∙ ap ok round))
      ]

  -- A payload that was stored comes back: after `store` has returned a claim, and after any
  -- sequence of further stores by drivers with the same prefix, for any targets and payloads, and
  -- of expiries, `retrieve` with that claim gives the payload itself, or says that the key is not
  -- found when nothing stands there any more. Redis holds only values that have the digests in
  -- their keys beforehand, parsing undoes serialising, digests hold no colon, no other bytes have
  -- the payload's digest, and Redis answers the reading call.
  pub retrieve_payload-store_payload :
      (driver : RedisStorageDriver) (t : Target) (fails fails' : Text → Bool) (payload : Payload)
      (redis redis' : Redis) (claim : StorageDriverClaim) (es : List (Event Payload))
      → ((s : Text) → sha256 s ≡ sha256 (serialize payload) → s ≡ serialize payload)
      → parse (serialize payload) ≡ payload
      → IsSound driver.key_prefix redis
      → store_payload serialize parse sha256 driver t fails payload redis ≡ (ok claim, redis')
      → All (OfPrefix driver.key_prefix) es
      → fails' claim.key ≡ false
      → let later = apply_all serialize parse sha256 es redis' in
        (retrieve_payload serialize parse sha256 fails' claim later ≡ ok payload)
        ⊎ ((get claim.key later ≡ none)
            × (retrieve_payload serialize parse sha256 fails' claim later
                ≡ raised (payload_not_found claim.key)))
  unfolding apply OfPrefix
  retrieve_payload-store_payload driver t fails fails' payload redis redis' claim es unique round
        sound e p alive =
      let at_once =
        subst (λ x. IsSound driver.key_prefix x.1) e
          (apply-IsSound driver.key_prefix (stored driver t fails payload) redis refl sound) in
      let later = apply_all-IsSound driver.key_prefix es redis' p at_once in
      let own = store_payload-claim driver t fails payload redis redis' claim e in
      rw own
        (retrieve_payload-claim_for driver t fails' payload _ unique round later (rw (← own) alive))
