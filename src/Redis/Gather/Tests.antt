-- ===== src/Redis/Gather/Tests.antt =====
-- Two payloads, stored in one order and read in the other, with a store by another in between.
use samples_python.Base.{
  ℕ, ◌<◌, some, List, [], ◌∷◌, ◌≡◌, refl, arith, get, set_item, contains, true, nat_eq,
}
use samples_python.Base.Text.{Text, text, join, join_more, text_beq, text_eq}
use samples_python.Redis.{
  StorageDriverClaim, no_target, Redis, stored, ok, raised, too_large, build_key, apply, segments,
  quote_value, or_null, namespace_segments, target_segments, set_if_absent, store_payload,
}
use samples_python.Redis.Cases.{claim_for}
use samples_python.Redis.Store.{IsSound, OfPrefix}
use samples_python.Redis.Kept.{IsStored}
use samples_python.Redis.Tests.{digest, digest_hex, same_text, driver, alive}
use samples_python.Redis.Gather.{
  Turn, completes, meanwhile, complete_task, run_turns, gather_with_cancellation, outcome, results,
  store, retrieve,
}
use samples_python.Redis.Gather.Done.{completed}
use samples_python.Redis.Gather.Together.{IsRecoverable, IsOwnStore}
use samples_python.Redis.Gather.Roundtrip.{retrieve-store}

digest-injective : (s t : Text) → digest s ≡ digest t → s ≡ t
digest-injective [] [] e = refl
digest-injective [] (c ∷ t) e = ground (arith, e)
digest-injective (b ∷ s) [] e = ground (arith, e)
digest-injective (b ∷ s) (c ∷ t) e = ground (arith, e, digest-injective s t)

recoverable : (p : Text) → IsRecoverable same_text same_text digest digest_hex p
unfolding IsRecoverable
recoverable p = ((λ s e. digest-injective s p e), refl)

abbrev payloads : List Text
payloads = (2 ∷ []) ∷ (4 ∷ []) ∷ []

abbrev turns : List (Turn Text)
turns = completes 1 ∷ meanwhile (stored driver no_target alive (2 ∷ [])) ∷ completes 0 ∷ []

abbrev turns' : List (Turn Text)
turns' = completes 1 ∷ completes 0 ∷ []

abbrev claims : List StorageDriverClaim
claims =
    claim_for same_text same_text digest driver no_target (2 ∷ [])
    ∷ claim_for same_text same_text digest driver no_target (4 ∷ [])
    ∷ []

abbrev kept : Redis
kept =
    (build_key (text "p") no_target (digest (4 ∷ [])), 4 ∷ [])
    ∷ (build_key (text "p") no_target (digest (2 ∷ [])), 2 ∷ [])
    ∷ []

-- A payload that is too large makes `store` fail.
large_test :
    (store same_text same_text digest driver no_target alive
      ((1 ∷ 1 ∷ 1 ∷ 1 ∷ 1 ∷ 1 ∷ []) ∷ (4 ∷ []) ∷ [])
      (completes 0 ∷ completes 1 ∷ [])
      []).0
    ≡ some (raised (too_large 6 5))
unfolding store gather_with_cancellation run_turns complete_task outcome results store_payload
large_test = refl

none-IsSound : IsSound same_text same_text digest digest_hex (text "p") []
unfolding IsSound get
none-IsSound = λ t h v w e. ground (arith, e)

all_completed : (n : ℕ) → n < 2 → contains n (completed turns') ≡ true
unfolding completed contains
all_completed n h = ground (arith, h)

retrieve-store_example :
    (retrieve same_text same_text digest alive claims turns' kept).0 ≡ some (ok payloads)
unfolding store gather_with_cancellation run_turns complete_task outcome results store_payload
    set_if_absent get set_item text_beq claim_for IsOwnStore OfPrefix IsStored apply build_key
    segments namespace_segments target_segments quote_value or_null join join_more
retrieve-store_example =
    retrieve-store same_text same_text digest digest_hex driver no_target alive alive payloads turns
      turns' [] kept claims (recoverable (2 ∷ []), (recoverable (4 ∷ []), tt)) none-IsSound
      ((refl, tt), tt) tt refl (λ key. refl) all_completed
