-- ===== src/Redis/Tests.antt =====
-- Payloads, keys and claims at concrete inputs. The digest moves every byte past the colon.
use samples_python.Base.{
  ◌+◌, Bool, false, none, some, [], ◌∷◌, ◌≡◌, refl, arith, ◌⊎◌, get, set_item,
}
use samples_python.Base.Text.{
  Text, text, join, join_more, quote, quote_byte, is_unreserved, text_eq,
}
use samples_python.Redis.{
  StorageInfo, no_target, workflow_target, RedisStorageDriver, StorageDriverClaim, ok, raised,
  payload_not_found, build_key, segments, quote_value, or_null, namespace_segments, target_segments,
  set_if_absent, store_payload, retrieve_payload, stored, expired, apply, apply_all,
}
use samples_python.Redis.Quote.{Without}
use samples_python.Redis.Key.{build_key-injective}
use samples_python.Redis.Store.{IsSound, OfPrefix, retrieve_payload-store_payload}

abbrev pub digest : Text → Text
digest [] = []
digest (b ∷ bs) = (b + 59) ∷ digest bs

pub digest_hex : (s : Text) → Without b':' (digest s)
digest_hex [] = tt
digest_hex (b ∷ bs) = (ground arith, digest_hex bs)

abbrev pub same_text : Text → Text
same_text s = s

digest_unique : (s : Text) → digest s ≡ digest (2 ∷ []) → s ≡ 2 ∷ []
digest_unique [] e = ground (arith, e)
digest_unique (b ∷ []) e = ground (arith, e)
digest_unique (b ∷ c ∷ s) e = ground (arith, e)

abbrev info : StorageInfo
info = record { namespace = some (text "a:b"); type = none; id = some (text "w"); run_id = none }

abbrev pub driver : RedisStorageDriver
driver = record {
  driver_name = text "redis";
  key_prefix = text "p";
  ttl = none;
  max_payload_size = 5;
}

abbrev pub alive : Text → Bool
alive key = false

abbrev claim : StorageDriverClaim
claim = record {
  key = build_key (text "p") (workflow_target info) (digest (2 ∷ []));
  hash_algorithm = some (text "sha256");
  hash_value = some (digest (2 ∷ []));
}

build_key_test :
    build_key (text "p") (workflow_target info) (text "00")
    ≡ text "p:v0:ns:a%3Ab:wt:null:wi:w:ri:null:d:sha256:00"
unfolding build_key segments namespace_segments target_segments quote_value or_null quote quote_byte
    is_unreserved join join_more
build_key_test = refl

build_key-injective_example :
    (workflow_target info ≡ workflow_target info) × (text "00" ≡ text "00")
build_key-injective_example =
    build_key-injective (text "p") (workflow_target info) (workflow_target info) (text "00")
      (text "00") (ground arith) (ground arith) (ground arith) (ground arith) refl

empty-IsSound : IsSound same_text same_text digest digest_hex (text "p") []
unfolding IsSound get
empty-IsSound = λ t h v w e. ground (arith, e)

-- Stored, stored again for no target, and read.
retrieve_payload-store_payload_example :
    let later =
      apply_all same_text same_text digest
        (stored driver no_target alive (3 ∷ []) ∷ expired (text "x") ∷ [])
        ((claim.key, 2 ∷ []) ∷ []) in
    (retrieve_payload same_text same_text digest alive claim later ≡ ok (2 ∷ []))
    ⊎ ((get claim.key later ≡ none)
        × (retrieve_payload same_text same_text digest alive claim later
            ≡ raised (payload_not_found claim.key)))
unfolding store_payload set_if_absent OfPrefix apply get set_item
retrieve_payload-store_payload_example =
    retrieve_payload-store_payload same_text same_text digest digest_hex driver
      (workflow_target info) alive alive (2 ∷ []) [] ((claim.key, 2 ∷ []) ∷ []) claim
      (stored driver no_target alive (3 ∷ []) ∷ expired (text "x") ∷ []) digest_unique refl
      empty-IsSound refl (refl, (tt, tt)) refl
