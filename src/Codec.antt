-- ===== src/Codec.antt =====
-- external_storage/handler.py and codec.py: the routes of a codec server. The storage, a codec, gzip
-- and the serialisation of payloads are interfaces or parameters; a call that raises gives `none`.
pub mod Storage
pub mod Decode
pub mod Roundtrip
pub mod Server
mod Tests
use samples_python.Base.{
  ◌>>=◌, ℕ, zero, suc, ◌+◌, Bool, true, false, ◌&&◌, Option, none, some, List, [], ◌∷◌, ◌++◌, map,
  if◌then◌else◌, not, get, ◌==◌,
}
use samples_python.Base.Text.{Text, text, text_eq}
use samples_python.Codec.Storage.{Payload, PayloadCodec, ExternalStorage}

-- The value of a metadata field, compared with a text.
abbrev pub is_field : Option Text → Text → Bool
is_field none t = false
is_field (some s) t = s == t

-- `ExternalStorageReference`, by its full name.
abbrev pub reference_type : Text
reference_type = text "temporal.api.sdk.v1.ExternalStorageReference"

-- `_is_storage_reference`
unfoldable pub is_storage_reference : Payload → Bool
is_storage_reference payload =
    is_field (get (text "encoding") payload.metadata) (text "json/protobuf")
    && is_field (get (text "messageType") payload.metadata) reference_type

-- `[i for i, p in enumerate(payloads) if not _is_storage_reference(p)]`, from the index `i` on
unfoldable pub non_ref_idx : (i : ℕ) → List Payload → List ℕ
unfolding is_storage_reference
non_ref_idx i [] = []
non_ref_idx i (p ∷ ps) =
    if not (is_storage_reference p) then i ∷ non_ref_idx (i + 1) ps else non_ref_idx (i + 1) ps

-- `[payloads[i] for i in indices]`
abbrev pub select_one : List Payload → ℕ → List Payload
select_one [] i = []
select_one (p ∷ ps) zero = p ∷ []
select_one (p ∷ ps) (suc i) = select_one ps i

unfoldable pub select_indices : List Payload → List ℕ → List Payload
select_indices payloads [] = []
select_indices payloads (i ∷ indices) = select_one payloads i ++ select_indices payloads indices

-- `result[i] = p`
abbrev pub set_at : ℕ → Payload → List Payload → List Payload
set_at i p [] = []
set_at zero p (q ∷ qs) = p ∷ qs
set_at (suc i) p (q ∷ qs) = q ∷ set_at i p qs

-- `for i, p in zip(indices, decoded)`
unfoldable pub set_indices : List ℕ → (decoded result : List Payload) → List Payload
set_indices [] decoded result = result
set_indices (i ∷ indices) [] result = result
set_indices (i ∷ indices) (p ∷ decoded) result = set_indices indices decoded (set_at i p result)

-- `_decode_non_refs`
unfoldable pub decode_non_refs : Option PayloadCodec → List Payload → Option (List Payload)
unfolding non_ref_idx select_indices set_indices
decode_non_refs none payloads = some payloads
decode_non_refs (some codec) payloads =
    let indices = non_ref_idx 0 payloads in
    do
      decoded ← codec.decode (select_indices payloads indices)
      some (set_indices indices decoded payloads)

unfoldable pub encode_with : Option PayloadCodec → List Payload → Option (List Payload)
encode_with none payloads = some payloads
encode_with (some codec) payloads = codec.encode payloads

unfoldable pub decode_with : Option PayloadCodec → List Payload → Option (List Payload)
decode_with none payloads = some payloads
decode_with (some codec) payloads = codec.decode payloads

pub data Response : Type 0 where
  payloads_response : List Payload → Response
  bad_request : Response

-- `all(_is_storage_reference(p) for p in payloads)`
unfoldable pub all_references : List Payload → Bool
unfolding is_storage_reference
all_references [] = true
all_references (p ∷ ps) = is_storage_reference p && all_references ps

module _ (S : ExternalStorage) (prestorage_codec poststorage_codec : Option PayloadCodec) where
  unfoldable pub encode_handler : List Payload → S.State → Option (Response × S.State)
  unfolding encode_with
  encode_handler payloads s = do
    encoded ← encode_with prestorage_codec payloads
    (stored, s') ← S.store_payload_sequence encoded s
    sent ← encode_with poststorage_codec stored
    some (payloads_response sent, s')

  unfoldable pub decode_handler : (preserve_refs : Bool) → List Payload → S.State → Option Response
  unfolding decode_with decode_non_refs
  decode_handler preserve_refs payloads s = do
    received ← decode_with poststorage_codec payloads
    retrieved ← if preserve_refs then some received else S.retrieve_payload_sequence received s
    decoded ← decode_non_refs prestorage_codec retrieved
    some (payloads_response decoded)

  unfoldable pub download_handler : List Payload → S.State → Option Response
  unfolding decode_non_refs all_references
  download_handler payloads s = if not (all_references payloads) then some bad_request else do
    retrieved ← S.retrieve_payload_sequence payloads s
    decoded ← decode_non_refs prestorage_codec retrieved
    some (payloads_response decoded)

module _ (compress decompress : Text → Text) (serialize : Payload → Text)
    (parse : Text → Payload) where
  abbrev encode_one : Payload → Payload
  encode_one p = record {
    metadata = (text "encoding", text "binary/gzip") ∷ [];
    bytes = compress (serialize p);
  }

  abbrev decode_one : Payload → Payload
  decode_one p =
      if is_field (get (text "encoding") p.metadata) (text "binary/gzip")
      then parse (decompress p.bytes)
      else p

  -- `CompressionCodec`
  abbrev pub compression_codec : PayloadCodec
  compression_codec = record {
    encode = λ payloads. some (map encode_one payloads);
    decode = λ payloads. some (map decode_one payloads);
  }
