-- ===== src/Codec/Storage.antt =====
-- The SDK's payloads, and its interfaces of a codec and of the external storage.
use samples_python.Base.{Bool, false, Option, some, List, ◌≡◌, All}
use samples_python.Base.Text.{Text}

pub record Payload : Type 0 where
  pub metadata : List (Text × Text)
  pub bytes : Text

-- Either call may raise.
pub record PayloadCodec : Type 0 where
  pub encode : List Payload → Option (List Payload)
  pub decode : List Payload → Option (List Payload)

-- `_store_payload_sequence` and `_retrieve_payload_sequence` over what the drivers hold.
pub record ExternalStorage : Type 1 where
  pub State : Type 0
  pub store_payload_sequence : List Payload → State → Option (List Payload × State)
  pub retrieve_payload_sequence : List Payload → State → Option (List Payload)

-- A codec's decoding undoes its encoding.
abbrev pub Undoes : PayloadCodec → Type 0
Undoes codec =
    (ps encoded : List Payload) → codec.encode ps ≡ some encoded → codec.decode encoded ≡ some ps

-- Retrieving undoes storing, for payloads that are not references themselves.
abbrev pub Keeps : ExternalStorage → (is_reference : Payload → Bool) → Type 0
Keeps S is_reference =
    (ps stored : List Payload) (s s' : S.State)
    → All (λ p. is_reference p ≡ false) ps
    → S.store_payload_sequence ps s ≡ some (stored, s')
    → S.retrieve_payload_sequence stored s' ≡ some ps
