-- ===== src/Codec/Tests.antt =====
-- A codec that wraps payloads, a storage that keeps every payload, and requests to the server.
use samples_python.Base.{
  ℕ, suc, false, Option, none, some, List, [], ◌∷◌, map, ◌≡◌, refl, ap, arith, get, All, length,
}
use samples_python.Base.Text.{Text, text, text_beq, text_eq}
use samples_python.Codec.Storage.{Payload, PayloadCodec, ExternalStorage, Undoes, Keeps}
use samples_python.Codec.{
  reference_type, is_storage_reference, decode_non_refs, encode_with, payloads_response,
  bad_request, all_references, encode_handler, decode_handler, download_handler,
}
use samples_python.Codec.Decode.{decode_non_refs-merge}
use samples_python.Codec.Roundtrip.{decode_handler-encode_handler}
use samples_python.Codec.Server.{Request, response, RouteDef, dispatch_by_namespace, web_ui_origin}
use samples_python.Codec.Server.Routes.{dispatch_by_namespace-last_route}

abbrev wrap : Payload → Payload
wrap p = record {
  metadata = (text "encoding", text "binary/wrap") ∷ p.metadata;
  bytes = 7 ∷ p.bytes;
}

abbrev rest {ℓ} : {A : Type ℓ} → List A → List A
rest [] = []
rest (x ∷ xs) = xs

abbrev unwrap : Payload → Payload
unwrap p = record { metadata = rest p.metadata; bytes = rest p.bytes }

abbrev wrapping : PayloadCodec
wrapping = record { encode = λ ps. some (map wrap ps); decode = λ ps. some (map unwrap ps) }

unwrap-wrap : (ps : List Payload) → map unwrap (map wrap ps) ≡ ps
unwrap-wrap [] = refl
unwrap-wrap (p ∷ ps) = ap (λ (qs : List Payload). p ∷ qs) (unwrap-wrap ps)

wrapping-Undoes : Undoes wrapping
wrapping-Undoes = λ ps encoded e.
    let same : map wrap ps ≡ encoded = ground (arith, e) in rw (← same) (ap some (unwrap-wrap ps))

wrapping_plain :
    (ps encoded : List Payload)
    → encode_with (some wrapping) ps ≡ some encoded
    → All (λ p. is_storage_reference p ≡ false) encoded × (length encoded ≡ length ps)
unfolding encode_with is_storage_reference get text_beq
wrapping_plain ps encoded e =
    let same : map wrap ps ≡ encoded = ground (arith, e) in rw (← same) (go ps)
  where
    go :
        (qs : List Payload)
        → All (λ p. is_storage_reference p ≡ false) (map wrap qs)
          × (length (map wrap qs) ≡ length qs)
    go [] = (tt, refl)
    go (q ∷ qs) = ((refl, (go qs).0), ap suc (go qs).1)

abbrev reference : Payload
reference = record {
  metadata = (text "encoding", text "json/protobuf") ∷ (text "messageType", reference_type) ∷ [];
  bytes = [];
}

-- Keeps the payloads of the last call, and sends references in their place.
abbrev keeper : ExternalStorage
keeper = record {
  State = List Payload;
  store_payload_sequence = λ ps s. some (map (λ p. reference) ps, ps);
  retrieve_payload_sequence = λ ps s. some s;
}

keeper-Keeps : Keeps keeper is_storage_reference
keeper-Keeps = λ ps stored s s' plain e. ground (arith, e)

abbrev hello : Payload
hello = record { metadata = (text "encoding", text "json/plain") ∷ []; bytes = text "hi" }

decode_handler-encode_handler_example :
    decode_handler keeper
      (some wrapping)
      (some wrapping)
      false
      (wrap reference ∷ [])
      (wrap hello ∷ [])
    ≡ some (payloads_response (hello ∷ []))
unfolding encode_handler encode_with
decode_handler-encode_handler_example =
    decode_handler-encode_handler keeper (some wrapping) (some wrapping) (hello ∷ [])
      (wrap reference ∷ []) [] (wrap hello ∷ []) wrapping-Undoes wrapping-Undoes keeper-Keeps
      (wrapping_plain (hello ∷ [])) refl

decode_non_refs-merge_example :
    decode_non_refs (some wrapping) (wrap hello ∷ reference ∷ wrap hello ∷ [])
    ≡ some (hello ∷ reference ∷ hello ∷ [])
unfolding decode_non_refs is_storage_reference get text_beq
decode_non_refs-merge_example =
    decode_non_refs-merge wrapping (wrap hello ∷ reference ∷ wrap hello ∷ [])

download_test : download_handler keeper none none (reference ∷ hello ∷ []) [] ≡ some bad_request
unfolding download_handler all_references is_storage_reference get text_beq
download_test = refl

abbrev blank : ℕ
blank = 0

abbrev decode_route : ℕ → RouteDef blank
decode_route body = record {
  method = text "POST";
  path = text "/decode";
  handler = λ r. response [] body;
}

abbrev ask : (namespace : Option Text) → Request
ask namespace = record {
  method = text "POST";
  path = text "/decode";
  namespace = namespace;
  origin = some web_ui_origin;
}

dispatch_by_namespace-last_route_example :
    dispatch_by_namespace blank
      ((text "default", decode_route 1 ∷ decode_route 2 ∷ []) ∷ [])
      (ask (some (text "default")))
    ≡ response [] 2
unfolding text_beq
dispatch_by_namespace-last_route_example =
    dispatch_by_namespace-last_route blank
      ((text "default", decode_route 1 ∷ decode_route 2 ∷ []) ∷ []) (ask (some (text "default")))
