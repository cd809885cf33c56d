-- ===== src/Codec/Roundtrip.antt =====
-- What `/encode` sends, `/decode` gives back.
use samples_python.Base.{
  ◌>>=◌, false, Option, none, some, List, [], ◌∷◌, ◌≡◌, refl, sym, ◌∙◌, ap, arith, All, length, map,
  get,
}
use samples_python.Base.Text.{Text, text_beq, text_eq}
use samples_python.Codec.Storage.{Payload, PayloadCodec, ExternalStorage, Undoes, Keeps}
use samples_python.Codec.{
  is_storage_reference, decode_non_refs, encode_with, decode_with, payloads_response,
  encode_handler, decode_handler, encode_one, decode_one, compression_codec,
}
use samples_python.Codec.Decode.{decode_non_refs-All}

-- What the pipeline needs of an optional codec.
abbrev pub IsCodec : Option PayloadCodec → Type 0
IsCodec none = Unit {0}
IsCodec (some codec) = Undoes codec

-- The steps of a call that has not raised.
>>=-some :
    {A B : Type 0} (m : Option A) (f : A → Option B) (b : B)
    → (m >>= f) ≡ some b
    → (a : A) × (m ≡ some a) × (f a ≡ some b)
>>=-some none f b e = ground (arith, e)
>>=-some (some a) f b e = (a, refl, e)

decode_with-encode_with :
    (codec : Option PayloadCodec) (ps encoded : List Payload)
    → IsCodec codec
    → encode_with codec ps ≡ some encoded
    → decode_with codec encoded ≡ some ps
unfolding encode_with decode_with
decode_with-encode_with none ps encoded h e = sym e
decode_with-encode_with (some codec) ps encoded h e = h ps encoded e

decode_non_refs-encode_with :
    (codec : Option PayloadCodec) (ps encoded : List Payload)
    → IsCodec codec
    → All (λ p. is_storage_reference p ≡ false) encoded
    → length encoded ≡ length ps
    → encode_with codec ps ≡ some encoded
    → decode_non_refs codec encoded ≡ some ps
unfolding decode_non_refs encode_with
decode_non_refs-encode_with none ps encoded h k l e = sym e
decode_non_refs-encode_with (some codec) ps encoded h k l e =
    decode_non_refs-All codec encoded ps k (h ps encoded e) (sym l)

module _ (S : ExternalStorage) (prestorage_codec poststorage_codec : Option PayloadCodec) where
  -- When `/encode` has answered, `/decode` of its answer gives back the payloads that were sent to
  -- it, through all three stages. Each codec's decoding undoes its encoding, the pre-storage codec
  -- gives as many payloads as it takes and no storage references among them, and the storage
  -- retrieves what it has stored.
  pub decode_handler-encode_handler :
      (ps sent : List Payload) (s s' : S.State)
      → IsCodec prestorage_codec
      → IsCodec poststorage_codec
      → Keeps S is_storage_reference
      → ((encoded : List Payload)
          → encode_with prestorage_codec ps ≡ some encoded
          → All (λ p. is_storage_reference p ≡ false) encoded × (length encoded ≡ length ps))
      → encode_handler S prestorage_codec poststorage_codec ps s ≡ some (payloads_response sent, s')
      → decode_handler S prestorage_codec poststorage_codec false sent s'
        ≡ some (payloads_response ps)
  unfolding encode_handler decode_handler
  decode_handler-encode_handler ps sent s s' pre post keeps plain e =
      let (encoded, e_pre, e_rest) = >>=-some (encode_with prestorage_codec ps) _ _ e in
      let (kept, e_store, e_last) = >>=-some (S.store_payload_sequence encoded s) _ _ e_rest in
      let (out, e_post, e_out) = >>=-some (encode_with poststorage_codec kept.0) _ _ e_last in
      let same : (out ≡ sent) × (kept.1 ≡ s') = ground (arith, e_out) in
      let stored : S.store_payload_sequence encoded s ≡ some (kept.0, s') =
        e_store ∙ ap (λ (t : S.State). some (kept.0, t)) same.1 in
      let posted : encode_with poststorage_codec kept.0 ≡ some sent = e_post ∙ ap some same.0 in
      rw
        (
          decode_with-encode_with poststorage_codec kept.0 sent post posted,
          keeps encoded kept.0 s s' (plain encoded e_pre).0 stored,
          decode_non_refs-encode_with prestorage_codec ps encoded pre (plain encoded e_pre).0
              (plain encoded e_pre).1 e_pre,
        )
        refl

module _ (compress decompress : Text → Text) (serialize : Payload → Text) (parse : Text → Payload)
    (inflates : (t : Text) → decompress (compress t) ≡ t)
    (parses : (p : Payload) → parse (serialize p) ≡ p) where
  map_decode-encode :
      (ps : List Payload)
      → map
          (decode_one compress decompress serialize parse)
          (map (encode_one compress decompress serialize parse) ps)
        ≡ ps
  unfolding get text_beq
  map_decode-encode [] = refl
  map_decode-encode (p ∷ ps) = cc (inflates (serialize p), parses p, map_decode-encode ps)

  -- The codec of the sample is one that the pipeline can use.
  compression_codec-Undoes : Undoes (compression_codec compress decompress serialize parse)
  compression_codec-Undoes = λ ps encoded e.
      let same : map (encode_one compress decompress serialize parse) ps ≡ encoded =
        ground (arith, e) in
      rw (← same) (ap some (map_decode-encode ps))
