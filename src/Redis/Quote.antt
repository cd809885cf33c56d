-- ===== src/Redis/Quote.antt =====
-- `quote` can be undone and gives no separator, and `join` can be undone on texts without it.
use samples_python.Base.{
  ℕ, ◌+◌, ◌-◌, ◌*◌, ◌/◌, ◌%◌, ◌<◌, true, false, List, [], ◌∷◌, ◌++◌, ◌≡◌, refl, sym, ◌∙◌, ap, inl,
  inr, arith, if◌then◌else◌, ltb, nat_beq, All, All-append, Bool-cases,
}
use mathlib.Core.List.{append-nil}
use samples_python.Base.Text.{Text, join, join_more, is_unreserved, hex_digit, quote_byte, quote}

-- No byte of the text is `c`.
abbrev pub Without : ℕ → Text → Type 0
Without c s = All (λ b. nat_beq b c ≡ false) s

abbrev pub AreBytes : Text → Type 0
AreBytes s = All (λ b. b < 256) s

unreserved_without_colon : (c : ℕ) → is_unreserved c ≡ true → nat_beq c b':' ≡ false
unfolding is_unreserved
unreserved_without_colon c h = ground arith

hex_digit_without_colon : (n : ℕ) → nat_beq (hex_digit n) b':' ≡ false
unfolding hex_digit
hex_digit_without_colon n = ground arith

quote_byte_without_colon : (c : ℕ) → Without b':' (quote_byte c)
unfolding quote_byte
quote_byte_without_colon c = elim (Bool-cases (is_unreserved c)) [
  | inl plain ↦ rw plain (unreserved_without_colon c plain, tt)
  | inr coded ↦
      rw coded (refl, (hex_digit_without_colon (c / 16), (hex_digit_without_colon (c % 16), tt)))
]

pub quote_without_colon : (s : Text) → Without b':' (quote s)
unfolding quote
quote_without_colon [] = tt
quote_without_colon (c ∷ cs) =
    All-append (λ b. nat_beq b b':' ≡ false) (quote_byte c) (quote cs) (quote_byte_without_colon c)
      (quote_without_colon cs)

-- The value of a hexadecimal digit.
hex_value : ℕ → ℕ
hex_value d = if ltb d b'A' then d - b'0' else d - b'A' + 10

-- Undoes `quote`.
pub unquote : Text → Text
unquote [] = []
unquote (c ∷ []) = c ∷ []
unquote (c ∷ a ∷ []) = c ∷ a ∷ []
unquote (c ∷ a ∷ b ∷ s) = elim (nat_beq c b'%') [
  | true ↦ (16 * hex_value a + hex_value b) ∷ unquote s
  | false ↦ c ∷ unquote (a ∷ b ∷ s)
]

unquote-unreserved : (c : ℕ) (s : Text) → is_unreserved c ≡ true → unquote (c ∷ s) ≡ c ∷ unquote s
unfolding unquote is_unreserved
unquote-unreserved c [] h = refl
unquote-unreserved c (a ∷ []) h = refl
unquote-unreserved c (a ∷ b ∷ s) h = ground arith

hex_value-hex_digit : (n : ℕ) → n < 16 → hex_value (hex_digit n) ≡ n
unfolding hex_value hex_digit
hex_value-hex_digit n h = ground arith

unquote-quote_byte : (c : ℕ) (s : Text) → c < 256 → unquote (quote_byte c ++ s) ≡ c ∷ unquote s
unfolding quote_byte unquote
unquote-quote_byte c s h = elim (Bool-cases (is_unreserved c)) [
  | inl plain ↦ rw plain (unquote-unreserved c s plain)
  | inr coded ↦ rw coded (
      ap (λ (d : ℕ). d ∷ unquote s)
        (omega (
          arith,
          hex_value-hex_digit (c / 16) (omega arith),
          hex_value-hex_digit (c % 16) (omega arith),
        )))
]

-- Percent-encoding is undone by decoding, for any bytes; so it is one to one.
pub unquote-quote : (s : Text) → AreBytes s → unquote (quote s) ≡ s
unfolding quote unquote
unquote-quote [] h = refl
unquote-quote (c ∷ cs) h =
    unquote-quote_byte c (quote cs) h.0 ∙ ap (λ (t : Text). c ∷ t) (unquote-quote cs h.1)

pub quote-injective : (s t : Text) → AreBytes s → AreBytes t → quote s ≡ quote t → s ≡ t
quote-injective s t h k e = sym (unquote-quote s h) ∙ ap unquote e ∙ unquote-quote t k

-- Undoes `join`.
push : ℕ → List Text → List Text
push c [] = (c ∷ []) ∷ []
push c (s ∷ segments) = (c ∷ s) ∷ segments

split : ℕ → Text → List Text
split sep [] = [] ∷ []
split sep (c ∷ cs) =
    let segments = split sep cs in if nat_beq c sep then [] ∷ segments else push c segments

split-append : (sep : ℕ) (s t : Text) → Without sep s → split sep (s ++ sep ∷ t) ≡ s ∷ split sep t
unfolding split
split-append sep [] t h = ground arith
split-append sep (c ∷ cs) t h = rw (h.0, split-append sep cs t h.1) (unfold push in refl)

split_whole : (sep : ℕ) (s : Text) → Without sep s → split sep s ≡ s ∷ []
unfolding split
split_whole sep [] h = refl
split_whole sep (c ∷ cs) h = rw (h.0, split_whole sep cs h.1) (unfold push in refl)

split-join_more :
    (sep : ℕ) (s : Text) (segments : List Text)
    → Without sep s
    → All (Without sep) segments
    → split sep (s ++ join_more sep segments) ≡ s ∷ segments
unfolding join_more
split-join_more sep s [] h k = rw append-nil (split_whole sep s h)
split-join_more sep s (x ∷ xs) h k =
    split-append sep s (x ++ join_more sep xs) h
    ∙ ap (λ (rest : List Text). s ∷ rest) (split-join_more sep x xs k.0 k.1)

-- Texts without the separator are told from their join.
pub join-injective :
    (sep : ℕ) (s t : Text) (ss ts : List Text)
    → All (Without sep) (s ∷ ss)
    → All (Without sep) (t ∷ ts)
    → join sep (s ∷ ss) ≡ join sep (t ∷ ts)
    → s ∷ ss ≡ t ∷ ts
unfolding join
join-injective sep s t ss ts h k e =
    sym (split-join_more sep s ss h.0 h.1) ∙ ap (split sep) e ∙ split-join_more sep t ts k.0 k.1
