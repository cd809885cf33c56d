-- ===== src/Base/Text.antt =====
-- Text as its UTF-8 bytes, Python's `sep.join`, `rstrip` and `urllib.parse.quote(value, safe="")`.
use Prim.Native.Nat.{ℕ, ◌+◌, ◌-◌, ◌/◌, ◌%◌}
use Prim.Native.Char.{code}
use Prim.Native.String.{String}
use mathlib.Core.Path.{◌≡◌, refl}
use mathlib.Core.Logic.{◌↔◌}
use samples_python.Base.Eq.{Hashable}
use mathlib.Core.Bool.{Bool, true, false, ◌&&◌, ◌||◌}
use mathlib.Core.List.{List, [], ◌∷◌, ◌++◌, reverse}
use native.Mathlib.Omega.{arith}
use samples_python.Base.Tests.{leb, ltb, nat_beq, if◌then◌else◌}

abbrev pub Text : Type 0
Text = List ℕ

-- The bytes of an ASCII literal.
abbrev pub text : String → Text
text String.[] = []
text (String.◌∷◌ c s) = code c ∷ text s

-- The separator in front of every further segment.
unfoldable pub join_more : ℕ → List Text → Text
join_more sep [] = []
join_more sep (s ∷ segments) = (sep ∷ s) ++ join_more sep segments

-- `sep.join(segments)`
unfoldable pub join : ℕ → List Text → Text
unfolding join_more
join sep [] = []
join sep (s ∷ segments) = s ++ join_more sep segments

unfoldable pub drop_while : ℕ → Text → Text
drop_while sep [] = []
drop_while sep (c ∷ cs) = let rest = drop_while sep cs in if nat_beq c sep then rest else c ∷ cs

-- `s.rstrip(sep)` for one character
unfoldable pub rstrip : ℕ → Text → Text
unfolding drop_while
rstrip sep s = reverse (drop_while sep (reverse s))

-- `_`, `.`, `-`, `~`, the digits and the ASCII letters
unfoldable pub is_unreserved : ℕ → Bool
is_unreserved c =
    (leb b'0' c && leb c b'9')
    || (leb b'A' c && leb c b'Z')
    || (leb b'a' c && leb c b'z')
    || nat_beq c b'_'
    || nat_beq c b'.'
    || nat_beq c b'-'
    || nat_beq c b'~'

unfoldable pub hex_digit : ℕ → ℕ
hex_digit n = if ltb n 10 then b'0' + n else b'A' + (n - 10)

unfoldable pub quote_byte : ℕ → Text
unfolding is_unreserved hex_digit
quote_byte c =
    if is_unreserved c then c ∷ [] else b'%' ∷ hex_digit (c / 16) ∷ hex_digit (c % 16) ∷ []

unfoldable pub quote : Text → Text
unfolding quote_byte
quote [] = []
quote (c ∷ cs) = quote_byte c ++ quote cs

unfoldable pub text_beq : Text → Text → Bool
text_beq [] [] = true
text_beq [] (d ∷ ds) = false
text_beq (c ∷ cs) [] = false
text_beq (c ∷ cs) (d ∷ ds) = nat_beq c d && text_beq cs ds

text_beq_sound : (s t : Text) → text_beq s t ≡ true → s ≡ t
unfolding text_beq
text_beq_sound [] [] h = refl
text_beq_sound [] (d ∷ ds) h = cc
text_beq_sound (c ∷ cs) [] h = cc
text_beq_sound (c ∷ cs) (d ∷ ds) h = ground (arith, text_beq_sound cs ds)

text_beq_self : (s : Text) → text_beq s s ≡ true
unfolding text_beq
text_beq_self [] = refl
text_beq_self (c ∷ cs) = ground (arith, text_beq_self cs)

pub text_beq_iff : (s t : Text) → (text_beq s t ≡ true) ↔ (s ≡ t)
text_beq_iff s t = (text_beq_sound s t, λ e. rw e (text_beq_self t))

instance abbrev pub text_eq : Hashable Text
text_eq = record { same = text_beq; same_iff = text_beq_iff }
