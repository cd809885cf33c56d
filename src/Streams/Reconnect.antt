-- ===== src/Streams/Reconnect.antt =====
-- A subscriber that reconnects shows each event once.
use samples_python.Base.{
  drop, ℕ, zero, suc, ◌+◌, ◌≤◌, true, false, Option, none, some, List, [], ◌∷◌, ◌++◌, if◌then◌else◌,
  leb, ◌==◌, ◌≡◌, refl, sym, ap, ◌∙◌, subst, inl, inr, arith, Bool-cases, take, select,
}
use samples_python.Base.Text.{Text, text, text_eq}
use samples_python.Streams.Log.{Item}
use samples_python.Streams.{
  State, Happening, item, polled, seen_one, phase_1, phase_2, disconnected, main,
}

-- The items among what happens.
unfoldable pub items_of : List Happening → List (Item Text)
items_of [] = []
items_of (item i ∷ hs) = i ∷ items_of hs
items_of (polled answer ∷ hs) = items_of hs

-- The items up to the first that says that the work is complete.
unfoldable pub through_complete : List (Item Text) → List (Item Text)
through_complete [] = []
through_complete (i ∷ items) =
    i ∷ (if i.event == text "complete" then [] else through_complete items)

-- Offsets only grow.
abbrev pub Above : ℕ → List (Item Text) → Type 0
Above n [] = Unit
Above n (i ∷ items) = (n ≤ i.offset) × Above (i.offset + 1) items

-- What a subscription from an offset brings of a log.
unfoldable pub from_offset : ℕ → List (Item Text) → List (Item Text)
from_offset n items = select (λ i. leb n i.offset) items

-- The offset after the last item.
abbrev after : ℕ → List (Item Text) → ℕ
after n [] = n
after n (i ∷ items) = after (i.offset + 1) items

from_offset-Above :
    (m n : ℕ) (items : List (Item Text)) → m ≤ n → Above n items → from_offset m items ≡ items
unfolding from_offset
from_offset-Above m n [] h above = refl
from_offset-Above m n (i ∷ items) h above =
    let here : leb m i.offset ≡ true = ground (arith, h, above.0) in
    rw here (
      ap (λ r. i ∷ r)
        (from_offset-Above m (i.offset + 1) items (omega (arith, h, above.0)) above.1))

from_offset-append :
    (n : ℕ) (front back : List (Item Text))
    → Above n (front ++ back)
    → (n ≤ after n front) × (from_offset (after n front) (front ++ back) ≡ back)
unfolding from_offset
from_offset-append n [] back above = (omega arith, from_offset-Above n n back (omega arith) above)
from_offset-append n (i ∷ front) back above =
    let rest = from_offset-append (i.offset + 1) front back above.1 in
    let skipped : leb (after (i.offset + 1) front) i.offset ≡ false = ground (arith, rest.0) in
    (omega (arith, rest.0, above.0), rw skipped rest.1)

phase_1-last :
    (hs : List Happening) (state : State)
    → ((phase_1 1 hs state).1 ≡ take 1 (items_of hs))
      × ((phase_1 1 hs state).0.processed ≡ after state.processed (take 1 (items_of hs)))
unfolding phase_1 items_of
phase_1-last [] state = (refl, refl)
phase_1-last (polled none ∷ hs) state = phase_1-last hs state
phase_1-last (polled (some offset) ∷ hs) state =
    phase_1-last hs (record state { available = offset })
phase_1-last (item i ∷ hs) state = (refl, refl)

phase_1-take :
    (hs : List Happening) (state : State)
    → ((phase_1 0 hs state).1 ≡ take 2 (items_of hs))
      × ((phase_1 0 hs state).0.processed ≡ after state.processed (take 2 (items_of hs)))
unfolding phase_1 items_of
phase_1-take [] state = (refl, refl)
phase_1-take (polled none ∷ hs) state = phase_1-take hs state
phase_1-take (polled (some offset) ∷ hs) state =
    phase_1-take hs (record state { available = offset })
phase_1-take (item i ∷ hs) state =
    let rest = phase_1-last hs (seen_one i state) in (ap (λ r. i ∷ r) rest.0, rest.1)

phase_2-through_complete :
    (hs : List Happening) (state : State) → (phase_2 hs state).1 ≡ through_complete (items_of hs)
unfolding phase_2 items_of through_complete
phase_2-through_complete [] state = refl
phase_2-through_complete (polled none ∷ hs) state = phase_2-through_complete hs state
phase_2-through_complete (polled (some offset) ∷ hs) state =
    phase_2-through_complete hs (record state { available = offset })
phase_2-through_complete (item i ∷ hs) state = elim (Bool-cases (i.event == text "complete")) [
  | inl last ↦ rw last refl
  | inr more ↦ rw more (ap (λ r. i ∷ r) (phase_2-through_complete hs (seen_one i state)))
]

disconnected-processed :
    (answers : List (Option ℕ)) (state : State)
    → (disconnected answers state).processed ≡ state.processed
unfolding disconnected
disconnected-processed [] state = refl
disconnected-processed (none ∷ answers) state = disconnected-processed answers state
disconnected-processed (some offset ∷ answers) state =
    disconnected-processed answers (record state { available = offset })

take-drop {ℓ} : {A : Type ℓ} (n : ℕ) (xs : List A) → take n xs ++ drop n xs ≡ xs
take-drop zero xs = refl
take-drop (suc n) [] = refl
take-drop (suc n) (x ∷ xs) = ap (λ r. x ∷ r) (take-drop n xs)

-- A subscriber of a log whose offsets only grow, each of whose subscriptions brings the items from
-- its offset on, shows the first two items and, after it has reconnected, those that follow up to the
-- first that says `complete`: none twice and none left out, whatever the poller answers and when.
pub main-items :
    (log : List (Item Text)) (first : List Happening) (between : List (Option ℕ))
    (second : ℕ → List Happening)
    → Above 0 log
    → items_of first ≡ log
    → ((n : ℕ) → items_of (second n) ≡ from_offset n log)
    → (main first between second).1 ≡ take 2 log ++ through_complete (drop 2 log)
unfolding main
main-items log first between second above all from =
    let one = phase_1-take first (record { processed = 0; available = 0 }) in
    let away = disconnected between (phase_1 0 first (record { processed = 0; available = 0 })).0 in
    let front = take 2 log in
    let offset : away.processed ≡ after 0 front =
      disconnected-processed between (phase_1 0 first (record { processed = 0; available = 0 })).0
      ∙ one.1
      ∙ ap (λ items. after 0 (take 2 items)) all in
    let whole = take-drop 2 log in
    let rest : from_offset (after 0 front) log ≡ drop 2 log =
      ap (from_offset (after 0 front)) (sym whole)
      ∙ (from_offset-append 0 front (drop 2 log) (subst (Above 0) (sym whole) above)).1 in
    let again : (phase_2 (second away.processed) away).1 ≡ through_complete (drop 2 log) =
      phase_2-through_complete (second away.processed) away
      ∙ ap through_complete (from away.processed ∙ ap (λ n. from_offset n log) offset ∙ rest) in
    ap (λ items. items ++ (phase_2 (second away.processed) away).1) (one.0 ∙ ap (take 2) all)
    ∙ ap (λ items. front ++ items) again
