-- ===== src/Cart/Holdings.antt =====
-- What is bought in a cart, or will be once its handlers are answered, turn by turn.
use mathlib.Core.List.{append-nil, append_assoc}
use mathlib.Core.List.{Perm}
use mathlib.Core.List.Perm
use samples_python.Base.{
  ℕ, Bool, true, false, ◌&&◌, Option, none, some, List, [], ◌∷◌, ◌++◌, if◌then◌else◌, ◌≡◌, refl,
  sym, ap, ◌∙◌, subst, inl, inr, arith, Option-cases, Bool-cases,
}
use samples_python.Base.Text.{text_eq}
use samples_python.Cart.{
  ShoppingCartItem, get_price, FinalizedOrder, Cart, sum_of_prices, is_nil, run, take_out, Event,
  add_item, price_found, checkout, validate_add_item, finish_add_item, activity_completed, handle,
  turn,
}
use samples_python.Cart.Bought.{priced, bought, accepted, bought-append, bought-take_out, Taken}

-- What is bought in a cart, and will be once its handlers are answered.
unfoldable pub holdings : Cart → List (ShoppingCartItem × ℕ)
holdings c = c.items ++ bought c.handlers

-- `run` has returned exactly if no handler is under way and the order is submitted.
unfoldable pub IsSettled : Cart → Type 0
IsSettled c = c.order ≡ (
    if is_nil c.handlers && c.order_submitted
    then some record { id = c.workflow_id; items = c.items; total = sum_of_prices c.items }
    else none)

-- What an event asks for.
abbrev pub asked : Bool → Event → List ShoppingCartItem
asked true e = []
asked false (add_item item) = item ∷ []
asked false (price_found n) = []
asked false checkout = []

abbrev pub later : Bool → List Event → List ShoppingCartItem
later true es = []
later false es = accepted es

pub run-IsSettled : (c : Cart) → c.order ≡ none → IsSettled (run c)
unfolding run IsSettled
run-IsSettled c h = ground (arith, h)

pub holdings-run : (c : Cart) → holdings (run c) ≡ holdings c
unfolding run holdings
holdings-run c = elim (Bool-cases (is_nil c.handlers && c.order_submitted)) [
  | inl b ↦ rw b refl
  | inr b ↦ rw b refl
]

pub holdings-finish_add_item :
    (item : ShoppingCartItem) (o : Option ℕ) (c : Cart)
    → holdings (finish_add_item item o c).0 ≡ c.items ++ (priced item o ++ bought c.handlers)
unfolding holdings
holdings-finish_add_item item none c = refl
holdings-finish_add_item item (some price) c =
    append_assoc c.items ((item, price) ∷ []) (bought c.handlers)

pub activity_completed-holdings :
    (c : Cart) (o : Option (ShoppingCartItem × List ShoppingCartItem))
    → Taken c.handlers o
    → Perm (holdings (activity_completed o c).0) (holdings c)
unfolding holdings
activity_completed-holdings c none t = Perm.refl (c.items ++ bought c.handlers)
activity_completed-holdings c (some (item, others)) t =
    subst (λ r. Perm r (c.items ++ bought c.handlers))
      (sym (holdings-finish_add_item item (get_price item) (record c { handlers = others })))
      (Perm.append (Perm.refl c.items) t)

pub asked-nothing : (c : Cart) → Perm (holdings c) (holdings c ++ bought [])
unfolding bought
asked-nothing c =
    subst (λ r. Perm (holdings c) r) (sym (append-nil (holdings c))) (Perm.refl (holdings c))

pub asked_nothing_now : (b : Bool) (n : ℕ) → asked b (price_found n) ≡ []
asked_nothing_now true n = refl
asked_nothing_now false n = refl

pub handle-holdings :
    (c : Cart) (e : Event)
    → Perm (holdings (handle c e).0) (holdings c ++ bought (asked c.order_submitted e))
unfolding handle validate_add_item holdings bought
handle-holdings c (add_item item) = elim (Bool-cases c.order_submitted) [
  | inl closed ↦ rw closed (asked-nothing c)
  | inr opened ↦ rw opened (
      subst (λ r. Perm (c.items ++ bought (c.handlers ++ item ∷ [])) r)
        (ap (λ r. c.items ++ r) (bought-append c.handlers (item ∷ []))
          ∙ sym (append_assoc c.items (bought c.handlers) (bought (item ∷ []))))
        (Perm.refl (c.items ++ bought (c.handlers ++ item ∷ []))))
]
handle-holdings c (price_found n) = rw (asked_nothing_now c.order_submitted n) (
    Perm.trans
      (activity_completed-holdings c (take_out n c.handlers) (bought-take_out n c.handlers))
      (asked-nothing c))
handle-holdings c checkout = elim (Bool-cases c.order_submitted) [
  | inl closed ↦ rw closed (asked-nothing c)
  | inr opened ↦ rw opened (asked-nothing c)
]

abbrev pub closes : Bool → Event → Bool
closes b (add_item item) = b
closes b (price_found n) = b
closes b checkout = true

pub finish_add_item-fields :
    (item : ShoppingCartItem) (o : Option ℕ) (c : Cart)
    → ((finish_add_item item o c).0.order ≡ c.order)
      × ((finish_add_item item o c).0.order_submitted ≡ c.order_submitted)
      × ((finish_add_item item o c).0.workflow_id ≡ c.workflow_id)
finish_add_item-fields item none c = (refl, refl, refl)
finish_add_item-fields item (some price) c = (refl, refl, refl)

pub handle-fields :
    (c : Cart) (e : Event)
    → ((handle c e).0.order ≡ c.order)
      × ((handle c e).0.order_submitted ≡ closes c.order_submitted e)
      × ((handle c e).0.workflow_id ≡ c.workflow_id)
unfolding handle validate_add_item
handle-fields c (add_item item) = elim (Bool-cases c.order_submitted) [
  | inl closed ↦ rw closed (refl, refl, refl)
  | inr opened ↦ rw opened (refl, refl, refl)
]
handle-fields c (price_found n) = elim (Option-cases (take_out n c.handlers)) [
  | inl out ↦ rw out (refl, refl, refl)
  | inr ((item, others), found) ↦
      rw found (finish_add_item-fields item (get_price item) (record c { handlers = others }))
]
handle-fields c checkout = (refl, refl, refl)

pub run-fields :
    (c : Cart)
    → ((run c).order_submitted ≡ c.order_submitted) × ((run c).workflow_id ≡ c.workflow_id)
unfolding run
run-fields c = elim (Bool-cases (is_nil c.handlers && c.order_submitted)) [
  | inl b ↦ rw b (refl, refl)
  | inr b ↦ rw b (refl, refl)
]

-- What a turn keeps and what it does to the holdings.
unfoldable pub Turned : Cart → Event → Cart → Type 0
Turned c e d =
    IsSettled d
    × (d.order_submitted ≡ closes c.order_submitted e)
    × (d.workflow_id ≡ c.workflow_id)
    × Perm (holdings d) (holdings c ++ bought (asked c.order_submitted e))

pub asked-closes : (e : Event) → (asked true e ≡ []) × (closes true e ≡ true)
asked-closes (add_item item) = (refl, refl)
asked-closes (price_found n) = (refl, refl)
asked-closes checkout = (refl, refl)

pub returned-closed :
    (c : Cart) (o : FinalizedOrder)
    → IsSettled c
    → c.order ≡ some o
    → (c.handlers ≡ [])
      × (c.order_submitted ≡ true)
      × (o.items ≡ c.items)
      × (o.total ≡ sum_of_prices c.items)
      × (o.id ≡ c.workflow_id)
unfolding IsSettled
returned-closed c o settled e = ground (arith, settled, e)

pub turn-Turned :
    (c : Cart) (e : Event) (o : Option FinalizedOrder)
    → IsSettled c
    → c.order ≡ o
    → Turned c e (turn o c (handle c e)).0
unfolding Turned
turn-Turned c e none settled under_way =
    let kept = handle-fields c e in
    let after = run-fields (handle c e).0 in
    (
      run-IsSettled (handle c e).0 (kept.0 ∙ under_way),
      after.0 ∙ kept.1,
      after.1 ∙ kept.2,
      subst (λ r. Perm r (holdings c ++ bought (asked c.order_submitted e)))
          (sym (holdings-run (handle c e).0)) (handle-holdings c e),
    )
turn-Turned c e (some o) settled returned =
    let closed = (returned-closed c o settled returned).1 in
    (
      settled,
      closed ∙ sym (asked-closes e).1 ∙ ap (λ b. closes b e) (sym closed),
      refl,
      subst (λ items. Perm (holdings c) (holdings c ++ bought items))
          (sym (asked-closes e).0 ∙ ap (λ b. asked b e) (sym closed)) (asked-nothing c),
    )

pub bought-later :
    (b : Bool) (e : Event) (es : List Event)
    → bought (later b (e ∷ es)) ≡ bought (asked b e) ++ bought (later (closes b e) es)
unfolding bought accepted
bought-later true (add_item item) es = refl
bought-later true (price_found n) es = refl
bought-later true checkout es = refl
bought-later false (add_item item) es =
    ap (λ r. r ++ bought (accepted es)) (sym (append-nil (priced item (get_price item))))
bought-later false (price_found n) es = refl
bought-later false checkout es = refl
