-- ===== src/Cart/Order.antt =====
-- What a cart's order has, whatever the order of the activities' answers.
use mathlib.Core.List.{append-nil, append_assoc}
use mathlib.Core.List.{Perm, Permᴰ}
use mathlib.Core.List.Perm
use mathlib.Core.Logic.{∥∥₁_elim}
use native.Mathlib.Nat.{ℕ_set}
use samples_python.Base.{
  ℕ, ◌*◌, Bool, true, false, some, List, [], ◌∷◌, ◌++◌, ◌≡◌, refl, sym, ap, ◌∙◌, subst, arith,
}
use samples_python.Base.Text.{Text, text_eq}
use samples_python.Cart.{
  ShoppingCartItem, get_price, FinalizedOrder, Cart, new_cart, sum_of_prices, Event, step,
  run_events,
}
use samples_python.Cart.Bought.{bought, quantity_bought, accepted}
use samples_python.Cart.Holdings.{
  holdings, IsSettled, asked, later, Turned, asked-nothing, returned-closed, turn-Turned,
  bought-later,
}

-- The cart after events.
unfoldable pub Reached : Cart → List Event → Cart → Type 0
Reached c es d =
    IsSettled d
    × (d.workflow_id ≡ c.workflow_id)
    × Perm (holdings d) (holdings c ++ bought (later c.order_submitted es))

nothing_later : (b : Bool) → later b [] ≡ []
unfolding accepted
nothing_later true = refl
nothing_later false = refl

pub run_events-Reached :
    (c : Cart) (es : List Event) → IsSettled c → Reached c es (run_events c es).0
unfolding run_events step Reached Turned
run_events-Reached c [] settled = (
  settled,
  refl,
  subst (λ items. Perm (holdings c) (holdings c ++ bought items))
      (sym (nothing_later c.order_submitted)) (asked-nothing c),
)
run_events-Reached c (e ∷ es) settled =
    let d = (step c e).0 in
    let turned : Turned c e d = turn-Turned c e c.order settled refl in
    let rest = run_events-Reached d es turned.0 in
    (
      rest.0,
      rest.1 ∙ turned.2,
      Perm.trans rest.2 (
          subst (λ r. Perm (holdings d ++ bought (later d.order_submitted es)) r)
            (append_assoc (holdings c) (bought (asked c.order_submitted e))
                (bought (later d.order_submitted es))
              ∙ ap (λ r. holdings c ++ r)
                  (ap (λ b. bought (asked c.order_submitted e) ++ bought (later b es)) turned.1
                    ∙ sym (bought-later c.order_submitted e es)))
            (Perm.append turned.3 (Perm.refl (bought (later d.order_submitted es))))),
    )

pub new_cart-IsSettled : (workflow_id : Text) → IsSettled (new_cart workflow_id)
unfolding IsSettled new_cart
new_cart-IsSettled workflow_id = refl

sum-Permᴰ :
    {xs ys : List (ShoppingCartItem × ℕ)} → Permᴰ xs ys → sum_of_prices xs ≡ sum_of_prices ys
unfolding sum_of_prices
sum-Permᴰ Permᴰ.nil = refl
sum-Permᴰ (Permᴰ.cons e p) = omega (arith, ap (λ (x : ShoppingCartItem × ℕ). x.1) e, sum-Permᴰ p)
sum-Permᴰ (Permᴰ.swap e f) =
    omega
      (arith, ap (λ (x : ShoppingCartItem × ℕ). x.1) e, ap (λ (x : ShoppingCartItem × ℕ). x.1) f)
sum-Permᴰ (Permᴰ.trans p q) = sum-Permᴰ p ∙ sum-Permᴰ q

sum-Perm : (xs ys : List (ShoppingCartItem × ℕ)) → Perm xs ys → sum_of_prices xs ≡ sum_of_prices ys
sum-Perm xs ys p = ∥∥₁_elim p (ℕ_set (sum_of_prices xs) (sum_of_prices ys)) sum-Permᴰ

sum-bought :
    (items : List ShoppingCartItem) → sum_of_prices (bought items) ≡ 599 * quantity_bought items
unfolding sum_of_prices bought get_price quantity_bought
sum-bought [] = omega arith
sum-bought (item ∷ items) = ground (arith, sum-bought items)

-- When the workflow of a cart returns an order, whatever the order in which activities were
-- answered, the order has the cart's id; its items are, up to their order, those that were asked for
-- before the first checkout and are available, each with its price; and its total is 599 times
-- their quantity.
pub run_events-finalized_order :
    (workflow_id : Text) (es : List Event) (o : FinalizedOrder)
    → (run_events (new_cart workflow_id) es).0.order ≡ some o
    → (o.id ≡ workflow_id)
      × Perm o.items (bought (accepted es))
      × (o.total ≡ 599 * quantity_bought (accepted es))
unfolding new_cart Reached holdings bought
run_events-finalized_order workflow_id es o e =
    let c = new_cart workflow_id in
    let d = (run_events c es).0 in
    let reached = run_events-Reached c es (new_cart-IsSettled workflow_id) in
    let final = returned-closed d o reached.0 e in
    let all_items : Perm o.items (bought (accepted es)) =
      subst (λ r. Perm r (bought (accepted es))) (append-nil d.items ∙ sym final.2)
        (subst (λ hs. Perm (d.items ++ bought hs) (bought (accepted es))) final.0 reached.2) in
    (
      final.4 ∙ reached.1,
      all_items,
      final.3
          ∙ ap sum_of_prices (sym final.2)
          ∙ sum-Perm o.items (bought (accepted es)) all_items
          ∙ sum-bought (accepted es),
    )
