-- ===== src/Cart/Tests.antt =====
-- Two handlers under way at the checkout, and an item that is not available.
use samples_python.Base.{◌*◌, ◌++◌, ◌≡◌, ◌≢◌, refl, none, some, List, [], ◌∷◌, length}
use samples_python.Base.Text.{text, text_beq, text_eq}
use mathlib.Core.List.{Perm}
use samples_python.Cart.{
  ShoppingCartItem, FinalizedOrder, new_cart, get_price, sum_of_prices, run, Event, add_item,
  price_found, checkout, subtotal, raised, item_unavailable, order_already_submitted, price, raises,
  validate_add_item, handle, step, run_events, handle_add_item_request,
}
use samples_python.Cart.Bought.{bought, accepted, quantity_bought}
use samples_python.Cart.Order.{run_events-finalized_order}
use samples_python.Cart.Finish.{answers, run_events-returned_order}

abbrev pen : ShoppingCartItem
pen = record { sku = text "sku-123"; quantity = 1 }

abbrev book : ShoppingCartItem
book = record { sku = text "sku-7"; quantity = 2 }

abbrev ghost : ShoppingCartItem
ghost = record { sku = text "sku-456"; quantity = 1 }

abbrev events : List Event
events =
    add_item pen
    ∷ add_item ghost
    ∷ add_item book
    ∷ price_found 2
    ∷ checkout
    ∷ add_item pen
    ∷ price_found 1
    ∷ price_found 0
    ∷ []

abbrev final_order : FinalizedOrder
final_order = record { id = text "cart"; items = (book, 1198) ∷ (pen, 599) ∷ []; total = 1797 }

order_test : (run_events (new_cart (text "cart")) events).0.order ≡ some final_order
unfolding run_events step handle run validate_add_item get_price new_cart sum_of_prices text_beq
order_test = refl

replies_test :
    (run_events (new_cart (text "cart")) events).1
    ≡ none
      ∷ none
      ∷ none
      ∷ some (subtotal 1198)
      ∷ none
      ∷ some (raised order_already_submitted)
      ∷ some (raised (item_unavailable ghost))
      ∷ some (subtotal 1797)
      ∷ []
unfolding run_events step handle run validate_add_item get_price new_cart sum_of_prices text_beq
replies_test = refl

client_test :
    (handle_add_item_request (raised (item_unavailable ghost)) ≡ price none)
    × (handle_add_item_request (raised order_already_submitted) ≡ raises order_already_submitted)
unfolding handle_add_item_request
client_test = (refl, refl)

run_events-finalized_order_example :
    (final_order.id ≡ text "cart")
    × Perm final_order.items (bought (accepted events))
    × (final_order.total ≡ 599 * quantity_bought (accepted events))
run_events-finalized_order_example =
    run_events-finalized_order (text "cart") events final_order order_test

run_events-returned_order_example :
    let c = (run_events (new_cart (text "cart")) (add_item pen ∷ [])).0 in
    (run_events
      (new_cart (text "cart"))
      (add_item pen ∷ [] ++ checkout ∷ answers (length c.handlers))).0.order
    ≢ none
run_events-returned_order_example = run_events-returned_order (text "cart") (add_item pen ∷ [])
