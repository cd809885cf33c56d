-- ===== src/Cart/Finish.antt =====
-- The workflow of a cart ends once it is checked out and its activities are answered.
use samples_python.Base.{
  ℕ, zero, suc, ◌≤◌, true, ◌&&◌, Option, none, some, List, [], ◌∷◌, ◌++◌, ◌≡◌, ◌≢◌, refl, ap, ◌∙◌,
  inl, inr, arith, Bool-cases, length,
}
use samples_python.Base.Text.{Text}
use samples_python.Cart.{
  ShoppingCartItem, get_price, FinalizedOrder, Cart, new_cart, is_nil, run, take_out, Event,
  price_found, checkout, finish_add_item, handle, step, turn, run_events, activity_completed,
}
use samples_python.Cart.Holdings.{IsSettled, Turned, turn-Turned, returned-closed}
use samples_python.Cart.Order.{Reached, run_events-Reached, new_cart-IsSettled}

-- The first handler under way is answered, n times.
unfoldable pub answers : ℕ → List Event
answers zero = []
answers (suc n) = price_found 0 ∷ answers n

finish_add_item-handlers :
    (item : ShoppingCartItem) (o : Option ℕ) (c : Cart)
    → (finish_add_item item o c).0.handlers ≡ c.handlers
finish_add_item-handlers item none c = refl
finish_add_item-handlers item (some price) c = refl

run-handlers : (c : Cart) → (run c).handlers ≡ c.handlers
unfolding run
run-handlers c = elim (Bool-cases (is_nil c.handlers && c.order_submitted)) [
  | inl b ↦ rw b refl
  | inr b ↦ rw b refl
]

answered-length :
    (c : Cart) (handlers : List ShoppingCartItem) (n : ℕ)
    → length handlers ≤ suc n
    → length
        (activity_completed (take_out 0 handlers) (record c { handlers = handlers })).0.handlers
      ≤ n
answered-length c [] n h = omega arith
answered-length c (item ∷ others) n h = omega (
  arith,
  h,
  ap length (finish_add_item-handlers item (get_price item) (record c { handlers = others })),
)

turn-length :
    (c : Cart) (n : ℕ) (o : Option FinalizedOrder)
    → IsSettled c
    → c.order ≡ o
    → length c.handlers ≤ suc n
    → length (turn o c (handle c (price_found 0))).0.handlers ≤ n
unfolding handle
turn-length c n none settled under_way h =
    omega (
      arith,
      answered-length c c.handlers n h,
      ap length (run-handlers (handle c (price_found 0)).0),
    )
turn-length c n (some o) settled returned h =
    omega (arith, ap length (returned-closed c o settled returned).0)

settled-returned :
    (c : Cart) → IsSettled c → c.order_submitted ≡ true → length c.handlers ≤ 0 → c.order ≢ none
unfolding IsSettled
settled-returned c settled closed h = ground (arith, settled, closed, h)

answers-returned :
    (n : ℕ) (c : Cart)
    → IsSettled c
    → c.order_submitted ≡ true
    → length c.handlers ≤ n
    → (run_events c (answers n)).0.order ≢ none
unfolding run_events step answers Turned
answers-returned zero c settled closed h = settled-returned c settled closed h
answers-returned (suc n) c settled closed h =
    let e = price_found 0 in
    let turned : Turned c e (step c e).0 = turn-Turned c e c.order settled refl in
    answers-returned n (step c e).0 turned.0 (turned.1 ∙ closed)
      (turn-length c n c.order settled refl h)

run_events-append :
    (c : Cart) (es fs : List Event)
    → (run_events c (es ++ fs)).0 ≡ (run_events (run_events c es).0 fs).0
unfolding run_events
run_events-append c [] fs = refl
run_events-append c (e ∷ es) fs = run_events-append (step c e).0 es fs

checkout-length :
    (c : Cart) (o : Option FinalizedOrder)
    → length (turn o c (handle c checkout)).0.handlers ≤ length c.handlers
unfolding handle
checkout-length c none =
    omega (arith, ap length (run-handlers (record c { order_submitted = true })))
checkout-length c (some o) = omega arith

-- After any events, once the cart is checked out and each handler that is under way is answered,
-- the workflow has returned its order.
pub run_events-returned_order :
    (workflow_id : Text) (es : List Event)
    → let c = (run_events (new_cart workflow_id) es).0 in
      (run_events (new_cart workflow_id) (es ++ checkout ∷ answers (length c.handlers))).0.order
      ≢ none
unfolding run_events step Reached Turned
run_events-returned_order workflow_id es =
    let c = (run_events (new_cart workflow_id) es).0 in
    let settled =
      (run_events-Reached (new_cart workflow_id) es (new_cart-IsSettled workflow_id)).0 in
    let turned : Turned c checkout (step c checkout).0 =
      turn-Turned c checkout c.order settled refl in
    rw (run_events-append (new_cart workflow_id) es (checkout ∷ answers (length c.handlers))) (
      answers-returned (length c.handlers) (step c checkout).0 turned.0 turned.1
        (checkout-length c c.order))
