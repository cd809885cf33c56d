-- ===== src/Cart.antt =====
-- message_passing/update_with_start/lazy_initialization: workflows.py, the activity of activities.py
-- and the client of starter.py. A shopping cart whose `add_item` handlers are cut at the activity,
-- which answers them in any order. Quantities and prices are natural numbers.
mod Bought
mod Holdings
pub mod Order
pub mod Finish
mod Tests
use samples_python.Base.{
  ℕ, zero, suc, ◌+◌, ◌*◌, Bool, true, false, ◌&&◌, Option, none, some, List, [], ◌∷◌, ◌++◌,
  if◌then◌else◌, ◌==◌, Hashable,
}
use samples_python.Base.Text.{Text, text, text_eq}

pub record ShoppingCartItem : Type 0 where
  pub sku : Text
  pub quantity : ℕ

unfoldable pub get_price : ShoppingCartItem → Option ℕ
get_price item = if item.sku == text "sku-456" then none else some (599 * item.quantity)

pub record FinalizedOrder : Type 0 where
  pub id : Text
  pub items : List (ShoppingCartItem × ℕ)
  pub total : ℕ

-- `handlers` are the calls of `add_item` at their activity, `order` what `run` returned.
pub record Cart : Type 0 where
  pub workflow_id : Text
  pub items : List (ShoppingCartItem × ℕ)
  pub order_submitted : Bool
  pub handlers : List ShoppingCartItem
  pub order : Option FinalizedOrder

unfoldable pub new_cart : (workflow_id : Text) → Cart
new_cart workflow_id = record {
  workflow_id = workflow_id;
  items = [];
  order_submitted = false;
  handlers = [];
  order = none;
}

pub data Error : Type 0 where
  order_already_submitted : Error
  item_unavailable : (item : ShoppingCartItem) → Error

-- What a call of `add_item` is answered.
pub data Reply : Type 0 where
  subtotal : ℕ → Reply
  raised : Error → Reply

-- `sum(price for _, price in items)`
unfoldable pub sum_of_prices : List (ShoppingCartItem × ℕ) → ℕ
sum_of_prices [] = 0
sum_of_prices ((item, price) ∷ items) = price + sum_of_prices items

abbrev pub is_nil {ℓ} : {A : Type ℓ} → List A → Bool
is_nil [] = true
is_nil (x ∷ xs) = false

-- `run` goes on where its condition holds.
unfoldable pub run : Cart → Cart
run c =
    if is_nil c.handlers && c.order_submitted
    then record c {
      order = some record { id = c.workflow_id; items = c.items; total = sum_of_prices c.items };
    }
    else c

unfoldable pub validate_add_item : Cart → Option Error
validate_add_item c = if c.order_submitted then some order_already_submitted else none

-- The n-th entry, and the others.
abbrev pub take_out {ℓ} : {A : Type ℓ} → ℕ → List A → Option (A × List A)
take_out n [] = none
take_out zero (x ∷ xs) = some (x, xs)
take_out (suc n) (x ∷ xs) = elim (take_out n xs) [ none ↦ none | some (y, ys) ↦ some (y, x ∷ ys) ]

-- `add_item` before its activity: answered if the validator raises.
abbrev pub begin_add_item : ShoppingCartItem → Option Error → Cart → Cart × Option Reply
begin_add_item item (some e) c = (c, some (raised e))
begin_add_item item none c = (record c { handlers = c.handlers ++ item ∷ [] }, none)

-- `add_item` after its activity.
abbrev pub finish_add_item : ShoppingCartItem → Option ℕ → Cart → Cart × Option Reply
finish_add_item item none c = (c, some (raised (item_unavailable item)))
finish_add_item item (some price) c =
    let items = c.items ++ (item, price) ∷ [] in
    (record c { items = items }, some (subtotal (sum_of_prices items)))

abbrev pub activity_completed :
    Option (ShoppingCartItem × List ShoppingCartItem) → Cart → Cart × Option Reply
activity_completed none c = (c, none)
activity_completed (some (item, handlers)) c =
    finish_add_item item (get_price item) (record c { handlers = handlers })

pub data Event : Type 0 where
  add_item : (item : ShoppingCartItem) → Event
  -- The activity of the n-th handler under way has ended.
  price_found : (n : ℕ) → Event
  checkout : Event

unfoldable pub handle : Cart → Event → Cart × Option Reply
unfolding validate_add_item get_price
handle c (add_item item) = begin_add_item item (validate_add_item c) c
handle c (price_found n) = activity_completed (take_out n c.handlers) c
handle c checkout = (record c { order_submitted = true }, none)

-- A turn: an event, then `run`. Nothing reaches a cart whose `run` has returned.
abbrev pub turn : Option FinalizedOrder → Cart → Cart × Option Reply → Cart × Option Reply
turn (some order) c (d, reply) = (c, none)
turn none c (d, reply) = (run d, reply)

unfoldable pub step : Cart → Event → Cart × Option Reply
unfolding handle run
step c e = turn c.order c (handle c e)

-- The cart after events, and the replies in their order.
unfoldable pub run_events : Cart → List Event → Cart × List (Option Reply)
unfolding step
run_events c [] = (c, [])
run_events c (e ∷ es) =
    let (d, reply) = step c e in let (last, replies) = run_events d es in (last, reply ∷ replies)

-- What `handle_add_item_request` answers: a sum or None, or the update's error, raised again.
pub data Answer : Type 0 where
  price : Option ℕ → Answer
  raises : Error → Answer

unfoldable pub handle_add_item_request : Reply → Answer
handle_add_item_request (subtotal n) = price (some n)
handle_add_item_request (raised (item_unavailable item)) = price none
handle_add_item_request (raised order_already_submitted) = raises order_already_submitted
