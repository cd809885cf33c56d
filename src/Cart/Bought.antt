-- ===== src/Cart/Bought.antt =====
-- The items of a list that are available, with their prices.
use mathlib.Core.List.{append_assoc}
use mathlib.Core.List.{Perm}
use mathlib.Core.List.Perm
use samples_python.Base.{
  ℕ, zero, suc, ◌+◌, Option, none, some, List, [], ◌∷◌, ◌++◌, if◌then◌else◌, ◌==◌, ◌≡◌, refl, sym,
  ap, ◌∙◌, subst, inl, inr, Option-cases,
}
use samples_python.Base.Perms.{append_left_comm}
use samples_python.Base.Text.{text, text_eq}
use samples_python.Cart.{
  ShoppingCartItem, get_price, take_out, Event, add_item, price_found, checkout,
}

abbrev pub priced : ShoppingCartItem → Option ℕ → List (ShoppingCartItem × ℕ)
priced item none = []
priced item (some price) = (item, price) ∷ []

-- Items with their prices, less those that are unavailable.
unfoldable pub bought : List ShoppingCartItem → List (ShoppingCartItem × ℕ)
bought [] = []
bought (item ∷ items) = priced item (get_price item) ++ bought items

-- The items that are asked for before the first checkout.
unfoldable pub accepted : List Event → List ShoppingCartItem
accepted [] = []
accepted (add_item item ∷ es) = item ∷ accepted es
accepted (price_found n ∷ es) = accepted es
accepted (checkout ∷ es) = []

-- How many of the items that are available are asked for.
unfoldable pub quantity_bought : List ShoppingCartItem → ℕ
quantity_bought [] = 0
quantity_bought (item ∷ items) =
    (if item.sku == text "sku-456" then 0 else item.quantity) + quantity_bought items

pub bought-append : (xs ys : List ShoppingCartItem) → bought (xs ++ ys) ≡ bought xs ++ bought ys
unfolding bought
bought-append [] ys = refl
bought-append (x ∷ xs) ys =
    ap (λ r. priced x (get_price x) ++ r) (bought-append xs ys)
    ∙ sym (append_assoc (priced x (get_price x)) (bought xs) (bought ys))

-- What is taken out and what stays are what was there.
abbrev pub Taken :
    List ShoppingCartItem → Option (ShoppingCartItem × List ShoppingCartItem) → Type 0
Taken items none = Unit
Taken items (some (item, others)) =
    Perm (priced item (get_price item) ++ bought others) (bought items)

pub bought-take_out : (n : ℕ) (items : List ShoppingCartItem) → Taken items (take_out n items)
unfolding bought
bought-take_out n [] = tt
bought-take_out zero (x ∷ xs) = Perm.refl (priced x (get_price x) ++ bought xs)
bought-take_out (suc n) (x ∷ xs) = elim (Option-cases (take_out n xs)) [
  | inl out ↦ rw out tt
  | inr ((item, others), found) ↦
      let rest : Taken xs (some (item, others)) = subst (Taken xs) found (bought-take_out n xs) in
      rw found (
        Perm.trans
          (append_left_comm (priced item (get_price item)) (priced x (get_price x)) (bought others))
          (Perm.append (Perm.refl (priced x (get_price x))) rest))
]
