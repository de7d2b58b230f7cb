-- ===== src/Shopping.antt =====
-- The shopping site's cart: apps/hosted-sites/src/apps/shopping-lite/actions.ts. Money is in cents,
-- so roundMoney rounds only the discount, half up.
use agent_benchmark.Common.{
  zero, String, List, ℕ, Option, find, map, ◌∷◌, Bool, some, ◌+◌, filter, if◌then◌else◌, none, ◌-◌,
  ◌==◌, false, not, suc, ◌*◌, leb, map_option, [], ltb, ◌/◌, ◌++◌,
}
pub mod Cart
pub mod Checkout
mod Tests

pub record Product : Type 0 where
  pub id : String
  pub price : ℕ
  pub stock : Option ℕ

pub record CartItem : Type 0 where
  pub product_id : String
  pub quantity : ℕ

pub record Coupon : Type 0 where
  pub code : String
  pub discount_percent : ℕ

pub data ShippingMethod : Type 0 where
  standard express : ShippingMethod

pub record Order : Type 0 where
  pub id : String
  pub items : List CartItem
  pub total : ℕ
  pub subtotal : ℕ
  pub shipping_method : ShippingMethod
  pub shipping_cost : ℕ
  pub coupon_code : Option String
  pub discount_amount : Option ℕ
  pub submitted_at : String

pub record AppSessionState : Type 0 where
  pub products : List Product
  pub cart : List CartItem
  pub orders : List Order

pub data CartMutationResult : Type 0 where
  success : CartMutationResult
  refused : String → CartMutationResult

-- A quantity as it is asked for.
pub data Quantity : Type 0 where
  fractional : Quantity
  negative : ℕ → Quantity
  units : ℕ → Quantity

abbrev pub find_product : String → List Product → Option Product
find_product id products = find (λ p. p.id == id) products

abbrev pub find_item : String → List CartItem → Option CartItem
find_item id cart = find (λ i. i.product_id == id) cart

abbrev pub ids : List CartItem → List String
ids cart = map (λ i. i.product_id) cart

-- `existing.quantity = quantity` on the item that `find` returned, or a new item at the end.
unfoldable pub store_item : String → ℕ → List CartItem → List CartItem
store_item id quantity [] = record { product_id = id; quantity = quantity } ∷ []
store_item id quantity (i ∷ cart) =
    if i.product_id == id
    then record i { quantity = quantity } ∷ cart
    else i ∷ store_item id quantity cart

-- `product.stock != null && quantity > product.stock`
abbrev pub exceeds : ℕ → Option ℕ → Bool
exceeds quantity none = false
exceeds quantity (some stock) = ltb stock quantity

abbrev pub stock_of : Option Product → Option ℕ
stock_of none = none
stock_of (some product) = product.stock

abbrev pub quantity_of : Option CartItem → ℕ
quantity_of none = 0
quantity_of (some item) = item.quantity

unfoldable pub add_product_to_cart : AppSessionState → String → AppSessionState × CartMutationResult
unfolding store_item
add_product_to_cart s id =
    let next = quantity_of (find_item id s.cart) + 1 in
    elim (find_product id s.products) [
      | none ↦ (s, refused "Unknown product")
      | some product ↦
          if exceeds next product.stock
          then (s, refused "Out of stock")
          else (record s { cart = store_item id next s.cart }, success)
    ]

unfoldable pub remove_product_from_cart : AppSessionState → String → AppSessionState
remove_product_from_cart s id = record s { cart = filter (λ i. not (i.product_id == id)) s.cart }

-- A positive number of units.
unfoldable pub set_units : AppSessionState → String → ℕ → AppSessionState × CartMutationResult
unfolding store_item
set_units s id quantity =
    if exceeds quantity (stock_of (find_product id s.products))
    then (s, refused "Out of stock")
    else (record s { cart = store_item id quantity s.cart }, success)

-- `none` is the exception for a quantity that is no integer.
unfoldable pub set_cart_item_quantity :
    AppSessionState → String → Quantity → Option (AppSessionState × CartMutationResult)
unfolding remove_product_from_cart set_units
set_cart_item_quantity s id fractional = none
set_cart_item_quantity s id (negative n) = some (remove_product_from_cart s id, success)
set_cart_item_quantity s id (units zero) = some (remove_product_from_cart s id, success)
set_cart_item_quantity s id (units (suc n)) = some (set_units s id (suc n))

abbrev pub line_total : List Product → CartItem → ℕ
line_total products item = elim (find_product item.product_id products) [
  | none ↦ 0
  | some product ↦ item.quantity * product.price
]

-- `getCartTotal`
abbrev pub total_of : List Product → List CartItem → ℕ
total_of products [] = 0
total_of products (i ∷ cart) = line_total products i + total_of products cart

abbrev pub get_cart_total : AppSessionState → ℕ
get_cart_total s = total_of s.products s.cart

-- `getShippingCost`, with the two numbers of the task's configuration.
unfoldable pub get_shipping_cost : AppSessionState → ShippingMethod → Option ℕ → Option ℕ → ℕ
get_shipping_cost s express threshold cost = 0
get_shipping_cost s standard (some threshold) (some cost) =
    if leb threshold (get_cart_total s) then 0 else cost
get_shipping_cost s standard _ _ = 0

-- In exact cents. The subtraction of an order's total stops at 0, where the source goes below it for a
-- discount of more than a hundred percent.
abbrev pub discount : ℕ → Option Coupon → ℕ
discount subtotal none = 0
discount subtotal (some c) = (subtotal * c.discount_percent + 50) / 100

unfoldable pub submit_checkout_order :
    AppSessionState → String → String → ShippingMethod → ℕ → Option Coupon → AppSessionState × Order
submit_checkout_order s id now method shipping coupon =
    let subtotal = get_cart_total s in
    let order : Order = record {
      id = id;
      items = s.cart;
      total = subtotal - discount subtotal coupon + shipping;
      subtotal = subtotal;
      shipping_method = method;
      shipping_cost = shipping;
      coupon_code = map_option (λ c. c.code) coupon;
      discount_amount = map_option (λ c. discount subtotal (some c)) coupon;
      submitted_at = now;
    } in
    (record s { orders = s.orders ++ order ∷ []; cart = [] }, order)
