-- ===== src/Shopping/Checkout.antt =====
-- What an order costs.
use native.Mathlib.Nat.{mul-le-mul_left}
use agent_benchmark.Common.{get_or, ◌*◌, arith, refl}
use agent_benchmark.Shopping.{
  submit_checkout_order, AppSessionState, ShippingMethod, Coupon, total_of, get_cart_total,
}
use agent_benchmark.Common.{String, ℕ, ◌≤◌, some, ◌≡◌, [], ◌++◌, ◌∷◌, ◌+◌, get_or}

-- An order takes the whole cart, empties it and is recorded; with a discount of at most a hundred
-- percent nothing is cut off at zero, and the total is the subtotal without the discount and with the
-- shipping.
pub checkout_totals :
    (s : AppSessionState) (id now : String) (method : ShippingMethod) (shipping : ℕ) (c : Coupon)
    → c.discount_percent ≤ 100
    → let (t, order) = submit_checkout_order s id now method shipping (some c) in
      (t.cart ≡ [])
      × (t.orders ≡ s.orders ++ order ∷ [])
      × (order.items ≡ s.cart)
      × (order.subtotal ≡ total_of s.products order.items)
      × (order.total + get_or order.discount_amount 0 ≡ order.subtotal + order.shipping_cost)
unfolding submit_checkout_order
checkout_totals s id now method shipping c most = (
  refl,
  refl,
  refl,
  refl,
  let capped : get_cart_total s * c.discount_percent ≤ get_cart_total s * 100 =
        mul-le-mul_left (get_cart_total s) most in
      omega (arith, capped),
)
