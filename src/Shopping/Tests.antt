-- ===== src/Shopping/Tests.antt =====
-- A cart with a limited product.
use agent_benchmark.Shopping.{
  Product, AppSessionState, Coupon, submit_checkout_order, standard, add_product_to_cart,
  remove_product_from_cart, units, set_cart_item_quantity, total_of, negative, set_units,
  store_item,
}
use agent_benchmark.Common.{List, some, ◌∷◌, [], ◌≡◌, refl, ◌++◌, ◌+◌, get_or, arith}
use agent_benchmark.Shopping.Cart.{act_all, IsValid, Action, act, act_all-IsValid, add, set}
use agent_benchmark.Shopping.Checkout.{checkout_totals}

abbrev charger : Product
charger = record { id = "p1"; price = 2499; stock = some 2 }

abbrev shop : AppSessionState
shop = record { products = charger ∷ []; cart = []; orders = [] }

abbrev visit : List Action
visit =
    add "p1"
    ∷ add "p1"
    ∷ add "p1"
    ∷ set "p1" (units 5)
    ∷ add "p2"
    ∷ set "p1" (negative 1)
    ∷ add "p1"
    ∷ []

visit_cart : (act_all shop visit).cart ≡ record { product_id = "p1"; quantity = 1 } ∷ []
unfolding act_all act add_product_to_cart remove_product_from_cart set_cart_item_quantity set_units
    store_item
visit_cart = refl

act_all-IsValid_example : IsValid (act_all shop visit)
act_all-IsValid_example = act_all-IsValid visit shop (record { distinct = refl; in_stock = tt })

abbrev filled : AppSessionState
filled = record shop { cart = record { product_id = "p1"; quantity = 2 } ∷ [] }

abbrev coupon : Coupon
coupon = record { code = "CABLE20"; discount_percent = 20 }

filled_total : (submit_checkout_order filled "ord" "now" standard 500 (some coupon)).1.total ≡ 4498
unfolding submit_checkout_order
filled_total = refl

checkout_totals_run :
    let (t, order) = submit_checkout_order filled "ord" "now" standard 500 (some coupon) in
    (t.cart ≡ [])
    × (t.orders ≡ [] ++ order ∷ [])
    × (order.items ≡ filled.cart)
    × (order.subtotal ≡ total_of filled.products order.items)
    × (order.total + get_or order.discount_amount 0 ≡ order.subtotal + order.shipping_cost)
checkout_totals_run = checkout_totals filled "ord" "now" standard 500 coupon (omega arith)
