-- ===== src/Shopping/Cart.antt =====
-- The cart's items stay distinct, positive and within stock.
use agent_benchmark.Common.{
  String, List, is_unique, ℕ, Bool, not, Option-cases, Option, ◌∷◌, ◌<◌, contains, All, ◌==◌, ◌≡◌,
  Bool-cases, All-filter, inl, some, true, ◌||◌, subst, false, inr, suc, none, [], arith, sym,
  filter, eq_iff, refl, ◌+◌, zero, ap, ◌∙◌,
}
use agent_benchmark.Shopping.{
  AppSessionState, store_item, CartItem, remove_product_from_cart, set_units, add_product_to_cart,
  set_cart_item_quantity, Product, Quantity, submit_checkout_order, ids, find_product,
  ShippingMethod, CartMutationResult, negative, exceeds, Coupon, units, stock_of, quantity_of,
  find_item, fractional,
}

abbrev pub InStock : List Product → CartItem → Type 0
InStock products i =
    (0 < i.quantity) × (exceeds i.quantity (stock_of (find_product i.product_id products)) ≡ false)

pub record IsValid (s : AppSessionState) : Type 0 where
  pub distinct : is_unique (ids s.cart) ≡ true
  pub in_stock : All (InStock s.products) s.cart

contains-store_item :
    (j id : String) (q : ℕ) (cart : List CartItem)
    → contains j (ids (store_item id q cart)) ≡ (id == j || contains j (ids cart))
unfolding store_item
contains-store_item j id q [] = refl
contains-store_item j id q (i ∷ cart) = ground (
  arith,
  eq_iff i.product_id id,
  eq_iff id j,
  eq_iff i.product_id j,
  contains-store_item j id q cart,
)

store_item-distinct :
    (id : String) (q : ℕ) (cart : List CartItem)
    → is_unique (ids cart) ≡ true
    → is_unique (ids (store_item id q cart)) ≡ true
unfolding store_item
store_item-distinct id q [] h = refl
store_item-distinct id q (i ∷ cart) h = ground (
  arith,
  eq_iff i.product_id id,
  eq_iff id i.product_id,
  contains-store_item i.product_id id q cart,
  store_item-distinct id q cart,
)

store_item-InStock :
    (products : List Product) (id : String) (q : ℕ) (cart : List CartItem)
    → InStock products (record { product_id = id; quantity = q })
    → All (InStock products) cart
    → All (InStock products) (store_item id q cart)
unfolding store_item
store_item-InStock products id q [] p h = (p, tt)
store_item-InStock products id q (i ∷ cart) p (g, h) = elim (Bool-cases (i.product_id == id)) [
  | inl same ↦ rw same (
    subst (λ k. InStock products (record { product_id = k; quantity = q }))
        (sym ((eq_iff i.product_id id).0 same)) p,
    h,
  )
  | inr other ↦ rw other (g, store_item-InStock products id q cart p h)
]

contains-filter :
    (j : String) (p : CartItem → Bool) (cart : List CartItem)
    → contains j (ids cart) ≡ false
    → contains j (ids (filter p cart)) ≡ false
contains-filter j p [] h = refl
contains-filter j p (i ∷ cart) h = ground (arith, contains-filter j p cart)

filter-distinct :
    (p : CartItem → Bool) (cart : List CartItem)
    → is_unique (ids cart) ≡ true
    → is_unique (ids (filter p cart)) ≡ true
filter-distinct p [] h = refl
filter-distinct p (i ∷ cart) h =
    ground (arith, contains-filter i.product_id p cart, filter-distinct p cart)

remove-IsValid :
    (s : AppSessionState) (id : String) → IsValid s → IsValid (remove_product_from_cart s id)
unfolding remove_product_from_cart
remove-IsValid s id v = record {
  distinct = filter-distinct (λ i. not (i.product_id == id)) s.cart v.distinct;
  in_stock = All-filter (InStock s.products) (λ i. not (i.product_id == id)) s.cart v.in_stock;
}

set_units-IsValid :
    (s : AppSessionState) (id : String) (q : ℕ) → 0 < q → IsValid s → IsValid (set_units s id q).0
unfolding set_units
set_units-IsValid s id q positive v =
    elim (Bool-cases (exceeds q (stock_of (find_product id s.products)))) [
      | inl over ↦ rw (over, set_units) v
      | inr within ↦
          rw (within, set_units)
            (record {
              distinct = store_item-distinct id q s.cart v.distinct;
              in_stock = store_item-InStock s.products id q s.cart (positive, within) v.in_stock;
            })
    ]

add-IsValid : (s : AppSessionState) (id : String) → IsValid s → IsValid (add_product_to_cart s id).0
unfolding add_product_to_cart
add-IsValid s id v = elim (Option-cases (find_product id s.products)) [
  | inl unknown ↦ rw (unknown, add_product_to_cart) v
  | inr (product, known) ↦
      elim (Bool-cases (exceeds (quantity_of (find_item id s.cart) + 1) product.stock)) [
        | inl over ↦ rw (known, over, add_product_to_cart) v
        | inr within ↦
            rw (known, within, add_product_to_cart)
              (record {
                distinct =
                    store_item-distinct id (quantity_of (find_item id s.cart) + 1) s.cart
                      v.distinct;
                in_stock =
                    store_item-InStock s.products id (quantity_of (find_item id s.cart) + 1) s.cart
                      (
                        omega arith,
                        ap (λ o. exceeds (quantity_of (find_item id s.cart) + 1) (stock_of o)) known
                            ∙ within,
                      )
                      v.in_stock;
              })
      ]
]

-- What a visitor can do to the cart.
pub data Action : Type 0 where
  add : String → Action
  remove : String → Action
  set : String → Quantity → Action
  checkout : String → String → ShippingMethod → ℕ → Option Coupon → Action

abbrev pub kept : AppSessionState → Option (AppSessionState × CartMutationResult) → AppSessionState
kept s none = s
kept s (some (t, r)) = t

unfoldable pub act : AppSessionState → Action → AppSessionState
act s (add id) = (add_product_to_cart s id).0
act s (remove id) = remove_product_from_cart s id
act s (set id q) = kept s (set_cart_item_quantity s id q)
act s (checkout id now method shipping coupon) =
    (submit_checkout_order s id now method shipping coupon).0

unfoldable pub act_all : AppSessionState → List Action → AppSessionState
act_all s [] = s
act_all s (a ∷ more) = act_all (act s a) more

act-IsValid : (s : AppSessionState) (a : Action) → IsValid s → IsValid (act s a)
unfolding act set_cart_item_quantity submit_checkout_order
act-IsValid s (add id) v = add-IsValid s id v
act-IsValid s (remove id) v = remove-IsValid s id v
act-IsValid s (set id fractional) v = v
act-IsValid s (set id (negative n)) v = remove-IsValid s id v
act-IsValid s (set id (units zero)) v = remove-IsValid s id v
act-IsValid s (set id (units (suc n))) v = set_units-IsValid s id (suc n) (omega arith) v
act-IsValid s (checkout id now method shipping coupon) v = record { distinct = refl; in_stock = tt }

-- Whatever is added, removed, set or bought, the items of the cart are distinct products in positive
-- quantities, none above the product's stock.
pub act_all-IsValid :
    (actions : List Action) (s : AppSessionState) → IsValid s → IsValid (act_all s actions)
unfolding act_all
act_all-IsValid [] s v = v
act_all-IsValid (a ∷ more) s v = act_all-IsValid more (act s a) (act-IsValid s a v)
