-- ===== src/Orders/Totals.antt =====
-- What `create` of orders.service.ts computes: totals, discount and what is left unpaid, in doubles
-- (Double), and what the columns hold of it, in cents.
use salepoint_backend.Prelude.{
  ℕ, zero, suc, min, Bool, true, false, not, ◌&&◌, ◌||◌, Option, none, some, List, [], ◌∷◌, ◌++◌,
  String, ◌==◌, if◌then◌else◌,
}
use salepoint_backend.Double.{
  of_ratio, of_cents, of_thousandths, add, sub, mul, per_cent, to_fixed, to_column,
}
use salepoint_backend.Decimal as Decimal
use salepoint_backend.Products.{Product}
use salepoint_backend.Entities.{
  OrderStatus, DiscountType, percent, fixed, OrderItem, Order, Customer,
}

pub record OrderItemDto : Type 0 where
  pub product_id : ℕ
  pub quantity : ℕ

-- The payments are in billionths: the validators do not limit their decimals.
pub record CreateOrderDto : Type 0 where
  pub items : List OrderItemDto
  pub discount_type : Option DiscountType
  pub discount_value : Option ℕ
  pub paid_by_cash : Option ℕ
  pub paid_by_card : Option ℕ
  pub notes : Option String
  pub customer_id : Option ℕ
  pub shift_id : Option ℕ

-- The variables of the loop over the lines: the sums, the line totals and the rows of the items.
pub record Basket : Type 0 where
  pub subtotal : ℕ
  pub tax_amount : ℕ
  pub line_totals : List ℕ
  pub items : List OrderItem

abbrev pub empty_basket : Basket
empty_basket = record { subtotal = 0; tax_amount = 0; line_totals = []; items = [] }

-- `product.price * line.quantity`
unfoldable pub line_total : Product → ℕ → ℕ
line_total product quantity = mul (of_cents product.price) (of_thousandths quantity)

-- `lineTotal * (product.taxRate / 100)`
unfoldable pub line_tax : Product → ℕ → ℕ
unfolding line_total
line_tax product quantity = mul (line_total product quantity) (per_cent (of_cents product.tax_rate))

-- One round of the loop, after its checks; the column of the line total rounds it.
unfoldable pub add_line : Product → ℕ → Basket → Basket
unfolding line_total line_tax
add_line product quantity b = record {
  subtotal = add b.subtotal (line_total product quantity);
  tax_amount = add b.tax_amount (line_tax product quantity);
  line_totals = b.line_totals ++ (line_total product quantity ∷ []);
  items =
      b.items
      ++ (record {
        product_id = product.id;
        name = product.name;
        price = product.price;
        quantity = quantity;
        tax_rate = product.tax_rate;
        line_total = to_column (line_total product quantity);
      }
          ∷ []);
}

-- Whether a value counts as set: neither absent nor 0.
abbrev pub is_set : Option ℕ → Bool
is_set none = false
is_set (some zero) = false
is_set (some (suc n)) = true

abbrev pub is_given {ℓ} : {A : Type ℓ} → Option A → Bool
is_given none = false
is_given (some a) = true

pub record Discount : Type 0 where
  pub kind : Option DiscountType
  pub value : Option ℕ

-- The customer's default, if it has a type and a positive value.
abbrev pub default_discount : Discount → Option Customer → Discount
default_discount own none = own
default_discount own (some c) =
    if is_given c.default_discount_type && is_set c.default_discount_value
    then record { kind = c.default_discount_type; value = c.default_discount_value }
    else own

abbrev pub needs_default : CreateOrderDto → Bool
needs_default dto =
    (not (is_given dto.discount_type) || not (is_set dto.discount_value))
    && is_given dto.customer_id

-- The cashier's discount wins; `customer` is what the query by the request's customer found.
unfoldable pub effective_discount : CreateOrderDto → Option Customer → Discount
effective_discount dto customer =
    let own : Discount = record { kind = dto.discount_type; value = dto.discount_value } in
    if needs_default dto then default_discount own customer else own

-- The amount before `Math.min(…, subtotal)`.
abbrev pub uncapped : DiscountType → ℕ → ℕ → ℕ
uncapped percent value subtotal = mul subtotal (per_cent (of_cents value))
uncapped fixed value subtotal = of_cents value

abbrev pub discount_by : Option DiscountType → Option ℕ → ℕ → ℕ
discount_by (some kind) (some (suc n)) subtotal = min (uncapped kind (suc n) subtotal) subtotal
discount_by (some kind) _ subtotal = 0
discount_by none _ subtotal = 0

unfoldable pub discount_amount : Discount → ℕ → ℕ
discount_amount d subtotal = discount_by d.kind d.value subtotal

abbrev pub or_zero : Option ℕ → ℕ
or_zero none = 0
or_zero (some n) = n

-- The discount is at most the subtotal.
unfoldable pub total_of : Basket → Discount → ℕ
unfolding discount_amount
total_of b d = sub (add b.subtotal b.tax_amount) (discount_amount d b.subtotal)

-- A payment of the request, and 0 for none.
abbrev pub payment_of : Option ℕ → ℕ
payment_of o = of_ratio (or_zero o) 1_000_000_000

-- `Number((total - paidByCash - paidByCard).toFixed(2))`, in cents, where the payments are at most
-- the total; a difference that rounding takes below 0 gives -0, which is 0 too.
unfoldable pub not_paid_of : ℕ → ℕ → ℕ → ℕ
not_paid_of total cash card = to_fixed (sub (sub total cash) card)

abbrev pub status_of : ℕ → OrderStatus
status_of not_paid = if not_paid == 0 then OrderStatus.paid else OrderStatus.confirmed

-- The row that is saved: the columns round each amount to cents.
unfoldable pub order_row : ℕ → ℕ → String → ℕ → CreateOrderDto → Basket → Discount → Order
unfolding discount_amount total_of not_paid_of
order_row id shop_id order_number cashier_id dto b d =
    let total = total_of b d in
    let not_paid = not_paid_of total (payment_of dto.paid_by_cash) (payment_of dto.paid_by_card) in
    record {
      id = id;
      shop_id = shop_id;
      order_number = order_number;
      status = status_of not_paid;
      subtotal = to_column b.subtotal;
      tax_amount = to_column b.tax_amount;
      discount_amount = to_column (discount_amount d b.subtotal);
      total = to_column total;
      discount_type = d.kind;
      discount_value = d.value;
      notes = dto.notes;
      paid_by_cash = Decimal.to_fixed (or_zero dto.paid_by_cash);
      paid_by_card = Decimal.to_fixed (or_zero dto.paid_by_card);
      not_paid = not_paid;
      cashier_id = cashier_id;
      customer_id = dto.customer_id;
      shift_id = dto.shift_id;
      stock_deducted = false;
      items = b.items;
    }

-- What `em.save` returns: the entity as it is in memory, its amounts as the doubles that were
-- computed, beside the row that is saved.
pub record SavedOrder : Type 0 where
  pub row : Order
  pub subtotal : ℕ
  pub tax_amount : ℕ
  pub discount_amount : ℕ
  pub total : ℕ
  pub paid_by_cash : ℕ
  pub paid_by_card : ℕ
  pub line_totals : List ℕ

unfoldable pub saved_order : ℕ → ℕ → String → ℕ → CreateOrderDto → Basket → Discount → SavedOrder
unfolding order_row discount_amount total_of
saved_order id shop_id order_number cashier_id dto b d = record {
  row = order_row id shop_id order_number cashier_id dto b d;
  subtotal = b.subtotal;
  tax_amount = b.tax_amount;
  discount_amount = discount_amount d b.subtotal;
  total = total_of b d;
  paid_by_cash = payment_of dto.paid_by_cash;
  paid_by_card = payment_of dto.paid_by_card;
  line_totals = b.line_totals;
}
