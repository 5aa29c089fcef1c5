-- ===== src/Entities.antt =====
-- The rows of orders, debts, shifts, payments and customers (modules/*/entities), as the columns
-- hold them: money in cents (numeric(…, 2)), quantities in thousandths of a unit (numeric(14, 3)),
-- rates in hundredths of a percent. Keys (UUIDs) and times are numbers.
use salepoint_backend.Prelude.{ℕ, Bool, true, false, Option, List, String}

pub data OrderStatus : Type 0 where
  pending confirmed paid refunded cancelled : OrderStatus

pub data DiscountType : Type 0 where
  percent fixed : DiscountType

-- `name` and `price` are snapshots of the product at the time of the sale.
pub record OrderItem : Type 0 where
  pub product_id : ℕ
  pub name : String
  pub price : ℕ
  pub quantity : ℕ
  pub tax_rate : ℕ
  pub line_total : ℕ

-- `discount_value` is in hundredths, of a percent or of the currency unit.
pub record Order : Type 0 where
  pub id : ℕ
  pub shop_id : ℕ
  pub order_number : String
  pub status : OrderStatus
  pub subtotal : ℕ
  pub tax_amount : ℕ
  pub discount_amount : ℕ
  pub total : ℕ
  pub discount_type : Option DiscountType
  pub discount_value : Option ℕ
  pub notes : Option String
  pub paid_by_cash : ℕ
  pub paid_by_card : ℕ
  pub not_paid : ℕ
  pub cashier_id : ℕ
  pub customer_id : Option ℕ
  pub shift_id : Option ℕ
  pub stock_deducted : Bool
  pub items : List OrderItem

abbrev pub order_key : Order → ℕ
order_key o = o.id

pub data DebtStatus : Type 0 where
  pending partial paid : DebtStatus

pub record Debt : Type 0 where
  pub id : ℕ
  pub shop_id : ℕ
  pub order_id : ℕ
  pub customer_id : Option ℕ
  pub cashier_id : ℕ
  pub total_debt : ℕ
  pub paid_amount : ℕ
  pub remaining_amount : ℕ
  pub status : DebtStatus

-- `DebtStatus.PENDING` or `DebtStatus.PARTIAL`
abbrev pub is_unpaid : DebtStatus → Bool
is_unpaid DebtStatus.pending = true
is_unpaid DebtStatus.partial = true
is_unpaid DebtStatus.paid = false

abbrev pub debt_key : Debt → ℕ
debt_key d = d.id

pub record DebtRepayment : Type 0 where
  pub debt_id : ℕ
  pub cashier_id : ℕ
  pub amount : ℕ
  pub note : Option String

pub data ShiftStatus : Type 0 where
  opened closed : ShiftStatus

pub record Shift : Type 0 where
  pub id : ℕ
  pub shop_id : ℕ
  pub cashier_id : ℕ
  pub status : ShiftStatus
  pub opening_float : ℕ
  pub closing_float : Option ℕ
  pub cash_sales : ℕ
  pub card_sales : ℕ
  pub total_sales : ℕ
  pub order_count : ℕ
  pub opened_at : ℕ
  pub closed_at : Option ℕ
  pub notes : Option String

abbrev pub shift_key : Shift → ℕ
shift_key s = s.id

pub data PaymentMethod : Type 0 where
  cash card mobile_money voucher split : PaymentMethod

pub data PaymentStatus : Type 0 where
  pending completed failed refunded : PaymentStatus

pub record Payment : Type 0 where
  pub id : ℕ
  pub order_id : ℕ
  pub method : PaymentMethod
  pub status : PaymentStatus
  pub amount : ℕ
  pub amount_tendered : Option ℕ
  pub change_due : Option ℕ
  pub reference_number : Option String
  pub processed_at : ℕ

abbrev pub payment_key : Payment → ℕ
payment_key p = p.id

pub record Customer : Type 0 where
  pub id : ℕ
  pub shop_id : ℕ
  pub name : String
  pub phone : Option String
  pub default_discount_type : Option DiscountType
  pub default_discount_value : Option ℕ
  pub loyalty_points : ℕ
  pub total_spent : ℕ
  pub visit_count : ℕ
  pub notes : Option String

abbrev pub customer_key : Customer → ℕ
customer_key c = c.id
