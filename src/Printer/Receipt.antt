-- ===== src/Printer/Receipt.antt =====
-- `buildReceipt` and `printReceipt` of modules/printer/printer.service.ts, and `getReceipt` and
-- `printOrder` of modules/orders/orders.service.ts.
use Prim.Native.String.{◌++◌}
use mathlib.Core.List as Lists
use salepoint_backend.Prelude.{
  ℕ, Bool, true, false, not, Option, none, some, List, [], ◌∷◌, map, String, ltb, if◌then◌else◌,
}
use salepoint_backend.Double as Double
use salepoint_backend.Double.{of_cents}
use salepoint_backend.Exec.{
  Exec, pure, gets, or_raise, raise_if, ◌>>=◌, ◌>>◌, order_not_found, not_printable,
}
use salepoint_backend.Products.{UnitType, piece}
use salepoint_backend.Entities.{Order, OrderItem, OrderStatus}
use salepoint_backend.Database.{Db, order_of}
use salepoint_backend.Printer.Numbers.{fmt, fmt_qty}

-- What an order carries through its relations: the unit of each item's product, if it is not
-- removed, and the names of the cashier and of the customer.
pub record Relations : Type 0 where
  pub unit_of : ℕ → Option UnitType
  pub cashier_name : Option String
  pub customer_name : Option String

pub record ReceiptItem : Type 0 where
  pub name : String
  pub quantity : ℕ
  pub unit_type : UnitType
  pub price : ℕ
  pub tax_rate : ℕ
  pub line_total : ℕ

pub record ReceiptDto : Type 0 where
  pub order_number : String
  pub date : ℕ
  pub cashier : String
  pub customer : Option String
  pub items : List ReceiptItem
  pub subtotal : ℕ
  pub tax_amount : ℕ
  pub discount_amount : ℕ
  pub total : ℕ
  pub paid_by_cash : ℕ
  pub paid_by_card : ℕ
  pub not_paid : ℕ
  pub change : ℕ
  pub status : OrderStatus

abbrev or_text {ℓ} : {A : Type ℓ} → Option A → A → A
or_text none d = d
or_text (some s) d = s

-- `[OrderStatus.CONFIRMED, OrderStatus.PAID].includes(order.status)`
abbrev pub is_printable : OrderStatus → Bool
is_printable OrderStatus.confirmed = true
is_printable OrderStatus.paid = true
is_printable _ = false

-- `Math.max(0, paidTotal - Number(order.total))`, as a double.
unfoldable pub change_of : Order → ℕ
change_of o =
    Double.sub (Double.add (of_cents o.paid_by_cash) (of_cents o.paid_by_card)) (of_cents o.total)

unfoldable pub receipt_item : Relations → OrderItem → ReceiptItem
receipt_item rel i = record {
  name = i.name;
  quantity = i.quantity;
  unit_type = or_text (rel.unit_of i.product_id) piece;
  price = i.price;
  tax_rate = i.tax_rate;
  line_total = i.line_total;
}

unfoldable pub receipt_of : Relations → ℕ → Order → ReceiptDto
unfolding receipt_item change_of
receipt_of rel created_at o = record {
  order_number = o.order_number;
  date = created_at;
  cashier = or_text rel.cashier_name "Unknown";
  customer = rel.customer_name;
  items = map (receipt_item rel) o.items;
  subtotal = o.subtotal;
  tax_amount = o.tax_amount;
  discount_amount = o.discount_amount;
  total = o.total;
  paid_by_cash = o.paid_by_cash;
  paid_by_card = o.paid_by_card;
  not_paid = o.not_paid;
  change = change_of o;
  status = o.status;
}

-- `rel` and `created_at` give what the query joins to the order and its time.
unfoldable pub get_receipt : (Order → Relations) → (ℕ → ℕ) → ℕ → ℕ → Exec Db ReceiptDto
unfolding receipt_of
get_receipt rel created_at i shop_id = do
  order ← or_raise (← gets (order_of i (some shop_id))) order_not_found
  raise_if (not (is_printable order.status)) not_printable
  pure (receipt_of (rel order) (created_at order.id) order)

-- The calls of ThermalPrinter.
pub data Command : Type 0 where
  align_center align_left align_right draw_line new_line cut text_normal text_size : Command
  bold : Bool → Command
  println : String → Command
  table : List String → Command

pub record PrinterConfig : Type 0 where
  pub enabled : Bool
  pub interface : Option String
  pub store_name : String
  pub store_address : String
  pub store_phone : String

abbrev pub dashes : String
dashes = "------------------------------------------------"

-- `if (text) printer.println(text)`
abbrev pub if_filled : String → String → List Command
if_filled String.[] line = []
if_filled (String.◌∷◌ c s) line = println line ∷ []

abbrev pub if_named : Option String → List Command
if_named none = []
if_named (some String.[]) = []
if_named (some (String.◌∷◌ c s)) = println ("Customer: " ++ String.◌∷◌ c s) ∷ []

-- `if (Number(value) > 0) printer.println(…)`
abbrev pub if_positive : ℕ → List Command → List Command
if_positive n commands = if ltb 0 n then commands else []

unfoldable pub header_lines : PrinterConfig → List Command
header_lines cfg =
    align_center
    ∷ bold true
    ∷ text_size
    ∷ println cfg.store_name
    ∷ bold false
    ∷ text_normal
    ∷ (Lists.◌++◌ (if_filled cfg.store_address cfg.store_address)
        (Lists.◌++◌ (if_filled cfg.store_phone cfg.store_phone) (draw_line ∷ [])))

-- `date` is the text of the order's time.
unfoldable pub meta_lines : Relations → String → Order → List Command
meta_lines rel date o =
    align_left
    ∷ println ("Date   : " ++ date)
    ∷ println ("Order  : " ++ o.order_number)
    ∷ println ("Cashier: " ++ or_text rel.cashier_name "-")
    ∷ (Lists.◌++◌ (if_named rel.customer_name) (println dashes ∷ []))

unfoldable pub item_row : Relations → OrderItem → Command
unfolding fmt fmt_qty
item_row rel i =
    table
      (i.name ∷ fmt_qty (rel.unit_of i.product_id) i.quantity ∷ fmt i.price ∷ fmt i.line_total ∷ [])

unfoldable pub item_lines : Relations → Order → List Command
unfolding item_row
item_lines rel o =
    table ("Item" ∷ "Qty" ∷ "Price" ∷ "Total" ∷ [])
    ∷ println dashes
    ∷ (Lists.◌++◌ (map (item_row rel) o.items) (println dashes ∷ []))

unfoldable pub total_lines : Order → List Command
unfolding fmt
total_lines o =
    align_right
    ∷ println ("Subtotal : " ++ fmt o.subtotal)
    ∷ (Lists.◌++◌ (if_positive o.tax_amount (println ("Tax      : " ++ fmt o.tax_amount) ∷ [])) (
        Lists.◌++◌
          (if_positive o.discount_amount (println ("Discount : -" ++ fmt o.discount_amount) ∷ []))
          (bold true ∷ println ("TOTAL    : " ++ fmt o.total) ∷ bold false ∷ println dashes ∷ [])))

-- The debt, or the change where there is some.
unfoldable pub balance_lines : Order → List Command
unfolding fmt change_of
balance_lines o =
    if ltb 0 o.not_paid
    then bold true ∷ println ("Debt     : " ++ fmt o.not_paid) ∷ bold false ∷ []
    else if_positive (change_of o)
        (println ("Change   : " ++ fmt (Double.to_fixed (change_of o))) ∷ [])

unfoldable pub payment_lines : Order → List Command
unfolding fmt balance_lines
payment_lines o =
    Lists.◌++◌ (if_positive o.paid_by_cash (println ("Cash     : " ++ fmt o.paid_by_cash) ∷ [])) (
      Lists.◌++◌ (if_positive o.paid_by_card (println ("Card     : " ++ fmt o.paid_by_card) ∷ []))
        (balance_lines o))

abbrev pub footer_lines : List Command
footer_lines = align_center ∷ draw_line ∷ println "Thank you! Come again!" ∷ new_line ∷ cut ∷ []

unfoldable pub build_receipt : PrinterConfig → Relations → String → Order → List Command
unfolding header_lines meta_lines item_lines total_lines payment_lines
build_receipt cfg rel date o = Lists.◌++◌ (header_lines cfg) (
    Lists.◌++◌ (meta_lines rel date o) (
      Lists.◌++◌ (item_lines rel o)
        (Lists.◌++◌ (total_lines o) (Lists.◌++◌ (payment_lines o) footer_lines))))

-- What `printReceipt` did: the socket may fail, and a failure is only logged.
pub data Printing : Type 0 where
  skipped failed_to_print : Printing
  printed : List Command → Printing

abbrev sent_as : Bool → List Command → Printing
sent_as true commands = printed commands
sent_as false commands = failed_to_print

abbrev print_to : Option String → (String → Bool) → List Command → Printing
print_to none send commands = skipped
print_to (some String.[]) send commands = skipped
print_to (some (String.◌∷◌ c i)) send commands = sent_as (send (String.◌∷◌ c i)) commands

-- `send` tells whether the printer at an address takes the bytes.
unfoldable pub print_receipt :
    PrinterConfig → (String → Bool) → Relations → String → Order → Printing
unfolding build_receipt
print_receipt cfg send rel date o =
    if cfg.enabled then print_to cfg.interface send (build_receipt cfg rel date o) else skipped

unfoldable pub print_order :
    PrinterConfig
    → (String → Bool)
    → (Order → Relations)
    → (Order → String)
    → ℕ
    → ℕ
    → Exec Db Printing
unfolding print_receipt
print_order cfg send rel date i shop_id = do
  order ← or_raise (← gets (order_of i (some shop_id))) order_not_found
  raise_if (not (is_printable order.status)) not_printable
  pure (print_receipt cfg send (rel order) (date order) order)
