-- ===== src/Tests/Samples.antt =====
-- A shop's sample rows.
use salepoint_backend.Prelude.{ℕ, true, false, Option, none, some, [], ◌∷◌}
use salepoint_backend.Products.{Product, piece, Catalog}
use salepoint_backend.Inventory.{Stock, Warehouse, return_to_storage}
use salepoint_backend.Entities.{Order, OrderItem, OrderStatus, Debt, DebtStatus, Shift, opened}
use salepoint_backend.Database.{Db}
use salepoint_backend.Orders.{OrderItemDto, CreateOrderDto}

abbrev pub no_stock : Stock
no_stock = record { levels = []; batches = []; movements = []; next_id = 0 }

-- Five pieces of product 7, each for 3.00.
abbrev pub some_stock : Stock
some_stock = (return_to_storage 7 5000 300 9 1 no_stock).1

abbrev pub tea : Product
tea = record {
  id = 7;
  shop_id = 1;
  name = "tea";
  sku = "T-7";
  price = 300;
  cost_price = 200;
  tax_rate = 1000;
  unit_type = piece;
  is_active = true;
  track_stock = true;
  image_url = none;
  barcode = none;
  category_id = none;
  deleted = false;
}

abbrev pub catalog : Catalog
catalog = record { products = tea ∷ []; cache = [] }

abbrev pub warehouse : Warehouse
warehouse = record { catalog = catalog; stock = some_stock }

abbrev pub item : OrderItem
item = record {
  product_id = 7;
  name = "tea";
  price = 300;
  quantity = 2000;
  tax_rate = 1000;
  line_total = 600;
}

abbrev pub order_in : OrderStatus → Order
order_in status = record {
  id = 9;
  shop_id = 1;
  order_number = "ORD-1";
  status = status;
  subtotal = 600;
  tax_amount = 60;
  discount_amount = 0;
  total = 660;
  discount_type = none;
  discount_value = none;
  notes = none;
  paid_by_cash = 0;
  paid_by_card = 0;
  not_paid = 660;
  cashier_id = 2;
  customer_id = some 5;
  shift_id = none;
  stock_deducted = false;
  items = item ∷ [];
}

abbrev pub debt : Debt
debt = record {
  id = 4;
  shop_id = 1;
  order_id = 9;
  customer_id = some 5;
  cashier_id = 2;
  total_debt = 660;
  paid_amount = 0;
  remaining_amount = 660;
  status = DebtStatus.pending;
}

abbrev pub shift : Shift
shift = record {
  id = 3;
  shop_id = 1;
  cashier_id = 2;
  status = opened;
  opening_float = 1000;
  closing_float = none;
  cash_sales = 0;
  card_sales = 0;
  total_sales = 0;
  order_count = 0;
  opened_at = 0;
  closed_at = none;
  notes = none;
}

abbrev pub db_with : OrderStatus → Db
db_with status = record {
  warehouse = warehouse;
  orders = order_in status ∷ [];
  debts = debt ∷ [];
  repayments = [];
  shifts = shift ∷ [];
  payments = [];
  customers = [];
  queue = [];
  next_id = 20;
}

abbrev pub line : ℕ → OrderItemDto
line quantity = record { product_id = 7; quantity = quantity }

-- A request for two pieces, with a payment in billionths.
abbrev pub request : Option ℕ → Option ℕ → CreateOrderDto
request cash customer = record {
  items = line 2000 ∷ [];
  discount_type = none;
  discount_value = none;
  paid_by_cash = cash;
  paid_by_card = none;
  notes = none;
  customer_id = customer;
  shift_id = some 3;
}
