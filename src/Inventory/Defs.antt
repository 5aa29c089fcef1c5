-- ===== src/Inventory/Defs.antt =====
-- modules/inventory/entities: the rows, the tables that the service writes, and its queries.
use salepoint_backend.Prelude.{
  ℕ, ◌+◌, Bool, false, ◌&&◌, Option, none, some, List, [], ◌∷◌, ◌++◌, String, ltb, ◌==◌,
  if◌then◌else◌, find_first, sum_by,
}
use salepoint_backend.Prelude.Int.{ℤ}
use salepoint_backend.Prelude.Table.{save}

pub data StockMovementType : Type 0 where
  purchase sale return_ reserve release adjust_ transfer : StockMovementType

pub data MarginType : Type 0 where
  percent fixed : MarginType

-- `return_of r` is the note "Return — ref: r".
pub data Note : Type 0 where
  text : String → Note
  return_of : ℕ → Note

-- `shop_id` is nullable. What is in stock may pass below zero, as a number; what is reserved
-- starts at 0, grows, and is cut off at 0.
pub record StockLevel : Type 0 where
  pub id : ℕ
  pub shop_id : Option ℕ
  pub product_id : ℕ
  pub quantity_on_hand : ℤ
  pub quantity_reserved : ℕ
  pub reorder_point : ℕ

pub record StorageItem : Type 0 where
  pub id : ℕ
  pub shop_id : Option ℕ
  pub product_id : ℕ
  pub quantity : ℕ
  pub initial_quantity : ℕ
  pub cost_price : ℕ
  pub margin : ℕ
  pub margin_type : MarginType
  pub selling_price : ℕ
  pub notes : Option Note

pub record StockMovement : Type 0 where
  pub shop_id : Option ℕ
  pub product_id : ℕ
  pub kind : StockMovementType
  pub quantity : ℤ
  pub quantity_after : ℤ
  pub reference : Option ℕ
  pub notes : Option Note
  pub performed_by : Option ℕ

-- The tables, and the supply of primary keys (`gen_random_uuid()`).
pub record Stock : Type 0 where
  pub levels : List StockLevel
  pub batches : List StorageItem
  pub movements : List StockMovement
  pub next_id : ℕ

abbrev pub level_key : StockLevel → ℕ
level_key l = l.id

abbrev pub batch_key : StorageItem → ℕ
batch_key b = b.id

-- `where: { productId }`
abbrev pub of_product : ℕ → StockLevel → Bool
of_product p l = l.product_id == p

abbrev pub is_shop : Option ℕ → ℕ → Bool
is_shop none s = false
is_shop (some t) s = t == s

-- `where: { productId, shopId }`, where an absent `shopId` is no condition.
abbrev pub of_product_shop : ℕ → Option ℕ → StockLevel → Bool
of_product_shop p none l = l.product_id == p
of_product_shop p (some s) l = l.product_id == p && is_shop l.shop_id s

abbrev pub level_of : ℕ → Stock → Option StockLevel
level_of p s = find_first (of_product p) s.levels

-- `s.productId = :productId` and `s.quantity > 0`
abbrev pub in_stock : ℕ → StorageItem → Bool
in_stock p b = b.product_id == p && ltb 0 b.quantity

-- What the batches of a product hold together.
abbrev pub held : ℕ → StorageItem → ℕ
held p b = if b.product_id == p then b.quantity else 0

abbrev pub stored : ℕ → Stock → ℕ
stored p s = sum_by (held p) s.batches

-- Repository writes.
abbrev pub save_level : StockLevel → Stock → Stock
save_level l s = record s { levels = save level_key l s.levels }

abbrev pub save_movement : StockMovement → Stock → Stock
save_movement m s = record s { movements = s.movements ++ (m ∷ []) }

-- A created batch gets its key from the database.
abbrev pub insert_batch : StorageItem → Stock → Stock
insert_batch b s = record s {
  batches = save batch_key (record b { id = s.next_id }) s.batches;
  next_id = s.next_id + 1;
}
