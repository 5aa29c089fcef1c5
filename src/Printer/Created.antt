-- ===== src/Printer/Created.antt =====
-- The receipt of an order that `create` has just returned: orders.service.ts.
use salepoint_backend.Prelude.{ℕ, ◌≡◌, true, some}
use salepoint_backend.Entities.{Order}
use salepoint_backend.Database.{Db, order_of}
use salepoint_backend.Printer.Receipt.{is_printable}

-- The order can be found in its shop and its receipt printed.
record IsAtHand (shop : ℕ) (o : Order) (db : Db) : Type 0 where
  found : order_of o.id (some shop) db ≡ some o
  printable : is_printable o.status ≡ true
