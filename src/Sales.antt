-- ===== src/Sales.antt =====
-- The services that share the tables of stock and orders, as one system: orders.service.ts,
-- payments.service.ts, inventory.service.ts and the order queue, in any order of their calls.
use salepoint_backend.Prelude.{
  ℕ, ◌<◌, ◌==◌, ◌&&◌, ◌≡◌, refl, sym, subst, true, Option, none, some, List, String, ltb, All, inl,
  inr, Bool-cases, Option-cases,
}
use salepoint_backend.Decimal.{of_cents}
use salepoint_backend.Exec.{raise_if, order_already_paid, order_is_cancelled}
use salepoint_backend.Inventory.{AddStorageDto, add_to_storage}
use salepoint_backend.Inventory.Sound.{IsSafe}
use salepoint_backend.Inventory.Receive.{IsLevelOf, add_to_storage-IsSafe}
use salepoint_backend.Prelude.Table.{All-find_first}
use salepoint_backend.Orders.Reserved.{ArePositive}
use salepoint_backend.Entities.{PaymentMethod, order_key}
use salepoint_backend.Database.{Db, order_of}
use salepoint_backend.Database.Keeps.{Keeps, bind-Keeps, raise_if-Keeps}
use salepoint_backend.Orders.{OrderItemDto, CreateOrderDto, create, cancel, return_order, mark_paid}
use salepoint_backend.Orders.Safety.{
  create-KeepsStock, cancel-KeepsStock, return_order-KeepsStock, mark_paid-KeepsStock,
}
use salepoint_backend.Orders.Positive.{
  AllPositive, create-AllPositive, cancel-AllPositive, return_order-AllPositive,
  mark_paid-AllPositive,
}
use salepoint_backend.Payments.{ProcessPaymentDto, process, change_for, is_paid, is_cancelled}
use salepoint_backend.Queue.{handle_process_payment}
use salepoint_backend.Queue.Once.{handle_process_payment-IsSafe, handle_process_payment-AllPositive}

-- Safe stock tables, and stored orders with positive quantities.
pub record IsServed (db : Db) : Type 0 where
  pub safe : IsSafe db.warehouse.stock
  pub positive : AllPositive db

-- A call of the program, by whoever makes it, whether it returns or throws. The validators let
-- only positive quantities through, and a delivery goes to a product whose level, where it has
-- one, is a level of the shop. Other calls leave the tables of stock and orders alone.
pub data Step : Db → Db → Type 0 where
  order :
      (db : Db) (dto : CreateOrderDto) (cashier shop : ℕ) (number : String)
      → All (λ (l : OrderItemDto). 0 < l.quantity) dto.items
      → Step db (create dto cashier shop number db).1
  cancel_order : (db : Db) (i shop : ℕ) → Step db (cancel i shop db).1
  give_back :
      (db : Db) (i : ℕ) (lines : List OrderItemDto) (cashier shop : ℕ)
      → Step db (return_order i lines cashier shop db).1
  pay : (db : Db) (dto : ProcessPaymentDto) (shop now : ℕ) → Step db (process dto shop now db).1
  run_job : (db : Db) (i : ℕ) → Step db (handle_process_payment i db).1
  deliver :
      (db : Db) (dto : AddStorageDto) (by shop : ℕ)
      → IsLevelOf dto.product_id shop db.warehouse.stock
      → Step db (record db { warehouse = (add_to_storage dto by shop db.warehouse).1 })
  elsewhere :
      (db after : Db)
      → after.warehouse.stock ≡ db.warehouse.stock
      → after.orders ≡ db.orders
      → Step db after

pub data Reach (db : Db) : Db → Type 0 where
  here : Reach db db
  next : {mid after : Db} → Reach db mid → Step mid after → Reach db after

change_for_state :
    (method : PaymentMethod) (tendered : Option ℕ) (total : ℕ) (db : Db)
    → (change_for method tendered total db).1 ≡ db
unfolding change_for
change_for_state PaymentMethod.cash none total db = refl
change_for_state PaymentMethod.cash (some t) total db = elim (Bool-cases (ltb t (of_cents total))) [
  | inl low ↦ rw low refl
  | inr enough ↦ rw enough refl
]
change_for_state PaymentMethod.card tendered total db = refl
change_for_state PaymentMethod.mobile_money tendered total db = refl
change_for_state PaymentMethod.voucher tendered total db = refl
change_for_state PaymentMethod.split tendered total db = refl

mark_paid-IsServed : (i shop : ℕ) → Keeps IsServed (mark_paid i shop)
mark_paid-IsServed i shop db h = record {
  safe = mark_paid-KeepsStock i shop db h.safe;
  positive = mark_paid-AllPositive i shop db h.positive;
}

process-IsServed : (dto : ProcessPaymentDto) (shop now : ℕ) → Keeps IsServed (process dto shop now)
unfolding process
process-IsServed dto shop now db h = elim (Option-cases (order_of dto.order_id (some shop) db)) [
  | inl missing ↦ rw missing h
  | inr (o, found) ↦ rw found (
      bind-Keeps IsServed (raise_if (is_paid o.status) order_already_paid) _
        (raise_if-Keeps IsServed (is_paid o.status) order_already_paid)
        (λ _.
          bind-Keeps IsServed (raise_if (is_cancelled o.status) order_is_cancelled) _
            (raise_if-Keeps IsServed (is_cancelled o.status) order_is_cancelled)
            (λ _.
              bind-Keeps IsServed (change_for dto.method dto.amount_tendered o.total) _
                (λ db' h'.
                  subst IsServed (sym (change_for_state dto.method dto.amount_tendered o.total db'))
                    h')
                (λ change db' h'.
                  bind-Keeps IsServed (mark_paid dto.order_id shop) _
                    (mark_paid-IsServed dto.order_id shop) (λ _ db'' h''. h'') _
                    (record { safe = h'.safe; positive = h'.positive }))))
        db h)
]

handle_process_payment-IsServed : (i : ℕ) → Keeps IsServed (handle_process_payment i)
handle_process_payment-IsServed i db h = record {
  safe =
      handle_process_payment-IsSafe i db
        (λ o found.
          All-find_first order_key (λ p. ArePositive p.items) (λ p. p.id == i && true) o db.orders
            h.positive found)
        h.safe;
  positive = handle_process_payment-AllPositive i db h.positive;
}

Step-IsServed : {db after : Db} → Step db after → IsServed db → IsServed after
Step-IsServed (order db dto cashier shop number positive) h = record {
  safe = create-KeepsStock dto cashier shop number db h.safe;
  positive = create-AllPositive dto cashier shop number positive db h.positive;
}
Step-IsServed (cancel_order db i shop) h = record {
  safe = cancel-KeepsStock i shop db h.safe;
  positive = cancel-AllPositive i shop db h.positive;
}
Step-IsServed (give_back db i lines cashier shop) h = record {
  safe = return_order-KeepsStock i lines cashier shop db h.safe;
  positive = return_order-AllPositive i lines cashier shop db h.positive;
}
Step-IsServed (pay db dto shop now) h = process-IsServed dto shop now db h
Step-IsServed (run_job db i) h = handle_process_payment-IsServed i db h
Step-IsServed (deliver db dto by shop own) h = record {
  safe = add_to_storage-IsSafe dto by shop db.warehouse h.safe own;
  positive = h.positive;
}
Step-IsServed (elsewhere db after stock orders) h = record {
  safe = rw stock h.safe;
  positive = rw orders h.positive;
}

-- Whatever orders of positive quantities, cancellations, returns, payments, runs of jobs, deliveries of products without a level of another shop, and calls that leave stock and orders alone come, in whatever order: from safe stock tables, and stored orders with positive quantities, they lead to such tables again. `adjust`, which may leave less than is reserved, is not among these calls.
pub Reach-IsServed : {db after : Db} → IsServed db → Reach db after → IsServed after
Reach-IsServed h here = h
Reach-IsServed h (next r st) = Step-IsServed st (Reach-IsServed h r)
