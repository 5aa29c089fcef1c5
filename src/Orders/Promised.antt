-- ===== src/Orders/Promised.antt =====
-- What `create` leaves in the stock tables for the items of the order that it returns.
use salepoint_backend.Prelude.{
  ℕ, ◌≤◌, ◌≡◌, refl, sym, ap, subst, ◌∙◌, false, some, String, All, inl, inr, arith,
}
use salepoint_backend.Prelude.Table.{find_by_id}
use salepoint_backend.Exec.{ok, resume_ok, resume_returned, ◌>>=◌}
use salepoint_backend.Products.Coherence.{IsCoherent}
use salepoint_backend.Inventory.Sound.{IsSafe, reserved_of, level_in}
use salepoint_backend.Entities.{Order, order_key}
use salepoint_backend.Database.{Db}
use salepoint_backend.Database.Keeps.{settled_ok, settled_state}
use salepoint_backend.Orders.Totals.{
  CreateOrderDto, Basket, empty_basket, order_row, SavedOrder, saved_order, effective_discount,
}
use salepoint_backend.Orders.Service.{add_items, create, place_order, default_customer}
use salepoint_backend.Orders.Reserved.{
  wanted, ArePositive, AreWholeItems, IsTracked, IsReserved, add_items-IsReserved,
}
use salepoint_backend.Orders.Placed.{place_order_outcome}

-- What `create` leaves for the items of the order that it returns.
pub record IsPromised (o : Order) (before after : Db) : Type 0 where
  pub safe : IsSafe after.warehouse.stock
  pub same_batches : after.warehouse.stock.batches ≡ before.warehouse.stock.batches
  pub saved : find_by_id order_key o.id after.orders ≡ some o
  pub unflagged : o.stock_deducted ≡ false
  pub positive : ArePositive o.items
  pub whole : AreWholeItems o.items
  pub reserved : (q : ℕ) → wanted q o.items ≤ reserved_of (level_in q after.warehouse.stock.levels)

saved_eq : (o p : SavedOrder) → ok o ≡ ok p → o ≡ p
saved_eq o p e = cc

placed-IsPromised :
    (dto : CreateOrderDto) (cashier shop : ℕ) (number : String) (b : Basket) (o : SavedOrder)
    (before db : Db)
    → IsReserved shop before.warehouse.catalog.products before.warehouse.stock.batches b db
    → (place_order dto cashier shop number b db).0 ≡ ok o
    → IsPromised o.row before (place_order dto cashier shop number b db).1
unfolding order_row saved_order
placed-IsPromised dto cashier shop number b o before db h done =
    let d = effective_discount dto (default_customer dto shop db) in
    let after = (place_order dto cashier shop number b db).1 in
    elim (place_order_outcome dto cashier shop number b db) [
      | inl (much, refused) ↦ absurd (ground (arith, sym done ∙ ap (λ r. r.0) refused))
      | inr (inl (owed, nobody, refused)) ↦
          absurd (ground (arith, sym done ∙ ap (λ r. r.0) refused))
      | inr (inr (fits, right, placed)) ↦
          subst (λ x. IsPromised x.row before after)
            (saved_eq (saved_order db.next_id shop number cashier dto b d) o (sym right ∙ done))
            (record {
              safe = rw placed.same_stock h.safe;
              same_batches = rw placed.same_stock h.same_batches;
              saved = placed.saved;
              unflagged = refl;
              positive = h.positive;
              whole = h.whole;
              reserved = λ q. rw placed.same_stock (h.reserved q);
            })
    ]

-- An order that `create` returns, for lines of tracked products, finds the stock for all its items reserved.
pub create-IsPromised :
    (dto : CreateOrderDto) (cashier shop : ℕ) (number : String) (o : SavedOrder) (db : Db)
    → IsSafe db.warehouse.stock
    → IsCoherent shop db.warehouse.catalog
    → All (IsTracked shop db.warehouse.catalog.products) dto.items
    → (create dto cashier shop number db).0 ≡ ok o
    → IsPromised o.row db (create dto cashier shop number db).1
unfolding create
create-IsPromised dto cashier shop number o db safe coherent lines_ok done =
    let filling = add_items shop dto.items empty_basket db in
    let body = (add_items shop dto.items empty_basket >>= place_order dto cashier shop number) db in
    let returned = settled_ok db body o done in
    let (b, filled, placed) = resume_ok filling (place_order dto cashier shop number) o returned in
    let held =
      add_items-IsReserved shop db.warehouse.catalog.products db.warehouse.stock.batches dto.items
        empty_basket b db lines_ok
        (record {
          safe = safe;
          coherent = coherent;
          same_products = refl;
          same_batches = refl;
          positive = tt;
          whole = tt;
          reserved = λ q. ground arith;
        })
        filled in
    let promised = placed-IsPromised dto cashier shop number b o db filling.1 held placed in
    subst (IsPromised o.row db)
      (sym (
        settled_state db body o returned
        ∙ ap (λ r. r.1) (resume_returned filling (place_order dto cashier shop number) b filled)))
      promised
