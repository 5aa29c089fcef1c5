-- ===== src/Orders/Placed.antt =====
-- What `create` leaves in the tables.
use salepoint_backend.Prelude.{
  ℕ, ◌+◌, ◌≤◌, ◌<◌, ltb, ltb→lt, ◌≡◌, ◌⊎◌, refl, sym, ap, ◌∙◌, true, false, not, ◌&&◌, Option, none,
  some, [], ◌∷◌, ◌++◌, String, arith, inl, inr, Bool-cases,
}
use salepoint_backend.Prelude.Table.{save, find_by_id, find_by_id-save_self}
use salepoint_backend.Double.{add, to_column}
use salepoint_backend.Exec.{
  Result, Result-cases, resume_returned, resume_failed, Error, ok, err, ◌>>=◌,
  payment_exceeds_total, customer_required,
}
use salepoint_backend.Entities.{Order, Debt, DebtStatus, order_key, debt_key}
use salepoint_backend.Database.{Db, settled}
use salepoint_backend.Database.Keeps.{IsUndone, settled-IsUndone, settled_err}
use salepoint_backend.Debts.{create_from_order, new_debt}
use salepoint_backend.Orders.Loops.{IsKept, add_items-Keeps}
use salepoint_backend.Orders.Totals.{
  CreateOrderDto, Basket, Discount, effective_discount, total_of, not_paid_of, order_row, or_zero,
  payment_of, saved_order, is_given, empty_basket,
}
use salepoint_backend.Orders.Service.{
  place_order, save_sale, open_debt, record_sale, default_customer, create, add_items,
}

-- A debt for the whole unpaid part of an order, of its customer.
pub record IsDebtOf (o : Order) (d : Debt) : Type 0 where
  pub of_order : d.order_id ≡ o.id
  pub of_customer : d.customer_id ≡ o.customer_id
  pub whole : d.total_debt ≡ o.not_paid
  pub nothing_paid : d.remaining_amount ≡ o.not_paid
  pub pending : d.status ≡ DebtStatus.pending

-- An order that a request leaves in the tables: it is saved, its job is queued, and a debt of its customer is there for what is not paid.
pub record IsPlaced (o : Order) (before after : Db) : Type 0 where
  pub saved : find_by_id order_key o.id after.orders ≡ some o
  pub rows : after.orders ≡ save order_key o before.orders
  pub queued : after.queue ≡ before.queue ++ (o.id ∷ [])
  pub owed :
      0 < o.not_paid → (d : Debt) × (find_by_id debt_key d.id after.debts ≡ some d) × IsDebtOf o d
  pub owned : 0 < o.not_paid → is_given o.customer_id ≡ true
  pub unowed : o.not_paid ≡ 0 → after.debts ≡ before.debts
  pub same_stock : after.warehouse ≡ before.warehouse

-- The sale recorded on a shift changes nothing but the shifts.
record_sale_frame :
    (shift : Option ℕ) (cash card total : ℕ) (db : Db)
    → record_sale shift cash card total db
      ≡ record db { shifts = (record_sale shift cash card total db).shifts }
unfolding record_sale
record_sale_frame none cash card total db = refl
record_sale_frame (some i) cash card total db = refl

debt-IsDebtOf : (o : Order) (cashier i : ℕ) → IsDebtOf o (new_debt o cashier i)
unfolding new_debt
debt-IsDebtOf o cashier i = record {
  of_order = refl;
  of_customer = refl;
  whole = refl;
  nothing_paid = refl;
  pending = refl;
}

save_sale-IsPlaced :
    (dto : CreateOrderDto) (cashier shop : ℕ) (number : String) (b : Basket) (d : Discount)
    (db : Db)
    → let o = order_row db.next_id shop number cashier dto b d in
      (ltb 0 o.not_paid && not (is_given dto.customer_id) ≡ false)
      → let r = save_sale dto cashier shop number b d db in
        (r.0 ≡ ok (saved_order db.next_id shop number cashier dto b d)) × IsPlaced o db r.1
unfolding save_sale open_debt create_from_order order_row saved_order
save_sale-IsPlaced dto cashier shop number b d db owner =
    let o = order_row db.next_id shop number cashier dto b d in
    let debt = new_debt o cashier (db.next_id + 1) in
    elim (Bool-cases (ltb 0 (order_row db.next_id shop number cashier dto b d).not_paid)) [
      | inl owed ↦ rw owed (
          rw
            (record_sale_frame dto.shift_id (or_zero dto.paid_by_cash) (or_zero dto.paid_by_card)
              (to_column (total_of b d)) _)
            (
              refl,
              record {
                saved = find_by_id-save_self order_key o db.orders;
                rows = refl;
                queued = refl;
                owed = λ _. (
                  debt,
                  find_by_id-save_self debt_key debt db.debts,
                  debt-IsDebtOf o cashier (db.next_id + 1),
                );
                owned = λ _. ground arith;
                unowed = λ q. absurd (ground (arith, q));
                same_stock = refl;
              },
            ))
      | inr settled ↦ rw settled (
          rw
            (record_sale_frame dto.shift_id (or_zero dto.paid_by_cash) (or_zero dto.paid_by_card)
              (to_column (total_of b d)) _)
            (
              refl,
              record {
                saved = find_by_id-save_self order_key o db.orders;
                rows = refl;
                queued = refl;
                owed = λ q. absurd (ground (arith, q));
                owned = λ q. absurd (ground (arith, q));
                unowed = λ _. refl;
                same_stock = refl;
              },
            ))
    ]

pub place_order_outcome :
    (dto : CreateOrderDto) (cashier shop : ℕ) (number : String) (b : Basket) (db : Db)
    → let d = effective_discount dto (default_customer dto shop db) in
      let r = place_order dto cashier shop number b db in
      let o = order_row db.next_id shop number cashier dto b d in
      ((total_of b d < add (payment_of dto.paid_by_cash) (payment_of dto.paid_by_card))
        × (r ≡ (err payment_exceeds_total, db)))
      ⊎ ((0 < o.not_paid) × (is_given dto.customer_id ≡ false) × (r ≡ (err customer_required, db)))
      ⊎ ((add (payment_of dto.paid_by_cash) (payment_of dto.paid_by_card) ≤ total_of b d)
          × (r.0 ≡ ok (saved_order db.next_id shop number cashier dto b d))
          × IsPlaced o db r.1)
unfolding place_order order_row
place_order_outcome dto cashier shop number b db =
    let d = effective_discount dto (default_customer dto shop db) in
    let total = total_of b d in
    let cash = payment_of dto.paid_by_cash in
    let card = payment_of dto.paid_by_card in
    elim (Bool-cases (ltb total (add cash card))) [
      | inl much ↦ rw much (inl (ltb→lt total (add cash card) much, refl))
      | inr fits ↦
          rw fits
            (elim (Bool-cases
              (ltb 0 (not_paid_of total cash card) && not (is_given dto.customer_id))) [
                | inl nobody ↦
                    rw nobody (inr (inl (ground (arith, nobody), ground (arith, nobody), refl)))
                | inr owner ↦ rw owner (
                    inr (
                      inr (
                        ground (arith, fits),
                        (save_sale-IsPlaced dto cashier shop number b d db owner).0,
                        (save_sale-IsPlaced dto cashier shop number b d db owner).1,
                      )))
              ])
    ]

-- `place_order` queues nothing before a throw.
place_order-queue :
    (dto : CreateOrderDto) (cashier shop : ℕ) (number : String) (b : Basket) (e : Error) (db : Db)
    → (place_order dto cashier shop number b db).0 ≡ err e
    → (place_order dto cashier shop number b db).1.queue ≡ db.queue
place_order-queue dto cashier shop number b e db failed =
    elim (place_order_outcome dto cashier shop number b db) [
      | inl (much, refused) ↦ rw refused refl
      | inr (inl (owed, nobody, refused)) ↦ rw refused refl
      | inr (inr (fits, right, placed)) ↦ absurd (ground (arith, sym right ∙ failed))
    ]

queue_steps : (old : Db) → IsKept (λ db. db.queue ≡ old.queue)
queue_steps old = record {
  reserves = λ p n db h. h;
  releases = λ p n db h. h;
  returns = λ p n price i by db h. h;
  looks = λ i shop db h. h;
}

settled-queue : {A : Type 0} (old : Db) (r : Result A × Db) → (settled old r).1.queue ≡ r.1.queue
settled-queue old (ok a, db) = refl
settled-queue old (err e, db) = refl

-- Where `create` throws, the tables and the queue are as they were: no stock stays reserved, and no order, debt, job or sale of a shift is left.
pub create_rolled_back :
    (dto : CreateOrderDto) (cashier shop : ℕ) (number : String) (e : Error) (db : Db)
    → (create dto cashier shop number db).0 ≡ err e
    → let after = (create dto cashier shop number db).1 in
      IsUndone db after × (after.queue ≡ db.queue)
unfolding create
create_rolled_back dto cashier shop number e db failed =
    let filling = add_items shop dto.items empty_basket db in
    let rest = place_order dto cashier shop number in
    let body = (add_items shop dto.items empty_basket >>= rest) db in
    let filled =
      add_items-Keeps (λ t. t.queue ≡ db.queue) (queue_steps db) shop dto.items empty_basket db
        refl in
    let thrown = settled_err e db body failed in
    (
      settled-IsUndone e db body failed,
      settled-queue db body ∙ (elim (Result-cases filling.0) [
        | inr (e', stopped) ↦ ap (λ r. r.1.queue) (resume_failed filling rest e' stopped) ∙ filled
        | inl (b, done) ↦
            let next = resume_returned filling rest b done in
            ap (λ r. r.1.queue) next
            ∙ place_order-queue dto cashier shop number b e filling.1
                (sym (ap (λ r. r.0) next) ∙ thrown)
            ∙ filled
      ]),
    )
