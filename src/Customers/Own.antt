-- ===== src/Customers/Own.antt =====
-- An update reaches no customer of another shop: customers.service.ts.
use salepoint_backend.Prelude.{
  ℕ, ◌≡◌, ◌≢◌, refl, ◌⊎◌, inl, inr, true, false, ◌&&◌, none, some, arith, ◌==◌, Option-cases,
  find_first-holds,
}
use salepoint_backend.Prelude.Table.{
  IsKeyed, find_by_id-find_first, find_first-save_self, find_first-save_other,
}
use salepoint_backend.Exec.{ok, err, customer_not_found}
use salepoint_backend.Entities.{Customer, customer_key}
use salepoint_backend.Database.{Db}
use salepoint_backend.Customers.{customer_in, update, find_by_id, assign, UpdateCustomerDto}

-- In a table with unique keys: an update answers 404, with nothing written, exactly if the shop has no such customer; otherwise a lookup in the shop finds the customer with the fields of the request, and no lookup in another shop, by any key, answers otherwise than before.
pub update_outcome :
    (i shop : ℕ) (dto : UpdateCustomerDto) (db : Db)
    → IsKeyed customer_key db.customers
    → let (r, t) = update i dto shop db in
      ((customer_in i (some shop) db ≡ none) × (r ≡ err customer_not_found) × (t ≡ db))
      ⊎ ((c : Customer) × (customer_in i (some shop) db ≡ some c)
          × (r ≡ ok (assign dto c))
          × (customer_in i (some shop) t ≡ some (assign dto c))
          × ((j other : ℕ)
              → other ≢ shop
              → customer_in j (some other) t ≡ customer_in j (some other) db))
unfolding update find_by_id
update_outcome i shop dto db keyed = elim (Option-cases (customer_in i (some shop) db)) [
  | inl missing ↦ rw missing (inl (refl, refl, refl))
  | inr (c, found) ↦
      let is_mine = λ (x : Customer). (x.id == i) && (x.shop_id == shop) in
      let valid = find_first-holds is_mine db.customers c found in
      let row = find_by_id-find_first customer_key is_mine db.customers c keyed found in
      rw found (
        inr (
          c,
          refl,
          refl,
          find_first-save_self customer_key is_mine (assign dto c) c db.customers found
              (unfold assign in refl) (unfold assign in valid),
          λ j other apart.
              find_first-save_other customer_key (λ x. (x.id == j) && (x.shop_id == other))
                (assign dto c) c db.customers (unfold assign in row)
                (unfold assign in not_in_other j other c apart valid)
                (not_in_other j other c apart valid),
        ))
]
  where
    not_in_other :
        (j other : ℕ) (c : Customer)
        → other ≢ shop
        → ((c.id == i) && (c.shop_id == shop)) ≡ true
        → ((c.id == j) && (c.shop_id == other)) ≡ false
    not_in_other j other c apart valid = ground arith
