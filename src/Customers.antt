-- ===== src/Customers.antt =====
-- modules/customers/customers.service.ts
pub mod Own
pub mod Listing
use text.Mathlib.Text.{◌==◌ as str_eq}
use salepoint_backend.Prelude.{
  ℕ, ◌+◌, Bool, true, false, ◌&&◌, Option, none, some, List, String, ◌==◌, find_first,
}
use salepoint_backend.Prelude.Table.{save, update_by_id}
use salepoint_backend.Exec.{Exec, pure, gets, or_raise, modify, ◌>>=◌, ◌>>◌, customer_not_found}
use salepoint_backend.Entities.{Customer, customer_key, DiscountType}
use salepoint_backend.Database.{Db, fresh_id, scoped}

pub record CreateCustomerDto : Type 0 where
  pub name : String
  pub phone : Option String
  pub default_discount_type : Option DiscountType
  pub default_discount_value : Option ℕ
  pub notes : Option String

-- `customerRepo.create({ ...dto, shopId })`, with the defaults of the columns.
unfoldable pub new_customer : CreateCustomerDto → ℕ → ℕ → Customer
new_customer dto shop_id id = record {
  id = id;
  shop_id = shop_id;
  name = dto.name;
  phone = dto.phone;
  default_discount_type = dto.default_discount_type;
  default_discount_value = dto.default_discount_value;
  loyalty_points = 0;
  total_spent = 0;
  visit_count = 0;
  notes = dto.notes;
}

abbrev pub put_customer : Customer → Db → Db
put_customer c db = record db { customers = save customer_key c db.customers }

unfoldable pub create : CreateCustomerDto → ℕ → Exec Db Customer
unfolding new_customer
create dto shop_id = do
  id ← fresh_id
  modify (put_customer (new_customer dto shop_id id))
  pure (new_customer dto shop_id id)

-- `where: { id, shopId }`; without a shop every shop is searched.
abbrev pub customer_in : ℕ → Option ℕ → Db → Option Customer
customer_in i shop db = find_first (λ c. c.id == i && scoped shop c.shop_id) db.customers

unfoldable pub find_by_id : ℕ → Option ℕ → Exec Db Customer
find_by_id i shop = do or_raise (← gets (customer_in i shop)) customer_not_found

abbrev pub has_phone : String → Option String → Bool
has_phone phone none = false
has_phone phone (some p) = str_eq p phone

unfoldable pub find_by_phone : String → ℕ → Db → Option Customer
find_by_phone phone shop_id db =
    find_first (λ c. has_phone phone c.phone && (c.shop_id == shop_id)) db.customers

abbrev or_old {ℓ} : {A : Type ℓ} → Option A → A → A
or_old none old = old
or_old (some new) old = new

abbrev or_old_option {ℓ} : {A : Type ℓ} → Option A → Option A → Option A
or_old_option none old = old
or_old_option (some new) old = some new

-- `UpdateCustomerDto`: every field may be absent.
pub record UpdateCustomerDto : Type 0 where
  pub name : Option String
  pub phone : Option String
  pub default_discount_type : Option DiscountType
  pub default_discount_value : Option ℕ
  pub notes : Option String

-- `Object.assign(customer, dto)`
unfoldable pub assign : UpdateCustomerDto → Customer → Customer
assign dto c = record c {
  name = or_old dto.name c.name;
  phone = or_old_option dto.phone c.phone;
  default_discount_type = or_old_option dto.default_discount_type c.default_discount_type;
  default_discount_value = or_old_option dto.default_discount_value c.default_discount_value;
  notes = or_old_option dto.notes c.notes;
}

unfoldable pub update : ℕ → UpdateCustomerDto → ℕ → Exec Db Customer
unfolding find_by_id assign
update i dto shop_id = do
  customer ← find_by_id i (some shop_id)
  modify (put_customer (assign dto customer))
  pure (assign dto customer)

-- `increment({ id }, 'loyaltyPoints', points)`
unfoldable pub add_loyalty_points : ℕ → ℕ → Db → Db
add_loyalty_points i points db = record db {
  customers =
      update_by_id customer_key i (λ c. record c { loyalty_points = c.loyalty_points + points })
        db.customers;
}

-- `amount` is in cents.
unfoldable pub record_visit : ℕ → ℕ → Db → Db
record_visit i amount db = record db {
  customers =
      update_by_id customer_key i
        (λ c. record c { visit_count = c.visit_count + 1; total_spent = c.total_spent + amount })
        db.customers;
}
