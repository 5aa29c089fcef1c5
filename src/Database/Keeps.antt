-- ===== src/Database/Keeps.antt =====
-- Methods that keep the stock tables safe, and how that composes.
use salepoint_backend.Prelude.{◌≡◌, refl, arith, Bool, true, false, Option, none, some}
use salepoint_backend.Exec.{Exec, Result, Error, ok, err, resume, ◌>>=◌, or_raise, raise_if}
use salepoint_backend.Inventory.Sound.{IsSafe}
use salepoint_backend.Database.{Db, transaction, settled, rolled_back}

-- A method that keeps a predicate of the tables, whether it returns or throws.
abbrev pub Keeps : {A : Type 0} → (Db → Type 0) → Exec Db A → Type 0
Keeps P m = (db : Db) → P db → P (m db).1

module _ (P : Db → Type 0) where
  resume_after :
      {A B : Type 0} (f : A → Exec Db B) (r : Result A × Db)
      → P r.1
      → ((a : A) → r.0 ≡ ok a → P (f a r.1).1)
      → P (resume r f).1
  resume_after f (ok a, db) h k = k a refl
  resume_after f (err e, db) h k = h

  -- What follows a step need keep the predicate only with what the step has answered.
  pub bind_after :
      {A B : Type 0} (m : Exec Db A) (f : A → Exec Db B) (db : Db)
      → P (m db).1
      → ((a : A) → (m db).0 ≡ ok a → P (f a (m db).1).1)
      → P ((m >>= f) db).1
  bind_after m f db h k = resume_after f (m db) h k

  pub bind-Keeps :
      {A B : Type 0} (m : Exec Db A) (f : A → Exec Db B)
      → Keeps P m
      → ((a : A) → Keeps P (f a))
      → Keeps P (m >>= f)
  bind-Keeps m f k g db h = bind_after m f db (k db h) (λ a _. g a _ (k db h))

  pub raise_if-Keeps : (b : Bool) (e : Error) → Keeps P (raise_if b e)
  raise_if-Keeps true e db h = h
  raise_if-Keeps false e db h = h

  pub or_raise-Keeps : {A : Type 0} (o : Option A) (e : Error) → Keeps P (or_raise o e)
  or_raise-Keeps none e db h = h
  or_raise-Keeps (some a) e db h = h

  settled-Keeps :
      {A : Type 0} (old : Db) (r : Result A × Db)
      → ((db : Db) → P (rolled_back old db))
      → P r.1
      → P (settled old r).1
  settled-Keeps old (ok a, db) h k = k
  settled-Keeps old (err e, db) h k = h db

  -- A predicate that a rollback restores is kept by a transaction around what keeps it.
  pub transaction-Keeps :
      {A : Type 0} (m : Exec Db A)
      → ((old db : Db) → P old → P (rolled_back old db))
      → Keeps P m
      → Keeps P (transaction m)
  transaction-Keeps m back k db h = settled-Keeps db (m db) (λ db'. back db db' h) (k db h)

-- A method that leaves safe stock tables safe.
abbrev pub HasSafeStock : Db → Type 0
HasSafeStock db = IsSafe db.warehouse.stock

abbrev pub KeepsStock : {A : Type 0} → Exec Db A → Type 0
KeepsStock m = Keeps HasSafeStock m

-- The tables are as they were before.
pub record IsUndone (old new : Db) : Type 0 where
  pub same_stock : new.warehouse.stock ≡ old.warehouse.stock
  pub same_products : new.warehouse.catalog.products ≡ old.warehouse.catalog.products
  pub same_orders : new.orders ≡ old.orders
  pub same_debts : new.debts ≡ old.debts
  pub same_shifts : new.shifts ≡ old.shifts
  pub same_payments : new.payments ≡ old.payments

pub settled-IsUndone :
    {A : Type 0} (e : Error) (old : Db) (r : Result A × Db)
    → (settled old r).0 ≡ err e
    → IsUndone old (settled old r).1
settled-IsUndone e old (ok a, db) failed = absurd (ground (arith, failed))
settled-IsUndone e old (err e', db) failed = record {
  same_stock = refl;
  same_products = refl;
  same_orders = refl;
  same_debts = refl;
  same_shifts = refl;
  same_payments = refl;
}

-- Where a transaction returns, so did its body, and its state stays.
pub settled_ok :
    {A : Type 0} (old : Db) (r : Result A × Db) (a : A) → (settled old r).0 ≡ ok a → r.0 ≡ ok a
settled_ok old (ok b, db) a done = done
settled_ok old (err e, db) a done = absurd (ground (arith, done))

pub settled_state :
    {A : Type 0} (old : Db) (r : Result A × Db) (a : A) → r.0 ≡ ok a → (settled old r).1 ≡ r.1
settled_state old (ok b, db) a done = refl
settled_state old (err e, db) a done = absurd (ground (arith, done))

pub settled_err :
    {A : Type 0} (e : Error) (old : Db) (r : Result A × Db)
    → (settled old r).0 ≡ err e
    → r.0 ≡ err e
settled_err e old (ok a, db) failed = absurd (ground (arith, failed))
settled_err e old (err e', db) failed = failed
