-- ===== src/Users.antt =====
-- modules/users/users.service.ts. A PIN is compared with its hash by bcrypt: `matches` is a
-- parameter.
pub mod Emails
use salepoint_backend.Prelude.{
  ℕ, Bool, true, false, not, ◌&&◌, Option, none, some, List, [], ◌∷◌, String, ◌==◌, find_first,
  any_by,
}
use salepoint_backend.Prelude.Table.{update_by_id}
use salepoint_backend.Exec.{
  Exec, pure, gets, or_raise, raise_if, modify, ◌>>=◌, ◌>>◌, user_not_found, email_taken,
  internal_error,
}
use salepoint_backend.Accounts.{
  UserRole, cashier, User, Accounts, user_of, save_user, user_key, fresh_key,
}

pub record CreateUserDto : Type 0 where
  pub name : String
  pub email : ℕ
  pub password : ℕ
  pub roles : Option (List UserRole)

abbrev pub or_default {ℓ} : {A : Type ℓ} → Option A → A → A
or_default none d = d
or_default (some a) d = a

-- `userRepo.create({ ...dto, passwordHash })`, with the defaults of the columns.
unfoldable pub new_user : CreateUserDto → ℕ → ℕ → User
new_user dto password_hash id = record {
  id = id;
  email = dto.email;
  name = dto.name;
  password_hash = password_hash;
  roles = or_default dto.roles (cashier ∷ []);
  is_active = true;
  shop_limit = some 0;
  last_login_at = none;
  deleted = false;
}

abbrev pub is_found : Option User → Bool
is_found none = false
is_found (some _) = true

-- `findOne({ where: { email }, withDeleted: true })`
abbrev pub any_with_email : ℕ → Accounts → Option User
any_with_email email a = find_first (λ u. u.email == email) a.users

-- `hash` is `bcrypt.hash`.
unfoldable pub create : (ℕ → ℕ) → CreateUserDto → Exec Accounts User
unfolding new_user
create hash dto = do
  exists ← gets (any_with_email dto.email)
  raise_if (is_found exists) email_taken
  id ← fresh_key
  modify (save_user (new_user dto (hash dto.password) id))
  pure (new_user dto (hash dto.password) id)

unfoldable pub find_by_id : ℕ → Exec Accounts User
find_by_id i = do or_raise (← gets (user_of i)) user_not_found

unfoldable pub find_by_email : ℕ → Accounts → Option User
find_by_email email a = find_first (λ u. u.email == email && not u.deleted) a.users

-- `UpdateUserDto`; an absent or empty password is falsy.
pub record UpdateUserDto : Type 0 where
  pub name : Option String
  pub email : Option ℕ
  pub password : Option ℕ
  pub roles : Option (List UserRole)
  pub is_active : Option Bool

abbrev new_hash : (ℕ → ℕ) → Option ℕ → ℕ → ℕ
new_hash hash none old = old
new_hash hash (some password) old = hash password

-- `Object.assign(user, dto)`
unfoldable pub assign : (ℕ → ℕ) → UpdateUserDto → User → User
assign hash dto u = record u {
  name = or_default dto.name u.name;
  email = or_default dto.email u.email;
  password_hash = new_hash hash dto.password u.password_hash;
  roles = or_default dto.roles u.roles;
  is_active = or_default dto.is_active u.is_active;
}

-- The unique index on the e-mail addresses, which holds the deleted rows too.
abbrev pub clashes : User → List User → Bool
clashes u = any_by (λ v. not (v.id == u.id) && (v.email == u.email))

unfoldable pub update : (ℕ → ℕ) → ℕ → UpdateUserDto → Exec Accounts User
unfolding find_by_id assign
update hash i dto = do
  user ← find_by_id i
  raise_if (← gets (λ a. clashes (assign hash dto user) a.users)) internal_error
  modify (save_user (assign hash dto user))
  pure (assign hash dto user)

unfoldable pub soft_delete : ℕ → Exec Accounts (Unit {0})
unfolding find_by_id
soft_delete i = do
  find_by_id i
  modify
      (λ a. record a { users = update_by_id user_key i (λ u. record u { deleted = true }) a.users })

abbrev pub update_last_login : ℕ → ℕ → Accounts → Accounts
update_last_login i now a = record a {
  users = update_by_id user_key i (λ u. record u { last_login_at = some now }) a.users;
}

-- `validatePin`, with the hash of the user's PIN.
unfoldable pub validate_pin : (ℕ → ℕ → Bool) → Option ℕ → ℕ → Bool
validate_pin matches none pin = false
validate_pin matches (some pin_hash) pin = matches pin pin_hash
