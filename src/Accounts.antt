-- ===== src/Accounts.antt =====
-- The rows of users, shops, their members and refresh tokens (modules/users/entities,
-- modules/shops/entities, modules/auth/entities). Keys, e-mail addresses, passwords, hashes and
-- tokens, which are only compared, are numbers, and so are times.
use salepoint_backend.Prelude.{
  ℕ, ◌+◌, Bool, true, false, not, ◌&&◌, Option, List, String, ◌==◌, find_first, any_by,
}
use salepoint_backend.Prelude.Table.{save}
use salepoint_backend.Exec.{Exec, ok}

pub data UserRole : Type 0 where
  super_admin shop_owner admin manager cashier : UserRole

abbrev pub same_role : UserRole → UserRole → Bool
same_role super_admin super_admin = true
same_role shop_owner shop_owner = true
same_role admin admin = true
same_role manager manager = true
same_role cashier cashier = true
same_role _ _ = false

-- `roles.includes(role)`, and `:role = ANY(roles)`
abbrev pub has_role : UserRole → List UserRole → Bool
has_role role roles = any_by (same_role role) roles

-- `deleted` is `deletedAt !== null`; a `shop_limit` of `none` is null.
pub record User : Type 0 where
  pub id : ℕ
  pub email : ℕ
  pub name : String
  pub password_hash : ℕ
  pub roles : List UserRole
  pub is_active : Bool
  pub shop_limit : Option ℕ
  pub last_login_at : Option ℕ
  pub deleted : Bool

pub data SubscriptionStatus : Type 0 where
  trial active expired suspended : SubscriptionStatus

pub record Shop : Type 0 where
  pub id : ℕ
  pub name : String
  pub subscription_status : SubscriptionStatus
  pub subscription_expires_at : Option ℕ
  pub cashier_limit : Option ℕ
  pub deleted : Bool

pub record ShopUser : Type 0 where
  pub id : ℕ
  pub shop_id : ℕ
  pub user_id : ℕ
  pub roles : List UserRole
  pub is_active : Bool

pub record RefreshToken : Type 0 where
  pub id : ℕ
  pub token : ℕ
  pub session_id : ℕ
  pub family_id : ℕ
  pub expires_at : ℕ
  pub revoked_at : Option ℕ
  pub client_ip : String
  pub shop_id : Option ℕ
  pub user_id : ℕ

pub record Accounts : Type 0 where
  pub users : List User
  pub shops : List Shop
  pub shop_users : List ShopUser
  pub tokens : List RefreshToken
  pub next_id : ℕ

abbrev pub user_key : User → ℕ
user_key u = u.id

abbrev pub shop_key : Shop → ℕ
shop_key s = s.id

abbrev pub shop_user_key : ShopUser → ℕ
shop_user_key su = su.id

abbrev pub token_key : RefreshToken → ℕ
token_key t = t.id

-- `findOne({ where: { id } })`, which passes over deleted rows.
abbrev pub user_of : ℕ → Accounts → Option User
user_of i a = find_first (λ u. u.id == i && not u.deleted) a.users

abbrev pub shop_of : ℕ → Accounts → Option Shop
shop_of i a = find_first (λ s. s.id == i && not s.deleted) a.shops

-- `findOne({ where: { shopId, userId } })`
abbrev pub is_member : ℕ → ℕ → ShopUser → Bool
is_member shop user su = su.shop_id == shop && su.user_id == user

abbrev pub member_of : ℕ → ℕ → Accounts → Option ShopUser
member_of shop user a = find_first (is_member shop user) a.shop_users

-- `findOne({ where: { userId, shopId, isActive: true } })`
abbrev pub active_member_of : ℕ → ℕ → Accounts → Option ShopUser
active_member_of shop user a =
    find_first (λ su. is_member shop user su && su.is_active) a.shop_users

abbrev pub save_user : User → Accounts → Accounts
save_user u a = record a { users = save user_key u a.users }

abbrev pub save_shop : Shop → Accounts → Accounts
save_shop s a = record a { shops = save shop_key s a.shops }

abbrev pub save_member : ShopUser → Accounts → Accounts
save_member su a = record a { shop_users = save shop_user_key su a.shop_users }

abbrev pub fresh_key : Exec Accounts ℕ
fresh_key a = (ok a.next_id, record a { next_id = a.next_id + 1 })
