-- ===== src/Shops.antt =====
-- modules/shops/shops.service.ts
pub mod Limits
pub mod Editing
use salepoint_backend.Prelude.{
  ℕ, ◌+◌, ◌≤◌, Bool, true, false, not, ◌&&◌, Option, none, some, List, [], ◌∷◌, String, ltb, leb,
  ◌==◌, if◌then◌else◌, find_first, filter_by, count_by, map,
}
use salepoint_backend.Prelude.Table.{update_by_id}
use salepoint_backend.Exec.{
  Exec, pure, gets, or_raise, raise_if, modify, ◌>>=◌, ◌>>◌, shop_not_found, user_not_found,
  seat_limit_reached, already_assigned, shops_not_allowed, shop_limit_reached, not_assigned,
  not_owner,
}
use salepoint_backend.Accounts.{
  UserRole, cashier, shop_owner, has_role, User, SubscriptionStatus, trial, active, expired,
  suspended, Shop, ShopUser, Accounts, user_of, shop_of, member_of, save_user, save_shop,
  save_member, fresh_key, shop_key, shop_user_key,
}

pub record CreateShopDto : Type 0 where
  pub name : String
  pub subscription_expires_at : Option ℕ
  pub cashier_limit : Option ℕ

unfoldable pub create : CreateShopDto → Exec Accounts Shop
create dto = do
  id ← fresh_key
  let shop : Shop = record {
    id = id;
    name = dto.name;
    subscription_status = trial;
    subscription_expires_at = dto.subscription_expires_at;
    cashier_limit = dto.cashier_limit;
    deleted = false;
  }
  modify (save_shop shop)
  pure shop

-- `suspend` and `activate`
unfoldable pub set_status : SubscriptionStatus → ℕ → Exec Accounts Shop
set_status status i = do
  shop ← or_raise (← gets (shop_of i)) shop_not_found
  modify (save_shop (record shop { subscription_status = status }))
  pure (record shop { subscription_status = status })

abbrev pub suspend : ℕ → Exec Accounts Shop
suspend = set_status suspended

abbrev pub activate : ℕ → Exec Accounts Shop
activate = set_status active

unfoldable pub soft_delete : ℕ → Exec Accounts (Unit {0})
soft_delete i = do
  or_raise (← gets (shop_of i)) shop_not_found
  modify
      (λ a. record a { shops = update_by_id shop_key i (λ s. record s { deleted = true }) a.shops })

pub record AssignUserToShopDto : Type 0 where
  pub name : String
  pub email : ℕ
  pub password : ℕ
  pub roles : List UserRole

abbrev pub is_cashier_of : ℕ → ShopUser → Bool
is_cashier_of shop su = su.shop_id == shop && has_role cashier su.roles

-- `shop.cashierLimit != null && cashierCount >= shop.cashierLimit`
abbrev pub reaches : Option ℕ → ℕ → Bool
reaches none count = false
reaches (some limit) count = leb limit count

abbrev pub no_seat : AssignUserToShopDto → ℕ → Shop → Accounts → Bool
no_seat dto shop_id shop a =
    has_role cashier dto.roles
    && reaches shop.cashier_limit (count_by (is_cashier_of shop_id) a.shop_users)

-- A new platform user; `password_hash` is what `bcrypt.hash` made of the password.
unfoldable pub or_new_user : AssignUserToShopDto → ℕ → Option User → Exec Accounts User
or_new_user dto password_hash (some user) = pure user
or_new_user dto password_hash none = do
  id ← fresh_key
  let user : User = record {
    id = id;
    email = dto.email;
    name = dto.name;
    password_hash = password_hash;
    roles = cashier ∷ [];
    is_active = true;
    shop_limit = some 0;
    last_login_at = none;
    deleted = false;
  }
  modify (save_user user)
  pure user

abbrev pub is_assigned : Option ShopUser → Bool
is_assigned none = false
is_assigned (some su) = true

-- The assignment of a user who is not in the shop yet.
unfoldable pub enroll : ℕ → List UserRole → ℕ → Exec Accounts ShopUser
enroll shop_id roles user_id = do
  existing ← gets (member_of shop_id user_id)
  raise_if (is_assigned existing) already_assigned
  id ← fresh_key
  let member : ShopUser = record {
    id = id;
    shop_id = shop_id;
    user_id = user_id;
    roles = roles;
    is_active = true;
  }
  modify (save_member member)
  pure member

unfoldable pub assign_user : ℕ → AssignUserToShopDto → ℕ → Exec Accounts ShopUser
assign_user shop_id dto password_hash = do
  shop ← or_raise (← gets (shop_of shop_id)) shop_not_found
  full ← gets (no_seat dto shop_id shop)
  raise_if full seat_limit_reached
  found ← gets (λ a. find_first (λ u. u.email == dto.email) a.users)
  user ← or_new_user dto password_hash found
  enroll shop_id dto.roles user.id

abbrev pub is_owner : ℕ → ShopUser → Bool
is_owner user su = su.user_id == user && has_role shop_owner su.roles

-- `user.shopLimit === 0 || user.shopLimit === null`
abbrev pub no_shops : Option ℕ → Bool
no_shops none = true
no_shops (some limit) = limit == 0

unfoldable pub create_for_owner : ℕ → CreateShopDto → Exec Accounts Shop
create_for_owner user_id dto = do
  user ← or_raise (← gets (user_of user_id)) user_not_found
  raise_if (no_shops user.shop_limit) shops_not_allowed
  owned ← gets (λ a. count_by (is_owner user_id) a.shop_users)
  raise_if (reaches user.shop_limit owned) shop_limit_reached
  shop ← create dto
  id ← fresh_key
  modify (
      save_member (record {
        id = id;
        shop_id = shop.id;
        user_id = user_id;
        roles = shop_owner ∷ [];
        is_active = true;
      }))
  pure shop

unfoldable pub set_user_shop_limit : ℕ → Option ℕ → Exec Accounts User
set_user_shop_limit user_id limit = do
  user ← or_raise (← gets (user_of user_id)) user_not_found
  modify (save_user (record user { shop_limit = limit }))
  pure (record user { shop_limit = limit })

unfoldable pub remove_user_from_shop : ℕ → ℕ → Exec Accounts (Unit {0})
remove_user_from_shop shop_id user_id = do
  member ← or_raise (← gets (member_of shop_id user_id)) not_assigned
  modify (λ a. record a { shop_users = filter_by (λ su. not (su.id == member.id)) a.shop_users })

abbrev pub is_running : SubscriptionStatus → Bool
is_running trial = true
is_running active = true
is_running _ = false

-- `subscription_expires_at < NOW()`, which null does not satisfy
abbrev pub has_passed : ℕ → Option ℕ → Bool
has_passed now none = false
has_passed now (some t) = ltb t now

abbrev pub is_due : ℕ → Shop → Bool
is_due now s = has_passed now s.subscription_expires_at && is_running s.subscription_status

unfoldable pub expire : ℕ → Shop → Shop
expire now s = if is_due now s then record s { subscription_status = expired } else s

-- The daily job; the update does not look at `deletedAt`.
unfoldable pub expire_subscriptions : ℕ → Accounts → Accounts
unfolding expire
expire_subscriptions now a = record a { shops = map (expire now) a.shops }
