-- ===== src/Tests/AccountCases.antt =====
-- The theorems of shops and sessions at sample rows.
use salepoint_backend.Prelude.{
  ℕ, ◌+◌, ◌==◌, ◌⊎◌, Bool, ◌≡◌, ◌≢◌, refl, true, false, none, some, [], ◌∷◌, count_by, arith,
}
use salepoint_backend.Exec.{ok, err, refresh_invalid}
use salepoint_backend.Accounts.{
  User, super_admin, has_role, cashier, shop_owner, active, Shop, ShopUser, RefreshToken, Accounts,
}
use salepoint_backend.Shops.{AssignUserToShopDto, CreateShopDto, assign_user}
use salepoint_backend.Shops.Limits.{IsWithin, assign_user-IsWithin, IsOwnerWithin}
use salepoint_backend.Auth.{
  TokensDto, JwtPayload, access, pre_auth, issue_tokens, refresh, select_shop, logout_all,
  enter_shop, assert_subscription_active,
}
use salepoint_backend.Auth.Login.{
  login, login_member, enter_directly, validate_credentials, logged_in, is_cashier_only,
  login_scope,
}
use salepoint_backend.Auth.Sessions.{is_session_of, refresh_unmatched, select_shop_sessions}

abbrev owner : User
owner = record {
  id = 1;
  email = 100;
  name = "owner";
  password_hash = 200;
  roles = cashier ∷ [];
  is_active = true;
  shop_limit = some 2;
  last_login_at = none;
  deleted = false;
}

abbrev shop : Shop
shop = record {
  id = 5;
  name = "shop";
  subscription_status = active;
  subscription_expires_at = some 1000;
  cashier_limit = some 1;
  deleted = false;
}

abbrev member : ShopUser
member = record { id = 6; shop_id = 5; user_id = 1; roles = shop_owner ∷ []; is_active = true }

abbrev old_token : RefreshToken
old_token = record {
  id = 7;
  token = 300;
  session_id = 8;
  family_id = 9;
  expires_at = 5000;
  revoked_at = some 10;
  client_ip = "10.0.0.1";
  shop_id = some 5;
  user_id = 1;
}

abbrev accounts : Accounts
accounts = record {
  users = owner ∷ [];
  shops = shop ∷ [];
  shop_users = member ∷ [];
  tokens = old_token ∷ [];
  next_id = 20;
}

abbrev new_cashier : AssignUserToShopDto
new_cashier = record { name = "cashier"; email = 101; password = 400; roles = cashier ∷ [] }

accounts-IsWithin : IsWithin 5 1 accounts
accounts-IsWithin = record {
  below = (omega arith, tt);
  once = λ user. ground arith;
  seats = omega arith;
}

assign_user-IsWithin_example : IsWithin 5 1 (assign_user 5 new_cashier 500 accounts).1
assign_user-IsWithin_example =
    assign_user-IsWithin 5 1 new_cashier 500 shop accounts refl refl accounts-IsWithin

abbrev second_shop : CreateShopDto
second_shop = record { name = "second"; subscription_expires_at = none; cashier_limit = none }

owner-IsOwnerWithin : IsOwnerWithin 1 2 accounts
owner-IsOwnerWithin = record { owner_below = (omega arith, tt); shops = omega arith }

-- A hash that changes every value.
abbrev shifted : ℕ → ℕ
shifted v = v + 1

shifted_changes : (v : ℕ) → shifted v ≢ v
shifted_changes v e = omega arith

abbrev given : TokensDto
given = record {
  access_token = record {
    sub = 1;
    email = 100;
    roles = cashier ∷ [];
    session_id = 20;
    shop_id = some 5;
    kind = access;
  };
  refresh_token = 22;
  expires_in = 900;
}

given_issued :
    (issue_tokens shifted owner "10.0.0.1" (some 5) (some (cashier ∷ [])) none 60 accounts).0
    ≡ ok given
unfolding issue_tokens
given_issued = refl

refresh_unmatched_example :
    (refresh shifted 22 "10.0.0.1" 70
      (issue_tokens shifted owner "10.0.0.1" (some 5) (some (cashier ∷ [])) none 60 accounts).1).0
    ≡ err refresh_invalid
refresh_unmatched_example =
    refresh_unmatched shifted owner "10.0.0.1" (some 5) (some (cashier ∷ [])) 60 70 accounts given
      shifted_changes (omega arith, tt) given_issued refl

abbrev pre_auth_payload : JwtPayload
pre_auth_payload = record {
  sub = 1;
  email = 100;
  roles = cashier ∷ [];
  session_id = 11;
  shop_id = none;
  kind = pre_auth;
}

abbrev entered : TokensDto
entered = record given { access_token = record given.access_token { roles = shop_owner ∷ [] } }

shop_selected :
    (select_shop shifted 5 (some pre_auth_payload) "10.0.0.1" 60 accounts).0 ≡ ok entered
unfolding select_shop enter_shop issue_tokens logout_all assert_subscription_active
shop_selected = refl

select_shop_sessions_example :
    count_by
      (is_session_of 1)
      (select_shop shifted 5 (some pre_auth_payload) "10.0.0.1" 60 accounts).1.tokens
    ≡ 1
select_shop_sessions_example =
    select_shop_sessions shifted 5 60 1 (some pre_auth_payload) "10.0.0.1" entered accounts
      (omega arith, tt) refl shop_selected

abbrev teller : ShopUser
teller = record { id = 6; shop_id = 5; user_id = 1; roles = cashier ∷ []; is_active = true }

abbrev tellers : Accounts
tellers = record accounts { shop_users = teller ∷ [] }

abbrev matches : ℕ → ℕ → Bool
matches password stored = shifted password == stored

known : validate_credentials matches 100 199 tellers ≡ some owner
unfolding validate_credentials
known = refl

logged : (login matches shifted 100 199 "10.0.0.1" 60 tellers).0 ≡ ok (logged_in given)
unfolding login login_member enter_directly enter_shop issue_tokens logout_all
    assert_subscription_active validate_credentials
logged = refl

login_scope_example :
    ((has_role super_admin (cashier ∷ []) ≡ true) × (given.access_token.shop_id ≡ none))
    ⊎ ((su : ShopUser) × (teller ∷ [] ≡ su ∷ [])
        × (is_cashier_only (su ∷ []) ≡ true)
        × (given.access_token.shop_id ≡ some su.shop_id))
login_scope_example =
    login_scope matches shifted 100 199 60 "10.0.0.1" owner given tellers known logged
