-- ===== src/Shops/Editing.antt =====
-- `update`, `updateOwnShop`, `findOwnedShops`, `findOwnedShop` and `listShopUsers` of
-- modules/shops/shops.service.ts. The address, phone, e-mail and logo of a shop are not modelled.
use salepoint_backend.Prelude.{
  ℕ, ◌≡◌, refl, ◌⊎◌, inl, inr, Bool, true, false, not, ◌&&◌, Option, none, some, List, [], ◌∷◌,
  String, ◌==◌, filter_by, if◌then◌else◌, Option-cases, Bool-cases,
}
use salepoint_backend.Exec.{
  Exec, ok, err, pure, gets, or_raise, raise_if, modify, ◌>>=◌, ◌>>◌, shop_not_found, not_owner,
}
use salepoint_backend.Accounts.{
  shop_owner, has_role, SubscriptionStatus, Shop, ShopUser, Accounts, shop_of, member_of, save_shop,
}

pub record UpdateShopDto : Type 0 where
  pub name : Option String
  pub subscription_expires_at : Option ℕ
  pub cashier_limit : Option ℕ
  pub subscription_status : Option SubscriptionStatus

abbrev or_old {ℓ} : {A : Type ℓ} → Option A → A → A
or_old none old = old
or_old (some new) old = new

abbrev or_old_option {ℓ} : {A : Type ℓ} → Option A → Option A → Option A
or_old_option none old = old
or_old_option (some new) old = some new

-- `Object.assign(shop, { ...dto, subscriptionExpiresAt: … })`
unfoldable pub assign : UpdateShopDto → Shop → Shop
assign dto s = record s {
  name = or_old dto.name s.name;
  subscription_expires_at = or_old_option dto.subscription_expires_at s.subscription_expires_at;
  cashier_limit = or_old_option dto.cashier_limit s.cashier_limit;
  subscription_status = or_old dto.subscription_status s.subscription_status;
}

unfoldable pub update : ℕ → UpdateShopDto → Exec Accounts Shop
unfolding assign
update i dto = do
  shop ← or_raise (← gets (shop_of i)) shop_not_found
  modify (save_shop (assign dto shop))
  pure (assign dto shop)

-- `!shopUser || !shopUser.roles.includes(UserRole.SHOP_OWNER)`
abbrev pub owns : Option ShopUser → Bool
owns none = false
owns (some su) = has_role shop_owner su.roles

unfoldable pub find_owned_shop : ℕ → ℕ → Exec Accounts Shop
find_owned_shop shop_id user_id = do
  raise_if (← gets (λ a. not (owns (member_of shop_id user_id a)))) not_owner
  or_raise (← gets (shop_of shop_id)) shop_not_found

-- `UpdateOwnShopDto`, the one field that the model has.
unfoldable pub renamed : Option String → Shop → Shop
renamed name s = record s { name = or_old name s.name }

unfoldable pub update_own_shop : ℕ → ℕ → Option String → Exec Accounts Shop
unfolding find_owned_shop renamed
update_own_shop shop_id user_id name = do
  shop ← find_owned_shop shop_id user_id
  modify (save_shop (renamed name shop))
  pure (renamed name shop)

abbrev add_shop : Option Shop → List Shop → List Shop
add_shop none shops = shops
add_shop (some s) shops = s ∷ shops

owned_among : ℕ → List ShopUser → Accounts → List Shop
owned_among user_id [] a = []
owned_among user_id (su ∷ rest) a =
    let others = owned_among user_id rest a in
    if (su.user_id == user_id) && has_role shop_owner su.roles
    then add_shop (shop_of su.shop_id a) others
    else others

unfoldable pub find_owned_shops : ℕ → Accounts → List Shop
unfolding owned_among
find_owned_shops user_id a = owned_among user_id a.shop_users a

abbrev is_staff_of : ℕ → ShopUser → Bool
is_staff_of shop_id su = (su.shop_id == shop_id) && not (has_role shop_owner su.roles)

unfoldable pub list_shop_users : ℕ → Exec Accounts (List ShopUser)
list_shop_users shop_id = do
  or_raise (← gets (shop_of shop_id)) shop_not_found
  gets (λ a. filter_by (is_staff_of shop_id) a.shop_users)

-- A user who does not own a shop cannot edit it as an owner: the answer is 403 and nothing is written. For an owner, a deleted shop gives 404; otherwise the row of the shop, and no other, is saved with the new name, and with the subscription's state and expiry and the limit of seats as they were.
pub update_own_shop_outcome :
    (shop_id user_id : ℕ) (name : Option String) (a : Accounts)
    → let (r, t) = update_own_shop shop_id user_id name a in
      ((owns (member_of shop_id user_id a) ≡ false) × (r ≡ err not_owner) × (t ≡ a))
      ⊎ ((owns (member_of shop_id user_id a) ≡ true)
          × (shop_of shop_id a ≡ none)
          × (r ≡ err shop_not_found)
          × (t ≡ a))
      ⊎ ((old : Shop) × (owns (member_of shop_id user_id a) ≡ true)
          × (shop_of shop_id a ≡ some old)
          × (r ≡ ok (renamed name old))
          × (t ≡ save_shop (renamed name old) a)
          × ((renamed name old).subscription_status ≡ old.subscription_status)
          × ((renamed name old).subscription_expires_at ≡ old.subscription_expires_at)
          × ((renamed name old).cashier_limit ≡ old.cashier_limit))
unfolding update_own_shop find_owned_shop renamed
update_own_shop_outcome shop_id user_id name a =
    elim (Bool-cases (owns (member_of shop_id user_id a))) [
      | inr stranger ↦ rw stranger (inl (refl, refl, refl))
      | inl owner ↦ rw owner (elim (Option-cases (shop_of shop_id a)) [
        | inl gone ↦ rw gone (inr (inl (refl, refl, refl, refl)))
        | inr (shop, found) ↦ rw found (inr (inr (shop, refl, refl, refl, refl, refl, refl, refl)))
      ])
    ]
