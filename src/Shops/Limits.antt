-- ===== src/Shops/Limits.antt =====
-- Seats, shop limits, memberships and subscriptions.
use salepoint_backend.Prelude.{
  ℕ, ◌+◌, ◌≤◌, ==→eq, ==_refl, ◌==◌, ◌≡◌, refl, sym, ◌∙◌, subst, Bool, true, false, ◌&&◌,
  if◌then◌else◌, Option, none, some, List, [], ◌∷◌, map, arith, inl, inr, Bool-cases, Option-cases,
  find_first, count_by, All,
}
use salepoint_backend.Prelude.Table.{
  find_by_id, IsBelow, IsBelow-mono, save-IsBelow, find_by_id-IsBelow, save,
}
use salepoint_backend.Exec.{ok}
use salepoint_backend.Accounts.{
  UserRole, cashier, shop_owner, has_role, User, Shop, ShopUser, Accounts, shop_of, user_of,
  member_of, is_member, shop_user_key,
}
use salepoint_backend.Shops.{
  AssignUserToShopDto, CreateShopDto, assign_user, enroll, or_new_user, no_seat, reaches,
  is_cashier_of, create_for_owner, create, is_owner, no_shops, expire, expire_subscriptions, is_due,
}

expire_current : (now : ℕ) (s : Shop) → is_due now (expire now s) ≡ false
unfolding expire
expire_current now s = elim (Bool-cases (is_due now s)) [
  | inl due ↦ rw due (ground arith)
  | inr running ↦ rw running running
]

expire-All :
    (now : ℕ) (shops : List Shop) → All (λ s. is_due now s ≡ false) (map (expire now) shops)
expire-All now [] = tt
expire-All now (s ∷ shops) = (expire_current now s, expire-All now shops)

-- The memberships of a shop with a limit: their keys are below the next one, a user is in the shop once at most, and the cashiers are within the limit.
pub record IsWithin (i limit : ℕ) (a : Accounts) : Type 0 where
  pub below : IsBelow shop_user_key a.next_id a.shop_users
  pub once : (user : ℕ) → count_by (is_member i user) a.shop_users ≤ 1
  pub seats : count_by (is_cashier_of i) a.shop_users ≤ limit

count-save_new :
    (p : ShopUser → Bool) (m : ShopUser) (xs : List ShopUser)
    → find_by_id shop_user_key m.id xs ≡ none
    → count_by p (save shop_user_key m xs) ≡ count_by p xs + (if p m then 1 else 0)
count-save_new p m [] e = ground arith
count-save_new p m (x ∷ xs) e = ground (arith, count-save_new p m xs)

count-none : (p : ShopUser → Bool) (xs : List ShopUser) → find_first p xs ≡ none → count_by p xs ≡ 0
count-none p [] e = refl
count-none p (x ∷ xs) e = ground (arith, count-none p xs)

once_more :
    (i u user : ℕ) (m : ShopUser) (a : Accounts)
    → m.shop_id ≡ i
    → m.user_id ≡ u
    → count_by (is_member i user) a.shop_users ≤ 1
    → member_of i u a ≡ none
    → count_by (is_member i user) a.shop_users + (if is_member i user m then 1 else 0) ≤ 1
once_more i u user m a of_shop of_user once free = elim (Bool-cases (is_member i user m)) [
  | inl same ↦
      let who : u ≡ user = sym of_user ∙ ==→eq m.user_id user (ground arith) in
      rw same (omega (arith, count-none (is_member i user) a.shop_users (rw (← who) free)))
  | inr other ↦ rw other (omega (arith, once))
]

enroll-IsWithin :
    (i limit u : ℕ) (roles : List UserRole) (a : Accounts)
    → IsWithin i limit a
    → count_by (is_cashier_of i) a.shop_users + (if has_role cashier roles then 1 else 0) ≤ limit
    → IsWithin i limit (enroll i roles u a).1
unfolding enroll
enroll-IsWithin i limit u roles a h room = elim (Option-cases (member_of i u a)) [
  | inr (m, taken) ↦ rw taken h
  | inl free ↦
      let m : ShopUser = record {
        id = a.next_id;
        shop_id = i;
        user_id = u;
        roles = roles;
        is_active = true;
      } in
      let unseen = find_by_id-IsBelow shop_user_key a.next_id a.shop_users h.below in
      rw free (record {
        below = save-IsBelow shop_user_key (a.next_id + 1) m a.shop_users (omega arith) (
            IsBelow-mono shop_user_key a.next_id (a.next_id + 1) a.shop_users (omega arith)
              h.below);
        once = λ user.
            rw (count-save_new (is_member i user) m a.shop_users unseen)
              (once_more i u user m a refl refl (h.once user) free);
        seats = rw (count-save_new (is_cashier_of i) m a.shop_users unseen) (rw (==_refl i) room);
      })
]

-- A new platform user changes nothing about the members.
or_new_user-IsWithin :
    (i limit hash : ℕ) (dto : AssignUserToShopDto) (o : Option User) (a : Accounts)
    → IsWithin i limit a
    → (u : User) × ((or_new_user dto hash o a).0 ≡ ok u)
      × IsWithin i limit (or_new_user dto hash o a).1
      × ((or_new_user dto hash o a).1.shop_users ≡ a.shop_users)
unfolding or_new_user
or_new_user-IsWithin i limit hash dto (some u) a h = (u, refl, h, refl)
or_new_user-IsWithin i limit hash dto none a h = (
  _,
  refl,
  record {
    below = IsBelow-mono shop_user_key a.next_id (a.next_id + 1) a.shop_users (omega arith) h.below;
    once = h.once;
    seats = h.seats;
  },
  refl,
)

room :
    (b : Bool) (limit count : ℕ)
    → (b && reaches (some limit) count ≡ false)
    → count ≤ limit
    → count + (if b then 1 else 0) ≤ limit
room true limit count free within = ground arith
room false limit count free within = omega arith

-- For a shop with a limit, `assignUser` keeps its cashiers within the limit and each user in the shop once at most, whether it returns or throws.
pub assign_user-IsWithin :
    (i limit : ℕ) (dto : AssignUserToShopDto) (hash : ℕ) (s : Shop) (a : Accounts)
    → shop_of i a ≡ some s
    → s.cashier_limit ≡ some limit
    → IsWithin i limit a
    → IsWithin i limit (assign_user i dto hash a).1
unfolding assign_user
assign_user-IsWithin i limit dto hash s a found limited h =
    rw found (elim (Bool-cases (no_seat dto i s a)) [
      | inl full ↦ rw full h
      | inr free ↦
          let (u, right, kept, same) =
            or_new_user-IsWithin i limit hash dto (find_first (λ u. u.email == dto.email) a.users) a
              h in
          rw free (
            rw right (
              enroll-IsWithin i limit u.id dto.roles _ kept (
                rw same (
                  room (has_role cashier dto.roles) limit (count_by (is_cashier_of i) a.shop_users)
                    (subst
                      (λ o.
                        has_role cashier dto.roles
                          && reaches o (count_by (is_cashier_of i) a.shop_users)
                        ≡ false)
                      limited free)
                    h.seats))))
    ])

-- What an owner may have as shops.
pub record IsOwnerWithin (user limit : ℕ) (a : Accounts) : Type 0 where
  pub owner_below : IsBelow shop_user_key a.next_id a.shop_users
  pub shops : count_by (is_owner user) a.shop_users ≤ limit

-- `createForOwner` keeps the shops of an owner within the owner's limit, whether it returns or throws.
create_for_owner-IsOwnerWithin :
    (i limit : ℕ) (dto : CreateShopDto) (u : User) (a : Accounts)
    → user_of i a ≡ some u
    → u.shop_limit ≡ some limit
    → IsOwnerWithin i limit a
    → IsOwnerWithin i limit (create_for_owner i dto a).1
unfolding create_for_owner create
create_for_owner-IsOwnerWithin i limit dto u a found limited h =
    rw found (elim (Bool-cases (no_shops u.shop_limit)) [
      | inl none_allowed ↦ rw none_allowed h
      | inr allowed ↦
          rw allowed
            (elim (Bool-cases (reaches u.shop_limit (count_by (is_owner i) a.shop_users))) [
              | inl full ↦ rw full h
              | inr free ↦
                  let m : ShopUser = record {
                    id = a.next_id + 1;
                    shop_id = a.next_id;
                    user_id = i;
                    roles = shop_owner ∷ [];
                    is_active = true;
                  } in
                  let below =
                    IsBelow-mono shop_user_key a.next_id (a.next_id + 1) a.shop_users (omega arith)
                      h.owner_below in
                  rw free (record {
                    owner_below =
                        save-IsBelow shop_user_key (a.next_id + 1 + 1) m a.shop_users (omega arith)
                          (IsBelow-mono shop_user_key (a.next_id + 1) (a.next_id + 1 + 1)
                            a.shop_users (omega arith) below);
                    shops =
                        rw
                          (count-save_new (is_owner i) m a.shop_users
                            (find_by_id-IsBelow shop_user_key (a.next_id + 1) a.shop_users below))
                          (rw (==_refl i) (
                            room true limit (count_by (is_owner i) a.shop_users)
                              (subst (λ o. reaches o (count_by (is_owner i) a.shop_users) ≡ false)
                                limited free)
                              h.shops));
                  })
            ])
    ])

-- The daily job leaves no shop that runs on a trial or an active subscription past its date.
expire_subscriptions-AllCurrent :
    (now : ℕ) (a : Accounts) → All (λ s. is_due now s ≡ false) (expire_subscriptions now a).shops
unfolding expire_subscriptions
expire_subscriptions-AllCurrent now a = expire-All now a.shops
