-- ===== src/Guards.antt =====
-- common/guards: what the guards let through. The metadata of a route (`Reflector`), the origins of
-- the configuration and the payload that passport found are given.
pub mod Admission
use salepoint_backend.Prelude.{
  ℕ, Bool, true, false, not, ◌&&◌, ◌||◌, Option, none, some, List, [], ◌∷◌, any_by, includes, ◌==◌,
  if◌then◌else◌,
}
use salepoint_backend.Exec.{
  Error, Result, ok, err, token_invalid, no_shop_context, shop_not_found, shop_suspended,
  subscription_expired, wrong_client,
}
use salepoint_backend.Accounts.{
  UserRole, super_admin, has_role, SubscriptionStatus, trial, active, expired, suspended, Accounts,
  shop_of, Shop,
}
use salepoint_backend.Auth.{JwtPayload, TokenType, access, pre_auth}

-- JwtAuthGuard.handleRequest: `throw err ?? …`
unfoldable pub handle_request : Option Error → Option JwtPayload → Result JwtPayload
handle_request (some e) user = err e
handle_request none none = err token_invalid
handle_request none (some user) = elim user.kind [ pre_auth ↦ err token_invalid | access ↦ ok user ]

-- `user?.roles?.includes(role)`
abbrev pub user_has : Option JwtPayload → UserRole → Bool
user_has none role = false
user_has (some user) role = has_role role user.roles

-- RolesGuard.canActivate: no required role lets everyone through.
unfoldable pub roles_guard : List UserRole → Option JwtPayload → Bool
roles_guard [] user = true
roles_guard (role ∷ roles) user = any_by (user_has user) (role ∷ roles)

-- SubscriptionGuard.canActivate, after the query of the shop.
unfoldable pub admit_status : SubscriptionStatus → Result Bool
admit_status suspended = err shop_suspended
admit_status expired = err subscription_expired
admit_status trial = ok true
admit_status active = ok true

abbrev pub admit_shop : Option Shop → Result Bool
admit_shop none = err no_shop_context
admit_shop (some shop) = admit_status shop.subscription_status

-- `user?.shopId`
abbrev pub shop_id_of : Option JwtPayload → Option ℕ
shop_id_of none = none
shop_id_of (some user) = user.shop_id

abbrev pub admit_id : Option ℕ → Accounts → Result Bool
admit_id none a = err no_shop_context
admit_id (some i) a = admit_shop (shop_of i a)

unfoldable pub subscription_guard : Option JwtPayload → Accounts → Result Bool
unfolding admit_status
subscription_guard user a =
    if user_has user super_admin then ok true else admit_id (shop_id_of user) a

pub data ClientType : Type 0 where
  cashier dashboard console any : ClientType

-- `origins.includes(origin) || clientHeader === type`; the origins and headers are numbers, and a
-- header that names no type is `any`.
pub record Client : Type 0 where
  pub origin : ℕ
  pub client_header : ClientType

pub record Origins : Type 0 where
  pub cashier_origins : List ℕ
  pub dashboard_origins : List ℕ
  pub console_origins : List ℕ

abbrev pub is_cashier : Origins → Client → Bool
is_cashier o c =
    includes c.origin o.cashier_origins
    || elim c.client_header [ cashier ↦ true | dashboard ↦ false | console ↦ false | any ↦ false ]

abbrev pub is_dashboard : Origins → Client → Bool
is_dashboard o c =
    includes c.origin o.dashboard_origins
    || elim c.client_header [ cashier ↦ false | dashboard ↦ true | console ↦ false | any ↦ false ]

abbrev pub is_console : Origins → Client → Bool
is_console o c =
    includes c.origin o.console_origins
    || elim c.client_header [ cashier ↦ false | dashboard ↦ false | console ↦ true | any ↦ false ]

abbrev or_wrong : Bool → Result Bool
or_wrong true = ok true
or_wrong false = err wrong_client

-- ClientTypeGuard.canActivate
unfoldable pub client_type_guard : Option ClientType → Origins → Client → Result Bool
client_type_guard none o c = ok true
client_type_guard (some any) o c = ok true
client_type_guard (some cashier) o c = or_wrong (is_cashier o c)
client_type_guard (some dashboard) o c = or_wrong (is_dashboard o c)
client_type_guard (some console) o c = or_wrong (is_console o c)
