-- ===== src/Users/Listing.antt =====
-- Lists of users, of their merchants and of the roles there are (GetMerchantUsers, GetAdminUsers,
-- GetMerchantsForUser, GetRoleList and GetAdminByUserId in internal/service/users.go).
use paysuper_billing_server.Base.{none, some, List, [], ◌∷◌, if◌then◌else◌}
use paysuper_billing_server.Base.Text.{String, str_eq}
use paysuper_billing_server.Handler.{◌>>=◌, pure, ask, or_return}
use paysuper_billing_server.Response.{Status}
use paysuper_billing_server.Users.{
  merchant_owner, merchant_developer, merchant_accounting, merchant_support, merchant_view_only,
  role_type_merchant, role_type_system, internal_error, user_not_found, Answer, good, bad, UserRole,
  Merchant, Env, Method,
}

-- The roles of a type with their names; another type has no list.
abbrev pub role_list : String → List (String × String)
role_list type_of =
    if str_eq type_of role_type_merchant
    then (merchant_owner, "Owner")
      ∷ (merchant_developer, "Developer")
      ∷ (merchant_accounting, "Accounting")
      ∷ (merchant_support, "Support")
      ∷ (merchant_view_only, "View only")
      ∷ []
    else if str_eq type_of role_type_system
    then ("system_admin", "Admin")
      ∷ ("system_risk_manager", "Risk manager")
      ∷ ("system_financial", "Financial")
      ∷ ("system_support", "Support")
      ∷ ("system_view_only", "View only")
      ∷ []
    else []

pub record MerchantInfo : Type 0 where
  pub id : String
  pub name : String
  pub role : String

module _ (env : Env) where
  abbrev database_error : {R : Type 0} → Answer R
  database_error = bad Status.system_error internal_error

  unfoldable pub get_merchant_users : String → Method (List UserRole) (Answer (List UserRole))
  get_merchant_users merchant_id = do
    found ← ask (λ h. env.users_for_merchant h merchant_id)
    users ← or_return found (λ _. database_error)
    pure (good users)

  unfoldable pub get_admin_users : Method (List UserRole) (Answer (List UserRole))
  get_admin_users = do
    found ← ask env.users_for_admin
    users ← or_return found (λ _. database_error)
    pure (good users)

  -- A merchant without a company goes by its identifier.
  abbrev info_of : UserRole → Merchant → MerchantInfo
  info_of user merchant = record {
    id = user.merchant_id;
    name = elim merchant.company [ none ↦ merchant.id | some name ↦ name ];
    role = user.role;
  }

  unfoldable pub add_merchants : List UserRole → Method (List MerchantInfo) (List MerchantInfo)
  add_merchants [] = pure []
  add_merchants (user ∷ users) = do
    found ← ask (λ h. env.merchant_by_id h user.merchant_id)
    merchant ← or_return found (λ _. database_error)
    rest ← add_merchants users
    pure (info_of user merchant ∷ rest)

  unfoldable pub get_merchants_for_user :
      String → Method (List MerchantInfo) (Answer (List MerchantInfo))
  unfolding add_merchants
  get_merchants_for_user user_id = do
    found ← ask (λ h. env.merchants_for_user h user_id)
    users ← or_return found (λ _. database_error)
    merchants ← add_merchants users
    pure (good merchants)

  unfoldable pub get_admin_by_user_id : String → Method UserRole (Answer UserRole)
  get_admin_by_user_id user_id = do
    found ← ask (λ h. env.admin_user_by_user_id h user_id)
    user ← or_return found (λ _. bad Status.not_found user_not_found)
    pure (good user)
