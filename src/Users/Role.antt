-- ===== src/Users/Role.antt =====
-- The roles of users: their change, their end and their reading (ChangeRoleForMerchantUser,
-- ChangeRoleForAdminUser, DeleteMerchantUser, DeleteAdminUser, GetMerchantUserRole,
-- GetAdminUserRole and getUserPermissions in internal/service/users.go).
use paysuper_billing_server.Base.{Bool, true, false, List, [], ◌∷◌, if◌then◌else◌, not}
use paysuper_billing_server.Base.Text.{String, str_eq, is_set}
use paysuper_billing_server.Handler.{
  Result, ok, err, Handler, ◌>>=◌, ◌>>◌, pure, ask, return_if, when, or_return,
}
use paysuper_billing_server.Response.{Status}
use paysuper_billing_server.Users.{
  merchant_owner, UserMessage, user_not_found, user_confirm_email, unable_to_save,
  unsupported_role_type, unable_to_delete, unable_to_delete_from_casbin, user_dont_have_role,
  get_implicit_permissions, Error, Answer, good, bad, UserRole, Profile, Kind, of_merchant,
  of_system, Event, user_updated, user_deleted, role_added, roles_deleted, email_truncated, Env,
  Method, perform,
}
use paysuper_billing_server.Users.Invite.{bad_data, casbin_user_of}

pub record RoleRequest : Type 0 where
  pub merchant_id : String
  pub role_id : String
  pub role : String

module _ (env : Env) where
  abbrev system_error : {R : Type 0} → UserMessage → Answer R
  system_error m = bad Status.system_error m

  -- A user of a merchant, which must be the merchant of the request.
  unfoldable pub find_merchant_user : {R : Type 0} → RoleRequest → Method R UserRole
  find_merchant_user req = do
    found ← ask (λ h. env.merchant_user_by_id h req.role_id)
    user ← or_return found (λ _. bad_data user_not_found)
    return_if (not (str_eq user.merchant_id req.merchant_id)) (bad_data user_not_found)
    pure user

  unfoldable pub find_admin_user : {R : Type 0} → RoleRequest → Method R UserRole
  find_admin_user req = do
    found ← ask (λ h. env.admin_user_by_id h req.role_id)
    or_return found (λ _. bad_data user_not_found)

  -- A user that has not accepted its invitation has no roles yet.
  abbrev replace_roles : Kind → UserRole → Method (Unit {0}) (Unit {0})
  replace_roles kind user = when (is_set user.user_id) (do
    deleted ← perform env (roles_deleted (casbin_user_of env kind user))
    or_return deleted (λ _. system_error unable_to_delete_from_casbin)
    added ← perform env (role_added (casbin_user_of env kind user) user.role)
    or_return added (λ _. system_error unable_to_delete_from_casbin))

  unfoldable pub change_role : Kind → UserRole → Method (Unit {0}) (Answer (Unit {0}))
  change_role kind user = do
    updated ← perform env (user_updated kind user)
    or_return updated (λ _. system_error unable_to_save)
    replace_roles kind user
    pure (good tt)

  unfoldable pub change_role_for_merchant_user : RoleRequest → Method (Unit {0}) (Answer (Unit {0}))
  unfolding find_merchant_user change_role
  change_role_for_merchant_user req = do
    return_if (str_eq req.role merchant_owner) (bad_data unsupported_role_type)
    user ← find_merchant_user req
    change_role of_merchant (record user { role = req.role })

  unfoldable pub change_role_for_admin_user : RoleRequest → Method (Unit {0}) (Answer (Unit {0}))
  unfolding find_admin_user change_role
  change_role_for_admin_user req = do
    user ← find_admin_user req
    change_role of_system (record user { role = req.role })

  abbrev drop_roles : Kind → UserRole → Method (Unit {0}) (Unit {0})
  drop_roles kind user = when (is_set user.user_id) (do
    deleted ← perform env (roles_deleted (casbin_user_of env kind user))
    or_return deleted (λ _. bad_data unable_to_delete_from_casbin))

  -- A profile that is not found is left alone.
  abbrev truncate_email : Result Error Profile → Method (Unit {0}) (Unit {0})
  truncate_email (err e) = pure tt
  truncate_email (ok profile) = do
    truncated ← perform env (email_truncated profile)
    or_return truncated (λ _. bad_data user_confirm_email)

  unfoldable pub delete_user : Kind → UserRole → Method (Unit {0}) (Answer (Unit {0}))
  delete_user kind user = do
    deleted ← perform env (user_deleted kind user)
    or_return deleted (λ _. bad_data unable_to_delete)
    drop_roles kind user
    profile ← ask (λ h. env.profile_by_user_id h user.user_id)
    truncate_email profile
    pure (good tt)

  unfoldable pub delete_merchant_user : RoleRequest → Method (Unit {0}) (Answer (Unit {0}))
  unfolding find_merchant_user delete_user
  delete_merchant_user req = do user ← find_merchant_user req; delete_user of_merchant user

  unfoldable pub delete_admin_user : RoleRequest → Method (Unit {0}) (Answer (Unit {0}))
  unfolding find_admin_user delete_user
  delete_admin_user req = do user ← find_admin_user req; delete_user of_system user

  unfoldable pub get_merchant_user_role : RoleRequest → Method UserRole (Answer UserRole)
  unfolding find_merchant_user
  get_merchant_user_role req = do user ← find_merchant_user req; pure (good user)

  unfoldable pub get_admin_user_role : RoleRequest → Method UserRole (Answer UserRole)
  unfolding find_admin_user
  get_admin_user_role req = do user ← find_admin_user req; pure (good user)

  -- The user of casbin, as it is asked for its permissions.
  abbrev permission_user : String → String → String
  permission_user user_id merchant_id =
      if is_set merchant_id then env.casbin_user merchant_id user_id else user_id

  abbrev some_permissions : List (String × String) → Bool
  some_permissions [] = false
  some_permissions (p ∷ ps) = true

  unfoldable pub get_user_permissions :
      String
      → String
      → Handler Event
          (Result UserMessage (List (String × String)))
          (Result UserMessage (List (String × String)))
  get_user_permissions user_id merchant_id = do
    answer ← ask (λ h. env.permissions h (permission_user user_id merchant_id))
    permissions ← or_return answer (λ _. err get_implicit_permissions)
    return_if (not (some_permissions permissions)) (err user_dont_have_role)
    pure (ok permissions)
