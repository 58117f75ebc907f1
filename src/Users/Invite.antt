-- ===== src/Users/Invite.antt =====
-- Invitations of users: their making, their sending, their check and their acceptance
-- (InviteUserMerchant, InviteUserAdmin, ResendInviteMerchant, ResendInviteAdmin, AcceptInvite,
-- CheckInviteToken, sendInviteEmail, createInviteToken and parseInviteToken in
-- internal/service/users.go).
use paysuper_billing_server.Base.{
  ℕ, ◌+◌, ◌*◌, Bool, true, false, Option, none, some, List, if◌then◌else◌, not,
}
use paysuper_billing_server.Base.Text.{String, str_eq, is_set}
use paysuper_billing_server.Handler.{
  next, done, Result, err, ◌>>=◌, ◌>>◌, pure, return_with, ask, return_if, or_return,
}
use paysuper_billing_server.Response.{Status}
use paysuper_billing_server.Users.{
  merchant_owner, role_type_merchant, role_type_system, role_name, UserMessage, user_already_exist,
  user_unable_to_add, user_not_found, invite_already_accepted, user_merchant_not_found,
  unable_to_send_invite, user_confirm_email, unable_to_create_token, invalid_token,
  invalid_invite_email, unable_to_add_to_casbin, unsupported_role_type, unable_resend_invite,
  user_profile_not_found, empty_names, empty_company_name, Error, no_documents, Answer, good, bad,
  fault, invited, accepted, is_invited, UserRole, Profile, Claims, Kind, of_merchant, of_system,
  Event, user_added, user_updated, invite_mailed, role_added, email_confirmed, Env, Method, perform,
}

pub record InviteRequest : Type 0 where
  pub merchant_id : String
  pub email : String
  pub role : String

pub record AcceptRequest : Type 0 where
  pub token : String
  pub email : String
  pub user_id : String

abbrev pub some_or_return : {R A : Type 0} → Option A → Answer R → Method R A
some_or_return (some a) r h = (next a, h)
some_or_return none r h = (done r, h)

abbrev pub bad_data : {R : Type 0} → UserMessage → Answer R
bad_data m = bad Status.bad_data m

-- An answer with a user whose absence is wanted.
abbrev pub is_taken : Result Error UserRole → Bool
is_taken (err no_documents) = false
is_taken r = true

-- A text that is missing or empty reads as nothing.
abbrev pub non_empty : Option String → Option String
non_empty none = none
non_empty (some s) = if is_set s then some s else none

module _ (env : Env) where
  -- The claims of an invitation. A role without a merchant is one of the system.
  abbrev pub claims_of : String → UserRole → ℕ → Claims
  claims_of role_type role now = record {
    role_type = some role_type;
    email = some role.email;
    role_id = some role.id;
    expire = now + 3600 * env.token_timeout;
  }

  abbrev role_type_of : UserRole → String
  role_type_of role = if str_eq role.merchant_id "" then role_type_system else role_type_merchant

  abbrev pub create_token : {R : Type 0} → String → UserRole → Method R String
  create_token role_type role = do
    now ← ask env.now
    some_or_return (env.sign (claims_of role_type role now)) (bad_data unable_to_create_token)

  unfoldable pub create_invite_token : {R : Type 0} → UserRole → Method R String
  create_invite_token role = create_token (role_type_of role) role

  -- The name of a role in a mail. Without a role there is no name, and another role has none.
  abbrev name_in_mail : String → Option String
  name_in_mail key = if is_set key then role_name key else some ""

  unfoldable pub send_invite_email :
      {R : Type 0} → String → UserRole → String → String → String → Method R (Unit {0})
  send_invite_email receiver sender company token role_key = do
    name ← some_or_return (name_in_mail role_key) (bad_data unable_to_send_invite)
    sent ← perform env (
        invite_mailed (record {
          receiver = receiver;
          sender = sender.email;
          sender_first_name = sender.first_name;
          sender_last_name = sender.last_name;
          company = company;
          token = token;
          role_name = name;
        }))
    or_return sent (λ _. bad_data unable_to_send_invite)

  abbrev pub new_role : String → String → String → String → UserRole
  new_role id merchant_id role email = record {
    id = id;
    merchant_id = merchant_id;
    role = role;
    status = invited;
    email = email;
    user_id = "";
    first_name = "";
    last_name = "";
  }

  -- A new user is stored and gets a mail with its token.
  unfoldable pub store_invite :
      Kind → String → UserRole → UserRole → String → String → Method UserRole (Answer UserRole)
  unfolding send_invite_email
  store_invite kind role_type role owner company role_key = do
    added ← perform env (user_added kind role)
    or_return added (λ _. bad_data user_unable_to_add)
    token ← create_token role_type role
    send_invite_email role.email owner company token role_key
    pure (good role)

  unfoldable pub invite_user_merchant : InviteRequest → Method UserRole (Answer UserRole)
  unfolding store_invite
  invite_user_merchant req = do
    return_if (str_eq req.role merchant_owner) (bad_data unsupported_role_type)
    found ← ask (λ h. env.merchant_by_id h req.merchant_id)
    merchant ← or_return found (λ _. bad_data user_merchant_not_found)
    company ← some_or_return (non_empty merchant.company) (bad_data empty_company_name)
    owners ← ask (λ h. env.merchant_owner_of h merchant.id)
    owner ← or_return owners (λ _. bad_data user_not_found)
    user ← ask (λ h. env.merchant_user_by_email h merchant.id req.email)
    return_if (is_taken user) (bad_data user_already_exist)
    id ← ask env.new_id
    store_invite of_merchant role_type_merchant (new_role id merchant.id req.role req.email) owner
        company req.role

  abbrev pub default_company_name : String
  default_company_name = "PaySuper"

  unfoldable pub invite_user_admin : InviteRequest → Method UserRole (Answer UserRole)
  unfolding store_invite
  invite_user_admin req = do
    owners ← ask env.system_admin
    owner ← or_return owners (λ _. bad_data user_not_found)
    user ← ask (λ h. env.admin_user_by_email h req.email)
    return_if (is_taken user) (bad_data user_already_exist)
    id ← ask env.new_id
    store_invite of_system role_type_system (new_role id "" req.role req.email) owner
        default_company_name ""

  -- A merchant without a company is a fault, once its user is found.
  unfoldable pub resend_invite_merchant : InviteRequest → Method (Unit {0}) (Answer (Unit {0}))
  unfolding create_invite_token send_invite_email
  resend_invite_merchant req = do
    found ← ask (λ h. env.merchant_by_id h req.merchant_id)
    merchant ← or_return found (λ _. bad_data user_merchant_not_found)
    owners ← ask (λ h. env.merchant_owner_of h merchant.id)
    owner ← or_return owners (λ _. bad_data user_not_found)
    user ← ask (λ h. env.merchant_user_by_email h merchant.id req.email)
    role ← or_return user (λ _. bad_data user_not_found)
    return_if (not (is_invited role.status)) (bad_data unable_resend_invite)
    token ← create_invite_token role
    company ← some_or_return merchant.company fault
    send_invite_email role.email owner company token role.role
    pure (good tt)

  unfoldable pub resend_invite_admin : InviteRequest → Method (Unit {0}) (Answer (Unit {0}))
  unfolding create_invite_token send_invite_email
  resend_invite_admin req = do
    owners ← ask env.system_admin
    owner ← or_return owners (λ _. bad_data user_not_found)
    user ← ask (λ h. env.admin_user_by_email h req.email)
    role ← or_return user (λ _. bad_data user_not_found)
    token ← create_invite_token role
    send_invite_email role.email owner default_company_name token ""
    pure (good tt)

  -- A token with another email is refused, and one without an email is a fault, since the claim is
  -- read for the log.
  abbrev check_email : {R : Type 0} → String → Claims → Method R (Unit {0})
  check_email email claims = elim claims.email [
    | none ↦ return_with fault
    | some e ↦ return_if (not (str_eq e email)) (bad_data invalid_invite_email)
  ]

  unfoldable pub read_token : {R : Type 0} → String → String → Method R Claims
  read_token token email = do
    now ← ask env.now
    claims ← some_or_return (env.parse_token now token) (bad_data invalid_token)
    check_email email claims
    pure claims

  unfoldable pub check_invite_token :
      AcceptRequest → Method (String × String) (Answer (String × String))
  unfolding read_token
  check_invite_token req = do
    claims ← read_token req.token req.email
    role_id ← some_or_return claims.role_id fault
    role_type ← some_or_return claims.role_type fault
    pure (good (role_id, role_type))

  -- The collection of the role of an invitation. Another type, or none, has no users.
  abbrev pub kind_of : Option String → Option Kind
  kind_of none = none
  kind_of (some t) =
      if str_eq t role_type_merchant
      then some of_merchant
      else if str_eq t role_type_system
      then some of_system
      else none

  abbrev pub user_by_id : Kind → List Event → String → Result Error UserRole
  user_by_id of_merchant = env.merchant_user_by_id
  user_by_id of_system = env.admin_user_by_id

  abbrev pub casbin_user_of : Kind → UserRole → String
  casbin_user_of of_merchant user = env.casbin_user user.merchant_id user.user_id
  casbin_user_of of_system user = user.user_id

  abbrev pub names_of : Profile → Option (String × String)
  names_of profile = elim profile.personal [
    | none ↦ none
    | some (first, last) ↦ elim (is_set first) [
      | false ↦ none
      | true ↦ if is_set last then some (first, last) else none
    ]
  ]

  abbrev pub accepted_role : UserRole → String → String × String → UserRole
  accepted_role user user_id (first, last) = record user {
    status = accepted;
    user_id = user_id;
    first_name = first;
    last_name = last;
  }

  -- The user of an invitation that may be accepted, with its collection and the profile.
  unfoldable pub find_invited :
      AcceptRequest → Method UserRole (Kind × (UserRole × (Profile × (String × String))))
  unfolding read_token
  find_invited req = do
    claims ← read_token req.token req.email
    known ← ask (λ h. env.profile_by_user_id h req.user_id)
    profile ← or_return known (λ _. bad_data user_profile_not_found)
    names ← some_or_return (names_of profile) (bad_data empty_names)
    kind ← some_or_return (kind_of claims.role_type) (bad_data user_not_found)
    role_id ← some_or_return claims.role_id fault
    found ← ask (λ h. user_by_id kind h role_id)
    user ← or_return found (λ _. bad_data user_not_found)
    return_if (not (is_invited user.status)) (bad_data invite_already_accepted)
    pure (kind, (user, (profile, names)))

  unfoldable pub store_accepted : Kind → UserRole → Profile → Method UserRole (Answer UserRole)
  store_accepted kind user profile = do
    updated ← perform env (user_updated kind user)
    or_return updated (λ _. bad_data user_unable_to_add)
    added ← perform env (role_added (casbin_user_of kind user) user.role)
    or_return added (λ _. bad_data unable_to_add_to_casbin)
    confirmed ← perform env (email_confirmed profile)
    or_return confirmed (λ _. bad_data user_confirm_email)
    pure (good user)

  unfoldable pub accept_invite : AcceptRequest → Method UserRole (Answer UserRole)
  unfolding find_invited store_accepted
  accept_invite req = do
    (kind, (user, (profile, names))) ← find_invited req
    store_accepted kind (accepted_role user req.user_id names) profile
