-- ===== src/Users.antt =====
-- Users, their roles and their invitations: the documents and what is outside. The children hold
-- the methods (internal/service/users.go).
pub mod Invite
pub mod Role
pub mod Listing
pub mod Owner
pub mod Accepted
pub mod Token
mod Tests
use paysuper_billing_server.Base.{
  ℕ, Bool, true, false, Option, none, some, List, [], ◌∷◌, if◌then◌else◌,
}
use paysuper_billing_server.Base.Text.{String, str_eq}
use paysuper_billing_server.Handler.{next, done, Result, Handler}
use paysuper_billing_server.Response.{Status}

-- The roles and the types of roles. They stand for the constants of the protocol package, which are
-- different texts; nothing else about them is used.
abbrev pub merchant_owner : String
merchant_owner = "merchant_owner"

abbrev pub merchant_developer : String
merchant_developer = "merchant_developer"

abbrev pub merchant_accounting : String
merchant_accounting = "merchant_accounting"

abbrev pub merchant_support : String
merchant_support = "merchant_support"

abbrev pub merchant_view_only : String
merchant_view_only = "merchant_view_only"

abbrev pub role_type_merchant : String
role_type_merchant = "merchant"

abbrev pub role_type_system : String
role_type_system = "system"

-- The names of the roles of a merchant's users (`merchantUserRolesNames`).
abbrev pub role_name : String → Option String
role_name key =
    if str_eq key merchant_owner
    then some "Owner"
    else if str_eq key merchant_developer
    then some "Developer"
    else if str_eq key merchant_accounting
    then some "Accounting"
    else if str_eq key merchant_support
    then some "Support"
    else if str_eq key merchant_view_only
    then some "View only"
    else none

-- `errorUser…` and `usersDbInternalError`
pub data UserMessage : Type 0 where
  internal_error user_already_exist user_unable_to_add user_not_found invite_already_accepted :
      UserMessage
  user_merchant_not_found unable_to_send_invite user_confirm_email unable_to_create_token :
      UserMessage
  invalid_token invalid_invite_email unable_to_save unable_to_add_to_casbin : UserMessage
  unsupported_role_type unable_to_delete unable_to_delete_from_casbin user_dont_have_role :
      UserMessage
  unable_resend_invite get_implicit_permissions user_profile_not_found empty_names : UserMessage
  empty_company_name : UserMessage

-- A Go error: no such document, or any other.
pub data Error : Type 0 where
  no_documents other_error : Error

-- An answer of a method: good with its items, a status with a message, or a fault that cuts it off.
pub data Answer (A : Type 0) : Type 0 where
  good : A → Answer A
  bad : Status → UserMessage → Answer A
  fault : Answer A

pub data UserStatus : Type 0 where
  invited accepted : UserStatus

abbrev pub is_invited : UserStatus → Bool
is_invited invited = true
is_invited accepted = false

pub record UserRole : Type 0 where
  pub id : String
  pub merchant_id : String
  pub role : String
  pub status : UserStatus
  pub email : String
  pub user_id : String
  pub first_name : String
  pub last_name : String

-- A merchant, with the name of its company if it has one.
pub record Merchant : Type 0 where
  pub id : String
  pub company : Option String

-- A profile, with the first and the last name if it has personal data.
pub record Profile : Type 0 where
  pub user_id : String
  pub personal : Option (String × String)

-- The claims of a token. A claim that the token does not have is `none`.
pub record Claims : Type 0 where
  pub role_type : Option String
  pub email : Option String
  pub role_id : Option String
  pub expire : ℕ

pub record InviteMail : Type 0 where
  pub receiver : String
  pub sender : String
  pub sender_first_name : String
  pub sender_last_name : String
  pub company : String
  pub token : String
  pub role_name : String

-- The collections of users: those of merchants, and those of the system.
pub data Kind : Type 0 where
  of_merchant of_system : Kind

-- What the methods do to the outside. An event is the call; whether it succeeds is answered by the
-- environment.
pub data Event : Type 0 where
  user_added user_updated user_deleted : Kind → UserRole → Event
  invite_mailed : InviteMail → Event
  -- the calls of casbin: a role is given to a user, or all are taken
  role_added : String → String → Event
  roles_deleted : String → Event
  email_confirmed email_truncated : Profile → Event

-- The repositories, the clock, the tokens and the other services. Each answer may depend on all
-- that was done before.
pub record Env : Type 0 where
  pub now : List Event → ℕ
  pub new_id : List Event → String
  -- how long an invitation is good for
  pub token_timeout : ℕ
  -- `SignedString`, and `jwt.Parse` at a time, with the secret of the configuration
  pub sign : Claims → Option String
  pub parse_token : ℕ → String → Option Claims
  -- the user of casbin for a user of a merchant
  pub casbin_user : String → String → String
  pub merchant_by_id : List Event → String → Result Error Merchant
  pub merchant_owner_of : List Event → String → Result Error UserRole
  pub system_admin : List Event → Result Error UserRole
  pub merchant_user_by_email : List Event → String → String → Result Error UserRole
  pub admin_user_by_email : List Event → String → Result Error UserRole
  pub merchant_user_by_id : List Event → String → Result Error UserRole
  pub admin_user_by_id : List Event → String → Result Error UserRole
  pub profile_by_user_id : List Event → String → Result Error Profile
  pub admin_user_by_user_id : List Event → String → Result Error UserRole
  pub users_for_merchant : List Event → String → Result Error (List UserRole)
  pub users_for_admin : List Event → Result Error (List UserRole)
  pub merchants_for_user : List Event → String → Result Error (List UserRole)
  pub permissions : List Event → String → Result Error (List (String × String))
  -- the outcome of an event, when it is the newest of the history
  pub outcome : List Event → Result Error (Unit {0})

abbrev pub Method : Type 0 → Type 0 → Type 0
Method R A = Handler Event (Answer R) A

-- An event and its outcome.
abbrev pub perform : {R : Type 0} → Env → Event → Handler Event R (Result Error (Unit {0}))
perform env e h = (next (env.outcome (e ∷ h)), e ∷ h)
