-- ===== src/Users/Tests.antt =====
-- The theorems on users at concrete documents.
use paysuper_billing_server.Base.{
  ℕ, ◌≡◌, ap, sym, ◌∙◌, ◌&&◌, ◌==◌, refl, Bool, true, false, Option, none, some, [], ◌∷◌, ◌⊎◌,
  arith, if◌then◌else◌, Bool-cases, inl, inr,
}
use paysuper_billing_server.Base.Text.{String, str_eq, str_eq_sound}
use paysuper_billing_server.Handler.{next, ok, err}
use paysuper_billing_server.Users.{
  merchant_owner, merchant_developer, role_type_merchant, no_documents, good, invited, UserRole,
  InviteMail, invite_mailed, Profile, Claims, of_merchant, user_added, user_updated, role_added,
  email_confirmed, Env,
}
use paysuper_billing_server.Users.Invite.{
  AcceptRequest, read_token, find_invited, store_accepted, accept_invite, accepted_role,
  casbin_user_of, send_invite_email, store_invite, invite_user_merchant, check_invite_token,
}
use paysuper_billing_server.Users.Owner.{
  owners_written, call_accept, after, AcceptsOwner, after-owners,
}
use paysuper_billing_server.Users.Accepted.{Found, IsInvited, accept_invite-accepts}
use paysuper_billing_server.Users.Token.{IsSigned, invite_user_merchant-check}

abbrev owner : UserRole
owner = record {
  id = "r";
  merchant_id = "m";
  role = merchant_owner;
  status = invited;
  email = "a@b";
  user_id = "";
  first_name = "";
  last_name = "";
}

abbrev profile : Profile
profile = record { user_id = "u"; personal = some ("Ada", "Byron") }

abbrev claims : Claims
claims = record {
  role_type = some role_type_merchant;
  email = some "a@b";
  role_id = some "r";
  expire = 3609;
}

abbrev is_text : String → Option String → Bool
is_text s none = false
is_text s (some t) = str_eq t s

is_text_sound : (s : String) (o : Option String) → is_text s o ≡ true → o ≡ some s
is_text_sound s none e = ground (arith)
is_text_sound s (some t) e = ap (λ x. some x) (str_eq_sound t s e)

-- One token is signed, for these claims only.
abbrev is_signed : Claims → Bool
is_signed c =
    is_text role_type_merchant c.role_type
    && (is_text "a@b" c.email && (is_text "r" c.role_id && c.expire == 3609))

abbrev sign : Claims → Option String
sign c = if is_signed c then some "token" else none

abbrev parse : ℕ → String → Option Claims
parse now token = if str_eq token "token" then some claims else none

sign_sound : (c : Claims) → is_signed c ≡ true → c ≡ claims
sign_sound c e = ground (
  arith,
  is_text_sound role_type_merchant c.role_type,
  is_text_sound "a@b" c.email,
  is_text_sound "r" c.role_id,
)

abbrev env : Env
env = record {
  now = λ h. 9;
  new_id = λ h. "r";
  token_timeout = 1;
  sign = sign;
  parse_token = parse;
  casbin_user = λ m u. u;
  merchant_by_id = λ h id. ok (record { id = "m"; company = some "Shop" });
  merchant_owner_of = λ h m. ok owner;
  system_admin = λ h. ok owner;
  merchant_user_by_email = λ h m e. err no_documents;
  admin_user_by_email = λ h e. err no_documents;
  merchant_user_by_id = λ h id. ok owner;
  admin_user_by_id = λ h id. ok owner;
  profile_by_user_id = λ h id. ok profile;
  admin_user_by_user_id = λ h id. ok owner;
  users_for_merchant = λ h m. ok [];
  users_for_admin = λ h. ok [];
  merchants_for_user = λ h u. ok [];
  permissions = λ h u. ok [];
  outcome = λ h. ok tt;
}

abbrev acceptance : AcceptRequest
acceptance = record { token = "token"; email = "a@b"; user_id = "u" }

after-owners_example :
    (owners_written (after env (call_accept acceptance) []) ≡ owners_written [])
    ⊎ (req : AcceptRequest) × (call_accept acceptance ≡ call_accept req)
      × AcceptsOwner env req [] (after env (call_accept acceptance) [])
after-owners_example = after-owners env (call_accept acceptance) []

abbrev accepted_owner : UserRole
accepted_owner = accepted_role env owner "u" ("Ada", "Byron")

accept_invite-accepts_example :
    (f : Found env) × IsInvited env acceptance [] f
    × (accepted_owner ≡ accepted_role env f.1.0 "u" f.1.1.1)
    × ((accept_invite env acceptance []).1
        ≡ email_confirmed f.1.1.0
          ∷ role_added (casbin_user_of env f.0 accepted_owner) accepted_owner.role
          ∷ user_updated f.0 accepted_owner
          ∷ [])
unfolding accept_invite find_invited read_token store_accepted
accept_invite-accepts_example = accept_invite-accepts env acceptance [] refl

env-IsSigned : IsSigned env
env-IsSigned c token now e t = elim (Bool-cases (is_signed c)) [
  | inl b ↦
      let same : token ≡ "token" = ground (arith) in
      ap (λ x. parse now x) same ∙ ap (λ x. some x) (sym (sign_sound c b))
  | inr b ↦ ground (arith)
]

abbrev developer : UserRole
developer = record owner { role = merchant_developer }

abbrev mail : InviteMail
mail = record {
  receiver = "a@b";
  sender = "a@b";
  sender_first_name = "";
  sender_last_name = "";
  company = "Shop";
  token = "token";
  role_name = "Developer";
}

invite_user_merchant-check_example :
    (check_invite_token env
      (record { token = "token"; email = "a@b"; user_id = "u" })
      (invite_mailed mail ∷ [])).0
    ≡ next (good ("r", role_type_merchant))
unfolding invite_user_merchant store_invite send_invite_email
invite_user_merchant-check_example =
    invite_user_merchant-check env env-IsSigned
      (record { merchant_id = "m"; email = "a@b"; role = merchant_developer }) []
      (invite_mailed mail ∷ []) "u" {role = developer} {mail = mail}
      {older = user_added of_merchant developer ∷ []} refl refl (omega arith)
