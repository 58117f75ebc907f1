-- ===== src/Users/Token.antt =====
-- The token of an invitation, from its making to its check (InviteUserMerchant and CheckInviteToken
-- in internal/service/users.go).
use paysuper_billing_server.Base.{
  ℕ, ◌+◌, ◌*◌, ◌<◌, ◌≡◌, sym, ap, ◌∙◌, some, List, ◌∷◌, ◌⊎◌, inl, inr, arith, Bool-cases,
  Option-cases,
}
use paysuper_billing_server.Base.Text.{String, str_eq, str_eq_refl}
use paysuper_billing_server.Handler.{next, done, ok, Result-cases}
use paysuper_billing_server.Users.{
  merchant_owner, unsupported_role_type, user_merchant_not_found, empty_company_name,
  user_not_found, user_already_exist, Merchant, role_type_merchant, UserRole, Claims, InviteMail,
  of_merchant, Answer, good, Event, user_added, invite_mailed, Env,
}
use paysuper_billing_server.Users.Invite.{
  InviteRequest, claims_of, read_token, send_invite_email, invite_user_merchant, check_invite_token,
  store_invite, new_role, non_empty, is_taken, bad_data,
}

module _ (env : Env) where
  -- A token is read as the claims it was signed with, until it expires.
  abbrev pub IsSigned : Type 0
  IsSigned =
      (claims : Claims) (token : String) (now : ℕ)
      → env.sign claims ≡ some token
      → now < claims.expire
      → env.parse_token now token ≡ some claims

  -- The mail holds the signed claims of the user.
  abbrev Mails : List Event → UserRole → InviteMail → Type 0
  Mails h role mail =
      (env.sign (claims_of env role_type_merchant role (env.now (user_added of_merchant role ∷ h)))
        ≡ some mail.token)
      × (mail.receiver ≡ role.email)

  store_invite-Mails :
      (role owner : UserRole) (company key : String) (h : List Event) {made : UserRole}
      {mail : InviteMail} {older : List Event}
      → let invite = store_invite env of_merchant role_type_merchant role owner company key h in
        invite.0 ≡ next (good made) → invite.1 ≡ invite_mailed mail ∷ older → Mails h made mail
  unfolding store_invite send_invite_email
  store_invite-Mails role owner company key h p q = ground (arith)

  -- An invitation is refused, or ends with a new user that is stored and mailed.
  Stores : InviteRequest → List Event → Type 0
  Stores req h =
      ((a : Answer UserRole) × ((invite_user_merchant env req h).0 ≡ done a))
      ⊎ (role : UserRole) × (owner : UserRole) × (company : String) × (invite_user_merchant env req
            h
          ≡ store_invite env of_merchant role_type_merchant role owner company req.role h)

  invite_found :
      (req : InviteRequest) (h : List Event) (merchant : Merchant)
      → env.merchant_by_id h req.merchant_id ≡ ok merchant
      → Stores req h
  unfolding Stores invite_user_merchant
  invite_found req h merchant m =
      let owners = env.merchant_owner_of h merchant.id in
      let user = env.merchant_user_by_email h merchant.id req.email in
      elim (Bool-cases (str_eq req.role merchant_owner)) [
        | inl b ↦ inl (bad_data unsupported_role_type, ground (arith))
        | inr b ↦ elim (Option-cases (non_empty merchant.company)) [
          | inl c ↦ inl (bad_data empty_company_name, ground (arith))
          | inr (company, c) ↦ elim (Result-cases owners) [
            | inr (e, o) ↦ inl (bad_data user_not_found, ground (arith))
            | inl (owner, o) ↦ elim (Bool-cases (is_taken user)) [
              | inl t ↦ inl (bad_data user_already_exist, ground (arith))
              | inr t ↦ inr (
                new_role env (env.new_id h) merchant.id req.role req.email,
                owner,
                company,
                ground (arith),
              )
            ]
          ]
        ]
      ]

  invite_user_merchant-Stores : (req : InviteRequest) (h : List Event) → Stores req h
  unfolding Stores invite_user_merchant
  invite_user_merchant-Stores req h = elim (Result-cases (env.merchant_by_id h req.merchant_id)) [
    | inr (e, m) ↦ elim (Bool-cases (str_eq req.role merchant_owner)) [
      | inl b ↦ inl (bad_data unsupported_role_type, ground (arith))
      | inr b ↦ inl (bad_data user_merchant_not_found, ground (arith))
    ]
    | inl (merchant, m) ↦ invite_found req h merchant m
  ]

  invite_user_merchant-Mails :
      (req : InviteRequest) (h : List Event) {role : UserRole} {mail : InviteMail}
      {older : List Event}
      → (invite_user_merchant env req h).0 ≡ next (good role)
      → (invite_user_merchant env req h).1 ≡ invite_mailed mail ∷ older
      → Mails h role mail
  unfolding Stores
  invite_user_merchant-Mails req h p q = elim (invite_user_merchant-Stores req h) [
    | inl (a, e) ↦ ground (arith)
    | inr (role, owner, company, e) ↦
        store_invite-Mails role owner company req.role h (sym (ap (λ x. x.0) e) ∙ p)
          (sym (ap (λ x. x.1) e) ∙ q)
  ]

  -- If a signed token is read as its claims until it expires, the token that is mailed to an
  -- invited user of a merchant is accepted with the address of the mail until then, as one for the
  -- stored user and for a merchant.
  pub invite_user_merchant-check :
      (signed : IsSigned) (req : InviteRequest) (h later : List Event) (user_id : String)
      {role : UserRole} {mail : InviteMail} {older : List Event}
      → (invite_user_merchant env req h).0 ≡ next (good role)
      → (invite_user_merchant env req h).1 ≡ invite_mailed mail ∷ older
      → env.now later < env.now (user_added of_merchant role ∷ h) + 3600 * env.token_timeout
      → (check_invite_token env
          (record { token = mail.token; email = mail.receiver; user_id = user_id })
          later).0
        ≡ next (good (role.id, role_type_merchant))
  unfolding check_invite_token read_token
  invite_user_merchant-check signed req h later user_id {role} {mail} p q t =
      let (token, receiver) = invite_user_merchant-Mails req h p q in
      let claims =
        claims_of env role_type_merchant role (env.now (user_added of_merchant role ∷ h)) in
      ground
        (arith, signed claims mail.token (env.now later) token t, receiver, str_eq_refl role.email)
