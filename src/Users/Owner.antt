-- ===== src/Users/Owner.antt =====
-- Who becomes an owner of a merchant (internal/service/users.go).
use paysuper_billing_server.Base.{
  ◌≡◌, refl, ap, ◌∙◌, true, List, [], ◌∷◌, ◌⊎◌, inl, inr, arith, Bool-cases, if◌then◌else◌,
}
use paysuper_billing_server.Base.Text.{str_eq}
use paysuper_billing_server.Handler.{Step-cases}
use paysuper_billing_server.Users.{
  merchant_owner, Profile, UserRole, Kind, of_merchant, of_system, Event, user_added, user_updated,
  Env,
}
use paysuper_billing_server.Users.Invite.{
  InviteRequest, AcceptRequest, send_invite_email, store_invite, create_invite_token,
  invite_user_merchant, invite_user_admin, resend_invite_merchant, resend_invite_admin,
  find_invited, store_accepted, accept_invite, accepted_role,
}
use paysuper_billing_server.Users.Accepted.{
  Found, IsInvited, find_invited-next, accept_invite-found, accept_invite-unfound,
}
use paysuper_billing_server.Users.Role.{
  RoleRequest, find_merchant_user, find_admin_user, change_role, change_role_for_merchant_user,
  change_role_for_admin_user, delete_user, delete_merchant_user, delete_admin_user,
}

-- The users of merchants that a history has written as owners, the newest first.
unfoldable pub owners_written : List Event → List UserRole
owners_written [] = []
owners_written (user_added of_merchant user ∷ h) =
    if str_eq user.role merchant_owner then user ∷ owners_written h else owners_written h
owners_written (user_updated of_merchant user ∷ h) =
    if str_eq user.role merchant_owner then user ∷ owners_written h else owners_written h
owners_written (_ ∷ h) = owners_written h

-- The calls that change users.
pub data Call : Type 0 where
  call_invite_merchant call_invite_admin : InviteRequest → Call
  call_resend_merchant call_resend_admin : InviteRequest → Call
  call_accept : AcceptRequest → Call
  call_change_merchant call_change_admin : RoleRequest → Call
  call_delete_merchant call_delete_admin : RoleRequest → Call

module _ (env : Env) where
  -- The history after a call.
  unfoldable pub after : Call → List Event → List Event
  unfolding invite_user_merchant invite_user_admin resend_invite_merchant resend_invite_admin
      accept_invite change_role_for_merchant_user change_role_for_admin_user delete_merchant_user
      delete_admin_user
  after (call_invite_merchant req) h = (invite_user_merchant env req h).1
  after (call_invite_admin req) h = (invite_user_admin env req h).1
  after (call_resend_merchant req) h = (resend_invite_merchant env req h).1
  after (call_resend_admin req) h = (resend_invite_admin env req h).1
  after (call_accept req) h = (accept_invite env req h).1
  after (call_change_merchant req) h = (change_role_for_merchant_user env req h).1
  after (call_change_admin req) h = (change_role_for_admin_user env req h).1
  after (call_delete_merchant req) h = (delete_merchant_user env req h).1
  after (call_delete_admin req) h = (delete_admin_user env req h).1

  invite_user_merchant-owners :
      (req : InviteRequest) (h : List Event)
      → owners_written (invite_user_merchant env req h).1 ≡ owners_written h
  unfolding invite_user_merchant store_invite send_invite_email owners_written
  invite_user_merchant-owners req h = ground (arith)

  invite_user_admin-owners :
      (req : InviteRequest) (h : List Event)
      → owners_written (invite_user_admin env req h).1 ≡ owners_written h
  unfolding invite_user_admin store_invite send_invite_email owners_written
  invite_user_admin-owners req h = ground (arith)

  resend_invite_merchant-owners :
      (req : InviteRequest) (h : List Event)
      → owners_written (resend_invite_merchant env req h).1 ≡ owners_written h
  unfolding resend_invite_merchant create_invite_token send_invite_email owners_written
  resend_invite_merchant-owners req h = ground (arith)

  resend_invite_admin-owners :
      (req : InviteRequest) (h : List Event)
      → owners_written (resend_invite_admin env req h).1 ≡ owners_written h
  unfolding resend_invite_admin create_invite_token send_invite_email owners_written
  resend_invite_admin-owners req h = ground (arith)

  change_role_for_merchant_user-owners :
      (req : RoleRequest) (h : List Event)
      → owners_written (change_role_for_merchant_user env req h).1 ≡ owners_written h
  unfolding change_role_for_merchant_user find_merchant_user change_role owners_written
  change_role_for_merchant_user-owners req h = ground (arith)

  change_role_for_admin_user-owners :
      (req : RoleRequest) (h : List Event)
      → owners_written (change_role_for_admin_user env req h).1 ≡ owners_written h
  unfolding change_role_for_admin_user find_admin_user change_role owners_written
  change_role_for_admin_user-owners req h = ground (arith)

  delete_merchant_user-owners :
      (req : RoleRequest) (h : List Event)
      → owners_written (delete_merchant_user env req h).1 ≡ owners_written h
  unfolding delete_merchant_user find_merchant_user delete_user owners_written
  delete_merchant_user-owners req h = ground (arith)

  delete_admin_user-owners :
      (req : RoleRequest) (h : List Event)
      → owners_written (delete_admin_user env req h).1 ≡ owners_written h
  unfolding delete_admin_user find_admin_user delete_user owners_written
  delete_admin_user-owners req h = ground (arith)

  store_accepted-owners :
      (kind : Kind) (user : UserRole) (profile : Profile) (h : List Event)
      → (owners_written (store_accepted env kind user profile h).1 ≡ owners_written h)
        ⊎ (kind ≡ of_merchant)
          × (str_eq user.role merchant_owner ≡ true)
          × (owners_written (store_accepted env kind user profile h).1 ≡ user ∷ owners_written h)
  unfolding store_accepted owners_written
  store_accepted-owners of_system user profile h = inl (ground (arith))
  store_accepted-owners of_merchant user profile h =
      elim (Bool-cases (str_eq user.role merchant_owner)) [
        | inl b ↦ inr (refl, b, ground (arith))
        | inr b ↦ inl (ground (arith))
      ]

  -- An invited owner is written as accepted.
  abbrev pub AcceptsOwner : AcceptRequest → List Event → List Event → Type 0
  AcceptsOwner req h h' =
      (f : Found env) × IsInvited env req h f
      × (f.0 ≡ of_merchant)
      × (str_eq f.1.0.role merchant_owner ≡ true)
      × (owners_written h' ≡ accepted_role env f.1.0 req.user_id f.1.1.1 ∷ owners_written h)

  accept_invite-owners :
      (req : AcceptRequest) (h : List Event)
      → (owners_written (accept_invite env req h).1 ≡ owners_written h)
        ⊎ AcceptsOwner req h (accept_invite env req h).1
  accept_invite-owners req h = elim (Step-cases (find_invited env req h).0) [
    | inr (a, q) ↦ inl (ap (λ x. owners_written x.1) (accept_invite-unfound env req h q))
    | inl (f, q) ↦
        let user = accepted_role env f.1.0 req.user_id f.1.1.1 in
        let found = ap (λ x. owners_written x.1) (accept_invite-found env req h q) in
        elim (store_accepted-owners f.0 user f.1.1.0 h) [
          | inl e ↦ inl (found ∙ e)
          | inr (k, b, e) ↦ inr (f, find_invited-next env req h q, k, b, found ∙ e)
        ]
  ]

  -- A call that invites, accepts, changes or deletes a user writes no user of a merchant as its
  -- owner, unless it accepts an invitation of a user that is stored as the owner; then it writes
  -- this user once, as accepted.
  pub after-owners :
      (call : Call) (h : List Event)
      → (owners_written (after call h) ≡ owners_written h)
        ⊎ (req : AcceptRequest) × (call ≡ call_accept req) × AcceptsOwner req h (after call h)
  unfolding after
  after-owners (call_invite_merchant req) h = inl (invite_user_merchant-owners req h)
  after-owners (call_invite_admin req) h = inl (invite_user_admin-owners req h)
  after-owners (call_resend_merchant req) h = inl (resend_invite_merchant-owners req h)
  after-owners (call_resend_admin req) h = inl (resend_invite_admin-owners req h)
  after-owners (call_accept req) h = elim (accept_invite-owners req h) [
    | inl e ↦ inl e
    | inr a ↦ inr (req, refl, a)
  ]
  after-owners (call_change_merchant req) h = inl (change_role_for_merchant_user-owners req h)
  after-owners (call_change_admin req) h = inl (change_role_for_admin_user-owners req h)
  after-owners (call_delete_merchant req) h = inl (delete_merchant_user-owners req h)
  after-owners (call_delete_admin req) h = inl (delete_admin_user-owners req h)
