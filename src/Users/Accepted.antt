-- ===== src/Users/Accepted.antt =====
-- What the acceptance of an invitation asks for and does (AcceptInvite in
-- internal/service/users.go).
use paysuper_billing_server.Base.{◌≡◌, true, some, List, ◌∷◌, inl, inr, arith, Option-cases}
use paysuper_billing_server.Base.Text.{String, str_eq}
use paysuper_billing_server.Handler.{next, done, ok, go_on-next, Step-cases}
use paysuper_billing_server.Users.{
  UserRole, Profile, Claims, Kind, is_invited, Answer, good, Event, user_updated, role_added,
  email_confirmed, Env,
}
use paysuper_billing_server.Users.Invite.{
  AcceptRequest, kind_of, names_of, read_token, find_invited, store_accepted, accept_invite,
  accepted_role, user_by_id, casbin_user_of,
}

module _ (env : Env) where
  -- What is found for an acceptance.
  abbrev pub Found : Type 0
  Found = Kind × (UserRole × (Profile × (String × String)))

  -- The token is good at the time, is for the email, and names a user that is still invited; the
  -- profile of the one who accepts has names.
  pub record IsInvited (req : AcceptRequest) (h : List Event) (f : Found) : Type 0 where
    pub claims : Claims
    pub parsed : env.parse_token (env.now h) req.token ≡ some claims
    pub email : String
    pub claimed : claims.email ≡ some email
    pub same : str_eq email req.email ≡ true
    pub kind : kind_of env claims.role_type ≡ some f.0
    pub id : String
    pub named : claims.role_id ≡ some id
    pub stored : user_by_id env f.0 h id ≡ ok f.1.0
    pub waiting : is_invited f.1.0.status ≡ true
    pub profile : env.profile_by_user_id h req.user_id ≡ ok f.1.1.0
    pub names : names_of env f.1.1.0 ≡ some f.1.1.1

  read_token-keeps :
      (token email : String) (h : List Event) → (read_token env {R = UserRole} token email h).1 ≡ h
  unfolding read_token
  read_token-keeps token email h = ground (arith)

  read_token-next :
      (token email : String) (h : List Event) {claims : Claims}
      → (read_token env {R = UserRole} token email h).0 ≡ next claims
      → (env.parse_token (env.now h) token ≡ some claims)
        × (e : String) × (claims.email ≡ some e)
        × (str_eq e email ≡ true)
  unfolding read_token
  read_token-next token email h {claims} p = elim (Option-cases claims.email) [
    | inl e ↦ ground (arith)
    | inr (e, q) ↦ (ground (arith), e, q, ground (arith))
  ]

  find_invited-keeps : (req : AcceptRequest) (h : List Event) → (find_invited env req h).1 ≡ h
  unfolding find_invited
  find_invited-keeps req h = ground (arith, read_token-keeps req.token req.email h)

  pub find_invited-next :
      (req : AcceptRequest) (h : List Event) {f : Found}
      → (find_invited env req h).0 ≡ next f
      → IsInvited req h f
  unfolding find_invited
  find_invited-next req h {f} p =
      let t = read_token env {R = UserRole} req.token req.email h in
      elim (Step-cases t.0) [
        | inr (a, q) ↦ ground (arith)
        | inl (claims, q) ↦
            let (parsed, email, claimed, same) = read_token-next req.token req.email h q in
            elim (Option-cases claims.role_id) [
              | inl r ↦ ground (arith)
              | inr (id, r) ↦ record {
                claims = claims;
                parsed = parsed;
                email = email;
                claimed = claimed;
                same = same;
                kind = ground (arith, read_token-keeps req.token req.email h);
                id = id;
                named = r;
                stored = ground (arith, read_token-keeps req.token req.email h);
                waiting = ground (arith, read_token-keeps req.token req.email h);
                profile = ground (arith, read_token-keeps req.token req.email h);
                names = ground (arith, read_token-keeps req.token req.email h);
              }
            ]
      ]

  pub accept_invite-unfound :
      (req : AcceptRequest) (h : List Event) {a : Answer UserRole}
      → (find_invited env req h).0 ≡ done a
      → accept_invite env req h ≡ (done a, h)
  unfolding accept_invite
  accept_invite-unfound req h p = ground (arith, find_invited-keeps req h)

  pub accept_invite-found :
      (req : AcceptRequest) (h : List Event) {f : Found}
      → (find_invited env req h).0 ≡ next f
      → let user = accepted_role env f.1.0 req.user_id f.1.1.1 in
        accept_invite env req h ≡ store_accepted env f.0 user f.1.1.0 h
  unfolding accept_invite
  accept_invite-found req h p = go_on-next _ (find_invited env req h) p (find_invited-keeps req h)

  -- An invitation that is accepted had a token that is good at the time, for the address of the
  -- request and for a stored user that was still invited; exactly this user is written as accepted
  -- with the names of the profile, gets its stored role in casbin, and has the address of the
  -- profile confirmed, in this order.
  pub accept_invite-accepts :
      (req : AcceptRequest) (h : List Event) {user : UserRole}
      → (accept_invite env req h).0 ≡ next (good user)
      → (f : Found) × IsInvited req h f
        × (user ≡ accepted_role env f.1.0 req.user_id f.1.1.1)
        × ((accept_invite env req h).1
            ≡ email_confirmed f.1.1.0
              ∷ role_added (casbin_user_of env f.0 user) user.role
              ∷ user_updated f.0 user
              ∷ h)
  unfolding store_accepted
  accept_invite-accepts req h p = elim (Step-cases (find_invited env req h).0) [
    | inr (a, q) ↦ ground (arith, accept_invite-unfound req h q)
    | inl (f, q) ↦ (
      f,
      find_invited-next req h q,
      ground (arith, accept_invite-found req h q),
      ground (arith, accept_invite-found req h q),
    )
  ]
