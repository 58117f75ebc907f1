-- ===== src/Onboarding/Accepting.antt =====
-- When a merchant is accepted (SetMerchantAcceptedStatus in internal/service/onboarding.go).
use paysuper_billing_server.Response.{system_error}
use paysuper_billing_server.Base.{
  true, Option, some, List, [], ◌∷◌, ◌≡◌, refl, ap, ◌∙◌, subst, ◌⊎◌, inl, inr, arith, Option-cases,
}
use paysuper_billing_server.Base.Text.{String}
use paysuper_billing_server.Handler.{
  ok, next, go_on-next, go_on-done, go_on-keeps, Step-cases, Result-cases, pure, ◌>>=◌, ◌>>◌, ask,
}
use paysuper_billing_server.Onboarding.{
  MerchantStatus, accepted, op_company_selected, Merchant, Response, answered, Event,
  merchant_written, notification_inserted, notification_published, admin_published,
  signed_mail_sent, agreement_ordered, letter_sent, Env,
}
use paysuper_billing_server.Onboarding.Changes.{
  add_notification, do_to, unknown, with_status, announce_accepted, find_acceptable,
  set_merchant_accepted_status, Call, check_message, refuse_or_raise, refuse_or_panic,
}

abbrev pub merchants_written : List Event → List Merchant
merchants_written [] = []
merchants_written (merchant_written m ∷ h) = m ∷ merchants_written h
merchants_written (notification_inserted s m c ∷ h) = merchants_written h
merchants_written (notification_published s m c ∷ h) = merchants_written h
merchants_written (admin_published ∷ h) = merchants_written h
merchants_written (signed_mail_sent m ∷ h) = merchants_written h
merchants_written (agreement_ordered m ∷ h) = merchants_written h
merchants_written (letter_sent m ∷ h) = merchants_written h

module _ (env : Env) where
  -- A merchant that is found, with a company that was selected and is found, and with a tariff.
  abbrev pub IsAcceptable : String → List Event → Merchant → Type 0
  IsAcceptable id h merchant =
      (env.merchant_by_id h id ≡ some merchant)
      × (merchant.status ≡ op_company_selected)
      × (env.has_active_tariff h merchant.id ≡ true)
      × ((company : String) × (env.company_by_id h merchant.operating_company_id ≡ ok company))

  find_acceptable-quiet : (id : String) (h : List Event) → (find_acceptable env id h).1 ≡ h
  unfolding find_acceptable
  find_acceptable-quiet id h = ground (arith)

  acceptable-facts :
      (id : String) (h : List Event) (m : Merchant) (company : String) {merchant : Merchant}
      → env.merchant_by_id h id ≡ some m
      → env.company_by_id h m.operating_company_id ≡ ok company
      → (find_acceptable env id h).0 ≡ next merchant
      → (m ≡ merchant) × (m.status ≡ op_company_selected) × (env.has_active_tariff h m.id ≡ true)
  unfolding find_acceptable
  acceptable-facts id h m company p r q = ground (arith)

  find_acceptable-IsAcceptable :
      (id : String) (h : List Event) {merchant : Merchant}
      → (find_acceptable env id h).0 ≡ next merchant
      → IsAcceptable id h merchant
  unfolding find_acceptable
  find_acceptable-IsAcceptable id h q = elim (Option-cases (env.merchant_by_id h id)) [
    | inl p ↦ ground (arith)
    | inr (m, p) ↦ elim (Result-cases (env.company_by_id h m.operating_company_id)) [
      | inr (e, r) ↦ ground (arith)
      | inl (company, r) ↦
          let (same, selected, tariff) = acceptable-facts id h m company p r q in
          subst (IsAcceptable id h) same (p, selected, tariff, (company, r))
    ]
  ]

  add_notification-quiet :
      (s : MerchantStatus) (id : String) (c : Option (MerchantStatus × MerchantStatus))
      (h : List Event)
      → merchants_written (add_notification env s id c h).1 ≡ merchants_written h
  unfolding add_notification
  add_notification-quiet s id c h = ground (arith)

  abbrev letters : Merchant → Call (Unit {0})
  letters m =
      do_to env (refuse_or_panic env system_error) (agreement_ordered m)
      >> do_to env (refuse_or_raise env system_error) (letter_sent m)

  letters-quiet :
      (m : Merchant) (h : List Event) → merchants_written (letters m h).1 ≡ merchants_written h
  letters-quiet m h = ground (arith)

  announce_accepted-quiet :
      (m : Merchant) (h : List Event)
      → merchants_written (announce_accepted env m h).1 ≡ merchants_written h
  unfolding announce_accepted
  announce_accepted-quiet m h =
      go_on-keeps merchants_written
        (λ _. add_notification env m.status m.id (some (m.status, accepted)) >> letters m)
        (check_message env m.status h)
        (λ _ k.
          go_on-keeps merchants_written (λ _. letters m)
            (add_notification env m.status m.id (some (m.status, accepted)) k)
            (λ _ j. letters-quiet m j)
          ∙ add_notification-quiet m.status m.id (some (m.status, accepted)) k)
      ∙ ground (arith)

  abbrev announce_and_answer : Merchant → Call Response
  announce_and_answer m = announce_accepted env m >> pure (answered m)

  -- What follows the checks.
  abbrev writing : Merchant → Call Response
  writing m = ask env.now >>= λ now.
      do_to env (unknown env) (merchant_written (with_status env accepted now m))
      >> announce_and_answer (with_status env accepted now m)

  writing-writes :
      (m : Merchant) (h : List Event)
      → merchants_written (writing m h).1
        ≡ with_status env accepted (env.now h) m ∷ merchants_written h
  writing-writes m h =
      go_on-keeps merchants_written (λ _. announce_and_answer new)
        (do_to env (unknown env) (merchant_written new) h)
        (λ _ k.
          go_on-keeps merchants_written (λ _. pure (answered new)) (announce_accepted env new k)
            (λ _ _. refl)
          ∙ announce_accepted-quiet new k)
      ∙ ground (arith)
    where
      new : Merchant
      new = with_status env accepted (env.now h) m

  -- Setting a merchant as accepted does nothing, or writes one merchant, once, with this status at
  -- the time: it was found with a selected company, which is found, and it has an active tariff.
  pub set_merchant_accepted_status-IsAcceptable :
      (id : String) (h : List Event)
      → ((set_merchant_accepted_status env id h).1 ≡ h)
        ⊎ ((merchant : Merchant) × IsAcceptable id h merchant
            × (merchants_written (set_merchant_accepted_status env id h).1
                ≡ with_status env accepted (env.now h) merchant ∷ merchants_written h))
  unfolding set_merchant_accepted_status
  set_merchant_accepted_status-IsAcceptable id h = elim (Step-cases (find_acceptable env id h).0) [
    | inr (r, q) ↦
        inl (go_on-done (λ m. writing m) (find_acceptable env id h) q ∙ find_acceptable-quiet id h)
    | inl (m, q) ↦ inr (
      m,
      find_acceptable-IsAcceptable id h q,
      ap (λ x. merchants_written x.1)
            (go_on-next (λ m. writing m) (find_acceptable env id h) q (find_acceptable-quiet id h))
          ∙ writing-writes m h,
    )
  ]
