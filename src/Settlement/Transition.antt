-- ===== src/Settlement/Transition.antt =====
-- The status of a payout document and its reports (UpdatePayoutDocument in
-- internal/service/payouts.go).
use paysuper_billing_server.Base.{
  ◌≡◌, refl, Bool, true, false, Option, none, some, List, [], ◌∷◌, ◌++◌, ◌&&◌, ◌||◌, ◌⊎◌, inl, inr,
  arith, Bool-cases,
}
use paysuper_billing_server.Base.Text.{String, str_eq}
use paysuper_billing_server.Floats.{Floats}
use paysuper_billing_server.Handler.{next, done, ok}
use paysuper_billing_server.Response.{Status}
use paysuper_billing_server.Settlement.{
  Error, payout_status_change_is_forbidden, payout_require_failure_fields, Payout, Event,
  payout_updated, Env,
}
use paysuper_billing_server.Settlement.Create.{payout_pending}
use paysuper_billing_server.Settlement.Sources.{
  with_paid, with_unset_paid, royalty_report_set_paid, royalty_report_unset_paid,
}
use paysuper_billing_server.Settlement.Update.{
  UpdateRequest, UpdateResponse, update_payout_document, check_status_change, write_change,
  carry_out, refresh_balance, changed, is_changed, is_status_change, becomes_paid, becomes_failed,
  needs_balance_update, answer, payout_failed,
}
use paysuper_billing_server.Settlement.Record.{
  reports_written, payouts_written, balances_written, change_reports-keeps,
  update_merchant_balance-payouts, update_merchant_balance-reports,
}

module _ (fl : Floats) (env : Env fl) where
  royalty_report_set_paid-payouts :
      (ids : List String) (payout_id : String) (h : List (Event fl))
      → payouts_written (royalty_report_set_paid fl env ids payout_id h).1 ≡ payouts_written h
  unfolding royalty_report_set_paid payouts_written
  royalty_report_set_paid-payouts ids payout_id h = ground (
    arith,
    change_reports-keeps fl env payouts_written (λ _ _. refl) (with_paid fl payout_id) ids h,
  )

  pub royalty_report_set_paid-balances :
      (ids : List String) (payout_id : String) (h : List (Event fl))
      → balances_written (royalty_report_set_paid fl env ids payout_id h).1 ≡ balances_written h
  unfolding royalty_report_set_paid balances_written
  royalty_report_set_paid-balances ids payout_id h = ground (
    arith,
    change_reports-keeps fl env balances_written (λ _ _. refl) (with_paid fl payout_id) ids h,
  )

  royalty_report_unset_paid-payouts :
      (ids : List String) (h : List (Event fl))
      → payouts_written (royalty_report_unset_paid fl env ids h).1 ≡ payouts_written h
  unfolding royalty_report_unset_paid payouts_written
  royalty_report_unset_paid-payouts ids h =
      change_reports-keeps fl env payouts_written (λ _ _. refl) (λ _. with_unset_paid fl) ids h

  pub royalty_report_unset_paid-balances :
      (ids : List String) (h : List (Event fl))
      → balances_written (royalty_report_unset_paid fl env ids h).1 ≡ balances_written h
  unfolding royalty_report_unset_paid balances_written
  royalty_report_unset_paid-balances ids h =
      change_reports-keeps fl env balances_written (λ _ _. refl) (λ _. with_unset_paid fl) ids h

  write_change-payouts :
      (req : UpdateRequest) (before pd : Payout fl) (h : List (Event fl))
      → payouts_written (write_change fl env req before pd h).1 ≡ payouts_written h ++ (pd ∷ [])
  unfolding write_change payouts_written
  write_change-payouts req before pd h =
      let h' = payout_updated pd ∷ h in
      ground (
        arith,
        royalty_report_set_paid-payouts pd.source_id pd.id h',
        royalty_report_unset_paid-payouts pd.source_id h',
      )

  refresh_balance-payouts :
      (b : Bool) (merchant_id : String) (h : List (Event fl))
      → payouts_written (refresh_balance fl env b merchant_id h).1 ≡ payouts_written h
  unfolding refresh_balance
  refresh_balance-payouts false merchant_id h = refl
  refresh_balance-payouts true merchant_id h =
      ground (arith, update_merchant_balance-payouts fl env merchant_id h)

  carry_out-payouts :
      (req : UpdateRequest) (before pd : Payout fl) (h : List (Event fl))
      → (payouts_written (carry_out fl env req before pd h).1 ≡ payouts_written h)
        ⊎ (payouts_written (carry_out fl env req before pd h).1 ≡ payouts_written h ++ (pd ∷ []))
  unfolding carry_out
  carry_out-payouts req before pd h =
      let refresh = refresh_balance-payouts (needs_balance_update fl req before) pd.merchant_id in
      ground (
        arith,
        write_change-payouts req before pd h,
        refresh h,
        refresh (write_change fl env req before pd h).1,
      )

  -- A call whose status change is refused does nothing.
  abbrev pub IsAllowed : UpdateRequest → Payout fl → Type 0
  IsAllowed req before =
      (is_status_change fl req before ≡ false) ⊎ (str_eq before.status payout_pending ≡ true)

  pub check_status_change-cases :
      (req : UpdateRequest) (before : Payout fl) (h : List (Event fl))
      → ((check_status_change fl env req before h ≡ (next tt, h)) × IsAllowed req before)
        ⊎ ((r : Option Error × UpdateResponse fl) × (check_status_change fl env req before h
              ≡ (done r, h)))
  unfolding check_status_change
  check_status_change-cases req before h =
      let fields =
        str_eq req.status payout_failed
        && (str_eq req.failure_code "" || str_eq req.failure_message "") in
      elim (Bool-cases (is_status_change fl req before)) [
        | inr e ↦ inl (rw e refl, inl e)
        | inl e ↦ elim (Bool-cases (str_eq before.status payout_pending)) [
          | inr p ↦ inr (
            answer fl Status.bad_data (some payout_status_change_is_forbidden) none,
            rw (e, p) refl,
          )
          | inl p ↦ elim (Bool-cases fields) [
            | inl q ↦ inr (
              answer fl Status.bad_data (some payout_require_failure_fields) none,
              rw (e, p, q) refl,
            )
            | inr q ↦ inl (rw (e, p, q) refl, inr p)
          ]
        ]
      ]

  -- A change of a payout document writes the document at most once, as the request changes it,
  -- and writes it with another status only if its status was pending.
  pub update_payout_document-once :
      (req : UpdateRequest) (h : List (Event fl)) {before : Payout fl}
      → env.payout_by_id h req.payout_document_id ≡ ok before
      → (payouts_written (update_payout_document fl env req h).1 ≡ payouts_written h)
        ⊎ ((payouts_written (update_payout_document fl env req h).1
              ≡ payouts_written h ++ (changed fl req (env.now h) before ∷ []))
            × IsAllowed req before)
  unfolding update_payout_document
  update_payout_document-once req h {before} found = elim (check_status_change-cases req before h) [
    | inr (r, e) ↦ rw (found, e) (inl refl)
    | inl (e, a) ↦ elim (carry_out-payouts req before (changed fl req (env.now h) before) h) [
      | inl w ↦ rw (found, e) (inl w)
      | inr w ↦ rw (found, e) (inr (w, a))
    ]
  ]

  refresh_balance-reports :
      (b : Bool) (merchant_id : String) (h : List (Event fl))
      → reports_written (refresh_balance fl env b merchant_id h).1 ≡ reports_written h
  unfolding refresh_balance
  refresh_balance-reports false merchant_id h = refl
  refresh_balance-reports true merchant_id h =
      ground (arith, update_merchant_balance-reports fl env merchant_id h)

  -- A call that gets to its end has done all its writes.
  pub carry_out-next :
      (req : UpdateRequest) (before pd : Payout fl) (h : List (Event fl))
      {r : Option Error × UpdateResponse fl}
      → is_changed fl req before ≡ true
      → (carry_out fl env req before pd h).0 ≡ next r
      → ((write_change fl env req before pd h).0 ≡ next tt)
        × (reports_written (carry_out fl env req before pd h).1
            ≡ reports_written (write_change fl env req before pd h).1)
  unfolding carry_out
  carry_out-next req before pd h c e = ground (
    arith,
    refresh_balance-reports (needs_balance_update fl req before) pd.merchant_id
        (write_change fl env req before pd h).1,
  )

  pub update_payout_document-next :
      (req : UpdateRequest) (h : List (Event fl)) {before : Payout fl}
      {r : Option Error × UpdateResponse fl}
      → env.payout_by_id h req.payout_document_id ≡ ok before
      → (update_payout_document fl env req h).0 ≡ next r
      → let pd = changed fl req (env.now h) before in
        ((carry_out fl env req before pd h).0 ≡ next r)
        × ((update_payout_document fl env req h).1 ≡ (carry_out fl env req before pd h).1)
  unfolding update_payout_document
  update_payout_document-next req h {before} found e =
      elim (check_status_change-cases req before h) [
        | inr (r, p) ↦ ground (arith, found, p, e)
        | inl (p, a) ↦ ground (arith, found, p, e)
      ]

  pub write_change-paid :
      (req : UpdateRequest) (before pd : Payout fl) (h : List (Event fl))
      → becomes_paid fl req before ≡ true
      → (write_change fl env req before pd h).0 ≡ next tt
      → ((royalty_report_set_paid fl env pd.source_id pd.id (payout_updated pd ∷ h)).0 ≡ next tt)
        × ((write_change fl env req before pd h).1
            ≡ (royalty_report_set_paid fl env pd.source_id pd.id (payout_updated pd ∷ h)).1)
  unfolding write_change
  write_change-paid req before pd h c e = ground (arith)

  pub write_change-unset :
      (req : UpdateRequest) (before pd : Payout fl) (h : List (Event fl))
      → becomes_paid fl req before ≡ false
      → becomes_failed fl req before ≡ true
      → (write_change fl env req before pd h).0 ≡ next tt
      → ((royalty_report_unset_paid fl env pd.source_id (payout_updated pd ∷ h)).0 ≡ next tt)
        × ((write_change fl env req before pd h).1
            ≡ (royalty_report_unset_paid fl env pd.source_id (payout_updated pd ∷ h)).1)
  unfolding write_change
  write_change-unset req before pd h c f e = ground (arith)
