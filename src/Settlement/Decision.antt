-- ===== src/Settlement/Decision.antt =====
-- What the decisions on royalty reports change (GetRoyaltyReport, MerchantReviewRoyaltyReport and
-- AutoAcceptRoyaltyReports in internal/service/royalty_report.go).
use mathlib.Core.List.{append-nil, append_assoc}
use paysuper_billing_server.Base.{
  ◌≡◌, refl, ◌⊎◌, inl, inr, arith, ◌++◌, ◌∙◌, sym, ap, map, Bool, true, false, some, List, [], ◌∷◌,
}
use paysuper_billing_server.Base.Text.{String, str_eq, is_set}
use paysuper_billing_server.Floats.{Floats}
use paysuper_billing_server.Handler.{next, ok, run, Result-cases, Step-cases}
use paysuper_billing_server.Settlement.{Report, Event, report_updated, Env}
use paysuper_billing_server.Settlement.Balance.{update_merchant_balance}
use paysuper_billing_server.Settlement.Sources.{report_pending, report_accepted}
use paysuper_billing_server.Settlement.Review.{
  ReviewRequest, ReportRequest, reviewed, auto_accepted, get_royalty_report,
  merchant_review_royalty_report, accept_report, announce, accept_reports,
  auto_accept_royalty_reports, royalty_report_changed_email, on_royalty_report_status_changed,
}
use paysuper_billing_server.Settlement.Record.{
  HasNew, reports_written, balances_written, update_merchant_balance-reports,
}

module _ (fl : Floats) (env : Env fl) where
  -- A report that is read for a merchant belongs to this merchant.
  pub get_royalty_report-owned :
      (req : ReportRequest) (h : List (Event fl)) {r : Report fl}
      → (run (get_royalty_report fl env req) h).0.1.item ≡ some r
      → is_set req.merchant_id ≡ true
      → str_eq r.merchant_id req.merchant_id ≡ true
  unfolding get_royalty_report
  get_royalty_report-owned req h e s = ground (arith)

  -- The answer and the effects of a review do not depend on the merchant that asks for it.
  pub merchant_review_royalty_report-any_merchant :
      (req : ReviewRequest) (h : List (Event fl)) (merchant_id : String)
      → merchant_review_royalty_report fl env req h
        ≡ merchant_review_royalty_report fl env (record req { merchant_id = merchant_id }) h
  unfolding merchant_review_royalty_report
  merchant_review_royalty_report-any_merchant req h merchant_id = ground (arith)

  royalty_report_changed_email-reports :
      (report : Report fl) (h : List (Event fl))
      → reports_written (royalty_report_changed_email fl env report h).1 ≡ reports_written h
  unfolding royalty_report_changed_email reports_written
  royalty_report_changed_email-reports report h = ground (arith)

  on_royalty_report_status_changed-reports :
      (report : Report fl) (h : List (Event fl))
      → reports_written (on_royalty_report_status_changed fl env report h).1 ≡ reports_written h
  unfolding on_royalty_report_status_changed reports_written
  on_royalty_report_status_changed-reports report h = ground (arith)

  royalty_report_changed_email-balances :
      (report : Report fl) (h : List (Event fl))
      → balances_written (royalty_report_changed_email fl env report h).1 ≡ balances_written h
  unfolding royalty_report_changed_email balances_written
  royalty_report_changed_email-balances report h = ground (arith)

  on_royalty_report_status_changed-balances :
      (report : Report fl) (h : List (Event fl))
      → balances_written (on_royalty_report_status_changed fl env report h).1 ≡ balances_written h
  unfolding on_royalty_report_status_changed balances_written
  on_royalty_report_status_changed-balances report h = ground (arith)

  announce-reports :
      (b : Bool) (new : Report fl) (h : List (Event fl))
      → reports_written (announce fl env b new h).1 ≡ reports_written h
  unfolding announce
  announce-reports true new h =
      let h' = (update_merchant_balance fl env new.merchant_id h).1 in
      ground (
        arith,
        update_merchant_balance-reports fl env new.merchant_id h,
        on_royalty_report_status_changed-reports new h',
        royalty_report_changed_email-reports new (on_royalty_report_status_changed fl env new h').1,
      )
  announce-reports false new h = ground (
    arith,
    on_royalty_report_status_changed-reports new h,
    royalty_report_changed_email-reports new (on_royalty_report_status_changed fl env new h).1,
  )

  announce-balances :
      (new : Report fl) (h : List (Event fl))
      → balances_written (announce fl env false new h).1 ≡ balances_written h
  unfolding announce
  announce-balances new h = ground (
    arith,
    on_royalty_report_status_changed-balances new h,
    royalty_report_changed_email-balances new (on_royalty_report_status_changed fl env new h).1,
  )

  -- A review writes the report at most once, as the decision changes it, and only if the report
  -- was pending.
  pub merchant_review_royalty_report-once :
      (req : ReviewRequest) (h : List (Event fl)) {report : Report fl}
      → env.report_by_id h req.report_id ≡ ok report
      → let new = reviewed fl req (env.now h) report in
        (reports_written (merchant_review_royalty_report fl env req h).1 ≡ reports_written h)
        ⊎ ((reports_written (merchant_review_royalty_report fl env req h).1
              ≡ reports_written h ++ (new ∷ []))
            × (str_eq report.status report_pending ≡ true))
  unfolding merchant_review_royalty_report reports_written
  merchant_review_royalty_report-once req h {report} found =
      let new = reviewed fl req (env.now h) report in
      ground (arith, announce-reports req.is_accepted new (report_updated new ∷ h))

  -- A review that rejects a report stores no balance.
  pub merchant_review_royalty_report-rejected :
      (req : ReviewRequest) (h : List (Event fl))
      → req.is_accepted ≡ false
      → balances_written (merchant_review_royalty_report fl env req h).1 ≡ balances_written h
  unfolding merchant_review_royalty_report balances_written
  merchant_review_royalty_report-rejected req h rejected =
      elim (Result-cases (env.report_by_id h req.report_id)) [
        | inr (e, p) ↦ rw p refl
        | inl (report, p) ↦
            let new = reviewed fl req (env.now h) report in
            ground (arith, announce-balances new (report_updated new ∷ h))
      ]

  accept_report-next :
      (report : Report fl) (h : List (Event fl))
      → (accept_report fl env report h).0 ≡ next tt
      → reports_written (accept_report fl env report h).1
        ≡ reports_written h ++ (auto_accepted fl (env.now h) report ∷ [])
  unfolding accept_report reports_written
  accept_report-next report h e =
      let new = auto_accepted fl (env.now h) report in
      let h1 = report_updated new ∷ h in
      let h2 = (update_merchant_balance fl env new.merchant_id h1).1 in
      let h3 = (royalty_report_changed_email fl env new h2).1 in
      ground (
        arith,
        update_merchant_balance-reports fl env new.merchant_id h1,
        royalty_report_changed_email-reports new h2,
        on_royalty_report_status_changed-reports new h3,
      )

  -- An accepted report that nobody has reviewed.
  abbrev pub IsAutoAccepted : Report fl → Type 0
  IsAutoAccepted r = (r.status ≡ report_accepted) × (r.is_auto_accepted ≡ true)

  accept_reports-writes :
      (rs : List (Report fl)) (h : List (Event fl))
      → (accept_reports fl env rs h).0 ≡ next tt
      → HasNew fl env IsAutoAccepted
          (map (λ (r : Report fl). r.id) rs)
          (reports_written h)
          (reports_written (accept_reports fl env rs h).1)
  unfolding accept_reports
  accept_reports-writes [] h e = ([], sym (append-nil (reports_written h)), refl, tt)
  accept_reports-writes (r ∷ rs) h e = elim (Step-cases (accept_report fl env r h).0) [
    | inr (d, p) ↦ ground (arith)
    | inl (_, p) ↦
        let made = auto_accepted fl (env.now h) r in
        let h' = (accept_report fl env r h).1 in
        let w' : accept_reports fl env (r ∷ rs) h ≡ accept_reports fl env rs h' = ground (arith) in
        let (new, w, m, a) = accept_reports-writes rs h' (ground (arith)) in
        (
          made ∷ new,
          rw w' (
              w
              ∙ (ap (λ x. x ++ new) (accept_report-next r h p)
                  ∙ append_assoc (reports_written h) (made ∷ []) new)),
          rw m refl,
          ((refl, refl), a),
        )
  ]

  -- A run of the automatic acceptance that gets to its end writes exactly the reports that it has
  -- found expired, in their order, each as accepted automatically.
  pub auto_accept_royalty_reports-accepts :
      (h : List (Event fl)) {rs : List (Report fl)}
      → env.expired_reports h (env.now h) report_pending ≡ ok rs
      → (auto_accept_royalty_reports fl env h).0 ≡ next tt
      → HasNew fl env IsAutoAccepted
          (map (λ (r : Report fl). r.id) rs)
          (reports_written h)
          (reports_written (auto_accept_royalty_reports fl env h).1)
  unfolding auto_accept_royalty_reports
  auto_accept_royalty_reports-accepts h {rs} p e =
      let w : auto_accept_royalty_reports fl env h ≡ accept_reports fl env rs h = ground (arith) in
      rw w (accept_reports-writes rs h (ground (arith)))
