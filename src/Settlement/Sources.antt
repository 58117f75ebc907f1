-- ===== src/Settlement/Sources.antt =====
-- The royalty reports behind a payout: which ones a payout takes, and how they follow its status
-- (getPayoutDocumentSources and royaltyReportUnsetPaid in internal/service/payouts.go,
-- royaltyReportSetPaid and royaltyReportSetPayoutDocumentId in internal/service/royalty_report.go).
use paysuper_billing_server.Base.{
  ℕ, Bool, true, false, Option, none, some, List, [], ◌∷◌, if◌then◌else◌, not, ◌&&◌, ◌||◌,
}
use paysuper_billing_server.Base.Text.{String, str_eq}
use paysuper_billing_server.Floats.{Floats}
use paysuper_billing_server.Handler.{
  Result, ok, err, Handler, ◌>>=◌, ◌>>◌, pure, ask, return_if, or_return,
}
use paysuper_billing_server.Settlement.{
  Message, Error, no_documents, message, payout_sources_not_found, payout_sources_pending,
  payout_sources_dispute, report_payout_document_id_invalid, Report, Merchant, Event,
  report_updated, Env,
}
use paysuper_billing_server.Settlement.Balance.{perform}

-- The statuses of a royalty report. They stand for the constants billingpb.RoyaltyReportStatus… of
-- the protocol package, which are different texts; nothing else about them is used.
abbrev pub report_pending : String
report_pending = "pending"

abbrev pub report_accepted : String
report_accepted = "accepted"

abbrev pub report_dispute : String
report_dispute = "dispute"

abbrev pub report_wait_for_payment : String
report_wait_for_payment = "waiting_for_payment"

abbrev pub report_paid : String
report_paid = "paid"

module _ (fl : Floats) where
  -- The query of `GetNonPayoutReports`, on the reports of one merchant and currency.
  unfoldable pub is_non_payout : Report fl → Bool
  is_non_payout r =
      (str_eq r.status report_pending
        || (str_eq r.status report_accepted || str_eq r.status report_dispute))
      && str_eq r.payout_document_id ""

  abbrev pub with_payout_document_id : String → Report fl → Report fl
  with_payout_document_id payout_id rr = record rr {
    payout_document_id = payout_id;
    status = report_wait_for_payment;
  }

  abbrev pub with_paid : String → ℕ → Report fl → Report fl
  with_paid payout_id now rr = record rr {
    payout_document_id = payout_id;
    status = report_paid;
    payout_date = some now;
  }

  abbrev pub with_unset_paid : Report fl → Report fl
  with_unset_paid rr = record rr {
    payout_document_id = "";
    status = report_accepted;
    payout_date = none;
  }

  module _ (env : Env fl) where
    -- One report is read, changed and written.
    abbrev pub change_report :
        (ℕ → Report fl → Report fl) → String → Handler (Event fl) Error (Unit {0})
    change_report change id = do
      found ← ask (λ h. env.report_by_id h id)
      rr ← or_return found (λ e. e)
      now ← ask env.now
      stored ← perform fl env (report_updated (change now rr))
      or_return stored (λ e. e)

    -- The loop over the identifiers; the first error ends it.
    unfoldable pub change_reports :
        (ℕ → Report fl → Report fl) → List String → Handler (Event fl) Error (Unit {0})
    change_reports change [] = pure tt
    change_reports change (id ∷ ids) = change_report change id >> change_reports change ids

    abbrev is_hex : String → Bool
    is_hex s = elim (env.object_id_from_hex s) [ none ↦ false | some _ ↦ true ]

    unfoldable pub royalty_report_set_paid :
        List String → String → Handler (Event fl) Error (Unit {0})
    royalty_report_set_paid report_ids payout_id =
        return_if (not (is_hex payout_id)) (message report_payout_document_id_invalid)
        >> change_reports (with_paid payout_id) report_ids

    unfoldable pub royalty_report_set_payout_document_id :
        List String → String → Handler (Event fl) Error (Unit {0})
    royalty_report_set_payout_document_id report_ids payout_id =
        return_if (not (is_hex payout_id)) (message report_payout_document_id_invalid)
        >> change_reports (λ _. with_payout_document_id payout_id) report_ids

    unfoldable pub royalty_report_unset_paid : List String → Handler (Event fl) Error (Unit {0})
    royalty_report_unset_paid report_ids = change_reports (λ _. with_unset_paid) report_ids

    -- The first report that is pending or in dispute decides.
    unfoldable pub check_sources : List (Report fl) → Option Message
    check_sources [] = none
    check_sources (v ∷ vs) =
        if str_eq v.status report_pending
        then some payout_sources_pending
        else if str_eq v.status report_dispute
        then some payout_sources_dispute
        else check_sources vs

    abbrev refused_sources : List (Report fl) → Option Message → Result Error (List (Report fl))
    refused_sources reports none = ok reports
    refused_sources reports (some m) = err (message m)

    abbrev pub chosen_sources : Result Error (List (Report fl)) → Result Error (List (Report fl))
    chosen_sources (ok []) = err (message payout_sources_not_found)
    chosen_sources (ok (r ∷ rs)) = refused_sources (r ∷ rs) (check_sources (r ∷ rs))
    chosen_sources (err no_documents) = err (message payout_sources_not_found)
    chosen_sources (err e) = err e

    unfoldable pub get_payout_document_sources :
        Merchant fl → Handler (Event fl) Error (List (Report fl))
    unfolding check_sources
    get_payout_document_sources merchant = do
      result ← ask (λ h. env.non_payout_reports h merchant.id merchant.payout_currency)
      or_return (chosen_sources result) (λ e. e)
