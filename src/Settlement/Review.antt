-- ===== src/Settlement/Review.antt =====
-- Reading, reviewing and accepting royalty reports (GetRoyaltyReport, MerchantReviewRoyaltyReport,
-- AutoAcceptRoyaltyReports, royaltyReportChangedEmail and onRoyaltyReportStatusChanged in
-- internal/service/royalty_report.go).
use paysuper_billing_server.Base.{
  ℕ, Bool, true, false, Option, none, some, List, [], ◌∷◌, if◌then◌else◌, not, ◌&&◌,
}
use paysuper_billing_server.Base.Text.{String, str_eq, is_set}
use paysuper_billing_server.Floats.{Floats}
use paysuper_billing_server.Handler.{
  Handler, ◌>>=◌, ◌>>◌, pure, ask, return_if, or_return, try_call,
}
use paysuper_billing_server.Response.{Status}
use paysuper_billing_server.Settlement.{
  Message, Error, no_documents, message, report_not_found, report_status_change_denied,
  report_entry_error_unknown, report_update_balance_error, report_not_owned_by_merchant,
  report_merchant_not_found, merchant_error_not_found, Report, Event, report_updated,
  royalty_file_requested, transactions_file_requested, changed_mail_sent, Env,
}
use paysuper_billing_server.Settlement.Balance.{perform, update_merchant_balance}
use paysuper_billing_server.Settlement.Sources.{report_pending, report_accepted, report_dispute}

pub record ReviewRequest : Type 0 where
  pub report_id : String
  pub merchant_id : String
  pub is_accepted : Bool
  pub dispute_reason : String

-- `billingpb.ResponseError`
pub record ReviewResponse : Type 0 where
  pub status : Status
  pub message_of : Option Message

pub record ReportRequest : Type 0 where
  pub report_id : String
  pub merchant_id : String

pub record ReportResponse (fl : Floats) : Type 0 where
  pub status : Status
  pub message_of : Option Message
  pub item : Option (Report fl)

abbrev pub answer : Status → Option Message → Option Error × ReviewResponse
answer status m = (none, record { status = status; message_of = m })

abbrev pub raise : Error → Option Error × ReviewResponse
raise e = (some e, record { status = Status.unset; message_of = none })

abbrev pub not_found_or_raise : Error → Option Error × ReviewResponse
not_found_or_raise no_documents = answer Status.not_found (some report_not_found)
not_found_or_raise e = raise e

abbrev pub message_or_raise : Error → Option Error × ReviewResponse
message_or_raise (message m) = answer Status.system_error (some m)
message_or_raise e = raise e

-- `err == mongo.ErrNoDocuments`
abbrev pub is_no_documents : Option Error → Bool
is_no_documents (some no_documents) = true
is_no_documents e = false

module _ (fl : Floats) where
  -- The report as the merchant's decision leaves it.
  abbrev pub reviewed : ReviewRequest → ℕ → Report fl → Report fl
  reviewed req now report = record report {
    status = if req.is_accepted then report_accepted else report_dispute;
    accepted_at = if req.is_accepted then some now else report.accepted_at;
    dispute_reason = if req.is_accepted then report.dispute_reason else req.dispute_reason;
    dispute_started_at = if req.is_accepted then report.dispute_started_at else some now;
    updated_at = now;
  }

  abbrev pub auto_accepted : ℕ → Report fl → Report fl
  auto_accepted now report = record report {
    status = report_accepted;
    accepted_at = some now;
    updated_at = now;
    is_auto_accepted = true;
  }

  abbrev report_answer :
      Status → Option Message → Option (Report fl) → Option Error × ReportResponse fl
  report_answer status m item = (none, record { status = status; message_of = m; item = item })

  abbrev report_error : Error → Option Error × ReportResponse fl
  report_error no_documents = report_answer Status.not_found (some report_not_found) none
  report_error e = report_answer Status.system_error (some report_entry_error_unknown) none

  module _ (env : Env fl) where
    unfoldable pub get_royalty_report :
        ReportRequest
        → Handler (Event fl) (Option Error × ReportResponse fl) (Option Error × ReportResponse fl)
    get_royalty_report req = do
      found ← ask (λ h. env.report_by_id h req.report_id)
      report ← or_return found report_error
      return_if (is_set req.merchant_id && not (str_eq report.merchant_id req.merchant_id))
          (report_answer Status.bad_data (some report_not_owned_by_merchant) none)
      pure (report_answer Status.ok none (some report))

    -- The error is always a message. The mail is an event.
    unfoldable pub royalty_report_changed_email : Report fl → Handler (Event fl) Message (Unit {0})
    royalty_report_changed_email report = do
      found ← ask (λ h. env.merchant_by_id h report.merchant_id)
      merchant ← or_return found (λ _. report_merchant_not_found)
      from ← or_return (env.timestamp report.period_from) (λ _. report_entry_error_unknown)
      to ← or_return (env.timestamp report.period_to) (λ _. report_entry_error_unknown)
      published ← perform fl env (changed_mail_sent report)
      or_return published (λ _. report_entry_error_unknown)

    unfoldable pub on_royalty_report_status_changed :
        Report fl → Handler (Event fl) Error (Unit {0})
    on_royalty_report_status_changed report = do
      found ← ask (λ h. env.merchant_by_id h report.merchant_id)
      merchant ← or_return found (λ _. message merchant_error_not_found)
      created ← perform fl env (royalty_file_requested report)
      first ← or_return created (λ e. e)
      created ← perform fl env (transactions_file_requested report)
      or_return created (λ e. e)

    abbrev Method : Type 0 → Type 0
    Method A = Handler (Event fl) (Option Error × ReviewResponse) A

    abbrev refresh_if : Bool → String → Method (Unit {0})
    refresh_if false merchant_id = pure tt
    refresh_if true merchant_id = do
      balanced ← try_call (update_merchant_balance fl env merchant_id)
      balance ←
          or_return balanced (λ _. answer Status.system_error (some report_update_balance_error))
      pure tt

    -- What follows the write of a review.
    unfoldable pub announce : Bool → Report fl → Method (Option Error × ReviewResponse)
    unfolding update_merchant_balance on_royalty_report_status_changed royalty_report_changed_email
    announce is_accepted new = do
      refresh_if is_accepted new.merchant_id
      changed ← try_call (on_royalty_report_status_changed new)
      requested ←
          or_return changed (λ _. answer Status.system_error (some report_entry_error_unknown))
      mailed ← try_call (royalty_report_changed_email new)
      sent ← or_return mailed (λ m. answer Status.system_error (some m))
      pure (answer Status.ok none)

    -- The error of reading the report is checked again when the merchants differ.
    unfoldable pub merchant_review_royalty_report :
        ReviewRequest → Method (Option Error × ReviewResponse)
    unfolding announce
    merchant_review_royalty_report req = do
      found ← ask (λ h. env.report_by_id h req.report_id)
      report ← or_return found not_found_or_raise
      let read_error = none
      return_if (not (str_eq report.merchant_id req.merchant_id) && is_no_documents read_error)
          (answer Status.bad_data (some report_not_owned_by_merchant))
      return_if (not (str_eq report.status report_pending))
          (answer Status.bad_data (some report_status_change_denied))
      now ← ask env.now
      let new = reviewed req now report
      stored ← perform fl env (report_updated new)
      updated ← or_return stored message_or_raise
      announce req.is_accepted new

    -- One report of the automatic acceptance.
    unfoldable pub accept_report : Report fl → Handler (Event fl) Error (Unit {0})
    unfolding update_merchant_balance on_royalty_report_status_changed royalty_report_changed_email
    accept_report report = do
      now ← ask env.now
      let new = auto_accepted now report
      stored ← perform fl env (report_updated new)
      updated ← or_return stored (λ e. e)
      balance ← update_merchant_balance fl env new.merchant_id
      mailed ← try_call (royalty_report_changed_email new)
      sent ← or_return mailed message
      on_royalty_report_status_changed new

    -- The loop over the reports; the first error ends it.
    unfoldable pub accept_reports : List (Report fl) → Handler (Event fl) Error (Unit {0})
    accept_reports [] = pure tt
    accept_reports (r ∷ rs) = accept_report r >> accept_reports rs

    unfoldable pub auto_accept_royalty_reports : Handler (Event fl) Error (Unit {0})
    auto_accept_royalty_reports = do
      found ← ask (λ h. env.expired_reports h (env.now h) report_pending)
      reports ← or_return found (λ e. e)
      accept_reports reports
