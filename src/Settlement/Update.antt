-- ===== src/Settlement/Update.antt =====
-- Changing a payout document (UpdatePayoutDocument in internal/service/payouts.go).
use paysuper_billing_server.Base.{
  ℕ, Bool, true, false, Option, none, some, if◌then◌else◌, not, ◌&&◌, ◌||◌,
}
use paysuper_billing_server.Base.Text.{String, str_eq, is_set}
use paysuper_billing_server.Floats.{Floats}
use paysuper_billing_server.Handler.{
  Handler, ◌>>=◌, ◌>>◌, pure, ask, return_if, when, or_return, try_call,
}
use paysuper_billing_server.Response.{Status}
use paysuper_billing_server.Settlement.{
  Message, Error, no_documents, message, payout_not_found, payout_status_change_is_forbidden,
  payout_require_failure_fields, payout_update_royalty_reports, payout_update_balance, Payout,
  Event, payout_updated, Env,
}
use paysuper_billing_server.Settlement.Balance.{perform, update_merchant_balance}
use paysuper_billing_server.Settlement.Create.{payout_pending, payout_skip}
use paysuper_billing_server.Settlement.Sources.{royalty_report_set_paid, royalty_report_unset_paid}

abbrev pub payout_paid : String
payout_paid = "paid"

abbrev pub payout_canceled : String
payout_canceled = "canceled"

abbrev pub payout_failed : String
payout_failed = "failed"

-- The maps `statusForUpdateBalance`, `statusForBecomePaid` and `statusForBecomeFailed`.
abbrev pub is_for_update_balance : String → Bool
is_for_update_balance s = str_eq s payout_pending || (str_eq s payout_paid || str_eq s payout_skip)

abbrev pub is_for_become_paid : String → Bool
is_for_become_paid s = str_eq s payout_paid

abbrev pub is_for_become_failed : String → Bool
is_for_become_failed s =
    str_eq s payout_failed || (str_eq s payout_canceled || str_eq s payout_skip)

pub record UpdateRequest : Type 0 where
  pub payout_document_id : String
  pub status : String
  pub transaction : String
  pub failure_code : String
  pub failure_message : String
  pub failure_transaction : String

pub record UpdateResponse (fl : Floats) : Type 0 where
  pub status : Status
  pub message_of : Option Message
  pub item : Option (Payout fl)

module _ (fl : Floats) where
  abbrev pub answer :
      Status → Option Message → Option (Payout fl) → Option Error × UpdateResponse fl
  answer status m item = (none, record { status = status; message_of = m; item = item })

  abbrev pub raise : Error → Option Error × UpdateResponse fl
  raise e = (some e, record { status = Status.unset; message_of = none; item = none })

  abbrev pub not_found_or_raise : Error → Option Error × UpdateResponse fl
  not_found_or_raise no_documents = answer Status.not_found (some payout_not_found) none
  not_found_or_raise e = raise e

  abbrev pub message_or_raise : Error → Option Error × UpdateResponse fl
  message_or_raise (message m) = answer Status.system_error (some m) none
  message_or_raise e = raise e

  -- `req.Status != "" && pd.Status != req.Status`
  unfoldable pub is_status_change : UpdateRequest → Payout fl → Bool
  is_status_change req pd = is_set req.status && not (str_eq pd.status req.status)

  abbrev pub is_new_text : String → String → Bool
  is_new_text new old = is_set new && not (str_eq old new)

  unfoldable pub is_changed : UpdateRequest → Payout fl → Bool
  unfolding is_status_change
  is_changed req pd =
      is_status_change req pd
      || (is_new_text req.transaction pd.transaction
          || (is_new_text req.failure_code pd.failure_code
              || (is_new_text req.failure_message pd.failure_message
                  || is_new_text req.failure_transaction pd.failure_transaction)))

  unfoldable pub becomes_paid : UpdateRequest → Payout fl → Bool
  becomes_paid req pd = is_for_become_paid req.status && not (str_eq pd.status req.status)

  unfoldable pub becomes_failed : UpdateRequest → Payout fl → Bool
  becomes_failed req pd = is_for_become_failed req.status && not (is_for_become_failed pd.status)

  unfoldable pub needs_balance_update : UpdateRequest → Payout fl → Bool
  unfolding is_status_change
  needs_balance_update req pd = is_status_change req pd && is_for_update_balance req.status

  -- `if req.X != "" && pd.X != req.X { pd.X = req.X }`
  abbrev pub new_text : String → String → String
  new_text new old = if is_new_text new old then new else old

  -- The document as it is written.
  unfoldable pub changed : UpdateRequest → ℕ → Payout fl → Payout fl
  unfolding is_status_change
  changed req now pd = record pd {
    status = if is_status_change req pd then req.status else pd.status;
    paid_at =
        if is_status_change req pd && str_eq req.status payout_paid then some now else pd.paid_at;
    transaction = new_text req.transaction pd.transaction;
    failure_code = new_text req.failure_code pd.failure_code;
    failure_message = new_text req.failure_message pd.failure_message;
    failure_transaction = new_text req.failure_transaction pd.failure_transaction;
  }

  module _ (env : Env fl) where
    abbrev Method : Type 0 → Type 0
    Method A = Handler (Event fl) (Option Error × UpdateResponse fl) A

    -- The two refusals of a status change.
    unfoldable pub check_status_change : UpdateRequest → Payout fl → Method (Unit {0})
    check_status_change req pd = do
      return_if (is_status_change req pd && not (str_eq pd.status payout_pending))
          (answer Status.bad_data (some payout_status_change_is_forbidden) none)
      return_if
          (is_status_change req pd
            && (str_eq req.status payout_failed
                && (str_eq req.failure_code "" || str_eq req.failure_message "")))
          (answer Status.bad_data (some payout_require_failure_fields) none)

    abbrev reports_error : Error → Option Error × UpdateResponse fl
    reports_error _ = answer Status.system_error (some payout_update_royalty_reports) none

    -- The writes of a change: the document, and its reports if it becomes paid or failed.
    unfoldable pub write_change : UpdateRequest → Payout fl → Payout fl → Method (Unit {0})
    unfolding royalty_report_set_paid royalty_report_unset_paid
    write_change req before pd = do
      stored ← perform fl env (payout_updated pd)
      updated ← or_return stored message_or_raise
      reported ← try_call (
          when (becomes_paid req before) (royalty_report_set_paid fl env pd.source_id pd.id)
          >> when (not (becomes_paid req before) && becomes_failed req before)
              (royalty_report_unset_paid fl env pd.source_id))
      or_return reported reports_error

    unfoldable pub refresh_balance : Bool → String → Method (Unit {0})
    unfolding update_merchant_balance
    refresh_balance false merchant_id = pure tt
    refresh_balance true merchant_id = do
      balanced ← try_call (update_merchant_balance fl env merchant_id)
      balance ←
          or_return balanced (λ _. answer Status.system_error (some payout_update_balance) none)
      pure tt

    -- The writes of a call, once the change is allowed.
    unfoldable pub carry_out :
        UpdateRequest → Payout fl → Payout fl → Method (Option Error × UpdateResponse fl)
    unfolding write_change refresh_balance
    carry_out req before pd = do
      when (is_changed req before) (write_change req before pd)
      refresh_balance (needs_balance_update req before) pd.merchant_id
      pure
          (answer (if is_changed req before then Status.ok else Status.not_modified) none (some pd))

    unfoldable pub update_payout_document :
        UpdateRequest → Method (Option Error × UpdateResponse fl)
    unfolding check_status_change carry_out
    update_payout_document req = do
      found ← ask (λ h. env.payout_by_id h req.payout_document_id)
      before ← or_return found not_found_or_raise
      check_status_change req before
      now ← ask env.now
      carry_out req before (changed req now before)
