-- ===== src/Settlement.antt =====
-- Settlement with the merchants: royalty reports, payout documents and merchant balances
-- (internal/service/royalty_report.go, payouts.go, merchant_balance.go). Here are the documents
-- and the outside; the children hold the methods.
pub mod Balance
pub mod Sources
pub mod Review
pub mod Record
pub mod Money
pub mod Transition
pub mod Payment
pub mod Payable
pub mod Taken
pub mod Decision
pub mod Sample
pub mod Tests
pub mod Create
pub mod Update
use paysuper_billing_server.Base.{ℕ, Bool, Option, none, some, List, [], ◌∷◌}
use paysuper_billing_server.Base.Text.{String}
use paysuper_billing_server.Floats.{Floats}
use paysuper_billing_server.Handler.{Result}
use paysuper_billing_server.Response.{Status}

-- The messages of the service that the methods answer with.
pub data Message : Type 0 where
  payout_sources_not_found payout_sources_pending payout_sources_dispute payout_not_found : Message
  payout_amount_invalid payout_update_balance payout_balance_error payout_not_enough_balance :
      Message
  payout_update_royalty_reports payout_status_change_is_forbidden : Message
  payout_manual_payouts_disabled payout_auto_payouts_disabled payout_auto_payouts_with_errors :
      Message
  payout_require_failure_fields payout_tariff_not_found payout_tariff_minimal : Message
  merchant_error_not_found merchant_error_unknown merchant_payout_currency_not_set : Message
  report_not_found report_status_change_denied report_correction_reason_required : Message
  report_entry_error_unknown report_update_balance_error report_correction_amount_required : Message
  report_payout_document_id_invalid report_not_owned_by_merchant report_merchant_not_found : Message

-- A Go error: no such document, a message of the service, or any other.
pub data Error : Type 0 where
  no_documents : Error
  message : Message → Error
  other_error : Error

module _ (fl : Floats) where
  open fl use {F}

  pub record Totals : Type 0 where
    pub transactions_count : ℕ
    pub fee_amount : F
    pub payout_amount : F
    pub correction_amount : F
    pub rolling_reserve_amount : F
    pub final_payout_amount : F
    pub b2b_vat_base : F
    pub b2b_vat_rate : F
    pub b2b_vat_amount : F

  pub record Report : Type 0 where
    pub id : String
    pub merchant_id : String
    pub currency : String
    pub status : String
    pub totals : Totals
    pub payout_document_id : String
    pub period_from : ℕ
    pub period_to : ℕ
    pub string_period_from : String
    pub string_period_to : String
    pub updated_at : ℕ
    pub accepted_at : Option ℕ
    pub payout_date : Option ℕ
    pub is_auto_accepted : Bool
    pub dispute_reason : String
    pub dispute_started_at : Option ℕ
    pub dispute_closed_at : Option ℕ

  pub record Payout : Type 0 where
    pub id : String
    pub status : String
    pub source_id : List String
    pub description : String
    pub created_at : ℕ
    pub updated_at : ℕ
    pub arrival_date : ℕ
    pub merchant_id : String
    pub destination : String
    pub company : String
    pub merchant_agreement_number : String
    pub operating_company_id : String
    pub autoincrement_id : ℕ
    pub currency : String
    pub total_fees : F
    pub fees_excluding_vat : F
    pub balance : F
    pub total_transactions : ℕ
    pub b2b_vat_base : F
    pub b2b_vat_rate : F
    pub b2b_vat_amount : F
    pub period_from : ℕ
    pub period_to : ℕ
    pub string_period_from : String
    pub string_period_to : String
    pub paid_at : Option ℕ
    pub transaction : String
    pub failure_code : String
    pub failure_message : String
    pub failure_transaction : String

  -- `destination` and `company` of a payout are the merchant's banking data and company, carried as
  -- they are. A merchant without a tariff has `none`.
  pub record Merchant : Type 0 where
    pub id : String
    pub payout_currency : String
    pub manual_payouts_enabled : Bool
    pub banking : String
    pub company : String
    pub agreement_number : String
    pub operating_company_id : String
    pub minimal_payout : Option (List (String × F))
    pub min_payout_amount : F

  -- A stored balance, without its own identifier, which nothing modelled here reads.
  pub record MerchantBalance : Type 0 where
    pub merchant_id : String
    pub currency : String
    pub debit : F
    pub credit : F
    pub rolling_reserve : F
    pub total : F
    pub created_at : ℕ

  -- An accounting entry of the rolling reserve.
  pub record ReserveEntry : Type 0 where
    pub is_release : Bool
    pub amount : F

  -- What the methods do to the outside. An event is the call; whether it succeeds is answered by
  -- the environment.
  pub data Event : Type 0 where
    payout_inserted : Payout → Event
    payout_updated : Payout → Event
    report_updated : Report → Event
    balance_inserted : MerchantBalance → Event
    payout_rendered : Payout → Event
    royalty_file_requested : Report → Event
    transactions_file_requested : Report → Event
    changed_mail_sent : Report → Event

  -- The repositories, the clock and the other services. Each answer may depend on all that was
  -- done before. `none` of an optional error is success.
  pub record Env : Type 0 where
    pub now : List Event → ℕ
    pub new_id : List Event → String
    pub object_id_from_hex : String → Option ℕ
    -- `ptypes.Timestamp` and `TimestampProto`
    pub timestamp : ℕ → Result Error ℕ
    pub timestamp_proto : ℕ → Result Error ℕ
    -- `number.ToPrecise` of paysuper-tools
    pub to_precise : F → F
    -- `now.EndOfDay()` five days later
    pub arrival_date : List Event → ℕ
    pub payout_autoincrement_id : List Event → Result Error ℕ
    pub merchant_by_id : List Event → String → Result Error Merchant
    pub payout_by_id : List Event → String → Result Error Payout
    pub report_by_id : List Event → String → Result Error Report
    pub non_payout_reports : List Event → String → String → Result Error (List Report)
    pub expired_reports : List Event → ℕ → String → Result Error (List Report)
    pub merchants_with_auto_payouts : List Event → Result Error (List Merchant)
    pub balance_by_id_and_currency : List Event → String → String → Result Error MerchantBalance
    pub debit_amount : List Event → String → String → Result Error F
    pub credit_amount : List Event → String → String → Result Error F
    -- `none`: no payout yet
    pub last_payout : List Event → String → String → Result Error (Option Payout)
    pub reserve_entries : List Event → String → String → ℕ → Result Error (List ReserveEntry)
    -- the outcome of an event, when it is the newest of the history
    pub outcome : List Event → Result Error (Unit {0})
