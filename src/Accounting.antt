-- ===== src/Accounting.antt =====
-- The accounting entries of payments and refunds: the documents and what is outside. The children
-- hold the methods (internal/service/accounting_entry.go).
pub mod Build
pub mod Add
pub mod Costs
pub mod PaymentEvent
pub mod RefundEvent
pub mod Adds
pub mod Adding
pub mod Paid
pub mod Refunded
pub mod Saved
pub mod Notified
pub mod Turned
pub mod Created
pub mod Rebuilt
pub mod Fixes
mod Sample
mod Tests
pub mod Save
pub mod Service
pub mod Create
pub mod Fix
use paysuper_billing_server.Base.{ℕ, Bool, true, false, Option, none, some, List, [], ◌∷◌}
use paysuper_billing_server.Base.Int.{ℤ}
use paysuper_billing_server.Base.Text.{String}
use paysuper_billing_server.Floats.{Floats}
use paysuper_billing_server.Handler.{Result}

-- `pkg.AccountingEntryType…`, in the order of `availableAccountingEntries`. Any other text is no
-- type of an entry.
pub data EntryType : Type 0 where
  real_gross_revenue ps_gross_revenue_fx real_tax_fee real_tax_fee_total : EntryType
  central_bank_tax_fee ps_gross_revenue_fx_tax_fee ps_gross_revenue_fx_profit : EntryType
  merchant_gross_revenue merchant_tax_fee_cost_value merchant_tax_fee_central_bank_fx : EntryType
  merchant_tax_fee ps_method_fee merchant_method_fee merchant_method_fee_cost_value : EntryType
  ps_markup_merchant_method_fee merchant_method_fixed_fee real_merchant_method_fixed_fee : EntryType
  markup_merchant_method_fixed_fee_fx real_merchant_method_fixed_fee_cost_value : EntryType
  ps_method_fixed_fee_profit merchant_ps_fixed_fee real_merchant_ps_fixed_fee : EntryType
  markup_merchant_ps_fixed_fee ps_method_profit merchant_net_revenue ps_profit_total : EntryType
  real_refund real_refund_tax_fee real_refund_fee real_refund_fixed_fee merchant_refund : EntryType
  ps_merchant_refund_fx merchant_refund_fee ps_markup_merchant_refund_fee : EntryType
  merchant_refund_fixed_fee_cost_value merchant_refund_fixed_fee : EntryType
  ps_merchant_refund_fixed_fee_fx ps_merchant_refund_fixed_fee_profit reverse_tax_fee : EntryType
  reverse_tax_fee_delta ps_reverse_tax_fee_delta merchant_reverse_tax_fee : EntryType
  merchant_reverse_revenue ps_refund_profit merchant_rolling_reserve_create : EntryType
  merchant_rolling_reserve_release merchant_royalty_correction : EntryType
  other_type : String → EntryType

abbrev pub is_available : EntryType → Bool
is_available (other_type s) = false
is_available t = true

-- `rollingReserveAccountingEntries`
abbrev pub is_rolling_reserve : EntryType → Bool
is_rolling_reserve merchant_rolling_reserve_create = true
is_rolling_reserve merchant_rolling_reserve_release = true
is_rolling_reserve t = false

-- The collections that an entry may come from: all that the code names, and they are all available.
pub data SourceType : Type 0 where
  of_order of_refund of_merchant : SourceType

pub data Message : Type 0 where
  order_not_found refund_not_found merchant_not_found merchant_commission_not_found : Message
  exchange_failed unknown_entry unknown_error refund_exceeds_order_amount country_not_found :
      Message
  invalid_source_id system_commission_not_found already_created balance_update_failed : Message
  original_tax_not_found vat_currency_not_set round_failed : Message

-- A Go error: no such document, a message of the service, any other, or a panic.
pub data Error : Type 0 where
  panic : Error
  no_documents : Error
  message : Message → Error
  other_error : Error

pub data RateType : Type 0 where
  paysuper_rate stock_rate central_banks_rate oxr_rate : RateType

pub data Direction : Type 0 where
  buy sell : Direction

pub record Country : Type 0 where
  pub iso_code : String
  pub vat_enabled : Bool
  pub vat_currency : String
  pub vat_currency_rates_source : String
  pub price_group_id : String
  pub payer_tariff_region : String

module _ (fl : Floats) where
  open fl use {F}

  pub record Entry : Type 0 where
    pub id : String
    pub type_of : EntryType
    pub source : Option (SourceType × String)
    pub merchant_id : String
    pub status : String
    pub created_at : Option ℕ
    pub country : String
    pub currency : String
    pub amount : F
    pub original_amount : F
    pub original_currency : String
    pub local_amount : F
    pub local_currency : String
    pub amount_rounded : F
    pub original_amount_rounded : F
    pub local_amount_rounded : F
    pub reason : String
    pub operating_company_id : String

  -- The fields of an order that the entries depend on. `tax_rate` is of its tax, if it has one,
  -- `receipt_number` of its refund.
  pub record Order : Type 0 where
    pub id : String
    pub type_of : String
    pub merchant_id : String
    pub royalty_currency : String
    pub operating_company_id : String
    pub mcc_code : String
    pub closed_at : Option ℕ
    pub charge_currency : String
    pub charge_amount : F
    pub tax_rate : Option F
    pub country : String
    pub issuer_reference_type : String
    pub issuer_reference : String
    pub project_merchant_id : String
    pub receipt_number : Option String
    pub is_vat_deduction : Bool

  pub record Refund : Type 0 where
    pub id : String
    pub original_order_id : String
    pub created_order_id : String
    pub amount : F
    pub currency : String
    pub is_chargeback : Bool
    pub created_at : Option ℕ

  -- A merchant, with the country of its company if it has one.
  pub record Merchant : Type 0 where
    pub id : String
    pub payout_currency : String
    pub operating_company_id : String
    pub mcc_code : String
    pub company_country : Option String

  pub record ChannelCostMerchant : Type 0 where
    pub ps_percent : F
    pub method_percent : F
    pub method_fix_amount : F
    pub method_fix_amount_currency : String
    pub ps_fixed_fee : F
    pub ps_fixed_fee_currency : String

  pub record ChannelCostSystem : Type 0 where
    pub percent : F
    pub fix_amount : F
    pub fix_amount_currency : String

  pub record MoneyBackCost : Type 0 where
    pub percent : F
    pub fix_amount : F
    pub fix_amount_currency : String
    pub is_paid_by_merchant : Bool

  -- A request to the currency service, of a merchant's own rates if it has one.
  pub record ExchangeRequest : Type 0 where
    pub from : String
    pub to : String
    pub rate_type : RateType
    pub direction : Direction
    pub rate_source : String
    pub merchant_id : Option String
    pub amount : F
    pub datetime : Option ℕ

  -- A request for the costs of a payment or of a refund.
  pub record CostRequest : Type 0 where
    pub merchant_id : String
    pub name : String
    pub payout_currency : String
    pub region : String
    pub country : String
    pub mcc_code : String
    pub operating_company_id : String
    pub amount : F
    pub undo_reason : String
    pub payment_stage : ℕ
    pub days : ℤ

  -- A pay link with its statistics.
  pub record PaylinkStat : Type 0 where
    pub total_transactions : ℕ
    pub returns_count : ℕ
    pub sales_count : ℕ
    pub transactions_currency : String
    pub gross_total_amount : F
    pub gross_sales_amount : F
    pub gross_returns_amount : F

  pub record Paylink : Type 0 where
    pub id : String
    pub visits : ℕ
    pub stat : PaylinkStat
    pub is_expired : Bool

  -- What the methods do to the outside. An event is the call; whether it succeeds is answered by
  -- the environment.
  pub data Event : Type 0 where
    entries_inserted : List Entry → Event
    entries_rewritten : List Entry → Event
    entries_deleted : String → String → Event
    views_updated : List String → Event
    paylink_updated : Paylink → Event
    balance_updated : String → Event

  -- The repositories, the clock and the other services. Each answer may depend on all that was done
  -- before.
  pub record Env : Type 0 where
    pub now : List Event → ℕ
    -- a new identifier for an entry of a type
    pub new_id : List Event → EntryType → String
    pub is_object_id : String → Bool
    -- `ToPrecise`, `GetPercentPartFromAmount`, and the numbers one and minus one
    pub to_precise : F → F
    pub percent_part : F → F → F
    pub one : F
    pub minus_one : F
    -- the rounding of an amount of a merchant, after the entries that were added before
    pub round : List Event → List Entry → String → F → Option F
    pub timestamp_proto : ℤ → Option ℕ
    -- `GetPublicStatus` of an order is one that has entries
    pub is_processable : Order → Bool
    pub tax_in_charge_currency : Order → F
    pub cost_method_name : Order → Result Error String
    pub vat_currency_code : Country → String
    pub whole_days : Option ℕ → Option ℕ → ℤ
    pub is_paylink_expired : Paylink → Bool
    pub update_conversion : Paylink → Paylink
    -- the currency service
    pub exchange : List Event → ExchangeRequest → Result Error F
    pub price_group_currency : List Event → String → Result Error String
    pub channel_cost_merchant : List Event → CostRequest → Result Error ChannelCostMerchant
    pub channel_cost_system : List Event → CostRequest → Result Error ChannelCostSystem
    pub money_back_cost_merchant : List Event → CostRequest → Result Error MoneyBackCost
    pub money_back_cost_system : List Event → CostRequest → Result Error MoneyBackCost
    -- an entry of a source
    pub entry_by_source : List Event → SourceType → String → Result Error Entry
    -- the entry of a type and a source, read into an entry
    pub apply_source : List Event → EntryType → SourceType → String → Entry → Result Error Entry
    pub entries_with_taxes : List Event → Result Error (List Entry)
    pub order_by_id : List Event → String → Result Error Order
    pub refund_by_id : List Event → String → Result Error Refund
    pub merchant_by_id : List Event → String → Result Error Merchant
    pub country_by_code : List Event → String → Result Error Country
    pub paylink_by_id : List Event → String → String → Result Error Paylink
    pub count_visits : List Event → String → Option ℕ
    pub paylink_stat : List Event → String → String → Result Error PaylinkStat
    -- the outcome of an event, when it is the newest of the history
    pub outcome : List Event → Result Error (Unit {0})
