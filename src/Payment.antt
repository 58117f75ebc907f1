-- ===== src/Payment.antt =====
-- Payments of orders and their refunds: the documents and what is outside. The children hold the
-- methods (internal/payment_system/cardpay.go, internal/service/order.go, refund.go).
pub mod Cardpay
pub mod Requisites
pub mod Update
pub mod Callback
pub mod Genuine
pub mod Stored
pub mod Forged
pub mod View
pub mod Sending
pub mod Refunding
pub mod Copying
pub mod Reversal
pub mod Asked
pub mod Reversed
pub mod Copied
pub mod Inserted
pub mod Sample
mod Tests
use paysuper_billing_server.Base.{ℕ, Bool, Option, none, some, List, [], ◌∷◌, if◌then◌else◌}
use paysuper_billing_server.Base.Text.{String, str_eq}
use paysuper_billing_server.Floats.{Floats}
use paysuper_billing_server.Handler.{Result}
use paysuper_billing_server.Response.{Status}

-- A map from texts to texts.
abbrev pub Texts : Type 0
Texts = List (String × String)

abbrev pub lookup_text : String → Texts → Option String
lookup_text k [] = none
lookup_text k ((j, v) ∷ m) = if str_eq j k then some v else lookup_text k m

-- A missing key reads as the empty text.
abbrev pub get_text : String → Texts → String
get_text k m = elim (lookup_text k m) [ none ↦ "" | some v ↦ v ]

-- `PrivateStatus` of an order, as far as the methods name it. The numbers of the others are those
-- of the protocol package.
pub data PrivateStatus : Type 0 where
  new_order project_in_progress payment_system_reject_on_create payment_system_create :
      PrivateStatus
  payment_system_reject payment_system_declined payment_system_canceled payment_system_complete :
      PrivateStatus
  refund_status chargeback_status : PrivateStatus
  other_private : ℕ → PrivateStatus

-- The public status of an order.
pub data PublicStatus : Type 0 where
  created pending processed canceled rejected refunded chargeback : PublicStatus

-- `pkg.RefundStatus…`
pub data RefundStatus : Type 0 where
  refund_created refund_rejected refund_in_progress refund_completed : RefundStatus
  refund_declined refund_canceled : RefundStatus

pub data Message : Type 0 where
  request_signature_is_invalid request_status_is_invalid request_recurring_id_field_is_invalid :
      Message
  request_time_field_is_invalid request_payment_method_is_invalid : Message
  request_amount_or_currency_is_invalid refund_amount_or_currency_is_invalid : Message
  request_temporary_skipped create_refund_failed create_refund_rejected : Message
  handler_not_found order_error_not_found order_error_already_processed : Message
  order_error_payment_system_inactive order_error_payment_method_not_found order_error_unknown :
      Message
  payment_request_incorrect callback_request_incorrect callback_handler_incorrect : Message
  subscription_error subscription_update_failed merchant_error_not_found : Message
  refund_error_unknown refund_error_not_allowed refund_error_already_refunded : Message
  refund_error_payment_amount_less refund_error_not_found refund_error_order_not_found : Message
  refund_error_costs_rates_not_found order_error_vat_payer_unknown : Message

-- A Go error: no such document, a message of the service, any other, or a panic. The
-- last is no error: a loop of the program does not end.
pub data Error : Type 0 where
  panic : Error
  never_ends : Error
  no_documents : Error
  message : Message → Error
  other_error : Error

-- `pkg.Status…`, the status of a notification; a response that no branch has written has the first.
pub data NotifyStatus : Type 0 where
  status_ok status_error_validation status_error_system status_temporary : NotifyStatus

pub record NotifyResponse : Type 0 where
  pub status : NotifyStatus
  pub error : Option Error

pub record Card : Type 0 where
  pub masked : List ℕ
  pub first6 : List ℕ
  pub last4 : List ℕ
  pub expiry_month : String
  pub expiry_year : String
  pub brand : String
  pub secure3d : Bool
  pub fingerprint : String

-- A wallet or an address of a crypto currency.
pub record Account : Type 0 where
  pub brand : String
  pub account : String

pub record Cancellation : Type 0 where
  pub code : String
  pub reason : String

-- `VatPeriodMonth` is given in months.
pub record Country : Type 0 where
  pub iso_code : String
  pub payer_tariff_region : String
  pub vat_enabled : Bool
  pub vat_period_month : ℕ

pub record HttpReply : Type 0 where
  pub status_code : ℕ
  -- `none` if the body cannot be read
  pub body : Option String

-- `CardPayRefundResponse`: the status and the identifier of its refund data, if it has them.
pub record RefundReply : Type 0 where
  pub refund_data : Option (String × String)

module _ (fl : Floats) where
  open fl use {F}

  pub record OrderRefund : Type 0 where
    pub amount : F
    pub currency : String
    pub reason : String
    pub receipt_number : String

  -- The fields of an order that the methods read or write. `external_id` to
  -- `method_refund_allowed`, `secret_callback` and the accounts are of its payment method,
  -- `project_first_payment_at` of its project.
  pub record Order : Type 0 where
    pub id : String
    pub uuid : String
    pub merchant_id : String
    pub private_status : PrivateStatus
    pub status : PublicStatus
    pub type_of : String
    pub product_type : String
    pub is_production : Bool
    pub charge_amount : F
    pub charge_currency : String
    pub order_amount : F
    pub total_payment_amount : F
    pub tax : Option (F × F)
    pub vat_payer : String
    pub country : String
    pub zip : String
    pub state : String
    pub royalty_currency : String
    pub mcc_code : String
    pub operating_company_id : String
    pub external_id : String
    pub payment_system_id : String
    pub method_handler : String
    pub method_name : String
    pub method_refund_allowed : Bool
    pub secret_callback : String
    pub requisites : Texts
    pub txn_params : Texts
    pub payer_account : String
    pub card : Option Card
    pub wallet : Option Account
    pub crypto : Option Account
    pub is_refund_allowed : Bool
    pub cancellation : Option Cancellation
    pub canceled_at : Option ℕ
    pub is_canceled : Bool
    pub transaction : String
    pub closed_at : Option ℕ
    pub created_at : ℕ
    pub updated_at : ℕ
    pub project_first_payment_at : Option ℕ
    pub is_recurring : Bool
    pub recurring_id : String
    pub parent_order : Option (String × String)
    pub parent_payment_at : Option ℕ
    pub royalty_report_id : String
    pub receipt_id : String
    pub receipt_url : String
    pub is_refunded : Bool
    pub refunded_at : Option ℕ
    pub refund : Option OrderRefund
    pub is_vat_deduction : Bool

  pub record Refund : Type 0 where
    pub id : String
    pub original_order_id : String
    pub original_order_uuid : String
    pub amount : F
    pub currency : String
    pub creator_id : String
    pub reason : String
    pub status : RefundStatus
    pub created_at : ℕ
    pub updated_at : ℕ
    pub sales_tax : F
    pub is_chargeback : Bool
    pub external_id : String
    pub created_order_id : String
    pub payer_country : String
    pub payer_zip : String
    pub payer_state : String

  -- A payment callback, as the methods of the protocol package answer for it. A filing or a
  -- subscription that is missing is `none`.
  pub record PaymentCallback : Type 0 where
    pub id : String
    pub status : String
    pub is_payment_allowed_status : Bool
    pub is_recurring : Bool
    pub is_success : Bool
    pub is_recurring_with_filing : Bool
    pub filing_id : Option String
    pub subscription_id : Option String
    pub callback_time : String
    pub payment_method : String
    pub amount : F
    pub currency : String
    pub bank_card_txn_params : Texts
    pub ewallet_txn_params : Texts
    pub crypto_currency_txn_params : Texts

  pub record RefundCallback : Type 0 where
    pub merchant_order_id : Option String
    pub payment_method : String
    pub is_refund_allowed_status : Bool
    pub refund_id : String
    pub refund_amount : F
    pub refund_currency : String
    pub refund_status : String

  pub record Subscription : Type 0 where
    pub id : String
    pub is_active : Bool
    pub last_payment_at : Option ℕ
    pub amount : F
    pub total_amount : F

  pub record Merchant : Type 0 where
    pub id : String
    pub first_payment_at : Option ℕ

  -- What the methods do to the outside. An event is the call; whether it succeeds is answered by
  -- the environment.
  pub data Event : Type 0 where
    order_inserted : Order → Event
    order_updated : Order → Event
    refund_inserted : Refund → Event
    refund_updated : Refund → Event
    merchant_updated : Merchant → Event
    subscription_updated : Subscription → Event
    subscription_deleted : Order → Subscription → Event
    refund_sent : Order → Refund → Event
    key_products_notified : Order → Event
    merchant_notified : Order → Event
    form_notified : Order → Event
    payment_accounted : Order → Event
    refund_accounted : Refund → Order → Event
    receipt_mailed : Order → Event
    card_saved : Order → String → Event
    views_updated : List String → Event

  -- A request for what a refund costs, to the system or to the merchant.
  pub record CostRequest : Type 0 where
    pub name : String
    pub payout_currency : String
    pub region : String
    pub country : String
    pub payment_stage : ℕ
    pub days : ℕ
    pub is_chargeback : Bool
    pub mcc_code : String

  -- The signature, the clock and its texts: what the adapter of the payment system uses.
  pub record Codec : Type 0 where
    -- the hexadecimal SHA-512 of the first text followed by the second
    pub sha512_hex : String → String → String
    -- `time.Parse` with the format of the adapter, and `TimestampProto`
    pub parse_time : String → Option ℕ
    pub timestamp_proto : ℕ → Option ℕ

  -- The repositories, the clock and the other services. Each answer may depend on all that was
  -- done before.
  pub record Env : Type 0 where
    pub codec : Codec
    pub now : List Event → ℕ
    pub new_id : List Event → String
    pub new_uuid : List Event → String
    pub new_receipt_id : List Event → String
    -- `GetPublicStatus` and `NeedCallbackNotification` of an order
    pub public_status : Order → PublicStatus
    pub need_callback_notification : Order → Bool
    -- the receipt links of the configuration, for a refund and for a purchase
    pub receipt_refund_url : String → String → String
    pub receipt_purchase_url : String → String → String
    -- `json.Marshal` and `bcrypt`, whose failure leaves the fingerprint empty
    pub marshal_card : Card → Option String
    pub bcrypt : String → Option String
    -- the bytes of a text
    pub bytes : String → List ℕ
    pub order_by_id : List Event → String → Result Error Order
    pub order_by_uuid_and_merchant : List Event → String → String → Result Error Order
    -- the handler of a payment system
    pub payment_system_by_id : List Event → String → Result Error String
    pub merchant_by_id : List Event → String → Result Error Merchant
    pub country_by_code : List Event → String → Result Error Country
    -- `none` of an answer that is not ok is its message
    pub subscription_by_id : List Event → String → Result Error Subscription
    pub payment_callback_of : String → Option PaymentCallback
    pub refund_callback_of : String → Option RefundCallback
    pub refund_by_id : List Event → String → Result Error Refund
    pub order_by_uuid : List Event → String → Result Error Order
    -- the refunds of an order, with a limit and an offset, and their number
    pub refunds_by_order_uuid : List Event → String → ℕ → ℕ → Result Error (List Refund)
    pub refund_count : List Event → String → Result Error ℕ
    pub refund_amount_by_order : List Event → String → Result Error F
    -- `RefundAllowed` and `GetCostPaymentMethodName` of an order
    pub refund_allowed : Order → Bool
    pub cost_method_name : Order → Option String
    -- the whole days from one time to another, and the reason of a refund that has none
    pub whole_days : ℕ → ℕ → ℕ
    pub default_reason : String → String
    -- the costs of a refund, for the system with the operating company, and for the merchant
    pub system_cost : List Event → String → CostRequest → Result Error (Unit {0})
    pub merchant_cost : List Event → String → CostRequest → Result Error (Unit {0})
    -- the beginning of the last period of VAT reports
    pub last_vat_report_from : List Event → ℕ → Option ℕ
    -- `tools.FormatAmount`, `tools.GetPercentPartFromAmount` and the conversion to float32
    pub format_amount : F → F
    pub percent_part : F → F → F
    pub to_float32 : F → F
    -- `copier.Copy`: whether it can copy the order, and whether the copy has the same tax record
    pub can_copy : Order → Bool
    pub shares_tax : Bool
    -- the request of the adapter for a refund can be made, its reply, and the reply as JSON
    pub can_request_refund : List Event → Order → Refund → Bool
    pub refund_reply : List Event → Option HttpReply
    pub refund_reply_of : String → Option RefundReply
    -- the configured size of a batch of views, and the sources of all accounting entries
    pub batch_size : ℕ
    pub source_ids : List Event → Result Error (List String)
    -- the outcome of an event, when it is the newest of the history
    pub outcome : List Event → Result Error (Unit {0})

  -- A gateway: what the service asks of the adapter of a payment system.
  pub record Gateway : Type 0 where
    pub process_payment :
        ℕ → Order → PaymentCallback → String → String → Order × Option (NotifyStatus × Message)
    pub process_refund :
        ℕ → Order → Refund → RefundCallback → String → String → Refund × Option (Status × Message)
    pub create_refund : Order → Refund → List Event → (Refund × Option Error) × List Event
    pub is_subscription_callback : PaymentCallback → Bool
    pub can_save_card : PaymentCallback → Bool
    pub recurring_id_of : PaymentCallback → String
