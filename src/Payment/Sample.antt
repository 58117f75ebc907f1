-- ===== src/Payment/Sample.antt =====
-- Concrete orders, refunds and callbacks for the methods of payment (internal/service/order.go,
-- refund.go and internal/payment_system/cardpay.go). Amounts are whole numbers.
use paysuper_billing_server.Base.{ℕ, ◌-◌, true, false, none, some, []}
use paysuper_billing_server.Base.Text.{String}
use paysuper_billing_server.Handler.{ok, err}
use paysuper_billing_server.Settlement.Sample.{whole}
use paysuper_billing_server.Payment.{
  PrivateStatus, project_in_progress, payment_system_complete, new_order,
  payment_system_reject_on_create, payment_system_create, payment_system_reject,
  payment_system_declined, payment_system_canceled, refund_status, chargeback_status, other_private,
  pending, processed, canceled, rejected, refunded, chargeback, PublicStatus, refund_created,
  no_documents, Country, Order, Refund, PaymentCallback, RefundCallback, Merchant, Env, Gateway,
}
use paysuper_billing_server.Payment.Sending.{cardpay}
use paysuper_billing_server.Payment.Callback.{NotifyRequest}
use paysuper_billing_server.Payment.Refunding.{CreateRefundRequest, CallbackRequest}

abbrev pub order_with : PrivateStatus → Order whole
order_with status = record {
  id = "o";
  uuid = "u";
  merchant_id = "m";
  private_status = status;
  status = pending;
  type_of = "order";
  product_type = "";
  is_production = false;
  charge_amount = 10;
  charge_currency = "EUR";
  order_amount = 0;
  total_payment_amount = 0;
  tax = none;
  vat_payer = "nobody";
  country = "";
  zip = "";
  state = "";
  royalty_currency = "";
  mcc_code = "";
  operating_company_id = "";
  external_id = "BITCOIN";
  payment_system_id = "p";
  method_handler = "cardpay";
  method_name = "";
  method_refund_allowed = true;
  secret_callback = "s";
  requisites = [];
  txn_params = [];
  payer_account = "";
  card = none;
  wallet = none;
  crypto = none;
  is_refund_allowed = false;
  cancellation = none;
  canceled_at = none;
  is_canceled = false;
  transaction = "";
  closed_at = some 5;
  created_at = 0;
  updated_at = 0;
  project_first_payment_at = none;
  is_recurring = false;
  recurring_id = "";
  parent_order = none;
  parent_payment_at = none;
  royalty_report_id = "";
  receipt_id = "";
  receipt_url = "";
  is_refunded = false;
  refunded_at = none;
  refund = none;
  is_vat_deduction = false;
}

abbrev pub refund_of : String → Refund whole
refund_of created = record {
  id = "r";
  original_order_id = "o";
  original_order_uuid = "u";
  amount = 10;
  currency = "EUR";
  creator_id = "";
  reason = "";
  status = refund_created;
  created_at = 0;
  updated_at = 0;
  sales_tax = 0;
  is_chargeback = false;
  external_id = "";
  created_order_id = created;
  payer_country = "";
  payer_zip = "";
  payer_state = "";
}

abbrev pub payment_of : PaymentCallback whole
payment_of = record {
  id = "t";
  status = "COMPLETED";
  is_payment_allowed_status = true;
  is_recurring = false;
  is_success = true;
  is_recurring_with_filing = false;
  filing_id = none;
  subscription_id = none;
  callback_time = "5";
  payment_method = "BITCOIN";
  amount = 10;
  currency = "EUR";
  bank_card_txn_params = [];
  ewallet_txn_params = [];
  crypto_currency_txn_params = [];
}

abbrev pub refunding_of : RefundCallback whole
refunding_of = record {
  merchant_order_id = some "r";
  payment_method = "BITCOIN";
  is_refund_allowed_status = true;
  refund_id = "x";
  refund_amount = 10;
  refund_currency = "EUR";
  refund_status = "COMPLETED";
}

abbrev pub country : Country
country = record {
  iso_code = "DE";
  payer_tariff_region = "europe";
  vat_enabled = false;
  vat_period_month = 3;
}

abbrev pub merchant : Merchant whole
merchant = record { id = "m"; first_payment_at = none }

abbrev public_status_of : Order whole → PublicStatus
public_status_of order = elim order.private_status [
  | payment_system_complete ↦ processed
  | new_order ↦ pending
  | project_in_progress ↦ pending
  | payment_system_reject_on_create ↦ rejected
  | payment_system_create ↦ pending
  | payment_system_reject ↦ rejected
  | payment_system_declined ↦ rejected
  | payment_system_canceled ↦ canceled
  | refund_status ↦ refunded
  | chargeback_status ↦ chargeback
  | other_private n ↦ pending
]

-- One order and one refund, with a signature that is the secret, and no failures.
abbrev pub env_with : PrivateStatus → ℕ → String → Env whole
env_with status refunded_amount created = record {
  codec = record {
    sha512_hex = λ raw secret. secret;
    parse_time = λ t. some 5;
    timestamp_proto = λ t. some t;
  };
  now = λ h. 9;
  new_id = λ h. "new";
  new_uuid = λ h. "new-uuid";
  new_receipt_id = λ h. "receipt";
  public_status = public_status_of;
  need_callback_notification = λ o. false;
  receipt_refund_url = λ u r. u;
  receipt_purchase_url = λ u r. u;
  marshal_card = λ c. none;
  bcrypt = λ b. none;
  bytes = λ s. [];
  order_by_id = λ h id. ok (order_with status);
  order_by_uuid_and_merchant = λ h u m. ok (order_with status);
  payment_system_by_id = λ h id. ok "cardpay";
  merchant_by_id = λ h id. ok merchant;
  country_by_code = λ h c. ok country;
  subscription_by_id = λ h id. err no_documents;
  payment_callback_of = λ b. some payment_of;
  refund_callback_of = λ b. some refunding_of;
  refund_by_id = λ h id. ok (refund_of created);
  order_by_uuid = λ h u. ok (order_with status);
  refunds_by_order_uuid = λ h u l o. ok [];
  refund_count = λ h u. ok 0;
  refund_amount_by_order = λ h id. ok refunded_amount;
  refund_allowed = λ o. true;
  cost_method_name = λ o. some "bitcoin";
  whole_days = λ a b. b - a;
  default_reason = λ id. id;
  system_cost = λ h c r. ok tt;
  merchant_cost = λ h m r. ok tt;
  last_vat_report_from = λ h n. none;
  format_amount = λ a. a;
  percent_part = λ a r. a;
  to_float32 = λ a. a;
  can_copy = λ o. true;
  shares_tax = false;
  can_request_refund = λ h o r. true;
  refund_reply = λ h. some (record { status_code = 201; body = some "{}" });
  refund_reply_of = λ b. some (record { refund_data = some ("COMPLETED", "x") });
  batch_size = 2;
  source_ids = λ h. ok [];
  outcome = λ h. ok tt;
}

abbrev pub paying : Env whole
paying = env_with project_in_progress 0 ""

abbrev pub refunding : Env whole
refunding = env_with payment_system_complete 0 ""

abbrev pub mocks : String → Gateway whole
mocks name = cardpay whole paying

abbrev pub notify_with : String → NotifyRequest
notify_with signature = record { order_id = "o"; request = "{}"; signature = signature }

abbrev pub callback_with : String → CallbackRequest
callback_with signature = record { handler = "cardpay"; body = "{}"; signature = signature }

abbrev pub refund_request : CreateRefundRequest
refund_request = record {
  order_id = "u";
  merchant_id = "m";
  creator_id = "c";
  reason = "";
  is_chargeback = false;
}
