-- ===== src/Payment/Refunding.antt =====
-- Refunds of orders: their making (CreateRefund with its processor) and their reading (GetRefund) in
-- internal/service/refund.go.
use paysuper_billing_server.Base.{
  ℕ, Bool, true, false, Option, none, some, List, [], if◌then◌else◌, not,
}
use paysuper_billing_server.Base.Text.{String, str_eq, is_set}
use paysuper_billing_server.Floats.{Floats}
use paysuper_billing_server.Response.{Status}
use paysuper_billing_server.Handler.{
  next, Result, ok, err, Handler, ◌>>=◌, ◌>>◌, pure, return_with, ask, return_if, or_return,
  try_call,
}
use paysuper_billing_server.Payment.{
  PrivateStatus, refund_status, refund_created, refund_completed, RefundStatus, Message,
  handler_not_found, order_error_unknown, refund_error_unknown, refund_error_not_allowed,
  refund_error_already_refunded, refund_error_payment_amount_less, refund_error_not_found,
  refund_error_costs_rates_not_found, Error, panic, Country, Order, Refund, CostRequest, Event,
  refund_inserted, refund_updated, Env, Gateway,
}
use paysuper_billing_server.Payment.Update.{perform}
use paysuper_billing_server.Payment.Callback.{get_gateway, some_or_return}

-- `billingpb.VatPayer…`
abbrev pub vat_payer_buyer : String
vat_payer_buyer = "buyer"

abbrev pub vat_payer_seller : String
vat_payer_seller = "seller"

abbrev pub vat_payer_nobody : String
vat_payer_nobody = "nobody"

abbrev pub is_refund : PrivateStatus → Bool
is_refund refund_status = true
is_refund s = false

abbrev pub is_refund_completed : RefundStatus → Bool
is_refund_completed refund_completed = true
is_refund_completed s = false

abbrev pub is_panic : Option Error → Bool
is_panic (some panic) = true
is_panic e = false

-- A request for a refund, and the answer with its status, its message and the refund.
pub record CreateRefundRequest : Type 0 where
  pub order_id : String
  pub merchant_id : String
  pub creator_id : String
  pub reason : String
  pub is_chargeback : Bool

pub record GetRefundRequest : Type 0 where
  pub order_id : String
  pub merchant_id : String
  pub refund_id : String

pub record CallbackRequest : Type 0 where
  pub handler : String
  pub body : String
  pub signature : String

pub record ListRequest : Type 0 where
  pub order_id : String
  pub merchant_id : String
  pub limit : ℕ
  pub offset : ℕ

-- A failure of the processor: the status and the message of the answer.
abbrev pub Failure : Type 0
Failure = Status × Message

module _ (fl : Floats) where
  pub record RefundResponse : Type 0 where
    pub status : Status
    pub message_of : Option Message
    pub item : Option (Refund fl)

  abbrev pub refused : Status → Message → RefundResponse
  refused status m = record { status = status; message_of = some m; item = none }

  abbrev pub answered : Refund fl → RefundResponse
  answered refund = record { status = Status.ok; message_of = none; item = some refund }

module _ (fl : Floats) (env : Env fl) (mocks : String → Gateway fl) where
  open fl use {less_f, zero_f}

  -- `createRefundProcessor`
  abbrev Processing : Type 0 → Type 0
  Processing A = Handler (Event fl) Failure A

  unfoldable pub process_order : CreateRefundRequest → Processing (Order fl)
  process_order req = do
    found ← ask (λ h. env.order_by_uuid_and_merchant h req.order_id req.merchant_id)
    order ← or_return found (λ _. (Status.not_found, refund_error_not_found))
    return_if (is_refund order.private_status) (Status.bad_data, refund_error_already_refunded)
    return_if (not (env.refund_allowed order)) (Status.bad_data, refund_error_not_allowed)
    pure order

  unfoldable pub process_refunds_by_order : Order fl → Processing (Unit {0})
  process_refunds_by_order order = do
    found ← ask (λ h. env.refund_amount_by_order h order.id)
    refunded_amount ← or_return found (λ _. (Status.bad_data, refund_error_unknown))
    return_if (less_f zero_f refunded_amount) (Status.bad_data, refund_error_payment_amount_less)

  -- Both requests for costs are the same, but for who is asked. An order that is not closed has
  -- the time zero.
  abbrev cost_request : Bool → Order fl → Country → String → ℕ → CostRequest fl
  cost_request is_chargeback order country name now = record {
    name = name;
    payout_currency = order.royalty_currency;
    region = country.payer_tariff_region;
    country = country.iso_code;
    payment_stage = 1;
    days = env.whole_days (elim order.closed_at [ none ↦ 0 | some t ↦ t ]) now;
    is_chargeback = is_chargeback;
    mcc_code = order.mcc_code;
  }

  abbrev no_costs : Failure
  no_costs = (Status.bad_data, refund_error_costs_rates_not_found)

  unfoldable pub has_money_back_costs : CreateRefundRequest → Order fl → Processing (Unit {0})
  has_money_back_costs req order = do
    found ← ask (λ h. env.country_by_code h order.country)
    country ← or_return found (λ _. no_costs)
    name ← some_or_return (env.cost_method_name order) no_costs
    now ← ask env.now
    let data1 = cost_request req.is_chargeback order country name now
    system ← ask (λ h. env.system_cost h order.operating_company_id data1)
    or_return system (λ _. no_costs)
    merchant ← ask (λ h. env.merchant_cost h order.merchant_id data1)
    or_return merchant (λ _. no_costs)

  abbrev new_refund : CreateRefundRequest → Order fl → String → ℕ → Refund fl
  new_refund req order id now = record {
    id = id;
    original_order_id = order.id;
    original_order_uuid = order.uuid;
    amount = order.charge_amount;
    currency = order.charge_currency;
    creator_id = req.creator_id;
    reason = if is_set req.reason then req.reason else env.default_reason order.id;
    status = refund_created;
    created_at = now;
    updated_at = now;
    sales_tax = elim order.tax [ none ↦ zero_f | some (rate, amount) ↦ env.to_float32 amount ];
    is_chargeback = req.is_chargeback;
    external_id = "";
    created_order_id = "";
    payer_country = order.country;
    payer_zip = order.zip;
    payer_state = order.state;
  }

  unfoldable pub insert_refund : CreateRefundRequest → Order fl → Processing (Order fl × Refund fl)
  insert_refund req order = do
    id ← ask env.new_id
    now ← ask env.now
    let refund = new_refund req order id now
    inserted ← perform fl env (refund_inserted refund)
    or_return inserted (λ _. (Status.bad_data, order_error_unknown))
    pure (order, refund)

  unfoldable pub process_create_refund : CreateRefundRequest → Processing (Order fl × Refund fl)
  unfolding process_order process_refunds_by_order has_money_back_costs insert_refund
  process_create_refund req = do
    order ← process_order req
    has_money_back_costs req order
    process_refunds_by_order order
    insert_refund req order

  -- The answer of a method, unless it is cut off by a fault.
  abbrev Method : Type 0 → Type 0
  Method A = Handler (Event fl) (Result Error (RefundResponse fl)) A

  abbrev refuse : Status → Message → Result Error (RefundResponse fl)
  refuse status m = ok (refused fl status m)

  abbrev asked : Result Failure (Order fl × Refund fl) → Method (Order fl × Refund fl)
  asked (ok x) = pure x
  asked (err (status, m)) = return_with (refuse status m)

  -- A call of the gateway, which answers and goes on.
  abbrev call : {A : Type 0} → (List (Event fl) → A × List (Event fl)) → Method A
  call f h = let (a, h') = f h in (next a, h')

  -- A refund is stored with what the gateway makes of it, also where the gateway refuses it.
  unfoldable pub store_refund :
      Order fl → Refund fl → Gateway fl → Method (Result Error (RefundResponse fl))
  store_refund order refund gateway = do
    (refund', failure) ← call (gateway.create_refund order refund)
    return_if (is_panic failure) (err panic)
    updated ← perform fl env (refund_updated refund')
    or_return updated (λ _. refuse Status.bad_data order_error_unknown)
    pure (elim failure [
      | none ↦ ok (answered fl refund')
      | some e ↦ refuse Status.bad_data refund_error_unknown
    ])

  unfoldable pub send_refund : Order fl × Refund fl → Method (Result Error (RefundResponse fl))
  unfolding store_refund
  send_refund (order, refund) = do
    gateway ←
        some_or_return (get_gateway fl env mocks order.method_handler)
          (refuse Status.bad_data handler_not_found)
    store_refund order refund gateway

  unfoldable pub create_refund : CreateRefundRequest → Method (Result Error (RefundResponse fl))
  unfolding process_create_refund send_refund
  create_refund req = do
    processed ← try_call (process_create_refund req)
    made ← asked processed
    send_refund made

  unfoldable pub get_refund : GetRefundRequest → Method (Result Error (RefundResponse fl))
  get_refund req = do
    order ← ask (λ h. env.order_by_uuid_and_merchant h req.order_id req.merchant_id)
    owned ← or_return order (λ _. refuse Status.not_found refund_error_not_found)
    found ← ask (λ h. env.refund_by_id h req.refund_id)
    refund ← or_return found (λ _. refuse Status.not_found refund_error_not_found)
    pure (ok (answered fl refund))

  -- The list of the refunds of an order: what is missing is left out of the answer.
  unfoldable pub list_refunds :
      ListRequest → Handler (Event fl) (ℕ × List (Refund fl)) (ℕ × List (Refund fl))
  list_refunds req = do
    found ← ask (λ h. env.order_by_uuid h req.order_id)
    order ← or_return found (λ _. (0, []))
    return_if (not (str_eq order.merchant_id req.merchant_id)) (0, [])
    listed ← ask (λ h. env.refunds_by_order_uuid h req.order_id req.limit req.offset)
    refunds ← or_return listed (λ _. (0, []))
    counted ← ask (λ h. env.refund_count h req.order_id)
    count ← or_return counted (λ _. (0, []))
    pure (count, refunds)
