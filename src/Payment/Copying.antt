-- ===== src/Payment/Copying.antt =====
-- The order of a refund, a copy of the order that is refunded (createOrderByRefund in
-- internal/service/refund.go).
use paysuper_billing_server.Base.{ℕ, Bool, true, false, none, some, if◌then◌else◌, not, ltb}
use paysuper_billing_server.Base.Text.{String, str_eq}
use paysuper_billing_server.Floats.{Floats}
use paysuper_billing_server.Handler.{
  Handler, ◌>>=◌, ◌>>◌, pure, return_with, ask, return_if, or_return,
}
use paysuper_billing_server.Payment.{
  PrivateStatus, refund_status, chargeback_status, PublicStatus, refunded, chargeback,
  refund_error_unknown, order_error_vat_payer_unknown, Error, panic, message, Country, OrderRefund,
  Order, Refund, Event, order_inserted, Env,
}
use paysuper_billing_server.Payment.Update.{perform, order_type_refund}
use paysuper_billing_server.Payment.Callback.{some_or_return}
use paysuper_billing_server.Payment.Refunding.{vat_payer_buyer, vat_payer_seller, vat_payer_nobody}

abbrev pub undone : Bool → PrivateStatus
undone is_chargeback = if is_chargeback then chargeback_status else refund_status

abbrev pub undone_public : Bool → PublicStatus
undone_public is_chargeback = if is_chargeback then chargeback else refunded

module _ (fl : Floats) (env : Env fl) where
  open fl use {F, sub_f}

  abbrev Inner : Type 0 → Type 0
  Inner A = Handler (Event fl) Error A

  -- Whether the order was paid before the last period of VAT reports.
  unfoldable pub find_vat_deduction : Order fl → Country → Inner Bool
  find_vat_deduction order country = elim country.vat_enabled [
    | false ↦ pure false
    | true ↦ do
      start ← ask (λ h. env.last_vat_report_from h country.vat_period_month)
      from ← some_or_return start (message refund_error_unknown)
      paid_at ← some_or_return order.closed_at (message refund_error_unknown)
      pure (ltb paid_at from)
  ]

  -- The amounts by who pays the VAT. Without a tax record the call is cut off.
  unfoldable pub settle_vat : Refund fl → Order fl → Inner (Order fl)
  settle_vat refund order =
      if str_eq order.vat_payer vat_payer_buyer
      then elim order.tax [
        | none ↦ return_with panic
        | some (rate, amount) ↦ pure (record order {
          order_amount = env.format_amount (sub_f order.total_payment_amount amount);
        })
      ]
      else if str_eq order.vat_payer vat_payer_seller
      then elim order.tax [
        | none ↦ return_with panic
        | some (rate, amount) ↦ pure (record order {
          tax = some (rate, env.format_amount (env.percent_part refund.amount rate));
        })
      ]
      else if str_eq order.vat_payer vat_payer_nobody
      then pure order
      else return_with (message order_error_vat_payer_unknown)

  abbrev pub refund_record : F → String → Refund fl → OrderRefund fl
  refund_record amount currency refund = record {
    amount = amount;
    currency = currency;
    reason = refund.reason;
    receipt_number = refund.id;
  }

  -- The order of a refund, as a copy of the order that is refunded.
  abbrev pub refunding_order : Refund fl → Order fl → String → String → ℕ → Bool → Order fl
  refunding_order refund order id uuid now is_vat_deduction = record order {
    id = id;
    uuid = uuid;
    type_of = order_type_refund;
    private_status = undone refund.is_chargeback;
    status = undone_public refund.is_chargeback;
    created_at = now;
    updated_at = now;
    refunded_at = some now;
    is_refund_allowed = false;
    is_refunded = true;
    refund = some (refund_record refund.amount refund.currency refund);
    parent_order = some (order.id, order.uuid);
    is_vat_deduction = is_vat_deduction;
    parent_payment_at = order.closed_at;
    royalty_report_id = "";
    charge_amount = refund.amount;
  }

  -- What stands in the way of a copy of the order, or whether its VAT is deducted.
  unfoldable pub check_copy : Order fl → Inner Bool
  unfolding find_vat_deduction
  check_copy order = do
    return_if (not (env.can_copy order)) (message refund_error_unknown)
    known ← ask (λ h. env.country_by_code h order.country)
    country ← or_return known (λ _. message refund_error_unknown)
    find_vat_deduction order country

  unfoldable pub fill_copy : Order fl → Refund fl → Bool → Inner (Order fl)
  unfolding settle_vat
  fill_copy order refund is_vat_deduction = do
    id ← ask env.new_id
    uuid ← ask env.new_uuid
    now ← ask env.now
    settle_vat refund (refunding_order refund order id uuid now is_vat_deduction)

  -- The order of the refund, but for its receipt.
  unfoldable pub prepare_order : Order fl → Refund fl → Inner (Order fl)
  unfolding check_copy fill_copy
  prepare_order order refund = do
    is_vat_deduction ← check_copy order
    fill_copy order refund is_vat_deduction

  abbrev pub with_receipt_id : String → Order fl → Order fl
  with_receipt_id receipt_id order = record order {
    receipt_id = receipt_id;
    receipt_url = env.receipt_refund_url order.uuid receipt_id;
  }

  unfoldable pub create_order_by_refund : Order fl → Refund fl → Inner (Order fl)
  unfolding prepare_order
  create_order_by_refund order refund = do
    copy ← prepare_order order refund
    receipt_id ← ask env.new_receipt_id
    inserted ← perform fl env (order_inserted (with_receipt_id receipt_id copy))
    or_return inserted (λ _. message refund_error_unknown)
    pure (with_receipt_id receipt_id copy)
