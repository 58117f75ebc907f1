-- ===== src/Accounting/Costs.antt =====
-- The costs that the entries of an event are computed with (getPaymentChannelCost… and
-- getMoneyBackCost… in internal/service/accounting_entry.go).
use paysuper_billing_server.Base.{none, some, List, if◌then◌else◌}
use paysuper_billing_server.Base.Int.{pos}
use paysuper_billing_server.Base.Text.{String, str_eq}
use paysuper_billing_server.Floats.{Floats}
use paysuper_billing_server.Handler.{Result, ok, err}
use paysuper_billing_server.Accounting.{
  merchant_commission_not_found, system_commission_not_found, Error, message, Country, Order,
  Refund, ChannelCostMerchant, ChannelCostSystem, MoneyBackCost, CostRequest, Event, Env,
}
use paysuper_billing_server.Accounting.Build.{Basis}

module _ (fl : Floats) (env : Env fl) (h : List (Event fl)) (basis : Basis fl) where
  open fl use {F, zero_f}

  -- The first text that is not empty.
  abbrev first_of : String → String → String
  first_of s t = if str_eq s "" then t else s

  unfoldable pub get_mcc_code : String
  get_mcc_code =
      first_of (elim basis.refund_order [ none ↦ "" | some o ↦ o.mcc_code ])
        (first_of (elim basis.order [ none ↦ "" | some o ↦ o.mcc_code ])
          (elim basis.merchant [ none ↦ "" | some m ↦ m.mcc_code ]))

  unfoldable pub get_operating_company_id : String
  get_operating_company_id =
      first_of (elim basis.refund_order [ none ↦ "" | some o ↦ o.operating_company_id ])
        (first_of (elim basis.order [ none ↦ "" | some o ↦ o.operating_company_id ])
          (elim basis.merchant [ none ↦ "" | some m ↦ m.operating_company_id ]))

  -- A request for the costs of a payment method, in the country of the event.
  abbrev cost_request : Order fl → Country → String → CostRequest fl
  unfolding get_mcc_code get_operating_company_id
  cost_request order country name = record {
    merchant_id = "";
    name = name;
    payout_currency = "";
    region = country.payer_tariff_region;
    country = country.iso_code;
    mcc_code = get_mcc_code;
    operating_company_id = "";
    amount = zero_f;
    undo_reason = "";
    payment_stage = 0;
    days = pos 0;
  }

  unfoldable pub get_payment_channel_cost_system :
      Order fl → Country → Result Error (ChannelCostSystem fl)
  unfolding get_mcc_code get_operating_company_id
  get_payment_channel_cost_system order country = elim (env.cost_method_name order) [
    | err e ↦ err e
    | ok name ↦
        elim (env.channel_cost_system h (record (cost_request order country name) {
          operating_company_id = get_operating_company_id;
        })) [ err e ↦ err (message system_commission_not_found) | ok cost ↦ ok cost ]
  ]

  unfoldable pub get_payment_channel_cost_merchant :
      Order fl → Country → F → Result Error (ChannelCostMerchant fl)
  unfolding get_mcc_code get_operating_company_id
  get_payment_channel_cost_merchant order country amount = elim (env.cost_method_name order) [
    | err e ↦ err e
    | ok name ↦
        elim (env.channel_cost_merchant h (record (cost_request order country name) {
          merchant_id = order.merchant_id;
          payout_currency = order.royalty_currency;
          amount = amount;
        })) [ err e ↦ err (message merchant_commission_not_found) | ok cost ↦ ok cost ]
  ]

  -- The days from the payment to the refund are counted for the first stage.
  abbrev money_back_request : Order fl → Refund fl → Country → String → String → CostRequest fl
  money_back_request order refund country reason name = record (cost_request order country name) {
    payout_currency = order.royalty_currency;
    undo_reason = reason;
    payment_stage = 1;
    days = env.whole_days order.closed_at refund.created_at;
  }

  unfoldable pub get_money_back_cost_merchant :
      Order fl → Refund fl → Country → String → Result Error (MoneyBackCost fl)
  unfolding get_mcc_code get_operating_company_id
  get_money_back_cost_merchant order refund country reason = elim (env.cost_method_name order) [
    | err e ↦ err e
    | ok name ↦
        env.money_back_cost_merchant h
          (record (money_back_request order refund country reason name) {
            merchant_id = order.merchant_id;
          })
  ]

  unfoldable pub get_money_back_cost_system :
      Order fl → Refund fl → Country → String → Result Error (MoneyBackCost fl)
  unfolding get_mcc_code get_operating_company_id
  get_money_back_cost_system order refund country reason = elim (env.cost_method_name order) [
    | err e ↦ err e
    | ok name ↦
        env.money_back_cost_system h (record (money_back_request order refund country reason name) {
          operating_company_id = get_operating_company_id;
        })
  ]
