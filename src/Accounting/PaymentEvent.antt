-- ===== src/Accounting/PaymentEvent.antt =====
-- The entries of a payment (processPaymentEvent in internal/service/accounting_entry.go), in the
-- segments of their numbers. What a segment answers is what the later ones read.
use paysuper_billing_server.Base.{none, some, List, if◌then◌else◌}
use paysuper_billing_server.Base.Text.{String}
use paysuper_billing_server.Floats.{Floats}
use paysuper_billing_server.Handler.{Result, ok, err}
use paysuper_billing_server.Accounting.{
  real_gross_revenue, ps_gross_revenue_fx, real_tax_fee, central_bank_tax_fee,
  ps_gross_revenue_fx_tax_fee, merchant_tax_fee_cost_value, merchant_tax_fee_central_bank_fx,
  ps_method_fee, merchant_method_fee, merchant_method_fee_cost_value, merchant_method_fixed_fee,
  real_merchant_method_fixed_fee, real_merchant_method_fixed_fee_cost_value, merchant_ps_fixed_fee,
  real_merchant_ps_fixed_fee, EntryType, of_order, already_created, Error, message, Country, Entry,
  Order, ChannelCostMerchant, ChannelCostSystem, Event, Env,
}
use paysuper_billing_server.Accounting.Add.{add_entry}
use paysuper_billing_server.Accounting.Build.{
  Basis, Build, pure, lift, ◌>>=◌, some_or_panic, new_entry, get_exchange_ps_common,
  get_exchange_stock_common, get_exchange_ps_merchant, get_exchange_cb_common,
}
use paysuper_billing_server.Accounting.Costs.{
  get_payment_channel_cost_merchant, get_payment_channel_cost_system,
}

module _ (fl : Floats) (env : Env fl) (h : List (Event fl)) (basis : Basis fl) where
  open fl use {F, zero_f, less_f, sub_f, mul_f}

  unfoldable pub add_amount : EntryType → F → Build fl (Entry fl)
  add_amount t amount =
      add_entry fl env h basis (record (new_entry fl env h basis t) { amount = amount })

  -- An amount with the original one that it is exchanged from.
  unfoldable pub add_charged : EntryType → F → String → F → Build fl (Entry fl)
  add_charged t original currency amount =
      add_entry fl env h basis (record (new_entry fl env h basis t) {
        amount = amount;
        original_amount = original;
        original_currency = currency;
      })

  -- The rate of the tax of an order, which is read where it has none too.
  unfoldable pub tax_part : Order fl → F → Result Error F
  tax_part order amount = elim order.tax_rate [
    | none ↦ some_or_panic none
    | some rate ↦ ok (env.percent_part amount rate)
  ]

  -- 1 to 3: the real gross revenue, which is answered, and its taxes.
  unfoldable pub revenue : Order fl → Build fl (Entry fl)
  revenue order =
      lift fl
        (get_exchange_ps_common fl env h basis order order.charge_currency order.charge_amount)
      >>= λ gross.
          add_charged real_gross_revenue order.charge_amount order.charge_currency gross
          >>= λ real_gross.
              lift fl (
                get_exchange_ps_common fl env h basis order order.charge_currency
                  (env.tax_in_charge_currency order))
              >>= λ tax.
                  add_charged real_tax_fee (env.tax_in_charge_currency order) order.charge_currency
                    tax
                  >>= λ _. add_amount central_bank_tax_fee zero_f >>= λ _. pure fl real_gross

  -- 5 and 6: what the merchant's rates differ by, which is answered, and the tax of it.
  unfoldable pub revenue_fx : Order fl → Entry fl → Build fl (Entry fl)
  revenue_fx order real_gross =
      lift fl
        (get_exchange_ps_merchant fl env h basis order order.charge_currency order.charge_amount)
      >>= λ amount. add_amount ps_gross_revenue_fx (sub_f amount real_gross.amount) >>= λ fx.
          lift fl (tax_part order fx.amount) >>= λ tax.
          add_amount ps_gross_revenue_fx_tax_fee tax >>= λ _. pure fl fx

  abbrev not_negative : F → F
  not_negative a = if less_f a zero_f then zero_f else a

  -- What the tax gains by way of the central bank and the stock, in the merchant's currency.
  unfoldable pub central_bank_gain : Order fl → Country → F → Result Error F
  central_bank_gain order country amount =
      elim (get_exchange_cb_common fl env h basis country order.royalty_currency amount) [
        | err e ↦ err e
        | ok in_vat ↦
            elim (get_exchange_stock_common fl env h basis order (env.vat_currency_code country)
              in_vat) [ err e ↦ err e | ok back ↦ ok (sub_f back amount) ]
      ]

  -- It is not negative, and only for a country with VAT.
  unfoldable pub tax_fx : Order fl → Country → F → Result Error F
  unfolding central_bank_gain
  tax_fx order country cost =
      if country.vat_enabled
      then elim (central_bank_gain order country cost) [
        | err e ↦ err e
        | ok gain ↦ ok (not_negative gain)
      ]
      else ok zero_f

  -- 9 and 10: the merchant's tax.
  unfoldable pub merchant_tax : Order fl → Country → F → Build fl (Entry fl)
  merchant_tax order country merchant_gross = lift fl (tax_part order merchant_gross) >>= λ tax.
      add_amount merchant_tax_fee_cost_value tax >>= λ cost.
      lift fl (tax_fx order country cost.amount) >>= λ fx.
      add_amount merchant_tax_fee_central_bank_fx fx

  -- 12 to 14: the shares of the revenue.
  unfoldable pub method_fees :
      Entry fl → F → ChannelCostMerchant fl → ChannelCostSystem fl → Build fl (Entry fl)
  method_fees real_gross merchant_gross cost system =
      add_amount ps_method_fee (mul_f merchant_gross cost.ps_percent) >>= λ _.
      add_amount merchant_method_fee (mul_f merchant_gross cost.method_percent) >>= λ _.
      add_amount merchant_method_fee_cost_value (mul_f real_gross.amount system.percent)

  -- A fixed fee, at the merchant's rates or at the common ones.
  unfoldable pub fixed_fee : EntryType → Result Error F → Build fl (Entry fl)
  fixed_fee t exchanged = lift fl exchanged >>= λ amount. add_amount t amount

  -- 16 to 22: the fixed fees.
  unfoldable pub fixed_fees :
      Order fl → ChannelCostMerchant fl → ChannelCostSystem fl → Build fl (Entry fl)
  unfolding fixed_fee
  fixed_fees order cost system =
      fixed_fee merchant_method_fixed_fee (
        get_exchange_ps_merchant fl env h basis order cost.method_fix_amount_currency
          cost.method_fix_amount)
      >>= λ _.
          fixed_fee real_merchant_method_fixed_fee (
            get_exchange_ps_common fl env h basis order cost.method_fix_amount_currency
              cost.method_fix_amount)
          >>= λ _.
              fixed_fee real_merchant_method_fixed_fee_cost_value (
                get_exchange_ps_common fl env h basis order system.fix_amount_currency
                  system.fix_amount)
              >>= λ _.
                  fixed_fee merchant_ps_fixed_fee (
                    get_exchange_ps_merchant fl env h basis order cost.ps_fixed_fee_currency
                      cost.ps_fixed_fee)
                  >>= λ _. fixed_fee real_merchant_ps_fixed_fee (
                      get_exchange_ps_common fl env h basis order cost.ps_fixed_fee_currency
                        cost.ps_fixed_fee)

  -- All but the look for entries of the order.
  unfoldable pub payment_entries : Order fl → Country → Build fl (Entry fl)
  unfolding revenue revenue_fx merchant_tax method_fees fixed_fees
  payment_entries order country = revenue order >>= λ real_gross.
      revenue_fx order real_gross >>= λ fx.
      merchant_tax order country (sub_f real_gross.amount fx.amount) >>= λ _.
      lift fl (get_payment_channel_cost_merchant fl env h basis order country real_gross.amount)
      >>= λ cost.
          lift fl (get_payment_channel_cost_system fl env h basis order country) >>= λ system.
          method_fees real_gross (sub_f real_gross.amount fx.amount) cost system >>= λ _.
          fixed_fees order cost system

  -- An error of the look is not told from no entry.
  abbrev pub unless_found : {A : Type 0} → Result Error (Entry fl) → Build fl A → Build fl A
  unless_found (ok found) m = lift fl (err (message already_created))
  unless_found (err e) m = m

  unfoldable pub process_payment_event : Order fl → Country → Build fl (Entry fl)
  unfolding payment_entries
  process_payment_event order country =
      unless_found (env.entry_by_source h of_order order.id) (payment_entries order country)
