-- ===== src/Accounting/Fix.antt =====
-- The amounts of tax entries computed again (FixTaxes and exchangeCurrencyByDateCommon in
-- internal/service/accounting_entry.go).
use paysuper_billing_server.Base.{Bool, true, false, none, some, List, [], ◌∷◌, if◌then◌else◌, ◌||◌}
use paysuper_billing_server.Base.Text.{String, str_eq}
use paysuper_billing_server.Floats.{Floats}
use paysuper_billing_server.Handler.{
  Handler, Result, ok, err, ◌>>=◌, ◌>>◌, pure, ask, return_if, or_return,
}
use paysuper_billing_server.Accounting.{
  exchange_failed, RateType, paysuper_rate, central_banks_rate, oxr_rate, buy, Error, panic,
  message, other_error, Country, Entry, Order, ExchangeRequest, Event, entries_rewritten, Env,
}
use paysuper_billing_server.Accounting.Save.{do_to}

module _ (fl : Floats) (env : Env fl) where
  open fl use {F, zero_f, eq_f}

  -- What becomes of an entry: it is passed over, as it is or with some fields written already, or
  -- it is fixed. An entry with no source panics.
  pub data Fixing : Type 0 where
    failed : Entry fl → Fixing
    fixed : Entry fl → Fixing
    crashed : Fixing

  unfoldable pub exchange_currency_by_date : List (Event fl) → ExchangeRequest fl → Result Error F
  exchange_currency_by_date h req =
      if eq_f req.amount zero_f || str_eq req.from req.to
      then ok req.amount
      else elim (env.exchange h req) [ ok a ↦ ok a | err e ↦ err (message exchange_failed) ]

  -- A purchase of a currency, at the time that an order was closed.
  abbrev pub purchase : Order fl → String → String → RateType → String → F → ExchangeRequest fl
  purchase order from to rate source amount = record {
    from = from;
    to = to;
    rate_type = rate;
    direction = buy;
    rate_source = source;
    merchant_id = none;
    amount = amount;
    datetime = order.closed_at;
  }

  abbrev rate_of : Country → RateType
  rate_of country = if country.vat_enabled then central_banks_rate else oxr_rate

  abbrev rate_source_of : Country → String
  rate_source_of country = if country.vat_enabled then country.vat_currency_rates_source else ""

  unfoldable pub fix_local : List (Event fl) → Order fl → Country → Entry fl → Fixing
  unfolding exchange_currency_by_date
  fix_local h order country ae =
      if str_eq ae.local_currency ae.original_currency
      then fixed (record ae { local_amount = ae.original_amount })
      else elim (exchange_currency_by_date h (
          purchase order ae.original_currency ae.local_currency (rate_of country)
            (rate_source_of country) ae.original_amount)) [
              | err e ↦ failed ae
              | ok amount ↦ fixed (record ae { local_amount = amount })
            ]

  unfoldable pub fix_in : List (Event fl) → Order fl → Entry fl → Result Error Country → Fixing
  unfolding fix_local
  fix_in h order ae (err e) = failed ae
  fix_in h order ae (ok country) = fix_local h order country ae

  -- The amount of an exchange that fails is zero, and it is assigned before the error is looked at.
  unfoldable pub fix_with : List (Event fl) → Order fl → Entry fl → Result Error F → Fixing
  unfolding fix_in
  fix_with h order ae (err e) = failed (record ae { amount = zero_f })
  fix_with h order ae (ok amount) =
      fix_in h order
        (record ae {
          amount = amount;
          original_amount = env.tax_in_charge_currency order;
          original_currency = order.charge_currency;
        })
        (env.country_by_code h ae.country)

  unfoldable pub tax_exchange : List (Event fl) → Order fl → Entry fl → Result Error F
  unfolding exchange_currency_by_date
  tax_exchange h order ae = exchange_currency_by_date h (
      purchase order order.charge_currency ae.currency paysuper_rate ""
        (env.tax_in_charge_currency order))

  unfoldable pub fix_amounts : List (Event fl) → Order fl → Entry fl → Fixing
  unfolding fix_with tax_exchange
  fix_amounts h order ae = fix_with h order ae (tax_exchange h order ae)

  unfoldable pub fix_found : List (Event fl) → Entry fl → Result Error (Order fl) → Fixing
  unfolding fix_amounts
  fix_found h ae (err e) = failed ae
  fix_found h ae (ok order) = fix_amounts h order ae

  unfoldable pub fix_entry : List (Event fl) → Entry fl → Fixing
  unfolding fix_found
  fix_entry h ae = elim ae.source [
    | none ↦ crashed
    | some (_, id) ↦ fix_found h ae (env.order_by_id h id)
  ]

  -- All entries as they are after the loop, those that are fixed, and whether there were errors.
  pub record Fixed : Type 0 where
    pub entries : List (Entry fl)
    pub list : List (Entry fl)
    pub has_errors : Bool

  abbrev pub add_fixing : Fixing → Fixed → Result Error Fixed
  add_fixing crashed rest = err panic
  add_fixing (failed ae) rest =
      ok (record { entries = ae ∷ rest.entries; list = rest.list; has_errors = true })
  add_fixing (fixed ae) rest =
      ok (record {
        entries = ae ∷ rest.entries;
        list = ae ∷ rest.list;
        has_errors = rest.has_errors;
      })

  unfoldable pub fix_all : List (Event fl) → List (Entry fl) → Result Error Fixed
  unfolding fix_entry
  fix_all h [] = ok (record { entries = []; list = []; has_errors = false })
  fix_all h (ae ∷ aes) = elim (fix_all h aes) [
    | err e ↦ err e
    | ok rest ↦ add_fixing (fix_entry h ae) rest
  ]

  -- Nothing is written where no entry was fixed; otherwise all the entries are written.
  unfoldable pub write_fixed : List (Entry fl) → Fixed → Handler (Event fl) Error (Unit {0})
  write_fixed [] after = pure tt
  write_fixed (_ ∷ _) after = do
    do_to (λ e. e) (entries_rewritten after.entries) env
    return_if after.has_errors other_error

  unfoldable pub fix_taxes : Handler (Event fl) Error (Unit {0})
  unfolding fix_all write_fixed
  fix_taxes = do
    found ← ask env.entries_with_taxes
    aes ← or_return found (λ e. e)
    all ← ask (λ h. fix_all h aes)
    after ← or_return all (λ e. e)
    write_fixed after.list after
