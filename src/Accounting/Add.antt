-- ===== src/Accounting/Add.antt =====
-- An entry is checked, completed and added (addEntry in internal/service/accounting_entry.go).
use paysuper_billing_server.Base.{none, some, List, [], ◌∷◌, ◌++◌, if◌then◌else◌, not, ◌&&◌}
use paysuper_billing_server.Base.Text.{String, str_eq}
use paysuper_billing_server.Floats.{Floats}
use paysuper_billing_server.Handler.{Result, ok, err}
use paysuper_billing_server.Accounting.{
  is_available, unknown_entry, invalid_source_id, vat_currency_not_set, round_failed, Error, panic,
  message, RateType, central_banks_rate, oxr_rate, buy, Country, Entry, Event, Env,
}
use paysuper_billing_server.Accounting.Build.{Basis, Build, exchange_request, get_exchange}

module _ (fl : Floats) (env : Env fl) (h : List (Event fl)) (basis : Basis fl) where
  open fl use {F, zero_f, eq_f}

  -- The original amount is the amount, where it is not given.
  abbrev pub with_original : Entry fl → Entry fl
  with_original entry =
      if eq_f entry.original_amount zero_f && str_eq entry.original_currency ""
      then record entry { original_amount = entry.amount; original_currency = entry.currency }
      else entry

  -- The currency of the country, with the rate and its source.
  abbrev local_rate : Country → Result Error (String × (RateType × String))
  local_rate country =
      if country.vat_enabled
      then if str_eq country.vat_currency ""
        then err (message vat_currency_not_set)
        else ok (country.vat_currency, (central_banks_rate, country.vat_currency_rates_source))
      else elim (env.price_group_currency h country.price_group_id) [
        | err e ↦ err e
        | ok currency ↦ ok (currency, (oxr_rate, ""))
      ]

  -- A request with no amount is not made, and the local amount stays zero.
  abbrev local_amount : Entry fl → String → RateType → String → Result Error F
  local_amount entry currency rate source =
      if str_eq currency entry.original_currency
      then ok entry.original_amount
      else if eq_f entry.original_amount zero_f
      then ok entry.local_amount
      else get_exchange fl env h basis (
          exchange_request fl env h basis entry.original_currency currency rate buy source none
            entry.original_amount)

  -- An entry with a country is built of one.
  abbrev fill_local : Entry fl → Result Error (Entry fl)
  fill_local entry = elim basis.country [
    | none ↦ err panic
    | some country ↦ elim (local_rate country) [
      | err e ↦ err e
      | ok (currency, (rate, source)) ↦ elim (local_amount entry currency rate source) [
        | err e ↦ err e
        | ok amount ↦ ok (record entry { local_currency = currency; local_amount = amount })
      ]
    ]
  ]

  unfoldable pub with_local : Entry fl → Result Error (Entry fl)
  unfolding get_exchange
  with_local entry =
      if eq_f entry.local_amount zero_f
        && (str_eq entry.local_currency "" && not (str_eq entry.country ""))
      then fill_local entry
      else ok entry

  abbrev pub precise : Entry fl → Entry fl
  precise entry = record entry {
    amount = env.to_precise entry.amount;
    original_amount = env.to_precise entry.original_amount;
    local_amount = env.to_precise entry.local_amount;
  }

  abbrev round_one : List (Entry fl) → Entry fl → F → Result Error F
  round_one es entry amount = elim (env.round h es entry.merchant_id amount) [
    | none ↦ err (message round_failed)
    | some a ↦ ok a
  ]

  unfoldable pub with_rounded : List (Entry fl) → Entry fl → Result Error (Entry fl)
  with_rounded es entry = elim (round_one es entry entry.amount) [
    | err e ↦ err e
    | ok a ↦ elim (round_one es entry entry.original_amount) [
      | err e ↦ err e
      | ok b ↦ elim (round_one es entry entry.local_amount) [
        | err e ↦ err e
        | ok c ↦ ok (record entry {
          amount_rounded = a;
          original_amount_rounded = b;
          local_amount_rounded = c;
        })
      ]
    ]
  ]

  abbrev pub check_entry : Entry fl → Result Error (Unit {0})
  check_entry entry =
      if not (is_available entry.type_of) then err (message unknown_entry) else elim entry.source [
        | none ↦ err panic
        | some (t, id) ↦ if str_eq id "" then err (message invalid_source_id) else ok tt
      ]

  unfoldable pub finish_entry : List (Entry fl) → Entry fl → Result Error (Entry fl)
  unfolding with_local with_rounded
  finish_entry es entry0 = elim (check_entry entry0) [
    | err e ↦ err e
    | ok _ ↦ elim (with_local (with_original entry0)) [
      | err e ↦ err e
      | ok entry ↦ with_rounded es (precise entry)
    ]
  ]

  -- The answer is the entry as it is added: the code reads its precise amount afterwards.
  unfoldable pub add_entry : Entry fl → Build fl (Entry fl)
  unfolding finish_entry
  add_entry entry es = elim (finish_entry es entry) [
    | err e ↦ err e
    | ok entry' ↦ ok (entry', es ++ entry' ∷ [])
  ]
