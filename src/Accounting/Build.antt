-- ===== src/Accounting/Build.antt =====
-- How the entries of an event are built: a new entry, and the currency service (newEntry and
-- GetExchange… in internal/service/accounting_entry.go).
use paysuper_billing_server.Base.{ℕ, Option, none, some, List, if◌then◌else◌, ◌||◌}
use paysuper_billing_server.Base.Text.{String, str_eq}
use paysuper_billing_server.Floats.{Floats}
use paysuper_billing_server.Handler.{Result, ok, err}
use paysuper_billing_server.Accounting.{
  EntryType, SourceType, of_order, of_refund, of_merchant, exchange_failed, Error, panic, message,
  RateType, paysuper_rate, stock_rate, central_banks_rate, Direction, buy, sell, Country, Entry,
  Order, Refund, Merchant, ExchangeRequest, Event, Env,
}

module _ (fl : Floats) where
  -- What the entries are built of (`accountingEntry`).
  pub record Basis : Type 0 where
    pub order : Option (Order fl)
    pub refund : Option (Refund fl)
    pub refund_order : Option (Order fl)
    pub merchant : Option (Merchant fl)
    pub country : Option Country
    pub datetime : Option ℕ

  -- A step that may fail or add entries. Nothing is done to the outside.
  abbrev pub Build : Type 0 → Type 0
  Build A = List (Entry fl) → Result Error (A × List (Entry fl))

  unfoldable pub pure : {A : Type 0} → A → Build A
  pure a es = ok (a, es)

  unfoldable pub lift : {A : Type 0} → Result Error A → Build A
  lift (ok a) es = ok (a, es)
  lift (err e) es = err e

module _ {fl : Floats} {A B : Type 0} where
  abbrev pub continue :
      (A → Build fl B) → Result Error (A × List (Entry fl)) → Result Error (B × List (Entry fl))
  continue f (ok (a, es)) = f a es
  continue f (err e) = err e

  infixl 5 ◌>>=◌ ◌>>◌
  unfoldable pub ◌>>=◌ : Build fl A → (A → Build fl B) → Build fl B
  unfolding pure lift
  ◌>>=◌ m f es = continue f (m es)

  abbrev pub ◌>>◌ : Build fl A → Build fl B → Build fl B
  m >> k = m >>= λ _. k

abbrev pub some_or_panic : {A : Type 0} → Option A → Result Error A
some_or_panic (some a) = ok a
some_or_panic none = err panic

module _ (fl : Floats) (env : Env fl) (h : List (Event fl)) (basis : Basis fl) where
  open fl use {F, zero_f, eq_f, less_f, sub_f}

  abbrev sources_of : Option (Order fl) → Option (Merchant fl) → Option (SourceType × String)
  sources_of (some order) m = some (of_order, order.id)
  sources_of none (some merchant) = some (of_merchant, merchant.id)
  sources_of none none = none

  abbrev source_of : Option (Refund fl) → Option (SourceType × String)
  source_of (some refund) = some (of_refund, refund.created_order_id)
  source_of none = sources_of basis.order basis.merchant

  abbrev blank : EntryType → Entry fl
  blank t = record {
    id = env.new_id h t;
    type_of = t;
    source = source_of basis.refund;
    merchant_id = "";
    status = "available";
    created_at = some (env.now h);
    country = elim basis.country [ none ↦ "" | some c ↦ c.iso_code ];
    currency = "";
    amount = zero_f;
    original_amount = zero_f;
    original_currency = "";
    local_amount = zero_f;
    local_currency = "";
    amount_rounded = zero_f;
    original_amount_rounded = zero_f;
    local_amount_rounded = zero_f;
    reason = "";
    operating_company_id = "";
  }

  -- The fields that an entry has of its order.
  abbrev with_order : Option (Order fl) → Entry fl → Entry fl
  with_order none entry = entry
  with_order (some order) entry = record entry {
    created_at = order.closed_at;
    merchant_id = order.merchant_id;
    currency = order.royalty_currency;
    operating_company_id = order.operating_company_id;
  }

  abbrev with_merchant : Option (Merchant fl) → Entry fl → Entry fl
  with_merchant none entry = entry
  with_merchant (some merchant) entry = record entry {
    merchant_id = merchant.id;
    currency = merchant.payout_currency;
    operating_company_id = merchant.operating_company_id;
  }

  abbrev with_basis : Option (Refund fl) → Option (Order fl) → Entry fl → Entry fl
  with_basis (some refund) order entry = with_order basis.refund_order entry
  with_basis none (some order) entry = with_order (some order) entry
  with_basis none none entry = with_merchant basis.merchant entry

  unfoldable pub new_entry : EntryType → Entry fl
  new_entry t = with_basis basis.refund basis.order (blank t)

  -- A request at the time of the event.
  unfoldable pub get_exchange : ExchangeRequest fl → Result Error F
  get_exchange req =
      if eq_f req.amount zero_f || str_eq req.from req.to
      then ok req.amount
      else elim (env.exchange h (record req { datetime = basis.datetime })) [
        | ok a ↦ ok a
        | err e ↦ err (message exchange_failed)
      ]

  abbrev pub exchange_request :
      String → String → RateType → Direction → String → Option String → F → ExchangeRequest fl
  exchange_request from to rate direction source merchant amount = record {
    from = from;
    to = to;
    rate_type = rate;
    direction = direction;
    rate_source = source;
    merchant_id = merchant;
    amount = amount;
    datetime = none;
  }

  unfoldable pub get_exchange_ps_common : Order fl → String → F → Result Error F
  unfolding get_exchange
  get_exchange_ps_common order from amount =
      let to = order.royalty_currency in
      if str_eq to from
      then ok amount
      else get_exchange (exchange_request from to paysuper_rate buy "" none amount)

  unfoldable pub get_exchange_stock_common : Order fl → String → F → Result Error F
  unfolding get_exchange
  get_exchange_stock_common order from amount =
      let to = order.royalty_currency in
      if str_eq to from
      then ok amount
      else get_exchange (exchange_request from to stock_rate sell "" none amount)

  unfoldable pub get_exchange_ps_merchant : Order fl → String → F → Result Error F
  unfolding get_exchange
  get_exchange_ps_merchant order from amount =
      let to = order.royalty_currency in
      if str_eq to from
      then ok amount
      else get_exchange
          (exchange_request from to paysuper_rate sell "" (some order.merchant_id) amount)

  unfoldable pub get_exchange_cb_common : Country → String → F → Result Error F
  unfolding get_exchange
  get_exchange_cb_common country from amount =
      let to = env.vat_currency_code country in
      if str_eq to from
      then ok amount
      else get_exchange (
          exchange_request from to central_banks_rate sell country.vat_currency_rates_source none
            amount)
