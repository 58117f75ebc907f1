-- ===== src/Accounting/Paid.antt =====
-- What the entries of a payment are (processPaymentEvent in internal/service/accounting_entry.go).
use paysuper_billing_server.Base.{false, none, some, List, [], ◌∷◌, ◌++◌, ◌≡◌, refl, arith}
use paysuper_billing_server.Floats.{Floats}
use paysuper_billing_server.Handler.{Result, ok, err}
use paysuper_billing_server.Accounting.{
  real_gross_revenue, ps_gross_revenue_fx, real_tax_fee, central_bank_tax_fee,
  ps_gross_revenue_fx_tax_fee, merchant_tax_fee_cost_value, merchant_tax_fee_central_bank_fx,
  ps_method_fee, merchant_method_fee, merchant_method_fee_cost_value, merchant_method_fixed_fee,
  real_merchant_method_fixed_fee, real_merchant_method_fixed_fee_cost_value, merchant_ps_fixed_fee,
  real_merchant_ps_fixed_fee, EntryType, of_order, Error, Country, Entry, Order, Merchant,
  ChannelCostMerchant, ChannelCostSystem, Event, Env,
}
use paysuper_billing_server.Accounting.Build.{Basis, Build, new_entry, lift}
use paysuper_billing_server.Accounting.Adds.{
  Stamp, stamp, Adds, Adds-pure, Adds-bind-lift, Adds-bind,
}
use paysuper_billing_server.Accounting.Adding.{Adding-amount, Adding-charged, Adding-fixed}
use paysuper_billing_server.Accounting.PaymentEvent.{
  add_amount, revenue, revenue_fx, tax_fx, merchant_tax, method_fees, fixed_fee, fixed_fees,
  payment_entries, unless_found, process_payment_event,
}

abbrev pub revenue_types : List EntryType
revenue_types = real_gross_revenue ∷ real_tax_fee ∷ central_bank_tax_fee ∷ []

abbrev pub fx_types : List EntryType
fx_types = ps_gross_revenue_fx ∷ ps_gross_revenue_fx_tax_fee ∷ []

abbrev pub tax_types : List EntryType
tax_types = merchant_tax_fee_cost_value ∷ merchant_tax_fee_central_bank_fx ∷ []

abbrev pub fee_types : List EntryType
fee_types = ps_method_fee ∷ merchant_method_fee ∷ merchant_method_fee_cost_value ∷ []

abbrev pub fixed_types : List EntryType
fixed_types =
    merchant_method_fixed_fee ∷ real_merchant_method_fixed_fee
    ∷ real_merchant_method_fixed_fee_cost_value ∷ merchant_ps_fixed_fee ∷ real_merchant_ps_fixed_fee
    ∷ []

-- The types of the entries of a payment, in the order that they are written in.
abbrev pub payment_types : List EntryType
payment_types = revenue_types ++ (fx_types ++ (tax_types ++ (fee_types ++ fixed_types)))

module _ (fl : Floats) where
  open fl use {F, zero_f, less_f}

  -- An order's entry is the order's, its merchant's and its company's, at its closing.
  abbrev pub order_stamp : Order fl → EntryType → Stamp fl
  order_stamp order t = record {
    type_of = t;
    source = some (of_order, order.id);
    merchant_id = order.merchant_id;
    operating_company_id = order.operating_company_id;
    created_at = order.closed_at;
  }

  -- The gain by way of the central bank is not negative. Of other amounts nothing is asked.
  abbrev pub GainIsNotNegative : EntryType → F → Type 0
  GainIsNotNegative merchant_tax_fee_central_bank_fx a = less_f a zero_f ≡ false
  GainIsNotNegative t a = Unit

  -- Rounding to a precision makes no amount negative.
  abbrev pub KeepsSign : (F → F) → Type 0
  KeepsSign f =
      (less_f zero_f zero_f ≡ false)
      × ((a : F) → less_f a zero_f ≡ false → less_f (f a) zero_f ≡ false)

  abbrev pub payment_basis : Order fl → Merchant fl → Country → Basis fl
  payment_basis order merchant country = record {
    order = some order;
    refund = none;
    refund_order = none;
    merchant = some merchant;
    country = some country;
    datetime = order.closed_at;
  }

module _ (fl : Floats) (env : Env fl) (h : List (Event fl)) (order : Order fl)
    (merchant : Merchant fl) (country : Country) (keeps : KeepsSign fl env.to_precise) where
  open fl use {F, zero_f, less_f}

  abbrev basis : Basis fl
  basis = payment_basis fl order merchant country

  abbrev Adding : {A : Type 0} → List EntryType → Build fl A → Type 0
  Adding ts m = Adds (order_stamp fl order) (GainIsNotNegative fl) ts m

  typed : (t : EntryType) → (new_entry fl env h basis t).type_of ≡ t
  unfolding new_entry
  typed t = refl

  stamped : (t : EntryType) → stamp fl (new_entry fl env h basis t) ≡ order_stamp fl order t
  unfolding new_entry
  stamped t = refl

  add_amount-Adds :
      (t : EntryType) (a : F)
      → GainIsNotNegative fl t (env.to_precise a)
      → Adding (t ∷ []) (add_amount fl env h basis t a)
  add_amount-Adds = Adding-amount fl env h basis _ _ typed stamped

  fixed_fee-Adds :
      (t : EntryType) (r : Result Error F)
      → ((a : F) → GainIsNotNegative fl t a)
      → Adding (t ∷ []) (fixed_fee fl env h basis t r)
  fixed_fee-Adds = Adding-fixed fl env h basis _ _ typed stamped

  tax_fx-not_negative :
      (cost : F) {a : F}
      → tax_fx fl env h basis order country cost ≡ ok a
      → less_f (env.to_precise a) zero_f ≡ false
  unfolding tax_fx
  tax_fx-not_negative cost {a} q = keeps.1 a (ground (arith, keeps.0))

  revenue-Adds : Adding revenue_types (revenue fl env h basis order)
  unfolding revenue
  revenue-Adds = Adds-bind-lift _ _ λ gross _.
      Adds-bind _ _
        (Adding-charged fl env h basis _ _ typed stamped real_gross_revenue _ _ gross tt)
        λ real_gross. Adds-bind-lift _ _ λ tax _.
          Adds-bind _ _ (Adding-charged fl env h basis _ _ typed stamped real_tax_fee _ _ tax tt)
            λ _.
              Adds-bind _ _ (add_amount-Adds central_bank_tax_fee zero_f tt)
                λ _. Adds-pure real_gross

  revenue_fx-Adds :
      (real_gross : Entry fl) → Adding fx_types (revenue_fx fl env h basis order real_gross)
  unfolding revenue_fx
  revenue_fx-Adds real_gross = Adds-bind-lift _ _ λ amount _.
      Adds-bind _ _ (add_amount-Adds ps_gross_revenue_fx _ tt) λ fx. Adds-bind-lift _ _ λ tax _.
        Adds-bind _ _ (add_amount-Adds ps_gross_revenue_fx_tax_fee tax tt) λ _. Adds-pure fx

  merchant_tax-Adds :
      (gross : F) → Adding tax_types (merchant_tax fl env h basis order country gross)
  unfolding merchant_tax
  merchant_tax-Adds gross = Adds-bind-lift _ _ λ tax _.
      Adds-bind _ _ (add_amount-Adds merchant_tax_fee_cost_value tax tt) λ cost.
        Adds-bind-lift _ _ λ fx q.
          add_amount-Adds merchant_tax_fee_central_bank_fx fx (tax_fx-not_negative cost.amount q)

  method_fees-Adds :
      (real_gross : Entry fl) (gross : F) (cost : ChannelCostMerchant fl)
      (system : ChannelCostSystem fl)
      → Adding fee_types (method_fees fl env h basis real_gross gross cost system)
  unfolding method_fees
  method_fees-Adds real_gross gross cost system =
      Adds-bind _ _ (add_amount-Adds ps_method_fee _ tt) λ _.
        Adds-bind _ _ (add_amount-Adds merchant_method_fee _ tt)
          λ _. add_amount-Adds merchant_method_fee_cost_value _ tt

  fixed_fees-Adds :
      (cost : ChannelCostMerchant fl) (system : ChannelCostSystem fl)
      → Adding fixed_types (fixed_fees fl env h basis order cost system)
  unfolding fixed_fees
  fixed_fees-Adds cost system =
      Adds-bind _ _ (fixed_fee-Adds merchant_method_fixed_fee _ λ _. tt) λ _.
        Adds-bind _ _ (fixed_fee-Adds real_merchant_method_fixed_fee _ λ _. tt) λ _.
          Adds-bind _ _ (fixed_fee-Adds real_merchant_method_fixed_fee_cost_value _ λ _. tt) λ _.
            Adds-bind _ _ (fixed_fee-Adds merchant_ps_fixed_fee _ λ _. tt)
              λ _. fixed_fee-Adds real_merchant_ps_fixed_fee _ λ _. tt

  payment_entries-Adds : Adding payment_types (payment_entries fl env h basis order country)
  unfolding payment_entries
  payment_entries-Adds = Adds-bind _ _ revenue-Adds λ real_gross.
      Adds-bind _ _ (revenue_fx-Adds real_gross) λ fx. Adds-bind _ _ (merchant_tax-Adds _) λ _.
        Adds-bind-lift _ _ λ cost _. Adds-bind-lift _ _ λ system _.
          Adds-bind _ _ (method_fees-Adds real_gross _ cost system) λ _. fixed_fees-Adds cost system

  unless_found-Adds :
      {A : Type 0} {m : Build fl A} (r : Result Error (Entry fl))
      → Adding payment_types m
      → Adding payment_types (unless_found fl env h basis r m)
  unfolding lift
  unless_found-Adds (ok found) adds = record { at = λ s q. ground (arith) }
  unless_found-Adds (err e) adds = adds

  pub process_payment_event-Adds :
      Adding payment_types (process_payment_event fl env h basis order country)
  unfolding process_payment_event
  process_payment_event-Adds = unless_found-Adds _ payment_entries-Adds
