-- ===== src/Accounting/Refunded.antt =====
-- What the entries of a refund are (processRefundEvent in internal/service/accounting_entry.go).
use paysuper_billing_server.Base.{
  Bool, true, false, some, List, [], ◌∷◌, ◌++◌, ◌≡◌, refl, arith, inl, inr, ◌&&◌, Bool-cases,
}
use paysuper_billing_server.Floats.{Floats}
use paysuper_billing_server.Handler.{ok, Result-cases}
use paysuper_billing_server.Accounting.{
  real_refund, real_refund_tax_fee, real_refund_fee, real_refund_fixed_fee, merchant_refund,
  merchant_refund_fee, merchant_refund_fixed_fee_cost_value, merchant_refund_fixed_fee,
  reverse_tax_fee, reverse_tax_fee_delta, ps_reverse_tax_fee_delta, EntryType, of_refund, Country,
  Entry, Order, Refund, Merchant, MoneyBackCost, Event, Env,
}
use paysuper_billing_server.Accounting.Build.{Basis, Build, new_entry}
use paysuper_billing_server.Accounting.Adds.{
  Stamp, stamp, Adds, Adds-pure, Adds-bind-lift, Adds-bind,
}
use paysuper_billing_server.Accounting.Paid.{KeepsSign}
use paysuper_billing_server.Accounting.Adding.{
  Adding-new, Adding-amount, Adding-charged, Adding-fixed,
}
use paysuper_billing_server.Accounting.PaymentEvent.{add_amount, tax_part, central_bank_gain}
use paysuper_billing_server.Accounting.RefundEvent.{
  refunded_tax, add_refunded_tax, real_refund_entries, merchant_refund_entries, reverse_tax,
  split_delta, delta_amounts, add_deltas, refund_entries, process_refund_event,
}

abbrev pub real_refund_types : List EntryType
real_refund_types = real_refund ∷ real_refund_tax_fee ∷ real_refund_fee ∷ real_refund_fixed_fee ∷ []

abbrev pub merchant_refund_types : List EntryType
merchant_refund_types =
    merchant_refund ∷ merchant_refund_fee ∷ merchant_refund_fixed_fee_cost_value
    ∷ merchant_refund_fixed_fee ∷ []

abbrev pub reverse_types : List EntryType
reverse_types = reverse_tax_fee ∷ reverse_tax_fee_delta ∷ ps_reverse_tax_fee_delta ∷ []

-- The types of the entries of a refund, in the order that they are written in.
abbrev pub refund_types : List EntryType
refund_types = real_refund_types ++ (merchant_refund_types ++ reverse_types)

module _ (fl : Floats) where
  open fl use {F, zero_f, less_f, mul_f}

  -- A refund's entry is of the order that the refund created, of its merchant and its company, at
  -- its closing.
  abbrev pub refund_stamp : Refund fl → Order fl → EntryType → Stamp fl
  refund_stamp refund refund_order t = record {
    type_of = t;
    source = some (of_refund, refund.created_order_id);
    merchant_id = refund_order.merchant_id;
    operating_company_id = refund_order.operating_company_id;
    created_at = refund_order.closed_at;
  }

  -- The two deltas are not negative. Of other amounts nothing is asked.
  abbrev pub DeltaIsNotNegative : EntryType → F → Type 0
  DeltaIsNotNegative reverse_tax_fee_delta a = less_f a zero_f ≡ false
  DeltaIsNotNegative ps_reverse_tax_fee_delta a = less_f a zero_f ≡ false
  DeltaIsNotNegative t a = Unit

  -- A negative number times minus one is not negative.
  abbrev pub Negates : F → Type 0
  Negates m = (a : F) → less_f a zero_f ≡ true → less_f (mul_f m a) zero_f ≡ false

  abbrev pub refund_basis : Order fl → Order fl → Refund fl → Merchant fl → Country → Basis fl
  refund_basis order refund_order refund merchant country = record {
    order = some order;
    refund = some refund;
    refund_order = some refund_order;
    merchant = some merchant;
    country = some country;
    datetime = refund_order.closed_at;
  }

module _ (fl : Floats) (env : Env fl) (h : List (Event fl)) (order refund_order : Order fl)
    (refund : Refund fl) (merchant : Merchant fl) (country : Country)
    (keeps : KeepsSign fl env.to_precise) (negates : Negates fl env.minus_one) where
  open fl use {F, zero_f, less_f, sub_f, mul_f}

  abbrev basis : Basis fl
  basis = refund_basis fl order refund_order refund merchant country

  abbrev Adding : {A : Type 0} → List EntryType → Build fl A → Type 0
  Adding ts m = Adds (refund_stamp fl refund refund_order) (DeltaIsNotNegative fl) ts m

  typed : (t : EntryType) → (new_entry fl env h basis t).type_of ≡ t
  unfolding new_entry
  typed t = refl

  stamped :
      (t : EntryType)
      → stamp fl (new_entry fl env h basis t) ≡ refund_stamp fl refund refund_order t
  unfolding new_entry
  stamped t = refl

  add_amount-Adds :
      (t : EntryType) (a : F)
      → DeltaIsNotNegative fl t (env.to_precise a)
      → Adding (t ∷ []) (add_amount fl env h basis t a)
  add_amount-Adds = Adding-amount fl env h basis _ _ typed stamped

  refunded_tax-stamp :
      (tax : Entry fl) (part : F)
      → stamp fl (refunded_tax fl env h basis refund_order tax part)
        ≡ stamp fl (new_entry fl env h basis real_refund_tax_fee)
  refunded_tax-stamp tax part = ground (arith)

  add_refunded_tax-Adds :
      (part : F)
      → Adding (real_refund_tax_fee ∷ []) (add_refunded_tax fl env h basis order refund_order part)
  unfolding add_refunded_tax
  add_refunded_tax-Adds part = Adds-bind-lift _ _ λ tax _.
      Adding-new fl env h basis _ _ typed stamped real_refund_tax_fee _
        (refunded_tax-stamp tax part) tt

  real_refund_entries-Adds :
      (system : MoneyBackCost fl)
      → Adding real_refund_types
          (real_refund_entries fl env h basis order refund_order refund system)
  unfolding real_refund_entries
  real_refund_entries-Adds system = Adds-bind-lift _ _ λ amount _.
      Adds-bind _ _ (Adding-charged fl env h basis _ _ typed stamped real_refund _ _ amount tt)
        λ real. Adds-bind _ _ (add_refunded_tax-Adds _) λ _.
          Adds-bind _ _ (add_amount-Adds real_refund_fee _ tt)
            λ _. Adding-fixed fl env h basis _ _ typed stamped real_refund_fixed_fee _ λ _. tt

  merchant_refund_entries-Adds :
      (cost : MoneyBackCost fl)
      → Adding merchant_refund_types (merchant_refund_entries fl env h basis order refund cost)
  unfolding merchant_refund_entries
  merchant_refund_entries-Adds cost = Adds-bind-lift _ _ λ amount _.
      Adds-bind _ _ (add_amount-Adds merchant_refund amount tt) λ refunded.
        Adds-bind-lift _ _ λ fee _. Adds-bind _ _ (add_amount-Adds merchant_refund_fee fee tt) λ _.
          Adds-bind-lift _ _ λ cost_value _. Adds-bind-lift _ _ λ fixed _.
            Adds-bind _ _ (add_amount-Adds merchant_refund_fixed_fee_cost_value cost_value tt) λ _.
              Adds-bind _ _ (add_amount-Adds merchant_refund_fixed_fee fixed tt)
                λ _. Adds-pure refunded

  reverse_tax-Adds :
      (vat : Bool) (part : F)
      → Adding
          (reverse_tax_fee ∷ [])
          (reverse_tax fl env h basis order (record country { vat_enabled = vat }) part)
  unfolding reverse_tax
  reverse_tax-Adds true part = Adds-bind-lift _ _ λ cost _. Adds-bind-lift _ _ λ fx _.
      Adds-bind _ _ (Adding-new fl env h basis _ _ typed stamped reverse_tax_fee _ refl tt)
        λ _. Adds-pure fx.amount
  reverse_tax-Adds false part =
      Adds-bind _ _ (Adding-new fl env h basis _ _ typed stamped reverse_tax_fee _ refl tt)
        λ _. Adds-pure zero_f

  -- Of the two amounts none is negative.
  split_delta-not_negative :
      (r : F)
      → (less_f (env.to_precise (split_delta fl env h basis r).0) zero_f ≡ false)
        × (less_f (env.to_precise (split_delta fl env h basis r).1) zero_f ≡ false)
  unfolding split_delta
  split_delta-not_negative r =
      let zero_kept = keeps.1 zero_f keeps.0 in
      elim (Bool-cases (less_f r zero_f)) [
        | inl p ↦ let negated = keeps.1 (mul_f env.minus_one r) (negates r p) in ground (arith)
        | inr p ↦ let kept = keeps.1 r p in ground (arith)
      ]

  delta_amounts-not_negative :
      (refunded gain : F) {d : F × F}
      → delta_amounts fl env h basis order country refunded gain ≡ ok d
      → (less_f (env.to_precise d.0) zero_f ≡ false) × (less_f (env.to_precise d.1) zero_f ≡ false)
  unfolding delta_amounts
  delta_amounts-not_negative refunded gain q =
      let zero_kept = keeps.1 zero_f keeps.0 in
      elim (Bool-cases (country.vat_enabled && less_f zero_f gain)) [
        | inr p ↦ ground (arith)
        | inl p ↦ elim (Result-cases (tax_part fl env h basis order refunded)) [
          | inr (e, r) ↦ ground (arith)
          | inl (restored, r) ↦
              elim (Result-cases (central_bank_gain fl env h basis order country restored)) [
                | inr (e, g) ↦ ground (arith)
                | inl (new_gain, g) ↦
                    let n = split_delta-not_negative (sub_f gain new_gain) in ground (arith)
              ]
        ]
      ]

  add_deltas-Adds :
      (refunded gain : F)
      → Adding
          (reverse_tax_fee_delta ∷ ps_reverse_tax_fee_delta ∷ [])
          (add_deltas fl env h basis order country refunded gain)
  unfolding add_deltas
  add_deltas-Adds refunded gain = Adds-bind-lift _ _ λ deltas q.
      let n = delta_amounts-not_negative refunded gain q in
      Adds-bind _ _ (add_amount-Adds reverse_tax_fee_delta deltas.0 n.0)
        λ _. add_amount-Adds ps_reverse_tax_fee_delta deltas.1 n.1

  refund_entries-Adds :
      (cost system : MoneyBackCost fl)
      → Adding refund_types
          (refund_entries fl env h basis order refund_order refund country cost system)
  unfolding refund_entries
  refund_entries-Adds cost system = Adds-bind _ _ (real_refund_entries-Adds system) λ _.
      Adds-bind _ _ (merchant_refund_entries-Adds cost) λ refunded.
        Adds-bind _ _ (reverse_tax-Adds country.vat_enabled _)
          λ gain. add_deltas-Adds refunded.amount gain

  pub process_refund_event-Adds :
      Adding refund_types (process_refund_event fl env h basis order refund_order refund country)
  unfolding process_refund_event
  process_refund_event-Adds = Adds-bind-lift _ _ λ _ _. Adds-bind-lift _ _ λ cost _.
      Adds-bind-lift _ _ λ system _. Adds-bind-lift _ _ λ _ _. refund_entries-Adds cost system
