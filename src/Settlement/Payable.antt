-- ===== src/Settlement/Payable.antt =====
-- When a payout document is made, and what it takes (createPayoutDocument in
-- internal/service/payouts.go).
use paysuper_billing_server.Base.{
  ℕ, ◌≡◌, inl, inr, arith, Option-cases, false, Option, some, List, [], ◌∷◌,
}
use paysuper_billing_server.Base.Text.{String}
use paysuper_billing_server.Floats.{Floats}
use paysuper_billing_server.Handler.{next, Step-cases}
use paysuper_billing_server.Settlement.{
  Error, Payout, Merchant, MerchantBalance, Event, payout_inserted, Env,
}
use paysuper_billing_server.Settlement.Balance.{get_merchant_balance}
use paysuper_billing_server.Settlement.Sources.{
  get_payout_document_sources, royalty_report_set_payout_document_id,
}
use paysuper_billing_server.Settlement.Create.{
  CreateRequest, CreateResponse, build_payout, check_amount, create_payout_document, finish_payout,
  store_payout, tariff_minimal, answer_ok,
}
use paysuper_billing_server.Settlement.Record.{reports_written, update_merchant_balance-reports}
use paysuper_billing_server.Settlement.Money.{get_merchant_balance-keeps}

module _ (fl : Floats) (env : Env fl) where
  open fl use {F, zero_f, sub_f, less_f, le_f}

  get_payout_document_sources-keeps :
      (merchant : Merchant fl) (h : List (Event fl))
      → (get_payout_document_sources fl env merchant h).1 ≡ h
  unfolding get_payout_document_sources
  get_payout_document_sources-keeps merchant h = ground (arith)

  pub build_payout-keeps :
      (merchant : Merchant fl) (req : CreateRequest) (h : List (Event fl))
      → (build_payout fl env merchant req h).1 ≡ h
  unfolding build_payout
  build_payout-keeps merchant req h = ground (arith, get_payout_document_sources-keeps merchant h)

  pub check_amount-keeps :
      (merchant : Merchant fl) (req : CreateRequest) (pd : Payout fl) (h : List (Event fl))
      → (check_amount fl env merchant req pd h).1 ≡ h
  unfolding check_amount
  check_amount-keeps merchant req pd h =
      ground (arith, get_merchant_balance-keeps fl env merchant.id h)

  pub check_amount-positive :
      (merchant : Merchant fl) (req : CreateRequest) (pd : Payout fl) (h : List (Event fl))
      → (check_amount fl env merchant req pd h).0 ≡ next tt
      → le_f pd.balance zero_f ≡ false
  unfolding check_amount
  check_amount-positive merchant req pd h e = ground (arith)

  pub check_amount-minimal :
      (merchant : Merchant fl) (req : CreateRequest) (pd : Payout fl) (h : List (Event fl))
      → (check_amount fl env merchant req pd h).0 ≡ next tt
      → (a : F) × (tariff_minimal fl merchant ≡ some a) × (less_f pd.balance a ≡ false)
  unfolding check_amount
  check_amount-minimal merchant req pd h e = elim (Option-cases (tariff_minimal fl merchant)) [
    | inl t ↦ ground (arith)
    | inr (a, t) ↦ (a, t, ground (arith))
  ]

  pub check_amount-covered :
      (merchant : Merchant fl) (req : CreateRequest) (pd : Payout fl) (h : List (Event fl))
      → (check_amount fl env merchant req pd h).0 ≡ next tt
      → (b : MerchantBalance fl) × ((get_merchant_balance fl env merchant.id h).0 ≡ next b)
        × (less_f (env.to_precise (sub_f b.debit b.credit)) pd.balance ≡ false)
  unfolding check_amount
  check_amount-covered merchant req pd h e =
      elim (Step-cases (get_merchant_balance fl env merchant.id h).0) [
        | inr (r, g) ↦ ground (arith)
        | inl (b, g) ↦ (b, g, ground (arith, get_merchant_balance-keeps fl env merchant.id h))
      ]

  store_payout-answer :
      (merchant : Merchant fl) (h : List (Event fl)) (pd p : Payout fl)
      → (store_payout fl env merchant p h).0 ≡ next (answer_ok fl (pd ∷ []))
      → p ≡ pd
  unfolding store_payout
  store_payout-answer merchant h pd p e = ground (arith)

  pub finish_payout-next :
      (merchant : Merchant fl) (built : Payout fl) (times : List ℕ) (texts : List String)
      (h : List (Event fl)) {pd : Payout fl}
      → (finish_payout fl env merchant built times texts h).0 ≡ next pd
      → (pd.balance ≡ built.balance) × (pd.source_id ≡ built.source_id)
  unfolding finish_payout
  finish_payout-next merchant built times texts h e = ground (arith)

  pub finish_payout-keeps :
      (merchant : Merchant fl) (built : Payout fl) (times : List ℕ) (texts : List String)
      (h : List (Event fl))
      → (finish_payout fl env merchant built times texts h).1 ≡ h
  unfolding finish_payout
  finish_payout-keeps merchant built times texts h = ground (arith)

  -- What a call that makes the document pd has done on its way.
  pub create_payout_document-next :
      (merchant : Merchant fl) (req : CreateRequest) (h : List (Event fl)) (built pd : Payout fl)
      (times : List ℕ) (texts : List String)
      → (build_payout fl env merchant req h).0 ≡ next (built, times, texts)
      → (create_payout_document fl env merchant req h).0 ≡ next (answer_ok fl (pd ∷ []))
      → ((check_amount fl env merchant req built h).0 ≡ next tt)
        × ((finish_payout fl env merchant built times texts h).0 ≡ next pd)
        × ((store_payout fl env merchant pd h).0 ≡ next (answer_ok fl (pd ∷ [])))
        × ((create_payout_document fl env merchant req h).1 ≡ (store_payout fl env merchant pd h).1)
  unfolding create_payout_document
  create_payout_document-next merchant req h built pd times texts b e =
      elim (Step-cases (finish_payout fl env merchant built times texts h).0) [
        | inr (r, f) ↦ ground (
          arith,
          build_payout-keeps merchant req h,
          check_amount-keeps merchant req built h,
          finish_payout-keeps merchant built times texts h,
        )
        | inl (p, f) ↦ ground (
          arith,
          build_payout-keeps merchant req h,
          check_amount-keeps merchant req built h,
          finish_payout-keeps merchant built times texts h,
          store_payout-answer merchant h pd p,
        )
      ]

  pub store_payout-taken :
      (merchant : Merchant fl) (pd : Payout fl) (h : List (Event fl))
      {r : Option Error × CreateResponse fl}
      → (store_payout fl env merchant pd h).0 ≡ next r
      → ((royalty_report_set_payout_document_id fl env pd.source_id pd.id
            (payout_inserted pd ∷ h)).0
          ≡ next tt)
        × (reports_written (store_payout fl env merchant pd h).1
            ≡ reports_written
                (royalty_report_set_payout_document_id fl env pd.source_id pd.id
                  (payout_inserted pd ∷ h)).1)
  unfolding store_payout reports_written
  store_payout-taken merchant pd h e = ground (
    arith,
    update_merchant_balance-reports fl env merchant.id
        (royalty_report_set_payout_document_id fl env pd.source_id pd.id
          (payout_inserted pd ∷ h)).1,
  )
