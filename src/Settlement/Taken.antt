-- ===== src/Settlement/Taken.antt =====
-- The theorems on making a payout document (createPayoutDocument in
-- internal/service/payouts.go).
use paysuper_billing_server.Base.{◌≡◌, refl, inl, inr, arith, false, Option, some, List, [], ◌∷◌}
use paysuper_billing_server.Base.Text.{String}
use paysuper_billing_server.Floats.{Floats}
use paysuper_billing_server.Handler.{next, done, run, Step-cases}
use paysuper_billing_server.Response.{Status}
use paysuper_billing_server.Settlement.{
  Error, Report, Payout, Merchant, MerchantBalance, Event, payout_inserted, Env,
}
use paysuper_billing_server.Settlement.Balance.{get_merchant_balance}
use paysuper_billing_server.Settlement.Sources.{
  with_payout_document_id, report_wait_for_payment, is_non_payout,
  royalty_report_set_payout_document_id,
}
use paysuper_billing_server.Settlement.Create.{
  CreateRequest, CreateResponse, build_payout, create_payout_document, finish_payout, store_payout,
  tariff_minimal, answer_ok,
}
use paysuper_billing_server.Settlement.Record.{
  reports_written, change_reports-writes, IsFoundById, HasNew,
}
use paysuper_billing_server.Settlement.Payable.{
  check_amount-positive, check_amount-minimal, check_amount-covered, create_payout_document-next,
  store_payout-taken, build_payout-keeps, check_amount-keeps, finish_payout-keeps,
  finish_payout-next,
}

module _ (fl : Floats) (env : Env fl) where
  open fl use {F, zero_f, sub_f, less_f, le_f}

  -- The amount is positive, at least the minimum of the tariff, and covered by the balance.
  abbrev pub IsPayable : Merchant fl → F → List (Event fl) → Type 0
  IsPayable merchant amount h =
      (le_f amount zero_f ≡ false)
      × ((a : F) × (tariff_minimal fl merchant ≡ some a) × (less_f amount a ≡ false))
      × ((b : MerchantBalance fl) × ((get_merchant_balance fl env merchant.id h).0 ≡ next b)
          × (less_f (env.to_precise (sub_f b.debit b.credit)) amount ≡ false))

  unbuilt :
      (merchant : Merchant fl) (req : CreateRequest) (h : List (Event fl)) {pd : Payout fl}
      {r : Option Error × CreateResponse fl}
      → (build_payout fl env merchant req h).0 ≡ done r
      → ¬ ((create_payout_document fl env merchant req h).0 ≡ next (answer_ok fl (pd ∷ [])))
  unfolding create_payout_document
  unbuilt merchant req h b e = ground (arith)

  -- The amount of a payout document that is made is positive, at least the minimum of the tariff
  -- for the currency of the merchant, and not above the debit less the credit of the stored
  -- balance.
  pub create_payout_document-IsPayable :
      (merchant : Merchant fl) (req : CreateRequest) (h : List (Event fl)) {pd : Payout fl}
      → (create_payout_document fl env merchant req h).0 ≡ next (answer_ok fl (pd ∷ []))
      → IsPayable merchant pd.balance h
  create_payout_document-IsPayable merchant req h {pd} e =
      elim (Step-cases (build_payout fl env merchant req h).0) [
        | inr (r, b) ↦ absurd (unbuilt merchant req h b e)
        | inl ((built, times, texts), b) ↦
            let (checked, finished, _, _) =
              create_payout_document-next fl env merchant req h built pd times texts b e in
            let (amount, _) = finish_payout-next fl env merchant built times texts h finished in
            rw amount (
              check_amount-positive fl env merchant req built h checked,
              check_amount-minimal fl env merchant req built h checked,
              check_amount-covered fl env merchant req built h checked,
            )
      ]

  -- A report that a payout has taken: it waits for that payout, and no other payout takes it.
  abbrev pub IsTakenBy : String → Report fl → Type 0
  IsTakenBy payout_id r =
      (r.status ≡ report_wait_for_payment)
      × (r.payout_document_id ≡ payout_id)
      × (is_non_payout fl r ≡ false)

  royalty_report_set_payout_document_id-writes :
      IsFoundById fl env
      → (ids : List String) (payout_id : String) (h : List (Event fl))
      → (royalty_report_set_payout_document_id fl env ids payout_id h).0 ≡ next tt
      → HasNew fl env
          (IsTakenBy payout_id)
          ids
          (reports_written h)
          (reports_written (royalty_report_set_payout_document_id fl env ids payout_id h).1)
  unfolding royalty_report_set_payout_document_id is_non_payout
  royalty_report_set_payout_document_id-writes found ids payout_id h e = ground (
    arith,
    change_reports-writes fl env {P = IsTakenBy payout_id} found
        (λ _. with_payout_document_id fl payout_id) (λ _ _. refl) (λ _ _. (refl, refl, refl)) ids h,
  )

  -- If reports are found under their identifiers, a call that makes a payout document writes
  -- exactly the reports of the document, in their order, each as waiting for this payout, which
  -- the query for the next payout does not return.
  pub create_payout_document-takes :
      IsFoundById fl env
      → (merchant : Merchant fl) (req : CreateRequest) (h : List (Event fl)) {pd : Payout fl}
      → (create_payout_document fl env merchant req h).0 ≡ next (answer_ok fl (pd ∷ []))
      → HasNew fl env
          (IsTakenBy pd.id)
          pd.source_id
          (reports_written h)
          (reports_written (create_payout_document fl env merchant req h).1)
  unfolding reports_written
  create_payout_document-takes found merchant req h {pd} e =
      elim (Step-cases (build_payout fl env merchant req h).0) [
        | inr (r, b) ↦ absurd (unbuilt merchant req h b e)
        | inl ((built, times, texts), b) ↦
            let (_, _, stored, w) =
              create_payout_document-next fl env merchant req h built pd times texts b e in
            let (taken, reports) = store_payout-taken fl env merchant pd h stored in
            rw (w, reports)
              (royalty_report_set_payout_document_id-writes found pd.source_id pd.id
                (payout_inserted pd ∷ h) taken)
      ]

  store_payout-status :
      (merchant : Merchant fl) (pd : Payout fl) (h : List (Event fl))
      → ¬ ((run (store_payout fl env merchant pd) h).0.1.status ≡ Status.bad_data)
  unfolding store_payout
  store_payout-status merchant pd h = ground (arith)

  -- A request for a payout that is answered as bad data has done nothing.
  pub create_payout_document-refused :
      (merchant : Merchant fl) (req : CreateRequest) (h : List (Event fl))
      → (run (create_payout_document fl env merchant req) h).0.1.status ≡ Status.bad_data
      → (create_payout_document fl env merchant req h).1 ≡ h
  unfolding create_payout_document
  create_payout_document-refused merchant req h bad =
      let b = build_payout-keeps fl env merchant req h in
      elim (Step-cases (build_payout fl env merchant req h).0) [
        | inr (r, e) ↦ ground (arith, b)
        | inl ((built, times, texts), e) ↦
            let c = check_amount-keeps fl env merchant req built h in
            let f = finish_payout-keeps fl env merchant built times texts h in
            elim (Step-cases (finish_payout fl env merchant built times texts h).0) [
              | inr (r, g) ↦ ground (arith, b, c, f)
              | inl (pd, g) ↦ ground (arith, b, c, f, store_payout-status merchant pd h)
            ]
      ]
