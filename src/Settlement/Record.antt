-- ===== src/Settlement/Record.antt =====
-- The documents that a history of events has written, the oldest first, and what the loop over
-- the reports of a payout writes.
use paysuper_billing_server.Base.{
  ℕ, sym, List, [], ◌∷◌, ◌≡◌, refl, ◌++◌, map, ◌∙◌, All, inl, inr, arith,
}
use paysuper_billing_server.Base.Text.{String}
use mathlib.Core.List.{append-nil, append_assoc}
use paysuper_billing_server.Floats.{Floats}
use paysuper_billing_server.Handler.{next, ok, Result-cases}
use paysuper_billing_server.Settlement.{
  Report, Payout, MerchantBalance, Event, payout_inserted, payout_updated, report_updated,
  balance_inserted, Env,
}
use paysuper_billing_server.Settlement.Balance.{update_merchant_balance}
use paysuper_billing_server.Settlement.Sources.{change_reports}

module _ {fl : Floats} where
  unfoldable pub reports_written : List (Event fl) → List (Report fl)
  reports_written [] = []
  reports_written (report_updated r ∷ h) = reports_written h ++ (r ∷ [])
  reports_written (_ ∷ h) = reports_written h

  unfoldable pub payouts_written : List (Event fl) → List (Payout fl)
  payouts_written [] = []
  payouts_written (payout_updated p ∷ h) = payouts_written h ++ (p ∷ [])
  payouts_written (payout_inserted p ∷ h) = payouts_written h ++ (p ∷ [])
  payouts_written (_ ∷ h) = payouts_written h

  unfoldable pub balances_written : List (Event fl) → List (MerchantBalance fl)
  balances_written [] = []
  balances_written (balance_inserted b ∷ h) = balances_written h ++ (b ∷ [])
  balances_written (_ ∷ h) = balances_written h

module _ (fl : Floats) (env : Env fl) where
  -- What no write of a report changes, the loop over the reports does not change.
  pub change_reports-keeps :
      {X : Type 0} (f : List (Event fl) → X)
      → ((r : Report fl) (h : List (Event fl)) → f (report_updated r ∷ h) ≡ f h)
      → (change : ℕ → Report fl → Report fl) (ids : List String) (h : List (Event fl))
      → f (change_reports fl env change ids h).1 ≡ f h
  unfolding change_reports
  change_reports-keeps f keeps change [] h = refl
  change_reports-keeps f keeps change (id ∷ ids) h = elim (Result-cases (env.report_by_id h id)) [
    | inr (e, p) ↦ rw p refl
    | inl (rr, p) ↦
        let h' = report_updated (change (env.now h) rr) ∷ h in
        elim (Result-cases (env.outcome h')) [
          | inr (e, q) ↦ rw (p, q) (keeps _ h)
          | inl (_, q) ↦ rw (p, q) (change_reports-keeps f keeps change ids h' ∙ keeps _ h)
        ]
  ]

  pub update_merchant_balance-reports :
      (merchant_id : String) (h : List (Event fl))
      → reports_written (update_merchant_balance fl env merchant_id h).1 ≡ reports_written h
  unfolding update_merchant_balance reports_written
  update_merchant_balance-reports merchant_id h = ground (arith)

  pub update_merchant_balance-payouts :
      (merchant_id : String) (h : List (Event fl))
      → payouts_written (update_merchant_balance fl env merchant_id h).1 ≡ payouts_written h
  unfolding update_merchant_balance payouts_written
  update_merchant_balance-payouts merchant_id h = ground (arith)

  -- The repository finds a report under its identifier.
  abbrev pub IsFoundById : Type 0
  IsFoundById =
      (h : List (Event fl)) (id : String) (r : Report fl) → env.report_by_id h id ≡ ok r → r.id ≡ id

  -- The reports that are new in the second list: one for each identifier, in their order.
  abbrev pub HasNew :
      (Report fl → Type 0) → List String → List (Report fl) → List (Report fl) → Type 0
  HasNew P ids old now =
      (new : List (Report fl)) × (now ≡ old ++ new)
      × (map (λ (r : Report fl). r.id) new ≡ ids)
      × All P new

  -- A report that is read and written is passed over.
  change_reports-next :
      (change : ℕ → Report fl → Report fl) (id : String) (ids : List String) (h : List (Event fl))
      → {rr : Report fl} → env.report_by_id h id ≡ ok rr
      → env.outcome (report_updated (change (env.now h) rr) ∷ h) ≡ ok tt
      → change_reports fl env change (id ∷ ids) h
        ≡ change_reports fl env change ids (report_updated (change (env.now h) rr) ∷ h)
  unfolding change_reports
  change_reports-next change id ids h p q = ground (arith)

  pub change_reports-writes :
      {P : Report fl → Type 0}
      → IsFoundById
      → (change : ℕ → Report fl → Report fl) → ((n : ℕ) (r : Report fl) → (change n r).id ≡ r.id)
      → ((n : ℕ) (r : Report fl) → P (change n r))
      → (ids : List String) (h : List (Event fl)) → (change_reports fl env change ids h).0 ≡ next tt
      → HasNew P ids (reports_written h) (reports_written (change_reports fl env change ids h).1)
  unfolding change_reports reports_written
  change_reports-writes found change keeps makes [] h e =
      ([], sym (append-nil (reports_written h)), refl, tt)
  change_reports-writes {P = P} found change keeps makes (id ∷ ids) h e =
      elim (Result-cases (env.report_by_id h id)) [
        | inr (r, p) ↦ ground (arith)
        | inl (rr, p) ↦
            let made = change (env.now h) rr in
            let h' = report_updated made ∷ h in
            elim (Result-cases (env.outcome h')) [
              | inr (r, q) ↦ ground (arith)
              | inl (_, q) ↦
                  let (new, w, m, a) =
                    change_reports-writes {P = P} found change keeps makes ids h'
                      (ground (arith)) in
                  (
                    made ∷ new,
                    rw (change_reports-next change id ids h p q)
                        (w ∙ append_assoc (reports_written h) (made ∷ []) new),
                    rw (m, keeps (env.now h) rr, found h id rr p) refl,
                    (makes (env.now h) rr, a),
                  )
            ]
      ]
