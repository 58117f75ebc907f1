-- ===== src/Settlement/Payment.antt =====
-- What becomes of the reports of a payout that is paid, failed or canceled (UpdatePayoutDocument in
-- internal/service/payouts.go).
use paysuper_billing_server.Base.{
  ◌≡◌, refl, sym, subst, ap, true, false, Option, List, ◌∷◌, ◌⊎◌, inl, inr, arith,
}
use paysuper_billing_server.Base.Text.{String, str_eq, is_set, str_eq_sound}
use paysuper_billing_server.Floats.{Floats}
use paysuper_billing_server.Handler.{next, ok, run, Result-cases}
use paysuper_billing_server.Response.{Status}
use paysuper_billing_server.Settlement.{Error, Report, Payout, Event, payout_updated, Env}
use paysuper_billing_server.Settlement.Create.{payout_skip}
use paysuper_billing_server.Settlement.Sources.{
  with_paid, with_unset_paid, royalty_report_set_paid, royalty_report_unset_paid, report_paid,
  is_non_payout,
}
use paysuper_billing_server.Settlement.Update.{
  UpdateRequest, UpdateResponse, update_payout_document, write_change, carry_out, refresh_balance,
  refresh_balance, changed, is_changed, is_status_change, becomes_paid, becomes_failed,
  needs_balance_update, is_for_become_failed, is_for_update_balance, payout_paid, payout_canceled,
  payout_failed,
}
use paysuper_billing_server.Settlement.Record.{
  reports_written, balances_written, change_reports-writes, IsFoundById, HasNew,
}
use paysuper_billing_server.Settlement.Transition.{
  royalty_report_set_paid-balances, royalty_report_unset_paid-balances, carry_out-next,
  update_payout_document-next, write_change-paid, write_change-unset, check_status_change-cases,
}

module _ (fl : Floats) (env : Env fl) where
  str_eq-is_set : (s t : String) → is_set t ≡ true → str_eq s t ≡ true → is_set s ≡ true
  str_eq-is_set s t p e = subst (λ x. is_set x ≡ true) (sym (str_eq_sound s t e)) p

  becomes_paid-is_changed :
      (req : UpdateRequest) (before : Payout fl)
      → becomes_paid fl req before ≡ true
      → is_changed fl req before ≡ true
  unfolding becomes_paid is_changed is_status_change
  becomes_paid-is_changed req before e = ground (arith, str_eq-is_set req.status payout_paid refl)

  becomes_failed-is_changed :
      (req : UpdateRequest) (before : Payout fl)
      → becomes_failed fl req before ≡ true
      → is_changed fl req before ≡ true
  unfolding becomes_failed is_changed is_status_change
  becomes_failed-is_changed req before e =
      let same_kind : str_eq before.status req.status ≡ true
          → is_for_become_failed before.status ≡ is_for_become_failed req.status =
        λ q. ap is_for_become_failed (str_eq_sound before.status req.status q) in
      ground (
        arith,
        same_kind,
        str_eq-is_set req.status payout_failed refl,
        str_eq-is_set req.status payout_canceled refl,
        str_eq-is_set req.status payout_skip refl,
      )

  -- A report that belongs to a payout and is paid with it.
  abbrev pub IsPaidBy : String → Report fl → Type 0
  IsPaidBy payout_id r = (r.status ≡ report_paid) × (r.payout_document_id ≡ payout_id)

  royalty_report_set_paid-writes :
      IsFoundById fl env
      → (ids : List String) (payout_id : String) (h : List (Event fl))
      → (royalty_report_set_paid fl env ids payout_id h).0 ≡ next tt
      → HasNew fl env
          (IsPaidBy payout_id)
          ids
          (reports_written h)
          (reports_written (royalty_report_set_paid fl env ids payout_id h).1)
  unfolding royalty_report_set_paid
  royalty_report_set_paid-writes found ids payout_id h e = ground (
    arith,
    change_reports-writes fl env {P = IsPaidBy payout_id} found (with_paid fl payout_id)
        (λ _ _. refl) (λ _ _. (refl, refl)) ids h,
  )

  -- If reports are found under their identifiers, a change to paid that gets to its end writes
  -- exactly the reports of the payout, in their order, each as paid with this payout.
  pub update_payout_document-pays :
      IsFoundById fl env
      → (req : UpdateRequest) (h : List (Event fl)) {before : Payout fl}
        {r : Option Error × UpdateResponse fl}
      → env.payout_by_id h req.payout_document_id ≡ ok before
      → becomes_paid fl req before ≡ true
      → (update_payout_document fl env req h).0 ≡ next r
      → HasNew fl env
          (IsPaidBy before.id)
          before.source_id
          (reports_written h)
          (reports_written (update_payout_document fl env req h).1)
  unfolding changed reports_written
  update_payout_document-pays found_by_id req h {before} found paid e =
      let pd = changed fl req (env.now h) before in
      let (c, w) = update_payout_document-next fl env req h found e in
      let (d, reports) =
        carry_out-next fl env req before pd h (becomes_paid-is_changed req before paid) c in
      let (s, written) = write_change-paid fl env req before pd h paid d in
      let h' = payout_updated pd ∷ h in
      rw (w, reports, written) (royalty_report_set_paid-writes found_by_id pd.source_id pd.id h' s)

  -- If reports are found under their identifiers, a change of a payout to failed, canceled or
  -- skip that gets to its end writes exactly the reports of the payout, in their order, each so
  -- that the query for the next payout returns it again.
  pub update_payout_document-frees :
      IsFoundById fl env
      → (req : UpdateRequest) (h : List (Event fl)) {before : Payout fl}
        {r : Option Error × UpdateResponse fl}
      → env.payout_by_id h req.payout_document_id ≡ ok before
      → becomes_paid fl req before ≡ false
      → becomes_failed fl req before ≡ true
      → (update_payout_document fl env req h).0 ≡ next r
      → HasNew fl env
          (λ r. is_non_payout fl r ≡ true)
          before.source_id
          (reports_written h)
          (reports_written (update_payout_document fl env req h).1)
  unfolding changed reports_written is_non_payout royalty_report_unset_paid
  update_payout_document-frees found_by_id req h {before} found unpaid failed e =
      let pd = changed fl req (env.now h) before in
      let (c, w) = update_payout_document-next fl env req h found e in
      let (d, reports) =
        carry_out-next fl env req before pd h (becomes_failed-is_changed req before failed) c in
      let (s, written) = write_change-unset fl env req before pd h unpaid failed d in
      let h' = payout_updated pd ∷ h in
      rw (w, reports, written)
        (change_reports-writes fl env found_by_id (λ _. with_unset_paid fl) (λ _ _. refl)
          (λ _ _. refl) pd.source_id h' s)

  is_unlisted :
      (req : UpdateRequest) (before : Payout fl)
      → (req.status ≡ payout_failed) ⊎ (req.status ≡ payout_canceled)
      → needs_balance_update fl req before ≡ false
  unfolding needs_balance_update
  is_unlisted req before s =
      let off : is_for_update_balance req.status ≡ false = elim s [
        | inl e ↦ ap is_for_update_balance e
        | inr e ↦ ap is_for_update_balance e
      ] in
      ground (arith, off)

  carry_out-balances :
      (req : UpdateRequest) (before pd : Payout fl) (h : List (Event fl))
      → needs_balance_update fl req before ≡ false
      → balances_written (carry_out fl env req before pd h).1 ≡ balances_written h
  unfolding carry_out write_change balances_written refresh_balance
  carry_out-balances req before pd h none_needed =
      let h' = payout_updated pd ∷ h in
      ground (
        arith,
        royalty_report_set_paid-balances fl env pd.source_id pd.id h',
        royalty_report_unset_paid-balances fl env pd.source_id h',
      )

  -- A change of a payout to failed or canceled stores no balance.
  pub update_payout_document-keeps_balance :
      (req : UpdateRequest) (h : List (Event fl))
      → (req.status ≡ payout_failed) ⊎ (req.status ≡ payout_canceled)
      → balances_written (update_payout_document fl env req h).1 ≡ balances_written h
  unfolding update_payout_document
  update_payout_document-keeps_balance req h s =
      elim (Result-cases (env.payout_by_id h req.payout_document_id)) [
        | inr (e, p) ↦ rw p refl
        | inl (before, p) ↦ elim (check_status_change-cases fl env req before h) [
          | inr (r, q) ↦ rw (p, q) refl
          | inl (q, a) ↦
              rw (p, q)
                (carry_out-balances req before (changed fl req (env.now h) before) h
                  (is_unlisted req before s))
        ]
      ]

  carry_out-status :
      (req : UpdateRequest) (before pd : Payout fl) (h : List (Event fl))
      → ¬ ((run (carry_out fl env req before pd) h).0.1.status ≡ Status.bad_data)
  unfolding carry_out write_change refresh_balance
  carry_out-status req before pd h = ground (arith)

  -- A change of a payout that is answered as bad data has done nothing.
  pub update_payout_document-refused :
      (req : UpdateRequest) (h : List (Event fl))
      → (run (update_payout_document fl env req) h).0.1.status ≡ Status.bad_data
      → (update_payout_document fl env req h).1 ≡ h
  unfolding update_payout_document
  update_payout_document-refused req h =
      elim (Result-cases (env.payout_by_id h req.payout_document_id)) [
        | inr (e, p) ↦ rw p (λ _. refl)
        | inl (before, p) ↦ elim (check_status_change-cases fl env req before h) [
          | inr (r, q) ↦ rw (p, q) (λ _. refl)
          | inl (q, a) ↦
              let pd = changed fl req (env.now h) before in
              let w : update_payout_document fl env req h ≡ carry_out fl env req before pd h =
                rw (p, q) refl in
              subst
                (λ x.
                  (run {R = Option Error × UpdateResponse fl} (λ _. x) h).0.1.status
                    ≡ Status.bad_data
                  → x.1 ≡ h)
                (sym w) (λ b. absurd (carry_out-status req before pd h b))
        ]
      ]
