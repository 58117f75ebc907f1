-- ===== src/Accounting/Created.antt =====
-- What the creation of an entry by request writes (CreateAccountingEntry in
-- internal/service/accounting_entry.go).
use paysuper_billing_server.Accounting.{
  EntryType, Error, Entry, Merchant, Event, Env, is_available, panic, no_documents, message,
  other_error,
}
use paysuper_billing_server.Accounting.Build.{Basis, new_entry}
use paysuper_billing_server.Base.Text.{String}
use paysuper_billing_server.Accounting.Notified.{entries_of}
use paysuper_billing_server.Accounting.Create.{
  find_basis, update_reserve, create_accounting_entry, with_order, with_refund, with_merchant,
  create_from, first_entry, failed_event,
}
use paysuper_billing_server.Base.{
  true, Option, none, some, List, [], ◌∷◌, ◌≡◌, refl, sym, ap, ◌∙◌, subst, arith, inl, inr, ◌⊎◌,
  Bool-cases, ℕ, Option-cases,
}
use paysuper_billing_server.Floats.{Floats}
use paysuper_billing_server.Handler.{
  Result, ok, err, Result-cases, Step-cases, next, done, go_on, go_on-keeps, go_on-next, or_return,
  pure, ◌>>◌, go_on-done,
}
use paysuper_billing_server.Accounting.Add.{finish_entry, add_entry}
use paysuper_billing_server.Accounting.Adds.{finish_entry-keeps}
use paysuper_billing_server.Accounting.Service.{
  CreateRequest, manual_correction, built_entries, process_event, process_manual_correction_event,
  corrected,
}
use paysuper_billing_server.Accounting.Saved.{
  insertions, process_event-inserts, process_event-refused,
}

module _ (fl : Floats) (env : Env fl) where
  open fl use {F}

  -- The entry of a request: its type, and its amount made precise.
  abbrev pub IsOf : CreateRequest F → Entry fl → Type 0
  IsOf req e = (e.type_of ≡ req.type_of) × (e.amount ≡ env.to_precise req.amount)

  -- No entry is inserted, or one, once: that of the request.
  abbrev pub Inserts : CreateRequest F → List (Event fl) → List (Event fl) → Type 0
  Inserts req h h' =
      (insertions h' ≡ insertions h)
      ⊎ ((e : Entry fl) × (insertions h' ≡ (e ∷ []) ∷ insertions h) × IsOf req e)

  add_entry-alone :
      (h : List (Event fl)) (basis : Basis fl) (e : Entry fl) (r : Result Error (Entry fl))
      {es : List (Entry fl)}
      → finish_entry fl env h basis [] e ≡ r
      → entries_of fl env (add_entry fl env h basis e []) ≡ ok es
      → (e' : Entry fl) × (es ≡ e' ∷ []) × (finish_entry fl env h basis [] e ≡ ok e')
  unfolding add_entry
  add_entry-alone h basis e (ok e') p q = (e', ground (arith), p)
  add_entry-alone h basis e (err x) p q = ground (arith)

  new_entry-type :
      (h : List (Event fl)) (basis : Basis fl) (t : EntryType)
      → (new_entry fl env h basis t).type_of ≡ t
  unfolding new_entry
  new_entry-type h basis t = ground (arith)

  corrected-IsOf :
      (h : List (Event fl)) (basis : Basis fl) (req : CreateRequest F) (m : Option (Merchant fl))
      (t : Option ℕ)
      → ((corrected fl env h (record basis { merchant = m }) req t).type_of ≡ req.type_of)
        × ((corrected fl env h (record basis { merchant = m }) req t).amount ≡ req.amount)
  corrected-IsOf h basis req none t = (new_entry-type h _ req.type_of, refl)
  corrected-IsOf h basis req (some m) t = (new_entry-type h _ req.type_of, refl)

  built-corrected :
      (h : List (Event fl)) (basis : Basis fl) (req : CreateRequest F) (t : ℕ)
      → env.timestamp_proto req.date ≡ some t
      → entries_of fl env (add_entry fl env h basis (corrected fl env h basis req (some t)) [])
        ≡ built_entries fl env (manual_correction req) basis h
  unfolding built_entries process_manual_correction_event
  built-corrected h basis req t p =
      ap
        (λ o. entries_of fl env (elim o [
          | none ↦ err other_error
          | some u ↦ add_entry fl env h basis (corrected fl env h basis req (some u)) []
        ]))
        (sym p)

  built-IsOf :
      (h : List (Event fl)) (basis : Basis fl) (req : CreateRequest F) {es : List (Entry fl)}
      → built_entries fl env (manual_correction req) basis h ≡ ok es
      → (e : Entry fl) × (es ≡ e ∷ []) × IsOf req e
  unfolding built_entries process_manual_correction_event
  built-IsOf h basis req q = elim (Option-cases (env.timestamp_proto req.date)) [
    | inl p ↦ ground (arith)
    | inr (t, p) ↦
        let c = corrected-IsOf h basis req basis.merchant (some t) in
        let (e, eq, fin) =
          add_entry-alone h basis (corrected fl env h basis req (some t)) _ refl
            (built-corrected h basis req t p ∙ q) in
        let k = finish_entry-keeps fl env h basis [] (corrected fl env h basis req (some t)) fin in
        (e, eq, (ap (λ st. st.type_of) k.0 ∙ c.0, k.1 ∙ ap env.to_precise c.1))
  ]

  with_order-quiet : (req : CreateRequest F) (h : List (Event fl)) → (with_order fl env req h).1 ≡ h
  unfolding with_order
  with_order-quiet req h = ground (arith)

  with_refund-quiet :
      (req : CreateRequest F) (found : Basis fl × String) (h : List (Event fl))
      → (with_refund fl env req found h).1 ≡ h
  unfolding with_refund
  with_refund-quiet req found h = ground (arith)

  with_merchant-quiet :
      (req : CreateRequest F) (found : Basis fl × String) (h : List (Event fl))
      → (with_merchant fl env req found h).1 ≡ h
  unfolding with_merchant
  with_merchant-quiet req found h = ground (arith)

  find_basis-quiet : (req : CreateRequest F) (h : List (Event fl)) → (find_basis fl env req h).1 ≡ h
  unfolding find_basis
  find_basis-quiet req h =
      go_on-keeps (λ h. h) _ (with_order fl env req h)
        (λ found h.
          go_on-keeps (λ h. h) _ (with_refund fl env req found h)
            (λ found h.
              go_on-keeps (λ h. h) _ (with_merchant fl env req found h) (λ found h. ground (arith))
              ∙ with_merchant-quiet req found h)
          ∙ with_refund-quiet req found h)
      ∙ with_order-quiet req h

  update_reserve-quiet :
      (req : CreateRequest F) (basis : Basis fl) (h : List (Event fl))
      → insertions (update_reserve fl env req basis h).1 ≡ insertions h
  unfolding update_reserve
  update_reserve-quiet req basis h = ground (arith)

  answer-insertions :
      (req : CreateRequest F) (basis : Basis fl) (r : Result Error (List (Entry fl)))
      (h : List (Event fl))
      → insertions
          (go_on
            (λ es. update_reserve fl env req basis >> pure (first_entry fl env es))
            (or_return r (failed_event fl env) h)).1
        ≡ insertions h
  answer-insertions req basis (ok es) h =
      go_on-keeps insertions (λ _. pure (first_entry fl env es)) (update_reserve fl env req basis h)
        (λ _ _. refl)
      ∙ update_reserve-quiet req basis h
  answer-insertions req basis (err panic) h = refl
  answer-insertions req basis (err no_documents) h = refl
  answer-insertions req basis (err (message m)) h = refl
  answer-insertions req basis (err other_error) h = refl

  -- The rest of a creation keeps what the event has inserted.
  create_from-insertions :
      (req : CreateRequest F) (basis : Basis fl) (h : List (Event fl))
      → insertions (create_from fl env req basis h).1
        ≡ insertions (process_event fl env (manual_correction req) basis h).1
  unfolding create_from
  create_from-insertions req basis h =
      answer-insertions req basis
        (elim (process_event fl env (manual_correction req) basis h).0 [
          | next a ↦ ok a
          | done e ↦ err e
        ])
        (process_event fl env (manual_correction req) basis h).1

  create_from-Inserts :
      (req : CreateRequest F) (basis : Basis fl) (h : List (Event fl))
      → Inserts req h (create_from fl env req basis h).1
  create_from-Inserts req basis h =
      elim (Result-cases (built_entries fl env (manual_correction req) basis h)) [
        | inr (e, p) ↦ inl (
            create_from-insertions req basis h
            ∙ ap (λ r. insertions r.1)
                (process_event-refused fl env (manual_correction req) basis h p))
        | inl (es, p) ↦
            let (e, eq, is) = built-IsOf h basis req p in
            inr (
              e,
              create_from-insertions req basis h
                  ∙ (process_event-inserts fl env (manual_correction req) basis h p
                      ∙ ap (λ z. z ∷ insertions h) eq),
              is,
            )
      ]

  available-step :
      (req : CreateRequest F) (h : List (Event fl))
      → is_available req.type_of ≡ true
      → create_accounting_entry fl env req h
        ≡ go_on (create_from fl env req) (find_basis fl env req h)
  unfolding create_accounting_entry
  available-step req h p = ground (arith)

  -- A request for an entry inserts no entry, or one, once, which has the type of the request and
  -- its amount made precise.
  pub create_accounting_entry-Inserts :
      (req : CreateRequest F) (h : List (Event fl))
      → Inserts req h (create_accounting_entry fl env req h).1
  unfolding create_accounting_entry
  create_accounting_entry-Inserts req h = elim (Bool-cases (is_available req.type_of)) [
    | inr p ↦ inl (ground (arith))
    | inl p ↦ elim (Step-cases (find_basis fl env req h).0) [
      | inr (r, q) ↦ inl (
          ap (λ x. insertions x.1) (available-step req h p)
          ∙ (ap insertions (go_on-done (create_from fl env req) (find_basis fl env req h) q)
              ∙ ap insertions (find_basis-quiet req h)))
      | inl (basis, q) ↦
          subst (λ x. Inserts req h x.1)
            (sym (
              available-step req h p
              ∙ go_on-next (create_from fl env req) (find_basis fl env req h) q
                  (find_basis-quiet req h)))
            (create_from-Inserts req basis h)
    ]
  ]
