-- ===== src/Accounting/Saved.antt =====
-- What an event writes (saveAccountingEntries, processEvent, onPaymentNotify and onRefundNotify in
-- internal/service/accounting_entry.go): its entries, once and all together, or nothing.
use paysuper_billing_server.Base.{Option, List, [], ◌∷◌, ◌≡◌, refl, ap, ◌∙◌, arith, inl, inr}
use paysuper_billing_server.Base.Text.{String}
use paysuper_billing_server.Floats.{Floats}
use paysuper_billing_server.Handler.{
  Handler, ok, err, Result-cases, done, go_on-keeps, go_on, or_return, pure, ◌>>◌,
}
use paysuper_billing_server.Accounting.{
  Error, Entry, Event, entries_inserted, entries_rewritten, entries_deleted, views_updated,
  paylink_updated, balance_updated, Env,
}
use paysuper_billing_server.Accounting.Build.{Basis}
use paysuper_billing_server.Accounting.Save.{
  do_to, update_paylink, update_views, save_accounting_entries, write_views, ids_of, paylinks_of,
}
use paysuper_billing_server.Accounting.Service.{Kind, built_entries, process_event}

module _ {fl : Floats} where
  -- What has been inserted, the newest first.
  abbrev pub insertions : List (Event fl) → List (List (Entry fl))
  insertions [] = []
  insertions (entries_inserted es ∷ h) = es ∷ insertions h
  insertions (entries_rewritten es ∷ h) = insertions h
  insertions (entries_deleted s t ∷ h) = insertions h
  insertions (views_updated ids ∷ h) = insertions h
  insertions (paylink_updated p ∷ h) = insertions h
  insertions (balance_updated m ∷ h) = insertions h

module _ (fl : Floats) (env : Env fl) where
  abbrev save_and_answer : Basis fl → List (Entry fl) → Handler (Event fl) Error (List (Entry fl))
  save_and_answer basis es = save_accounting_entries fl env basis es >> pure es

  do_to-history :
      {R : Type 0} (f : Error → R) (e : Event fl) (h : List (Event fl))
      → (do_to {fl = fl} f e env h).1 ≡ e ∷ h
  do_to-history f e h = ground (arith)

  update_paylink-quiet :
      (p : Option (String × String)) (h : List (Event fl))
      → insertions (update_paylink fl env p h).1 ≡ insertions h
  unfolding update_paylink
  update_paylink-quiet p h = ground (arith)

  write_views-quiet :
      (ids : List String) (link : Option (String × String)) (h : List (Event fl))
      → insertions (write_views fl env ids link h).1 ≡ insertions h
  unfolding write_views
  write_views-quiet [] link h = refl
  write_views-quiet (id ∷ ids) link h =
      go_on-keeps insertions (λ _. update_paylink fl env link)
        (do_to {fl = fl} (λ e. e) (views_updated (id ∷ ids)) env h) (λ _. update_paylink-quiet link)
      ∙ ap insertions (do_to-history (λ e. e) (views_updated (id ∷ ids)) h)

  update_views-quiet :
      (basis : Basis fl) (h : List (Event fl))
      → insertions (update_views fl env basis h).1 ≡ insertions h
  unfolding update_views
  update_views-quiet basis h = elim (Result-cases (paylinks_of fl env basis)) [
    | inl (link, p) ↦
        ap
          (λ r.
            insertions
              (go_on (write_views fl env (ids_of fl env basis)) (or_return r (λ e. e) h)).1)
          p
        ∙ write_views-quiet (ids_of fl env basis) link h
    | inr (e, p) ↦
        ap
          (λ r.
            insertions
              (go_on (write_views fl env (ids_of fl env basis)) (or_return r (λ e. e) h)).1)
          p
  ]

  save_accounting_entries-inserts :
      (basis : Basis fl) (es : List (Entry fl)) (h : List (Event fl))
      → insertions (save_accounting_entries fl env basis es h).1 ≡ es ∷ insertions h
  unfolding save_accounting_entries
  save_accounting_entries-inserts basis es h =
      go_on-keeps insertions (λ _. update_views fl env basis)
        (do_to {fl = fl} (λ e. e) (entries_inserted es) env h) (λ _. update_views-quiet basis)
      ∙ ap insertions (do_to-history (λ e. e) (entries_inserted es) h)

  -- An event whose entries are built inserts them once.
  pub process_event-inserts :
      (kind : Kind fl) (basis : Basis fl) (h : List (Event fl)) {es : List (Entry fl)}
      → built_entries fl env kind basis h ≡ ok es
      → insertions (process_event fl env kind basis h).1 ≡ es ∷ insertions h
  unfolding process_event
  process_event-inserts kind basis h {es} q =
      ap (λ r. insertions (go_on (save_and_answer basis) (or_return r (λ e. e) h)).1) q
      ∙ (go_on-keeps insertions (λ _. pure es) (save_accounting_entries fl env basis es h)
            (λ _ _. refl)
          ∙ save_accounting_entries-inserts basis es h)

  -- Otherwise nothing is done.
  pub process_event-refused :
      (kind : Kind fl) (basis : Basis fl) (h : List (Event fl)) {e : Error}
      → built_entries fl env kind basis h ≡ err e
      → process_event fl env kind basis h ≡ (done e, h)
  unfolding process_event
  process_event-refused kind basis h {e} q =
      ap (λ r. go_on (save_and_answer basis) (or_return r (λ e. e) h)) q
