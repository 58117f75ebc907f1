-- ===== src/Accounting/Save.antt =====
-- The entries of an event are saved, and what is counted from them is counted again
-- (saveAccountingEntries in internal/service/accounting_entry.go).
use paysuper_billing_server.Base.{
  ℕ, Option, none, some, List, [], ◌∷◌, ◌++◌, if◌then◌else◌, not, ◌&&◌,
}
use paysuper_billing_server.Base.Text.{String, str_eq}
use paysuper_billing_server.Floats.{Floats}
use paysuper_billing_server.Handler.{
  Handler, Result, ok, err, ◌>>=◌, ◌>>◌, pure, ask, emit, or_return,
}
use paysuper_billing_server.Accounting.{
  Error, panic, Entry, Order, PaylinkStat, Paylink, Event, entries_inserted, views_updated,
  paylink_updated, Env,
}
use paysuper_billing_server.Accounting.Build.{Basis}

module _ {fl : Floats} {R : Type 0} where
  -- A call that changes the outside, with the error it may have.
  abbrev pub do_to : (Error → R) → Event fl → (env : Env fl) → Handler (Event fl) R (Unit {0})
  do_to f e env = do emit e; answer ← ask env.outcome; or_return answer f

module _ (fl : Floats) (env : Env fl) where
  -- The pay link of an order, with the merchant of its project.
  abbrev paylink_of : Order fl → Option (String × String)
  paylink_of order =
      if str_eq order.issuer_reference_type "paylink" && not (str_eq order.issuer_reference "")
      then some (order.issuer_reference, order.project_merchant_id)
      else none

  -- The map has one key at most: the link of a refund has the key of the order's reference, and
  -- replaces the order's.
  abbrev refund_paylink :
      Option (Order fl)
      → Option (Order fl)
      → Option (String × String)
      → Result Error (Option (String × String))
  refund_paylink order none link = ok link
  refund_paylink order (some refund_order) link = elim (paylink_of refund_order) [
    | none ↦ ok link
    | some (_, merchant) ↦ elim order [
      | none ↦ err panic
      | some o ↦ ok (some (o.issuer_reference, merchant))
    ]
  ]

  -- The order of a refund, where both are known.
  abbrev refunded_order : Basis fl → Option (Order fl)
  refunded_order basis = elim basis.refund [ none ↦ none | some _ ↦ basis.refund_order ]

  unfoldable pub paylinks_of : Basis fl → Result Error (Option (String × String))
  paylinks_of basis =
      refund_paylink basis.order (refunded_order basis)
        (elim basis.order [ none ↦ none | some o ↦ paylink_of o ])

  unfoldable pub ids_of : Basis fl → List String
  ids_of basis =
      (elim basis.order [ none ↦ [] | some o ↦ o.id ∷ [] ])
      ++ (elim (refunded_order basis) [ none ↦ [] | some o ↦ o.id ∷ [] ])

  abbrev with_visits : Option ℕ → Paylink fl → Paylink fl
  with_visits none link = link
  with_visits (some n) link = record link { visits = n }

  abbrev with_stat : PaylinkStat fl → Paylink fl → Paylink fl
  with_stat stat link =
      let counted : Paylink fl = record link { stat = stat } in
      env.update_conversion (record counted { is_expired = env.is_paylink_expired counted })

  -- The visits stay as they are where they cannot be counted.
  unfoldable pub update_paylink : Option (String × String) → Handler (Event fl) Error (Unit {0})
  update_paylink none = pure tt
  update_paylink (some (id, merchant)) = do
    found ← ask (λ h. env.paylink_by_id h id merchant)
    link ← or_return found (λ e. e)
    visits ← ask (λ h. env.count_visits h id)
    stats ← ask (λ h. env.paylink_stat h id merchant)
    stat ← or_return stats (λ e. e)
    do_to (λ e. e) (paylink_updated (with_stat stat (with_visits visits link))) env

  unfoldable pub write_views :
      List String → Option (String × String) → Handler (Event fl) Error (Unit {0})
  unfolding update_paylink
  write_views [] link = pure tt
  write_views (id ∷ ids) link = do_to (λ e. e) (views_updated (id ∷ ids)) env >> update_paylink link

  unfoldable pub update_views : Basis fl → Handler (Event fl) Error (Unit {0})
  unfolding ids_of paylinks_of write_views
  update_views basis = do
    link ← or_return (paylinks_of basis) (λ e. e)
    write_views (ids_of basis) link

  unfoldable pub save_accounting_entries :
      Basis fl → List (Entry fl) → Handler (Event fl) Error (Unit {0})
  unfolding update_views
  save_accounting_entries basis entries = do
    do_to (λ e. e) (entries_inserted entries) env
    update_views basis
