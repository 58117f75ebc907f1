-- ===== src/Payment/Copied.antt =====
-- What the making of the order of a refund inserts (createOrderByRefund in
-- internal/service/refund.go).
use paysuper_billing_server.Base.{
  ◌≡◌, refl, sym, ap, ◌∙◌, Bool, some, List, [], ◌∷◌, ◌⊎◌, inl, inr, arith,
}
use paysuper_billing_server.Floats.{Floats}
use paysuper_billing_server.Handler.{next, go_on-next, go_on-keeps, Result-cases, Step-cases}
use paysuper_billing_server.Payment.{Order, Refund, Country, Event, order_inserted, Env}
use paysuper_billing_server.Payment.Copying.{
  find_vat_deduction, settle_vat, refunding_order, check_copy, fill_copy, prepare_order,
  with_receipt_id, create_order_by_refund,
}

module _ {fl : Floats} where
  -- The orders that a history has inserted, the newest first.
  unfoldable pub orders_inserted : List (Event fl) → List (Order fl)
  orders_inserted [] = []
  orders_inserted (order_inserted o ∷ h) = o ∷ orders_inserted h
  orders_inserted (_ ∷ h) = orders_inserted h

module _ (fl : Floats) (env : Env fl) where
  find_vat_deduction-keeps :
      (order : Order fl) (country : Country) (h : List (Event fl))
      → (find_vat_deduction fl env order country h).1 ≡ h
  unfolding find_vat_deduction
  find_vat_deduction-keeps order country h = ground (arith)

  check_copy-keeps : (order : Order fl) (h : List (Event fl)) → (check_copy fl env order h).1 ≡ h
  unfolding check_copy
  check_copy-keeps order h = elim (Result-cases (env.country_by_code h order.country)) [
    | inl (country, e) ↦ ground (arith, find_vat_deduction-keeps order country h)
    | inr (x, e) ↦ ground (arith)
  ]

  -- An order is the refund of another.
  abbrev pub IsRefundOf : Order fl → Refund fl → Order fl → Type 0
  IsRefundOf order refund o =
      (o.parent_order ≡ some (order.id, order.uuid)) × (o.charge_amount ≡ refund.amount)

  settle_vat-keeps :
      (refund : Refund fl) (order : Order fl) (h : List (Event fl))
      → (settle_vat fl env refund order h).1 ≡ h
  unfolding settle_vat
  settle_vat-keeps refund order h = ground (arith)

  settle_vat-next :
      (refund : Refund fl) (order : Order fl) (h : List (Event fl)) {o : Order fl}
      → (settle_vat fl env refund order h).0 ≡ next o
      → (o.parent_order ≡ order.parent_order) × (o.charge_amount ≡ order.charge_amount)
  unfolding settle_vat
  settle_vat-next refund order h e = ground (arith)

  fill_copy-keeps :
      (order : Order fl) (refund : Refund fl) (b : Bool) (h : List (Event fl))
      → (fill_copy fl env order refund b h).1 ≡ h
  unfolding fill_copy
  fill_copy-keeps order refund b h =
      settle_vat-keeps refund
        (refunding_order fl env refund order (env.new_id h) (env.new_uuid h) (env.now h) b) h

  fill_copy-next :
      (order : Order fl) (refund : Refund fl) (b : Bool) (h : List (Event fl)) {o : Order fl}
      → (fill_copy fl env order refund b h).0 ≡ next o
      → IsRefundOf order refund o
  unfolding fill_copy
  fill_copy-next order refund b h e =
      settle_vat-next refund
        (refunding_order fl env refund order (env.new_id h) (env.new_uuid h) (env.now h) b) h e

  prepare_order-keeps :
      (order : Order fl) (refund : Refund fl) (h : List (Event fl))
      → (prepare_order fl env order refund h).1 ≡ h
  unfolding prepare_order
  prepare_order-keeps order refund h =
      go_on-keeps (λ x. x) (fill_copy fl env order refund) (check_copy fl env order h)
        (fill_copy-keeps order refund)
      ∙ check_copy-keeps order h

  prepare_order-next :
      (order : Order fl) (refund : Refund fl) (h : List (Event fl)) {o : Order fl}
      → (prepare_order fl env order refund h).0 ≡ next o
      → IsRefundOf order refund o
  unfolding prepare_order
  prepare_order-next order refund h e =
      let c = check_copy fl env order h in
      elim (Step-cases c.0) [
        | inr (x, f) ↦ ground (arith)
        | inl (b, f) ↦
            fill_copy-next order refund b c.1
              (sym (ap (λ x. x.0) (go_on-next (fill_copy fl env order refund) c f refl)) ∙ e)
      ]

  -- At most the order of the refund is inserted.
  abbrev pub Inserts : Order fl → Refund fl → List (Event fl) → List (Event fl) → Type 0
  Inserts order refund h after =
      (orders_inserted after ≡ orders_inserted h)
      ⊎ (o : Order fl) × IsRefundOf order refund o × (orders_inserted after ≡ o ∷ orders_inserted h)

  pub create_order_by_refund-Inserts :
      (order : Order fl) (refund : Refund fl) (h : List (Event fl))
      → Inserts order refund h (create_order_by_refund fl env order refund h).1
  unfolding create_order_by_refund orders_inserted
  create_order_by_refund-Inserts order refund h =
      let p = prepare_order fl env order refund h in
      elim (Step-cases p.0) [
        | inr (e, f) ↦ inl (ground (arith, prepare_order-keeps order refund h))
        | inl (o, f) ↦ inr (
          with_receipt_id fl env (env.new_receipt_id h) o,
          prepare_order-next order refund h f,
          ground (arith, prepare_order-keeps order refund h),
        )
      ]
