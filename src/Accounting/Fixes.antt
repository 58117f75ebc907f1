-- ===== src/Accounting/Fixes.antt =====
-- What is written when taxes are fixed (FixTaxes in internal/service/accounting_entry.go).
use paysuper_billing_server.Base.{
  Option, none, some, List, [], ◌∷◌, ◌≡◌, refl, sym, ap, ◌∙◌, subst, arith, inl, inr, ◌⊎◌,
  Option-cases,
}
use paysuper_billing_server.Base.Text.{String}
use paysuper_billing_server.Floats.{Floats}
use paysuper_billing_server.Handler.{Result, ok, err, Result-cases}
use paysuper_billing_server.Accounting.{
  SourceType, Error, Country, Entry, Order, Event, entries_rewritten, Env,
}
use paysuper_billing_server.Accounting.Fix.{
  Fixing, failed, fixed, crashed, Fixed, add_fixing, fix_local, fix_amounts, fix_entry, fix_all,
  write_fixed, fix_taxes, tax_exchange, fix_in, fix_with, fix_found,
}

module _ (fl : Floats) (env : Env fl) (h : List (Event fl)) where
  open fl use {F, zero_f}

  -- The exchange of the tax of an entry's order fails.
  abbrev pub ExchangeFails : Entry fl → Type 0
  ExchangeFails a =
      (t : SourceType) × (id : String) × (order : Order fl) × (e : Error) × (a.source
        ≡ some (t, id))
      × (env.order_by_id h id ≡ ok order)
      × (tax_exchange fl env h order a ≡ err e)

  -- An entry as it is written in place of another: it is zero where its exchange fails.
  abbrev pub Replaces : Entry fl → Entry fl → Type 0
  Replaces a e = (e.id ≡ a.id) × (ExchangeFails a → e.amount ≡ zero_f)

  abbrev pub ReplaceAll : List (Entry fl) → List (Entry fl) → Type 0
  ReplaceAll [] es = es ≡ []
  ReplaceAll (a ∷ aes) [] = (a ∷ aes) ≡ []
  ReplaceAll (a ∷ aes) (e ∷ es) = Replaces a e × ReplaceAll aes es

  abbrev Becomes : Entry fl → Fixing fl env → Type 0
  Becomes a (failed e) = Replaces a e
  Becomes a (fixed e) = Replaces a e
  Becomes a crashed = Unit

  -- The entry has this identifier and this amount.
  abbrev Shaped : String → F → Fixing fl env → Type 0
  Shaped id amount (failed e) = (e.id ≡ id) × (e.amount ≡ amount)
  Shaped id amount (fixed e) = (e.id ≡ id) × (e.amount ≡ amount)
  Shaped id amount crashed = Unit

  fix_local-Shaped :
      (order : Order fl) (country : Country) (a : Entry fl)
      → Shaped a.id a.amount (fix_local fl env h order country a)
  unfolding fix_local
  fix_local-Shaped order country a = ground (arith)

  Shaped-Becomes :
      (a : Entry fl) (amount : F) (f : Fixing fl env)
      → Shaped a.id amount f
      → (ExchangeFails a → amount ≡ zero_f)
      → Becomes a f
  Shaped-Becomes a amount (failed e) s z = (s.0, λ x. s.1 ∙ z x)
  Shaped-Becomes a amount (fixed e) s z = (s.0, λ x. s.1 ∙ z x)
  Shaped-Becomes a amount crashed s z = tt

  -- The amount that is assigned.
  abbrev assigned : Result Error F → F
  assigned (ok a) = a
  assigned (err e) = zero_f

  fix_in-Shaped :
      (order : Order fl) (a : Entry fl) (r : Result Error Country)
      → Shaped a.id a.amount (fix_in fl env h order a r)
  unfolding fix_in
  fix_in-Shaped order a (ok country) = fix_local-Shaped order country a
  fix_in-Shaped order a (err e) = (refl, refl)

  fix_with-Shaped :
      (order : Order fl) (a : Entry fl) (r : Result Error F)
      → Shaped a.id (assigned r) (fix_with fl env h order a r)
  unfolding fix_with
  fix_with-Shaped order a (ok x) = fix_in-Shaped order _ (env.country_by_code h a.country)
  fix_with-Shaped order a (err e) = (refl, refl)

  fix_amounts-Shaped :
      (order : Order fl) (a : Entry fl)
      → Shaped a.id (assigned (tax_exchange fl env h order a)) (fix_amounts fl env h order a)
  unfolding fix_amounts
  fix_amounts-Shaped order a = fix_with-Shaped order a (tax_exchange fl env h order a)

  same_order :
      (a : Entry fl) {t t' : SourceType} {id id' : String} {order order' : Order fl}
      → a.source ≡ some (t, id)
      → a.source ≡ some (t', id')
      → env.order_by_id h id ≡ ok order
      → env.order_by_id h id' ≡ ok order'
      → order' ≡ order
  same_order a p p' q q' = ground (arith)

  failing-zero :
      (order : Order fl) (a : Entry fl) {t : SourceType} {id : String}
      → a.source ≡ some (t, id)
      → env.order_by_id h id ≡ ok order
      → ExchangeFails a
      → assigned (tax_exchange fl env h order a) ≡ zero_f
  failing-zero order a p q (t', id', order', e, src, ord, ex) =
      subst (λ o. assigned (tax_exchange fl env h o a) ≡ zero_f) (same_order a p src q ord)
        (ap assigned ex)

  missing-zero :
      (a : Entry fl) {t : SourceType} {id : String} {e : Error}
      → a.source ≡ some (t, id)
      → env.order_by_id h id ≡ err e
      → ExchangeFails a
      → a.amount ≡ zero_f
  missing-zero a p q (t', id', order', e, src, ord, ex) = ground (arith)

  fix_found-Becomes :
      (a : Entry fl) {t : SourceType} {id : String} (r : Result Error (Order fl))
      → a.source ≡ some (t, id)
      → env.order_by_id h id ≡ r
      → Becomes a (fix_found fl env h a r)
  unfolding fix_found
  fix_found-Becomes a (ok order) p q =
      Shaped-Becomes a _ _ (fix_amounts-Shaped order a) (failing-zero order a p q)
  fix_found-Becomes a (err e) p q = (refl, missing-zero a p q)

  fix_entry-Becomes : (a : Entry fl) → Becomes a (fix_entry fl env h a)
  unfolding fix_entry
  fix_entry-Becomes a = elim (Option-cases a.source) [
    | inl p ↦ subst (Becomes a) (sym (ap fixing p)) tt
    | inr ((t, id), p) ↦ subst (Becomes a) (sym (ap fixing p)) (fix_found-Becomes a _ p refl)
  ]
    where
      fixing : Option (SourceType × String) → Fixing fl env
      fixing none = crashed
      fixing (some (_, id)) = fix_found fl env h a (env.order_by_id h id)

  the_fixed : Fixed fl env → Result Error (Fixed fl env) → Fixed fl env
  the_fixed d (ok after) = after
  the_fixed d (err e) = d

  add_fixing-ReplaceAll :
      (a : Entry fl) (aes : List (Entry fl)) (rest : Fixed fl env) (f : Fixing fl env)
      {after : Fixed fl env}
      → Becomes a f
      → ReplaceAll aes rest.entries
      → add_fixing fl env f rest ≡ ok after
      → ReplaceAll (a ∷ aes) after.entries
  unfolding the_fixed
  add_fixing-ReplaceAll a aes rest (failed e) b r q =
      subst (λ x. ReplaceAll (a ∷ aes) x.entries) (ap (the_fixed rest) q) (b, r)
  add_fixing-ReplaceAll a aes rest (fixed e) b r q =
      subst (λ x. ReplaceAll (a ∷ aes) x.entries) (ap (the_fixed rest) q) (b, r)
  add_fixing-ReplaceAll a aes rest crashed b r q = ground (arith)

  added :
      (a : Entry fl) (aes : List (Entry fl)) {rest after : Fixed fl env}
      → fix_all fl env h aes ≡ ok rest
      → fix_all fl env h (a ∷ aes) ≡ ok after
      → add_fixing fl env (fix_entry fl env h a) rest ≡ ok after
  unfolding fix_all
  added a aes p q = ground (arith)

  fix_all-ReplaceAll :
      (aes : List (Entry fl)) {after : Fixed fl env}
      → fix_all fl env h aes ≡ ok after
      → ReplaceAll aes after.entries
  unfolding fix_all
  fix_all-ReplaceAll [] q = ground (arith)
  fix_all-ReplaceAll (a ∷ aes) q = elim (Result-cases (fix_all fl env h aes)) [
    | inr (e, p) ↦ ground (arith)
    | inl (rest, p) ↦
        add_fixing-ReplaceAll a aes rest (fix_entry fl env h a) (fix_entry-Becomes a)
          (fix_all-ReplaceAll aes p) (added a aes p q)
  ]

  -- Nothing is done, or entries are written in place of all those that were read.
  abbrev pub Rewrites : List (Event fl) → Type 0
  Rewrites h' =
      (h' ≡ h)
      ⊎ ((aes : List (Entry fl)) × (es : List (Entry fl)) × (env.entries_with_taxes h ≡ ok aes)
          × (h' ≡ entries_rewritten es ∷ h)
          × ReplaceAll aes es)

  write_fixed-history :
      (l : List (Entry fl)) (after : Fixed fl env)
      → ((write_fixed fl env l after h).1 ≡ h)
        ⊎ ((write_fixed fl env l after h).1 ≡ entries_rewritten after.entries ∷ h)
  unfolding write_fixed
  write_fixed-history [] after = inl refl
  write_fixed-history (e ∷ l) after = inr (ground (arith))

  -- A correction of the taxes does nothing, or writes an entry in place of each that was read, in
  -- their order: with the same identifier, and with the amount zero where the exchange of the tax
  -- of its order fails.
  pub fix_taxes-Rewrites : Rewrites (fix_taxes fl env h).1
  unfolding fix_taxes
  fix_taxes-Rewrites = elim (Result-cases (env.entries_with_taxes h)) [
    | inr (e, p) ↦ inl (ground (arith))
    | inl (aes, p) ↦ elim (Result-cases (fix_all fl env h aes)) [
      | inr (e, q) ↦ inl (ground (arith))
      | inl (after, q) ↦ elim (write_fixed-history after.list after) [
        | inl w ↦ inl (ground (arith))
        | inr w ↦ inr (aes, after.entries, p, ground (arith), fix_all-ReplaceAll aes q)
      ]
    ]
  ]
