-- ===== src/Accounting/Adding.antt =====
-- The rules for the entries that an event makes of an amount (addEntry in
-- internal/service/accounting_entry.go).
use paysuper_billing_server.Base.{ap, sym, ◌∙◌, subst, List, [], ◌∷◌, ◌≡◌, refl}
use paysuper_billing_server.Base.Text.{String}
use paysuper_billing_server.Floats.{Floats}
use paysuper_billing_server.Handler.{Result}
use paysuper_billing_server.Accounting.{EntryType, Error, Entry, Event, Env}
use paysuper_billing_server.Accounting.Add.{add_entry}
use paysuper_billing_server.Accounting.Build.{Basis, new_entry}
use paysuper_billing_server.Accounting.Adds.{Stamp, stamp, Adds, Adds-bind-lift, Adds-add}
use paysuper_billing_server.Accounting.PaymentEvent.{add_amount, add_charged, fixed_fee}

-- `given` is the stamp of a new entry of a type.
module _ (fl : Floats) (env : Env fl) (h : List (Event fl)) (basis : Basis fl)
    (given : EntryType → Stamp fl) (Q : EntryType → fl.F → Type 0)
    (typed : (t : EntryType) → (new_entry fl env h basis t).type_of ≡ t)
    (stamped : (t : EntryType) → stamp fl (new_entry fl env h basis t) ≡ given t) where
  open fl use {F}

  -- An entry that is a new one but for its amounts.
  pub Adding-new :
      (t : EntryType) (e : Entry fl)
      → stamp fl e ≡ stamp fl (new_entry fl env h basis t)
      → Q t (env.to_precise e.amount)
      → Adds given Q (t ∷ []) (add_entry fl env h basis e)
  Adding-new t e p q =
      let u : e.type_of ≡ t = ap (λ st. st.type_of) p ∙ typed t in
      subst (λ v. Adds given Q (v ∷ []) (add_entry fl env h basis e)) u
        (Adds-add fl env h basis given Q e (p ∙ (stamped t ∙ ap given (sym u)))
          (subst (λ v. Q v (env.to_precise e.amount)) (sym u) q))

  pub Adding-amount :
      (t : EntryType) (a : F)
      → Q t (env.to_precise a)
      → Adds given Q (t ∷ []) (add_amount fl env h basis t a)
  unfolding add_amount
  Adding-amount t a q = Adding-new t (record (new_entry fl env h basis t) { amount = a }) refl q

  pub Adding-charged :
      (t : EntryType) (original : F) (currency : String) (a : F)
      → Q t (env.to_precise a)
      → Adds given Q (t ∷ []) (add_charged fl env h basis t original currency a)
  unfolding add_charged
  Adding-charged t original currency a q =
      Adding-new t
        (record (new_entry fl env h basis t) {
          amount = a;
          original_amount = original;
          original_currency = currency;
        })
        refl q

  pub Adding-fixed :
      (t : EntryType) (r : Result Error F)
      → ((a : F) → Q t a)
      → Adds given Q (t ∷ []) (fixed_fee fl env h basis t r)
  unfolding fixed_fee
  Adding-fixed t r q = Adds-bind-lift _ _ λ a _. Adding-amount t a (q (env.to_precise a))
