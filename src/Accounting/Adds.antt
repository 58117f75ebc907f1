-- ===== src/Accounting/Adds.antt =====
-- What a step adds: a postcondition of the steps that build the entries of an event (addEntry in
-- internal/service/accounting_entry.go), with a rule for each way to build a step.
use mathlib.Core.List.{append_assoc, append-nil, map-append}
use paysuper_billing_server.Base.{
  inl, inr, ℕ, Option, List, [], ◌∷◌, ◌++◌, map, ◌≡◌, refl, sym, ap, ◌∙◌, subst, All, All-append,
  arith,
}
use paysuper_billing_server.Base.Text.{String}
use paysuper_billing_server.Floats.{Floats}
use paysuper_billing_server.Handler.{Result, ok, err, Result-cases}
use paysuper_billing_server.Accounting.{EntryType, SourceType, Error, Entry, Event, Env}
use paysuper_billing_server.Accounting.Build.{Basis, Build, continue, pure, lift, ◌>>=◌}
use paysuper_billing_server.Accounting.Add.{
  with_original, with_local, with_rounded, precise, finish_entry, add_entry, check_entry,
}

module _ (fl : Floats) where
  -- What an entry is stamped with when it is made.
  pub record Stamp : Type 0 where
    pub type_of : EntryType
    pub source : Option (SourceType × String)
    pub merchant_id : String
    pub operating_company_id : String
    pub created_at : Option ℕ

  abbrev pub stamp : Entry fl → Stamp
  stamp e = record {
    type_of = e.type_of;
    source = e.source;
    merchant_id = e.merchant_id;
    operating_company_id = e.operating_company_id;
    created_at = e.created_at;
  }

module _ (fl : Floats) (env : Env fl) (h : List (Event fl)) (basis : Basis fl) where
  open fl use {F}

  stamp-with_original :
      (e : Entry fl)
      → (stamp fl (with_original fl env h basis e) ≡ stamp fl e)
        × ((with_original fl env h basis e).amount ≡ e.amount)
  stamp-with_original e = ground (arith)

  stamp-with_local :
      (e : Entry fl) {e' : Entry fl}
      → with_local fl env h basis e ≡ ok e'
      → (stamp fl e' ≡ stamp fl e) × (e'.amount ≡ e.amount)
  unfolding with_local
  stamp-with_local e q = ground (arith)

  stamp-with_rounded :
      (es : List (Entry fl)) (e : Entry fl) {e' : Entry fl}
      → with_rounded fl env h basis es e ≡ ok e'
      → (stamp fl e' ≡ stamp fl e) × (e'.amount ≡ e.amount)
  unfolding with_rounded
  stamp-with_rounded es e q = ground (arith)

  rest :
      (es : List (Entry fl)) (e : Entry fl) {u : Unit {0}} {l : Entry fl}
      → check_entry fl env h basis e ≡ ok u
      → with_local fl env h basis (with_original fl env h basis e) ≡ ok l
      → with_rounded fl env h basis es (precise fl env h basis l) ≡ finish_entry fl env h basis es e
  unfolding finish_entry
  rest es e p r = ground (arith)

  -- An entry that is added has its stamp, and its amount is made precise.
  pub finish_entry-keeps :
      (es : List (Entry fl)) (e : Entry fl) {e' : Entry fl}
      → finish_entry fl env h basis es e ≡ ok e'
      → (stamp fl e' ≡ stamp fl e) × (e'.amount ≡ env.to_precise e.amount)
  unfolding finish_entry
  finish_entry-keeps es e q = elim (Result-cases (check_entry fl env h basis e)) [
    | inr (x, p) ↦ ground (arith)
    | inl (u, p) ↦
        elim (Result-cases (with_local fl env h basis (with_original fl env h basis e))) [
          | inr (x, r) ↦ ground (arith)
          | inl (l, r) ↦
              let k = stamp-with_local (with_original fl env h basis e) r in
              let o = stamp-with_original e in
              let after = stamp-with_rounded es (precise fl env h basis l) (rest es e p r ∙ q) in
              (after.0 ∙ (k.0 ∙ o.0), after.1 ∙ ap env.to_precise (k.1 ∙ o.1))
        ]
  ]

-- `given` is the stamp that the entries of an event have, by type, and `Q` is what is asked of the
-- amount of a type.
module _ {fl : Floats} (given : EntryType → Stamp fl) (Q : EntryType → fl.F → Type 0) where
  abbrev pub Fits : Entry fl → Type 0
  Fits e = (stamp fl e ≡ given e.type_of) × Q e.type_of e.amount

  -- Entries of these types, in this order, each of which fits.
  pub record Fit (ts : List EntryType) (es : List (Entry fl)) : Type 0 where
    pub types : map (λ e. e.type_of) es ≡ ts
    pub all : All Fits es

  -- Where the step succeeds, it has added entries of these types after those before.
  pub record Adds {A : Type 0} (ts : List EntryType) (m : Build fl A) : Type 0 where
    pub at :
        (s : List (Entry fl)) {a : A} {s' : List (Entry fl)}
        → m s ≡ ok (a, s')
        → (es : List (Entry fl)) × (s' ≡ s ++ es) × Fit ts es

module _ {fl : Floats} {A : Type 0} where
  abbrev entries_after : List (Entry fl) → Result Error (A × List (Entry fl)) → List (Entry fl)
  entries_after s (ok x) = x.1
  entries_after s (err e) = s

module _ {fl : Floats} {given : EntryType → Stamp fl} {Q : EntryType → fl.F → Type 0} where
  Fit-append :
      {ts us : List EntryType} (es es' : List (Entry fl))
      → Fit given Q ts es
      → Fit given Q us es'
      → Fit given Q (ts ++ us) (es ++ es')
  Fit-append {ts} es es' f g = record {
    types =
        map-append (λ e. e.type_of) es es'
        ∙ (ap (λ z. z ++ map (λ e. e.type_of) es') f.types ∙ ap (λ z. ts ++ z) g.types);
    all = All-append (Fits given Q) es es' f.all g.all;
  }

  module _ {A : Type 0} where
    pub Adds-pure : (a : A) → Adds given Q [] (pure fl a)
    unfolding pure
    Adds-pure a = record {
      at = λ s q. (
        [],
        sym (ap (entries_after s) q) ∙ sym (append-nil s),
        record { types = refl; all = tt },
      );
    }

  module _ {A B : Type 0} where
    pub Adds-bind-lift :
        {ts : List EntryType} (r : Result Error A) (f : A → Build fl B)
        → ((a : A) → r ≡ ok a → Adds given Q ts (f a))
        → Adds given Q ts (lift fl r >>= f)
    unfolding ◌>>=◌ lift
    Adds-bind-lift (ok a) f kf = record { at = λ s q. (kf a refl).at s q }
    Adds-bind-lift (err e) f kf = record { at = λ s q. ground (arith) }

    pub Adds-bind :
        {ts us : List EntryType} (m : Build fl A) (f : A → Build fl B)
        → Adds given Q ts m
        → ((a : A) → Adds given Q us (f a))
        → Adds given Q (ts ++ us) (m >>= f)
    unfolding ◌>>=◌
    Adds-bind m f km kf = record {
      at = λ s q. elim (Result-cases (m s)) [
        | inr (e, p) ↦ ground (arith)
        | inl (x, p) ↦
            let (es, eq, fit) = km.at s p in
            let (es', eq', fit') = (kf x.0).at x.1 (sym (ap (continue f) p) ∙ q) in
            (
              es ++ es',
              eq' ∙ (ap (λ z. z ++ es') eq ∙ append_assoc s es es'),
              Fit-append es es' fit fit',
            )
      ];
    }

module _ (fl : Floats) (env : Env fl) (h : List (Event fl)) (basis : Basis fl)
    (given : EntryType → Stamp fl) (Q : EntryType → fl.F → Type 0) where
  added-Fits :
      (e : Entry fl) (es : List (Entry fl)) {e' : Entry fl}
      → stamp fl e ≡ given e.type_of
      → Q e.type_of (env.to_precise e.amount)
      → finish_entry fl env h basis es e ≡ ok e'
      → (e'.type_of ≡ e.type_of) × Fits given Q e'
  added-Fits e es {e'} p q r =
      let k = finish_entry-keeps fl env h basis es e r in
      let t = ap (λ st. st.type_of) k.0 in
      (
        t,
        (
          k.0 ∙ (p ∙ ap given (sym t)),
          subst (λ u. Q u e'.amount) (sym t) (subst (λ a. Q e.type_of a) (sym k.1) q),
        ),
      )

  -- An entry whose stamp is the one given for its type, and whose amount fits.
  pub Adds-add :
      (e : Entry fl)
      → stamp fl e ≡ given e.type_of
      → Q e.type_of (env.to_precise e.amount)
      → Adds given Q (e.type_of ∷ []) (add_entry fl env h basis e)
  unfolding add_entry
  Adds-add e p q = record {
    at = λ s r. elim (Result-cases (finish_entry fl env h basis s e)) [
      | inr (x, failed) ↦ ground (arith)
      | inl (e', found) ↦
          let fits = added-Fits e s p q found in
          (e' ∷ [], ground (arith), record { types = ap (λ t. t ∷ []) fits.0; all = (fits.1, tt) })
    ];
  }
