-- ===== src/Tariffs/Latest.antt =====
-- That the interval that is chosen is the last one reached (getMoneyBackCostMerchant,
-- getMoneyBackCostSystem and getPaymentChannelCostMerchant in internal/service).
use paysuper_billing_server.Base.{
  ℕ, suc, ◌+◌, Bool, true, false, Option, some, List, [], ◌∷◌, ◌≡◌, refl, sym, ap, ◌∙◌, subst, ◌⊎◌,
  inl, inr, All, arith, if◌then◌else◌,
}
use paysuper_billing_server.Mongo.{In, All-In}
use paysuper_billing_server.Handler.{Result, ok}
use paysuper_billing_server.Tariffs.Choice.{
  KeyValue, ChoiceError, matched, begins_later, get_elem?, at_first, choose, choose_in,
}

-- What sorting a slice by an order does: it keeps the members, and none after the first is less
-- than it.
pub record Sorts {A : Type 0} (less : A → A → Bool) (sort : List A → List A) : Type 0 where
  pub member : (xs : List A) (x : A) → In x (sort xs) → In x xs
  pub kept : (xs : List A) (x : A) → In x xs → In x (sort xs)
  pub ordered :
      (xs : List A) (y : A) (ys : List A) → sort xs ≡ y ∷ ys → All (λ z. less z y ≡ false) ys

module _ {A T : Type 0} (start : A → T) (lt le : T → T → Bool)
    (sort_slice : (KeyValue T → KeyValue T → Bool) → List (KeyValue T) → List (KeyValue T))
    (value : T) where
  abbrev IsReached : A → Type 0
  IsReached a = le (start a) value ≡ true

  abbrev later : KeyValue T → KeyValue T → Bool
  later = begins_later start lt le sort_slice value

  abbrev match_all : ℕ → List A → List (KeyValue T)
  match_all k set = matched start lt le sort_slice value k set

  abbrev elem_at : List A → ℕ → Option A
  elem_at set i = get_elem? start lt le sort_slice value set i

  In-if :
      (b : Bool) (m x : KeyValue T) (rest : List (KeyValue T))
      → In m (if b then x ∷ rest else rest)
      → ((b ≡ true) × (m ≡ x)) ⊎ In m rest
  In-if true m x rest (inl p) = inl (refl, p)
  In-if true m x rest (inr i) = inr i
  In-if false m x rest i = inr i

  In-if_there :
      (b : Bool) (m x : KeyValue T) (rest : List (KeyValue T))
      → In m rest
      → In m (if b then x ∷ rest else rest)
  In-if_there true m x rest i = inr i
  In-if_there false m x rest i = i

  In-if_here :
      (b : Bool) (x : KeyValue T) (rest : List (KeyValue T))
      → b ≡ true
      → In x (if b then x ∷ rest else rest)
  In-if_here true x rest p = inl refl
  In-if_here false x rest p = ground (arith)

  -- A match is of an interval of the set.
  abbrev Matches : List A → KeyValue T → ℕ → Type 0
  Matches set m k =
      (i : ℕ) × (a : A) × (m.key ≡ k + i)
      × (elem_at set i ≡ some a)
      × In a set
      × IsReached a
      × (m.value ≡ start a)

  matched-Matches :
      (k : ℕ) (set : List A) (m : KeyValue T) → In m (match_all k set) → Matches set m k
  unfolding matched
  matched-Matches k [] m is = elim is [ ]
  matched-Matches k (a ∷ set) m is = elim (In-if (le (start a) value) m _ _ is) [
    | inl (r, p) ↦ (0, a, ap (λ x. x.key) p ∙ omega arith, refl, inl refl, r, ap (λ x. x.value) p)
    | inr there ↦
        let (i, b, key, found, inside, r, v) = matched-Matches (suc k) set m there in
        (suc i, b, omega (arith, key), found, inr inside, r, v)
  ]

  matched-all :
      (k : ℕ) (set : List A) (b : A)
      → In b set
      → IsReached b
      → (m : KeyValue T) × In m (match_all k set) × (m.value ≡ start b)
  unfolding matched
  matched-all k [] b is r = elim is [ ]
  matched-all k (a ∷ set) b (inl p) r = (
    record { key = k; value = start a },
    In-if_here (le (start a) value) _ _ (subst (λ x. le (start x) value ≡ true) p r),
    sym (ap start p),
  )
  matched-all k (a ∷ set) b (inr is) r =
      let (m, there, v) = matched-all (suc k) set b is r in
      (m, In-if_there (le (start a) value) m _ _ there, v)

  -- An interval of a set that is reached, and none of the set that is reached begins later.
  abbrev pub IsLatest : List A → A → Type 0
  IsLatest set a =
      In a set × IsReached a × ((b : A) → In b set → IsReached b → lt (start a) (start b) ≡ false)

  module _ (sorts : Sorts later (sort_slice later)) (irreflexive : (t : T) → lt t t ≡ false) where
    -- The first of the sorted matches is not below any of them.
    first-greatest :
        (ms : List (KeyValue T)) (m : KeyValue T) (ms' : List (KeyValue T))
        → sort_slice later ms ≡ m ∷ ms'
        → (z : KeyValue T) → In z ms
        → lt m.value z.value ≡ false
    first-greatest ms m ms' p z is =
        All-In (λ x. lt m.value x.value ≡ false) z (m ∷ ms')
          (irreflexive m.value, sorts.ordered ms m ms' p) (subst (In z) p (sorts.kept ms z is))

    first-found :
        (set : List A) (m : KeyValue T) (ms : List (KeyValue T)) {a a' : A}
        → elem_at set m.key ≡ some a'
        → at_first start lt le sort_slice value set (m ∷ ms) ≡ ok a
        → a' ≡ a
    first-found set m ms p q = ground (arith)

    first-is :
        (set : List A) (m : KeyValue T) (ms : List (KeyValue T)) {a : A}
        → elem_at set m.key ≡ some a
        → at_first start lt le sort_slice value set (m ∷ ms) ≡ ok a
    first-is set m ms p = ground (arith)

    -- A set with an interval that is reached is not one without matches.
    not_first :
        (s : List A) (sets : List (List A)) (set : List A) (b : A)
        → In set (s ∷ sets)
        → match_all 0 s ≡ []
        → In b set
        → IsReached b
        → In set sets
    not_first s sets set b (inr is) p inside reached = is
    not_first s sets set b (inl e) p inside reached =
        let (m, there, _) = matched-all 0 s b (subst (In b) e inside) reached in
        elim (subst (In m) p there) [ ]

    at_first-IsLatest :
        (set : List A) (ms : List (KeyValue T)) {a : A}
        → sort_slice later (match_all 0 set) ≡ ms
        → at_first start lt le sort_slice value set ms ≡ ok a
        → IsLatest set a
    at_first-IsLatest set [] p q = ground (arith)
    at_first-IsLatest set (m ∷ ms) {a} p q =
        let inside = sorts.member (match_all 0 set) m (subst (In m) (sym p) (inl refl)) in
        let (i, a', key, found, is, r, v) = matched-Matches 0 set m inside in
        let at_key : m.key ≡ i = omega (arith, key) in
        let same : a' ≡ a = first-found set m ms (ap (elem_at set) at_key ∙ found) q in
        subst (IsLatest set) same (
          is,
          r,
          λ b is' r'.
              let (z, there, w) = matched-all 0 set b is' r' in
              subst (λ t. lt t (start b) ≡ false) v
                (subst (λ t. lt m.value t ≡ false) w
                  (first-greatest (match_all 0 set) m ms p z there)),
        )

    List-cases :
        (ms : List (KeyValue T))
        → (ms ≡ []) ⊎ ((m : KeyValue T) × (ms' : List (KeyValue T)) × (ms ≡ m ∷ ms'))
    List-cases [] = inl refl
    List-cases (m ∷ ms) = inr (m, ms, refl)

    abbrev sorted : List A → List (KeyValue T)
    sorted set = sort_slice later (match_all 0 set)

    abbrev choice : List A → Result ChoiceError A → List (KeyValue T) → Result ChoiceError A
    choice set rest ms = choose_in start lt le sort_slice value set rest ms

    abbrev choice_of : List (List A) → Result ChoiceError A
    choice_of sets = choose start lt le sort_slice value sets

    choice-sorted :
        (set : List A) (rest : Result ChoiceError A) {m : KeyValue T} {ms : List (KeyValue T)}
        → match_all 0 set ≡ m ∷ ms
        → choice set rest (match_all 0 set) ≡ at_first start lt le sort_slice value set (sorted set)
    choice-sorted set rest {m} {ms} p =
        ap (choice set rest) p
        ∙ ap (λ x. at_first start lt le sort_slice value set (sort_slice later x)) (sym p)

    -- If the sort by where intervals begin keeps the members and puts none before which another
    -- should stand first, and no beginning is below itself, an interval that is chosen is of one of
    -- the sets and reached by the value, and none of its set that is reached begins later.
    pub choose-IsLatest :
        (sets : List (List A)) {a : A}
        → choice_of sets ≡ ok a
        → (set : List A) × In set sets × IsLatest set a
    unfolding choose
    choose-IsLatest [] q = ground (arith)
    choose-IsLatest (set ∷ sets) q = elim (List-cases (match_all 0 set)) [
      | inl p ↦
          let (s, is, latest) =
            choose-IsLatest sets (sym (ap (choice set (choice_of sets)) p) ∙ q) in
          (s, inr is, latest)
      | inr (m, ms, p) ↦ (
        set,
        inl refl,
        at_first-IsLatest set (sorted set) refl (sym (choice-sorted set (choice_of sets) p) ∙ q),
      )
    ]

    at_first-found :
        (set : List A) (m : KeyValue T)
        → In m (match_all 0 set)
        → (a : A) × (at_first start lt le sort_slice value set (sorted set) ≡ ok a)
    at_first-found set m is = elim (List-cases (sorted set)) [
      | inl p ↦ elim (subst (In m) p (sorts.kept (match_all 0 set) m is)) [ ]
      | inr (y, ys, p) ↦
          let inside = sorts.member (match_all 0 set) y (subst (In y) (sym p) (inl refl)) in
          let (i, a, key, found, _, _, _) = matched-Matches 0 set y inside in
          let at_key : y.key ≡ i = omega (arith, key) in
          (
            a,
            ap (at_first start lt le sort_slice value set) p
                ∙ first-is set y ys (ap (elem_at set) at_key ∙ found),
          )
    ]

    -- If the sort by where intervals begin keeps the members and puts none before which another
    -- should stand first, and no beginning is below itself, an interval is chosen whenever one of a
    -- set is reached.
    pub choose-found :
        (sets : List (List A)) (set : List A) (b : A)
        → In set sets
        → In b set
        → IsReached b
        → (a : A) × (choice_of sets ≡ ok a)
    unfolding choose
    choose-found [] set b is inside reached = elim is [ ]
    choose-found (s ∷ sets) set b is inside reached = elim (List-cases (match_all 0 s)) [
      | inr (m, ms, p) ↦
          let (a, q) = at_first-found s m (subst (In m) (sym p) (inl refl)) in
          (a, choice-sorted s (choice_of sets) p ∙ q)
      | inl p ↦
          let (a, q) =
            choose-found sets set b (not_first s sets set b is p inside reached) inside reached in
          (a, ap (choice s (choice_of sets)) p ∙ q)
    ]
