-- ===== src/Memory.antt =====
-- A collection held in memory, where no call fails: it shows that what is assumed of the database
-- driver can hold, and it runs in the tests.
use paysuper_billing_server.Base.{
  ◌≡◌, refl, ap, Bool, true, false, List, [], ◌∷◌, All, if◌then◌else◌, Bool-cases, inl, inr,
}
use paysuper_billing_server.Mongo.{
  Reply, ok, no_documents, failure, Collection, IsCollection, FoundAndUpdated, Found, In, count_if,
}

module _ {D : Type 0} where
  abbrev found : (D → Bool) → List D → Reply D
  found p [] = no_documents
  found p (d ∷ ds) = if p d then ok d else found p ds

  abbrev matching : (D → Bool) → List D → List D
  matching p [] = []
  matching p (d ∷ ds) = if p d then d ∷ matching p ds else matching p ds

  abbrev update_first : (D → Bool) → (D → D) → List D → Reply D × List D
  update_first p f [] = (no_documents, [])
  update_first p f (d ∷ ds) =
      let (r, ds') = update_first p f ds in if p d then (ok (f d), f d ∷ ds) else (r, d ∷ ds')

  found-Found : (p : D → Bool) (ds : List D) → Found p (found p ds) ds
  found-Found p [] = tt
  found-Found p (d ∷ ds) = elim (Bool-cases (p d)) [
    | inl e ↦ rw e e
    | inr e ↦ rw e (Found-cons p d (found p ds) ds e (found-Found p ds))
  ]
    where
      Found-cons :
          (p : D → Bool) (d : D) (r : Reply D) (ds : List D)
          → p d ≡ false
          → Found p r ds
          → Found p r (d ∷ ds)
      Found-cons p d (ok x) ds e h = h
      Found-cons p d no_documents ds e h = (e, h)
      Found-cons p d failure ds e h = tt

  All-In_cons :
      (p : D → Bool) (d : D) (ds xs : List D)
      → All (λ x. (p x ≡ true) × In x ds) xs
      → All (λ x. (p x ≡ true) × In x (d ∷ ds)) xs
  All-In_cons p d ds [] h = tt
  All-In_cons p d ds (x ∷ xs) h = ((h.0.0, inr h.0.1), All-In_cons p d ds xs h.1)

  matching-Listed : (p : D → Bool) (ds : List D) → All (λ d. (p d ≡ true) × In d ds) (matching p ds)
  matching-Listed p [] = tt
  matching-Listed p (d ∷ ds) = elim (Bool-cases (p d)) [
    | inl e ↦ rw e ((e, inl refl), All-In_cons p d ds _ (matching-Listed p ds))
    | inr e ↦ rw e (All-In_cons p d ds _ (matching-Listed p ds))
  ]

  FoundAndUpdated-cons :
      (p : D → Bool) (f : D → D) (d : D) (r : Reply D) (before after : List D)
      → p d ≡ false
      → FoundAndUpdated p f r before after
      → FoundAndUpdated p f r (d ∷ before) (d ∷ after)
  FoundAndUpdated-cons p f d (ok e) before after no_match u = record {
    earlier = d ∷ u.earlier;
    old = u.old;
    later = u.later;
    matched = u.matched;
    was = ap (λ l. d ∷ l) u.was;
    became = ap (λ l. d ∷ l) u.became;
    image = u.image;
  }
  FoundAndUpdated-cons p f d no_documents before after no_match (e, none_matches) =
      (ap (λ l. d ∷ l) e, (no_match, none_matches))
  FoundAndUpdated-cons p f d failure before after no_match (inl e) = inl (ap (λ l. d ∷ l) e)
  FoundAndUpdated-cons p f d failure before after no_match (inr (e, u)) = inr (
    e,
    record {
      earlier = d ∷ u.earlier;
      old = u.old;
      later = u.later;
      matched = u.matched;
      was = ap (λ l. d ∷ l) u.was;
      became = ap (λ l. d ∷ l) u.became;
      image = u.image;
    },
  )

  update_first-FoundAndUpdated :
      (p : D → Bool) (f : D → D) (ds : List D)
      → FoundAndUpdated p f (update_first p f ds).0 ds (update_first p f ds).1
  update_first-FoundAndUpdated p f [] = (refl, tt)
  update_first-FoundAndUpdated p f (d ∷ ds) = elim (Bool-cases (p d)) [
    | inl e ↦ rw e (record {
      earlier = [];
      old = d;
      later = ds;
      matched = e;
      was = refl;
      became = refl;
      image = refl;
    })
    | inr e ↦ rw e (FoundAndUpdated-cons p f d _ _ _ e (update_first-FoundAndUpdated p f ds))
  ]

abbrev pub memory : (D : Type 0) → Collection D
memory D = record {
  Db = List D;
  documents = λ db. db;
  insert_one = λ d db. (ok tt, d ∷ db);
  find_one = λ p db. (found p db, db);
  find = λ p db. (ok (matching p db), db);
  count_documents = λ p db. (ok (count_if p db), db);
  find_one_and_update = update_first;
}

pub memory-IsCollection : (D : Type 0) → IsCollection (memory D)
memory-IsCollection D = record {
  insert_one_lem = λ d db. refl;
  find_one_lem = λ p db. (found-Found p db, refl);
  find_lem = λ p db. (matching-Listed p db, refl);
  count_documents_lem = λ p db. (refl, refl);
  find_one_and_update_lem = update_first-FoundAndUpdated;
}
