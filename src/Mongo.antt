-- ===== src/Mongo.antt =====
-- The database driver (go.mongodb.org/mongo-driver, outside this repository) as a parameter: a
-- collection is an abstract state with the documents that it holds, and operations on it.
-- `IsCollection` is what the repositories rely on, as the driver documents it.
mod Split
pub use Split.{
  Updated, All-Updated, count_if, count_if-Updated, count_if-Updated_same, count_if-Updated_in,
  All-append_iff, In, In-middle, All-In, count_if-Updated_under, In-Updated, length-Updated,
}
use paysuper_billing_server.Base.{
  ℕ, ◌≡◌, refl, ◌⊎◌, inl, inr, Bool, true, false, Option, none, some, List, [], ◌∷◌, All,
}

-- What a driver's call answers: a value, `mongo.ErrNoDocuments`, or any other error.
pub data Reply (A : Type 0) : Type 0 where
  ok : A → Reply A
  no_documents : Reply A
  failure : Reply A

pub record Collection (D : Type 0) : Type 1 where
  pub Db : Type 0
  pub documents : Db → List D
  pub insert_one : D → Db → Reply (Unit {0}) × Db
  pub find_one : (D → Bool) → Db → Reply D × Db
  pub find : (D → Bool) → Db → Reply (List D) × Db
  pub count_documents : (D → Bool) → Db → Reply ℕ × Db
  -- with `SetReturnDocument(options.After)`
  pub find_one_and_update : (D → Bool) → (D → D) → Db → Reply D × Db

-- An insertion adds the document; one that fails may have added it all the same.
abbrev pub Inserted : {D : Type 0} → D → Reply (Unit {0}) → List D → List D → Type 0
Inserted d (ok _) before after = after ≡ d ∷ before
Inserted d no_documents before after = after ≡ before
Inserted d failure before after = (after ≡ before) ⊎ (after ≡ d ∷ before)

abbrev pub Found : {D : Type 0} → (D → Bool) → Reply D → List D → Type 0
Found p (ok d) docs = p d ≡ true
Found p no_documents docs = All (λ d. p d ≡ false) docs
Found p failure docs = Unit

abbrev pub Listed : {D : Type 0} → (D → Bool) → Reply (List D) → List D → Type 0
Listed p (ok ds) docs = All (λ d. (p d ≡ true) × In d docs) ds
Listed p no_documents docs = Unit
Listed p failure docs = Unit

abbrev pub Counted : {D : Type 0} → (D → Bool) → Reply ℕ → List D → Type 0
Counted p (ok n) docs = n ≡ count_if p docs
Counted p no_documents docs = Unit
Counted p failure docs = Unit

-- One matching document, whichever, is updated in one step and returned as it is afterwards. A
-- call that fails on the way may have updated it all the same.
abbrev pub FoundAndUpdated :
    {D : Type 0} → (D → Bool) → (D → D) → Reply D → List D → List D → Type 0
FoundAndUpdated p f (ok e) before after = Updated p f e before after
FoundAndUpdated p f no_documents before after = (after ≡ before) × All (λ d. p d ≡ false) before
FoundAndUpdated {D} p f failure before after =
    (after ≡ before) ⊎ ((e : D) × Updated p f e before after)

pub record IsCollection {D : Type 0} (c : Collection D) : Type 0 where
  pub insert_one_lem :
      (d : D) (db : c.Db)
      → Inserted d (c.insert_one d db).0 (c.documents db) (c.documents (c.insert_one d db).1)
  pub find_one_lem :
      (p : D → Bool) (db : c.Db)
      → Found p (c.find_one p db).0 (c.documents db)
        × (c.documents (c.find_one p db).1 ≡ c.documents db)
  pub find_lem :
      (p : D → Bool) (db : c.Db)
      → Listed p (c.find p db).0 (c.documents db) × (c.documents (c.find p db).1 ≡ c.documents db)
  pub count_documents_lem :
      (p : D → Bool) (db : c.Db)
      → Counted p (c.count_documents p db).0 (c.documents db)
        × (c.documents (c.count_documents p db).1 ≡ c.documents db)
  pub find_one_and_update_lem :
      (p : D → Bool) (f : D → D) (db : c.Db)
      → FoundAndUpdated p f
          (c.find_one_and_update p f db).0
          (c.documents db)
          (c.documents (c.find_one_and_update p f db).1)

-- To split on an answer and keep the equation.
pub Reply-cases :
    {A : Type 0} (r : Reply A) → ((a : A) × (r ≡ ok a)) ⊎ ((r ≡ no_documents) ⊎ (r ≡ failure))
Reply-cases (ok a) = inl (a, refl)
Reply-cases no_documents = inr (inl refl)
Reply-cases failure = inr (inr refl)
