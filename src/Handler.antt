-- ===== src/Handler.antt =====
-- Calls of the service as functions on the history of what they have done to the outside, the
-- newest event first. A call ends early with a final result, or goes on with a value.
use paysuper_billing_server.Base.{arith, Bool, true, false, List, ◌∷◌, ◌≡◌, refl, ◌⊎◌, inl, inr}

pub data Step (R A : Type 0) : Type 0 where
  next : A → Step R A
  done : R → Step R A

-- What a call answers: a value or an error.
pub data Result (Err A : Type 0) : Type 0 where
  ok : A → Result Err A
  err : Err → Result Err A

abbrev pub Handler : Type 0 → Type 0 → Type 0 → Type 0
Handler E R A = List E → Step R A × List E

-- The rest of a method, after its beginning.
abbrev pub go_on : {E R A B : Type 0} → (A → Handler E R B) → Step R A × List E → Step R B × List E
go_on k (next a, h) = k a h
go_on k (done r, h) = (done r, h)

infixl 5 ◌>>=◌ ◌>>◌
abbrev pub ◌>>=◌ : {E R A B : Type 0} → Handler E R A → (A → Handler E R B) → Handler E R B
◌>>=◌ m k h = go_on k (m h)

abbrev pub ◌>>◌ : {E R B : Type 0} → Handler E R (Unit {0}) → Handler E R B → Handler E R B
m >> k = m >>= λ _. k

module _ {E R : Type 0} where
  abbrev pub pure : {A : Type 0} → A → Handler E R A
  pure a h = (next a, h)

  abbrev pub return_with : {A : Type 0} → R → Handler E R A
  return_with r h = (done r, h)

  -- An answer from outside, which may depend on all that was done before.
  abbrev pub ask : {A : Type 0} → (List E → A) → Handler E R A
  ask f h = (next (f h), h)

  abbrev pub emit : E → Handler E R (Unit {0})
  emit e h = (next tt, e ∷ h)

  abbrev pub return_if : Bool → R → Handler E R (Unit {0})
  return_if true r h = (done r, h)
  return_if false r h = (next tt, h)

  abbrev pub when : Bool → Handler E R (Unit {0}) → Handler E R (Unit {0})
  when true m h = m h
  when false m h = (next tt, h)

  -- The value of a call that may fail, or an early return made of its error.
  abbrev pub or_return : {Err A : Type 0} → Result Err A → (Err → R) → Handler E R A
  or_return (ok a) f h = (next a, h)
  or_return (err e) f h = (done (f e), h)

  -- A call of a function that returns an error, whose error is looked at by the caller.
  abbrev pub try_call : {Err A : Type 0} → Handler E Err A → Handler E R (Result Err A)
  try_call m h = let (s, h') = m h in (next (elim s [ next a ↦ ok a | done e ↦ err e ]), h')

-- What a method that answers with its own value answers, and the history after it.
abbrev pub run : {E R : Type 0} → Handler E R R → List E → R × List E
run m h = let (s, h') = m h in (elim s [ next r ↦ r | done r ↦ r ], h')

pub Result-cases :
    {Err A : Type 0} (x : Result Err A) → ((a : A) × (x ≡ ok a)) ⊎ ((e : Err) × (x ≡ err e))
Result-cases (ok a) = inl (a, refl)
Result-cases (err e) = inr (e, refl)

-- What the rest of a method never changes.
pub go_on-keeps :
    {E R A B X : Type 0}
    → (f : List E → X) (k : A → Handler E R B) (s : Step R A × List E)
    → ((a : A) (h : List E) → f (k a h).1 ≡ f h)
    → f (go_on k s).1 ≡ f s.1
go_on-keeps f k (next a, h) keeps = keeps a h
go_on-keeps f k (done r, h) keeps = refl

pub Step-cases : {R A : Type 0} (s : Step R A) → ((a : A) × (s ≡ next a)) ⊎ ((r : R) × (s ≡ done r))
Step-cases (next a) = inl (a, refl)
Step-cases (done r) = inr (r, refl)

-- A beginning that goes on is passed over.
pub go_on-next :
    {E R A B : Type 0} (k : A → Handler E R B) (s : Step R A × List E) {a : A} {h : List E}
    → s.0 ≡ next a
    → s.1 ≡ h
    → go_on k s ≡ k a h
go_on-next k (next b, h) p q = ground (arith)
go_on-next k (done r, h) p q = ground (arith)

-- A beginning that ends early leaves its history.
pub go_on-done :
    {E R A B : Type 0} (k : A → Handler E R B) (s : Step R A × List E) {r : R}
    → s.0 ≡ done r
    → (go_on k s).1 ≡ s.1
go_on-done k (next b, h) q = ground (arith)
go_on-done k (done r, h) q = refl
