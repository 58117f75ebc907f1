-- ===== src/Tariffs/Sample.antt =====
-- A sort for the tests of the choice of an interval.

use paysuper_billing_server.Base.{
  ℕ, Bool, true, false, List, [], ◌∷◌, ◌≡◌, refl, All, ltb, ◌⊎◌, inl, inr, arith, if◌then◌else◌,
  subst,
}
use paysuper_billing_server.Mongo.{In}
use paysuper_billing_server.Tariffs.Choice.{KeyValue}
use paysuper_billing_server.Tariffs.Latest.{Sorts}

abbrev pub later : KeyValue ℕ → KeyValue ℕ → Bool
later a b = ltb b.value a.value

-- A sort by insertion, the latest first.
unfoldable pub insert : KeyValue ℕ → List (KeyValue ℕ) → List (KeyValue ℕ)
insert a [] = a ∷ []
insert a (b ∷ bs) = let rest = insert a bs in if later b a then b ∷ rest else a ∷ b ∷ bs

unfoldable pub sort : List (KeyValue ℕ) → List (KeyValue ℕ)
unfolding insert
sort [] = []
sort (a ∷ bs) = insert a (sort bs)

All-insert :
    (P : KeyValue ℕ → Type 0) (a : KeyValue ℕ) (bs : List (KeyValue ℕ))
    → P a
    → All P bs
    → All P (insert a bs)
unfolding insert
All-insert P a [] p ps = (p, tt)
All-insert P a (b ∷ bs) p ps = go (All-insert P a bs p ps.1) (later b a)
  where
    go : All P (insert a bs) → (c : Bool) → All P (if c then b ∷ insert a bs else a ∷ b ∷ bs)
    go rest true = (ps.0, rest)
    go rest false = (p, ps)

In-insert : (a x : KeyValue ℕ) (bs : List (KeyValue ℕ)) → In x (insert a bs) → (x ≡ a) ⊎ In x bs
unfolding insert
In-insert a x [] (inl p) = inl p
In-insert a x [] (inr is) = elim is [ ]
In-insert a x (b ∷ bs) is = go (In-insert a x bs) (later b a) is
  where
    go :
        (In x (insert a bs) → (x ≡ a) ⊎ In x bs)
        → (c : Bool) → In x (if c then b ∷ insert a bs else a ∷ b ∷ bs)
        → (x ≡ a) ⊎ In x (b ∷ bs)
    go rest true (inl p) = inr (inl p)
    go rest true (inr i) = elim (rest i) [ inl p ↦ inl p | inr j ↦ inr (inr j) ]
    go rest false (inl p) = inl p
    go rest false (inr i) = inr i

insert-In : (a x : KeyValue ℕ) (bs : List (KeyValue ℕ)) → (x ≡ a) ⊎ In x bs → In x (insert a bs)
unfolding insert
insert-In a x [] (inl p) = inl p
insert-In a x [] (inr is) = elim is [ ]
insert-In a x (b ∷ bs) is = go (insert-In a x bs) (later b a) is
  where
    go :
        ((x ≡ a) ⊎ In x bs → In x (insert a bs))
        → (c : Bool) → (x ≡ a) ⊎ In x (b ∷ bs)
        → In x (if c then b ∷ insert a bs else a ∷ b ∷ bs)
    go rest true (inl p) = inr (rest (inl p))
    go rest true (inr (inl p)) = inl p
    go rest true (inr (inr i)) = inr (rest (inr i))
    go rest false i = i

-- None after the first is later.
abbrev FirstIsLatest : List (KeyValue ℕ) → Type 0
FirstIsLatest [] = Unit
FirstIsLatest (y ∷ ys) = All (λ z. later z y ≡ false) ys

All-weaken :
    (a b : KeyValue ℕ) (bs : List (KeyValue ℕ))
    → later b a ≡ false
    → All (λ z. later z b ≡ false) bs
    → All (λ z. later z a ≡ false) bs
All-weaken a b [] p ps = tt
All-weaken a b (z ∷ bs) p ps = (ground (arith, p, ps.0), All-weaken a b bs p ps.1)

insert-FirstIsLatest :
    (a : KeyValue ℕ) (bs : List (KeyValue ℕ)) → FirstIsLatest bs → FirstIsLatest (insert a bs)
unfolding insert
insert-FirstIsLatest a [] ps = tt
insert-FirstIsLatest a (b ∷ bs) ps = go (later b a) refl
  where
    go : (c : Bool) → later b a ≡ c → FirstIsLatest (if c then b ∷ insert a bs else a ∷ b ∷ bs)
    go true p = All-insert (λ z. later z b ≡ false) a bs (ground (arith, p)) ps
    go false p = (p, All-weaken a b bs p ps)

sort-FirstIsLatest : (xs : List (KeyValue ℕ)) → FirstIsLatest (sort xs)
unfolding sort
sort-FirstIsLatest [] = tt
sort-FirstIsLatest (x ∷ xs) = insert-FirstIsLatest x (sort xs) (sort-FirstIsLatest xs)

sort-member : (xs : List (KeyValue ℕ)) (x : KeyValue ℕ) → In x (sort xs) → In x xs
unfolding sort
sort-member [] x is = is
sort-member (a ∷ xs) x is = elim (In-insert a x (sort xs) is) [
  | inl p ↦ inl p
  | inr i ↦ inr (sort-member xs x i)
]

sort-kept : (xs : List (KeyValue ℕ)) (x : KeyValue ℕ) → In x xs → In x (sort xs)
unfolding sort
sort-kept [] x is = is
sort-kept (a ∷ xs) x (inl p) = insert-In a x (sort xs) (inl p)
sort-kept (a ∷ xs) x (inr i) = insert-In a x (sort xs) (inr (sort-kept xs x i))

pub sort-Sorts : Sorts later sort
sort-Sorts = record {
  member = sort-member;
  kept = sort-kept;
  ordered = λ xs y ys p. subst FirstIsLatest p (sort-FirstIsLatest xs);
}
