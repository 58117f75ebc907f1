-- ===== src/Mongo/Split.antt =====
-- A list in which one element that passes a test was replaced.
use paysuper_billing_server.Base.{
  ℕ, suc, ◌+◌, ◌≡◌, refl, ◌↔◌, ◌⊎◌, Bool, true, false, List, [], ◌∷◌, ◌++◌, All, arith,
  if◌then◌else◌, length, length-append, inl, inr,
}

module _ {D : Type 0} where
  -- `after` is `before` with one document that passes `p` replaced by its image `e` under `f`.
  pub record Updated (p : D → Bool) (f : D → D) (e : D) (before after : List D) : Type 0 where
    pub earlier : List D
    pub old : D
    pub later : List D
    pub matched : p old ≡ true
    pub was : before ≡ earlier ++ (old ∷ later)
    pub became : after ≡ earlier ++ (e ∷ later)
    pub image : e ≡ f old

  pub All-append_iff {κ} :
      (P : D → Type κ) (xs ys : List D) → All P (xs ++ ys) ↔ (All P xs × All P ys)
  All-append_iff P [] ys = (λ h. (tt, h), λ h. h.1)
  All-append_iff P (x ∷ xs) ys =
      let (split, join) = All-append_iff P xs ys in
      (λ h. ((h.0, (split h.1).0), (split h.1).1), λ h. (h.0.0, join (h.0.1, h.1)))

  abbrev pub In : D → List D → Type 0
  In d [] = ⊥
  In d (x ∷ xs) = (d ≡ x) ⊎ In d xs

  pub In-middle : (d : D) (xs ys : List D) → In d (xs ++ (d ∷ ys))
  In-middle d [] ys = inl refl
  In-middle d (x ∷ xs) ys = inr (In-middle d xs ys)

  pub All-In : (P : D → Type 0) (d : D) (xs : List D) → All P xs → In d xs → P d
  All-In P d [] h m = absurd m
  All-In P d (x ∷ xs) h (inl e) = rw e h.0
  All-In P d (x ∷ xs) h (inr m) = All-In P d xs h.1 m

  abbrev pub count_if : (D → Bool) → List D → ℕ
  count_if p [] = 0
  count_if p (d ∷ ds) = if p d then suc (count_if p ds) else count_if p ds

  count_if-append :
      (p : D → Bool) (xs ys : List D) → count_if p (xs ++ ys) ≡ count_if p xs + count_if p ys
  count_if-append p [] ys = omega arith
  count_if-append p (x ∷ xs) ys = ground (arith, count_if-append p xs ys)

  module _ (p : D → Bool) (f : D → D) {e : D} {before after : List D}
      (u : Updated p f e before after) where
    -- A property of all documents is kept if the update keeps it.
    pub All-Updated {κ} :
        (P : D → Type κ) → ((d : D) → p d ≡ true → P d → P (f d)) → All P before → All P after
    All-Updated P keep h =
        let (front, back) = (All-append_iff P u.earlier (u.old ∷ u.later)).0 (rw u.was at h) in
        rw (u.became, u.image)
          ((All-append_iff P u.earlier (f u.old ∷ u.later)).1
            (front, (keep u.old u.matched back.0, back.1)))

    -- A count falls by one where the update takes a document out of it.
    pub count_if-Updated :
        (q : D → Bool)
        → ((d : D) → p d ≡ true → q d ≡ true)
        → ((d : D) → p d ≡ true → q (f d) ≡ false)
        → count_if q after + 1 ≡ count_if q before
    count_if-Updated q inside outside =
        rw (u.became, u.was, u.image)
          (ground (
            arith,
            count_if-append q u.earlier (u.old ∷ u.later),
            count_if-append q u.earlier (f u.old ∷ u.later),
            inside u.old u.matched,
            outside u.old u.matched,
          ))

    -- ... and rises by one where the update brings a document into it.
    pub count_if-Updated_in :
        (q : D → Bool)
        → ((d : D) → p d ≡ true → q d ≡ false)
        → ((d : D) → p d ≡ true → q (f d) ≡ true)
        → count_if q after ≡ count_if q before + 1
    count_if-Updated_in q outside inside =
        rw (u.became, u.was, u.image)
          (ground (
            arith,
            count_if-append q u.earlier (u.old ∷ u.later),
            count_if-append q u.earlier (f u.old ∷ u.later),
            inside u.old u.matched,
            outside u.old u.matched,
          ))

    -- A count stays where the update does not change what it tests.
    pub count_if-Updated_same :
        (q : D → Bool)
        → ((d : D) → p d ≡ true → q (f d) ≡ q d)
        → count_if q after ≡ count_if q before
    count_if-Updated_same q same =
        rw (u.became, u.was, u.image)
          (ground (
            arith,
            count_if-append q u.earlier (u.old ∷ u.later),
            count_if-append q u.earlier (f u.old ∷ u.later),
            same u.old u.matched,
          ))

    -- ... where what it tests is known to stay for the documents that were there.
    pub count_if-Updated_under :
        (P : D → Type 0) (q : D → Bool)
        → ((d : D) → p d ≡ true → P d → q (f d) ≡ q d)
        → All P before
        → count_if q after ≡ count_if q before
    count_if-Updated_under P q same h =
        let there = (All-append_iff P u.earlier (u.old ∷ u.later)).0 (rw u.was at h) in
        rw (u.became, u.was, u.image)
          (ground (
            arith,
            count_if-append q u.earlier (u.old ∷ u.later),
            count_if-append q u.earlier (f u.old ∷ u.later),
            same u.old u.matched there.1.0,
          ))

    pub In-Updated : In e after
    In-Updated = rw u.became (In-middle e u.earlier u.later)

    pub length-Updated : length after ≡ length before
    length-Updated =
        rw (u.became, u.was)
          (omega (
            arith,
            length-append u.earlier (e ∷ u.later),
            length-append u.earlier (u.old ∷ u.later),
          ))
