-- ===== src/Payment/View.antt =====
-- The views of orders, which are refreshed in batches (updateOrderView in
-- internal/service/order_view.go).
use paysuper_billing_server.Base.{
  ℕ, zero, suc, Option, none, some, List, [], ◌∷◌, ◌++◌, length, if◌then◌else◌, ltb, leb, ◌&&◌, ◌≡◌,
  refl, ap, ◌∙◌, take, All, ◌≤◌, ◌<◌, ◌-◌, arith, Bool-cases, Option-cases, inl, inr,
}
use paysuper_billing_server.Base.Text.{String}
use paysuper_billing_server.Floats.{Floats}
use paysuper_billing_server.Handler.{
  next, return_with, go_on-keeps, Handler, ◌>>=◌, ◌>>◌, pure, ask, or_return,
}
use paysuper_billing_server.Payment.{Error, never_ends, Event, views_updated, Env}
use paysuper_billing_server.Payment.Update.{perform}

module _ {A : Type 0} where
  abbrev pub drop : ℕ → List A → List A
  drop zero xs = xs
  drop (suc n) [] = []
  drop (suc n) (x ∷ xs) = drop n xs

  abbrev pub join : List (List A) → List A
  join [] = []
  join (xs ∷ xss) = xs ++ join xss

  -- The loop that cuts a list into batches of a size. It has as many rounds as the first number
  -- says, and `none` means that they were too few.
  unfoldable pub cut : ℕ → ℕ → List A → Option (List (List A))
  cut zero size ids = if ltb size (length ids) then none else some (ids ∷ [])
  cut (suc n) size ids =
      let rest = cut n size (drop size ids) in
      if ltb size (length ids)
      then elim rest [ none ↦ none | some batches ↦ some (take size ids ∷ batches) ]
      else some (ids ∷ [])

module _ (fl : Floats) (env : Env fl) where
  abbrev Method : Type 0 → Type 0
  Method A = Handler (Event fl) Error A

  abbrev update_views : List String → Method (Unit {0})
  update_views ids = do updated ← perform fl env (views_updated ids); or_return updated (λ e. e)

  unfoldable pub update_all : List (List String) → Method (Unit {0})
  update_all [] = pure tt
  update_all (ids ∷ batches) = update_views ids >> update_all batches

  -- The loop gets one round for each identifier.
  unfoldable pub update_batches : List String → Method (Unit {0})
  unfolding cut update_all
  update_batches ids =
      if ltb 0 (length ids) && leb (length ids) env.batch_size
      then update_views ids
      else elim (cut (length ids) env.batch_size ids) [
        | none ↦ return_with never_ends
        | some batches ↦ update_all batches
      ]

  abbrev choose_ids : List String → Method (List String)
  choose_ids [] = do found ← ask env.source_ids; or_return found (λ e. e)
  choose_ids (id ∷ ids) = pure (id ∷ ids)

  unfoldable pub update_order_view : List String → Method (Unit {0})
  unfolding update_batches
  update_order_view ids0 = do ids ← choose_ids ids0; update_batches ids

module _ {A : Type 0} where
  take-drop : (n : ℕ) (xs : List A) → take n xs ++ drop n xs ≡ xs
  take-drop zero xs = refl
  take-drop (suc n) [] = refl
  take-drop (suc n) (x ∷ xs) = ap (λ ys. x ∷ ys) (take-drop n xs)

  length-take : (n : ℕ) (xs : List A) → length (take n xs) ≤ n
  length-take zero xs = ground (arith)
  length-take (suc n) [] = ground (arith)
  length-take (suc n) (x ∷ xs) = ground (arith, length-take n xs)

  length-drop : (n : ℕ) (xs : List A) → length (drop n xs) ≡ length xs - n
  length-drop zero xs = ground (arith)
  length-drop (suc n) [] = ground (arith)
  length-drop (suc n) (x ∷ xs) = ground (arith, length-drop n xs)

  append-nil : (xs : List A) → xs ++ [] ≡ xs
  append-nil [] = refl
  append-nil (x ∷ xs) = ap (λ ys. x ∷ ys) (append-nil xs)

  -- The batches of a list, in their order.
  abbrev pub AreBatches : ℕ → List A → List (List A) → Type 0
  AreBatches size ids batches = (join batches ≡ ids) × All (λ b. length b ≤ size) batches

  -- For a positive size, the loop that cuts identifiers into batches ends after at most as many
  -- rounds as there are identifiers; its batches are not longer than the size, and joined in their
  -- order they are the identifiers.
  pub cut-enough :
      (n size : ℕ) (ids : List A)
      → 0 < size
      → length ids ≤ n
      → (batches : List (List A)) × (cut n size ids ≡ some batches) × AreBatches size ids batches
  unfolding cut
  cut-enough zero size ids p q = (ids ∷ [], ground (arith), (append-nil ids, (ground (arith), tt)))
  cut-enough (suc n) size ids p q = elim (Bool-cases (ltb size (length ids))) [
    | inr b ↦ (ids ∷ [], ground (arith), (append-nil ids, (ground (arith), tt)))
    | inl b ↦
        let (batches, e, (whole, small)) =
          cut-enough n size (drop size ids) p (ground (arith, length-drop size ids)) in
        (
          take size ids ∷ batches,
          ground (arith),
          (
            ap (λ xs. take size ids ++ xs) whole ∙ take-drop size ids,
            (length-take size ids, small),
          ),
        )
  ]

  -- Without a size the loop does not end.
  pub cut-zero : (n : ℕ) (id : A) (ids : List A) → cut n 0 (id ∷ ids) ≡ none
  unfolding cut
  cut-zero zero id ids = ground (arith)
  cut-zero (suc n) id ids = ground (arith, cut-zero n id ids)

module _ (fl : Floats) (env : Env fl) where
  -- A history with a refresh of each batch, the last one the newest.
  abbrev pub refreshed : List (List String) → List (Event fl) → List (Event fl)
  refreshed [] h = h
  refreshed (ids ∷ batches) h = refreshed batches (views_updated ids ∷ h)

  update_all-refreshed :
      (batches : List (List String)) (h : List (Event fl))
      → (update_all fl env batches h).0 ≡ next tt
      → (update_all fl env batches h).1 ≡ refreshed batches h
  unfolding update_all
  update_all-refreshed [] h e = refl
  update_all-refreshed (ids ∷ batches) h e =
      ground (arith, update_all-refreshed batches (views_updated ids ∷ h))

  pub update_order_view-refreshed :
      (id : String) (ids : List String) (h : List (Event fl))
      → 0 < env.batch_size
      → (update_order_view fl env (id ∷ ids) h).0 ≡ next tt
      → (batches : List (List String)) × AreBatches env.batch_size (id ∷ ids) batches
        × ((update_order_view fl env (id ∷ ids) h).1 ≡ refreshed batches h)
  unfolding update_order_view update_batches
  update_order_view-refreshed id ids h p e =
      elim (Bool-cases (leb (length (id ∷ ids)) env.batch_size)) [
        | inl b ↦ ((id ∷ ids) ∷ [], (append-nil (id ∷ ids), (ground (arith), tt)), ground (arith))
        | inr b ↦
            let (batches, f, parts) =
              cut-enough (length (id ∷ ids)) env.batch_size (id ∷ ids) p (ground (arith)) in
            (batches, parts, ground (arith, update_all-refreshed batches h))
      ]

  -- Whatever a refresh of views does not change is as it was.
  module _ {X : Type 0} (f : List (Event fl) → X)
      (keeps : (ids : List String) (h : List (Event fl)) → f (views_updated ids ∷ h) ≡ f h) where
    update_all-keeps :
        (batches : List (List String)) (h : List (Event fl))
        → f (update_all fl env batches h).1 ≡ f h
    unfolding update_all
    update_all-keeps [] h = refl
    update_all-keeps (ids ∷ batches) h =
        ground (arith, keeps ids h, update_all-keeps batches (views_updated ids ∷ h))

    update_batches-keeps :
        (ids : List String) (h : List (Event fl)) → f (update_batches fl env ids h).1 ≡ f h
    unfolding update_batches
    update_batches-keeps ids h = elim (Option-cases (cut (length ids) env.batch_size ids)) [
      | inl e ↦ ground (arith, keeps ids h)
      | inr (batches, e) ↦ ground (arith, keeps ids h, update_all-keeps batches h)
    ]

    choose_ids-keeps :
        (ids : List String) (h : List (Event fl)) → f (choose_ids fl env ids h).1 ≡ f h
    choose_ids-keeps [] h = ground (arith)
    choose_ids-keeps (id ∷ ids) h = refl

    pub update_order_view-keeps :
        (ids : List String) (h : List (Event fl)) → f (update_order_view fl env ids h).1 ≡ f h
    unfolding update_order_view
    update_order_view-keeps ids h =
        go_on-keeps f (update_batches fl env) (choose_ids fl env ids h) update_batches-keeps
        ∙ choose_ids-keeps ids h
