-- ===== src/Key/Kept.antt =====
-- A key that is held stays in the collection while others are reserved (ReserveKey in
-- internal/repository/key.go, ReserveKeyForOrder in internal/service/key.go).
use paysuper_billing_server.Base.{
  ℕ, ◌≡◌, sym, subst, Bool, true, false, List, [], ◌∷◌, ◌++◌, arith, inl, inr, ◌⊎◌, Option-cases,
}
use paysuper_billing_server.Base.Int.{ℤ}
use paysuper_billing_server.Base.Text.{String}
use paysuper_billing_server.Mongo.{
  Reply, ok, no_documents, failure, Collection, IsCollection, Updated, FoundAndUpdated, In,
}
use paysuper_billing_server.Key.{Codec, MgoKey, is_none, is_available, reserve_key}

In-front : {D : Type 0} (d : D) (xs ys : List D) → In d xs → In d (xs ++ ys)
In-front d [] ys m = elim m [ ]
In-front d (x ∷ xs) ys (inl e) = inl e
In-front d (x ∷ xs) ys (inr m) = inr (In-front d xs ys m)

In-back : {D : Type 0} (d : D) (xs ys : List D) → In d ys → In d (xs ++ ys)
In-back d [] ys m = m
In-back d (x ∷ xs) ys m = inr (In-back d xs ys m)

In-append : {D : Type 0} (d : D) (xs ys : List D) → In d (xs ++ ys) → In d xs ⊎ In d ys
In-append d [] ys m = inr m
In-append d (x ∷ xs) ys (inl e) = inl (inl e)
In-append d (x ∷ xs) ys (inr m) = elim (In-append d xs ys m) [
  | inl there ↦ inl (inr there)
  | inr there ↦ inr there
]

-- An update leaves the documents that it does not match.
In-Updated_other :
    {D : Type 0} (p : D → Bool) (f : D → D) {e : D} {before after : List D}
    → Updated p f e before after
    → (d : D) → p d ≡ false
    → In d before
    → In d after
In-Updated_other p f {e} u d other m =
    subst (In d) (sym u.became)
      (elim (In-append d u.earlier (u.old ∷ u.later) (subst (In d) u.was m)) [
        | inl there ↦ In-front d u.earlier (e ∷ u.later) there
        | inr (inr there) ↦ In-back d u.earlier (e ∷ u.later) (inr there)
        | inr (inl same) ↦
            let matched = subst (λ x. p x ≡ true) (sym same) u.matched in ground (arith)
      ])

In-FoundAndUpdated :
    (p : MgoKey → Bool) (f : MgoKey → MgoKey) (r : Reply MgoKey) (before after : List MgoKey)
    → FoundAndUpdated p f r before after
    → (d : MgoKey) → p d ≡ false
    → In d before
    → In d after
In-FoundAndUpdated p f (ok e) before after u d other m = In-Updated_other p f u d other m
In-FoundAndUpdated p f no_documents before after u d other m = rw u.0 m
In-FoundAndUpdated p f failure before after (inl e) d other m = rw e m
In-FoundAndUpdated p f failure before after (inr (e, u)) d other m =
    In-Updated_other p f u d other m

held_not_available :
    (product : ℕ) (platform_id : String) (d : MgoKey)
    → is_none d.order_id ≡ false
    → is_available product platform_id d ≡ false
held_not_available product platform_id d held = ground (arith)

module _ (codec : Codec) (c : Collection MgoKey) (laws : IsCollection c) where
  -- A key that some order holds is not touched by a reservation, whatever fails.
  pub reserve_key-keeps_held :
      (now : ℕ) (product platform_id order : String) (ttl : ℤ) (db : c.Db) (d : MgoKey)
      → is_none d.order_id ≡ false
      → In d (c.documents db)
      → In d (c.documents (reserve_key codec c now product platform_id order ttl db).1)
  unfolding reserve_key
  reserve_key-keeps_held now product platform_id order ttl db d held m =
      elim (Option-cases (codec.object_id_from_hex product)) [
        | inl e ↦ rw (e, reserve_key) m
        | inr (oid, e) ↦ elim (Option-cases (codec.object_id_from_hex order)) [
          | inl e' ↦ rw (e, reserve_key) (rw (e', reserve_key) m)
          | inr (order_oid, e') ↦
              rw (e, e', reserve_key)
                (In-FoundAndUpdated _ _ _ _ _ (laws.find_one_and_update_lem _ _ db) d
                  (held_not_available oid platform_id d held) m)
        ]
      ]
