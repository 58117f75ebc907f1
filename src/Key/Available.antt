-- ===== src/Key/Available.antt =====
-- How the repository's operations change the number of keys that can still be reserved, and the
-- number of keys that an order holds.
use paysuper_billing_server.Base.{
  ℕ, ◌+◌, ◌≡◌, ◌≢◌, refl, subst, Bool, true, false, none, some, ◌==◌, arith,
}
use paysuper_billing_server.Base.Int.{ℤ}
use paysuper_billing_server.Base.Text.{String}
use paysuper_billing_server.Mongo.{
  Reply, ok, no_documents, failure, Collection, IsCollection, Updated, FoundAndUpdated, count_if,
  count_if-Updated, count_if-Updated_same,
}
use paysuper_billing_server.Key.{
  Codec, MgoKey, Key, is_available, set_reserved, reserve_key, mapped, add_seconds,
  map_mgo_to_object,
}

-- The key is held by the order.
abbrev pub is_held_by : ℕ → MgoKey → Bool
is_held_by oid k = elim k.order_id [ none ↦ false | some o ↦ o == oid ]

module _ (codec : Codec) (c : Collection MgoKey) (laws : IsCollection c) where
  open codec use {object_id_from_hex}

  mapped-ok :
      (r : Reply MgoKey) {k : Key}
      → mapped codec r ≡ ok k
      → (d : MgoKey) × (r ≡ ok d) × (map_mgo_to_object codec d ≡ some k)
  mapped-ok (ok d) h = (d, refl, ground arith)
  mapped-ok no_documents h = cc
  mapped-ok failure h = cc

  -- An update whose answer could be mapped is the update of one matching document.
  pub Updated-of_mapped :
      (p : MgoKey → Bool) (f : MgoKey → MgoKey) (db : c.Db) {k : Key}
      → mapped codec (c.find_one_and_update p f db).0 ≡ ok k
      → (d : MgoKey) × Updated p f d (c.documents db) (c.documents (c.find_one_and_update p f db).1)
        × (map_mgo_to_object codec d ≡ some k)
  Updated-of_mapped p f db h =
      let (d, e, m) = mapped-ok (c.find_one_and_update p f db).0 h in
      (
        d,
        subst
            (λ r.
              FoundAndUpdated p f r (c.documents db) (c.documents (c.find_one_and_update p f db).1))
            e (laws.find_one_and_update_lem p f db),
        m,
      )

  pub reserve_key-unknown :
      (now : ℕ) (product platform_id order : String) (ttl : ℤ) (db : c.Db)
      → object_id_from_hex product ≡ none
      → reserve_key codec c now product platform_id order ttl db ≡ (failure, db)
  unfolding reserve_key
  reserve_key-unknown now product platform_id order ttl db e = ground arith

  module _ (now : ℕ) (product platform_id order : String) (ttl : ℤ) (oid order_oid : ℕ) (db : c.Db)
      (known_product : object_id_from_hex product ≡ some oid)
      (known_order : object_id_from_hex order ≡ some order_oid) where
    reserve_key-eq : reserve_key codec c now product platform_id order ttl db ≡ (
      mapped codec
          (c.find_one_and_update
            (is_available oid platform_id)
            (set_reserved (add_seconds now ttl) order_oid)
            db).0,
      (c.find_one_and_update
          (is_available oid platform_id)
          (set_reserved (add_seconds now ttl) order_oid)
          db).1,
    )
    unfolding reserve_key
    reserve_key-eq = ground arith

    -- A reservation that succeeds has updated a key that was available for the product and platform.
    pub reserve_key-Updated :
        {k : Key}
        → (reserve_key codec c now product platform_id order ttl db).0 ≡ ok k
        → (d : MgoKey) × Updated
            (is_available oid platform_id)
            (set_reserved (add_seconds now ttl) order_oid)
            d
            (c.documents db)
            (c.documents (reserve_key codec c now product platform_id order ttl db).1)
          × (map_mgo_to_object codec d ≡ some k)
    reserve_key-Updated h = rw reserve_key-eq (Updated-of_mapped _ _ db (rw reserve_key-eq at h))

    -- ... so one key fewer is available there,
    pub reserve_key-takes_one :
        {k : Key}
        → (reserve_key codec c now product platform_id order ttl db).0 ≡ ok k
        → count_if
              (is_available oid platform_id)
              (c.documents (reserve_key codec c now product platform_id order ttl db).1)
            + 1
          ≡ count_if (is_available oid platform_id) (c.documents db)
    reserve_key-takes_one h =
        let (d, u, _) = reserve_key-Updated h in
        count_if-Updated _ _ u (is_available oid platform_id) (λ k e. e) (λ k e. ground arith)

    available_is_free :
        (other : ℕ) (k : MgoKey)
        → is_available oid platform_id k ≡ true
        → is_held_by other k ≡ false
    available_is_free other k e = ground arith

    -- ... and no key of another order has changed hands.
    pub reserve_key-keeps_others :
        {k : Key}
        → (reserve_key codec c now product platform_id order ttl db).0 ≡ ok k
        → (other : ℕ) → other ≢ order_oid
        → count_if
            (is_held_by other)
            (c.documents (reserve_key codec c now product platform_id order ttl db).1)
          ≡ count_if (is_held_by other) (c.documents db)
    reserve_key-keeps_others h other ne =
        let (d, u, _) = reserve_key-Updated h in
        count_if-Updated_same _ _ u (is_held_by other)
          (λ k e. ground (arith, available_is_free other k e))
