-- ===== src/Key/Held.antt =====
-- The keys that an order holds after its reservation, and the single notification of an order.
use paysuper_billing_server.Key.Reserved.{
  reserve_one-message, reserve_products-AreReservedFor, AreReservedFor,
}
use paysuper_billing_server.Base.{
  ℕ, ◌+◌, ◌≡◌, true, none, some, List, [], ◌∷◌, ◌++◌, arith, length, length-append, Option-cases,
  inl, inr, ◌⊎◌, sym, subst, ap, ◌∙◌,
}
use paysuper_billing_server.Base.Text.{String}
use paysuper_billing_server.Mongo.{
  Collection, IsCollection, Reply-cases, count_if, count_if-Updated_in,
}
use paysuper_billing_server.Response.{Status}
use paysuper_billing_server.Key.{Codec, MgoKey, reserve_key}
use paysuper_billing_server.Key.Available.{is_held_by, reserve_key-Updated, reserve_key-unknown}
use paysuper_billing_server.Key.Service.{reserve_key_for_order}
use paysuper_billing_server.Key.Order.{
  OrderKeys, PublicStatus, is_given_back, is_processed, reserve_products, reserve_keys_for_order,
  reserve_request, order_notify_key_products, one_day_ttl,
}

module _ (codec : Codec) (c : Collection MgoKey) (laws : IsCollection c) (now : ℕ)
    (order : OrderKeys) (oid : ℕ) (known : codec.object_id_from_hex order.id ≡ some oid) where
  abbrev held : c.Db → ℕ
  held db = count_if (is_held_by oid) (c.documents db)

  reserve_one-held :
      (product : String) (db : c.Db)
      → let (rsp, db') =
          reserve_key_for_order codec c now (reserve_request codec c order product) db in
        rsp.status ≡ Status.ok → held db' ≡ held db + 1
  unfolding reserve_key_for_order
  reserve_one-held product db h = elim (Option-cases (codec.object_id_from_hex product)) [
    | inl e ↦ ground (
      arith,
      reserve_key-unknown codec c laws now product order.platform_id order.id one_day_ttl db e,
    )
    | inr (product_oid, e) ↦
        elim (Reply-cases
          (reserve_key codec c now product order.platform_id order.id one_day_ttl db).0) [
            | inl (k, ek) ↦
                let (d, u, _) =
                  reserve_key-Updated codec c laws now product order.platform_id order.id
                    one_day_ttl product_oid oid db e known ek in
                count_if-Updated_in _ _ u (is_held_by oid) (λ k m. ground arith)
                  (λ k m. ground arith)
            | inr (inl ek) ↦ ground arith
            | inr (inr ek) ↦ ground arith
          ]
  ]

  reserve_products-held :
      (keys products : List String) (db : c.Db)
      → let r = reserve_products codec c now order keys products db in
        r.0.0 ≡ none
        → (held r.1 ≡ held db + length products) × (length r.0.1 ≡ length keys + length products)
  unfolding reserve_products
  reserve_products-held keys [] db h = (omega arith, omega arith)
  reserve_products-held keys (product ∷ products) db h =
      let r = reserve_key_for_order codec c now (reserve_request codec c order product) db in
      let keys' = keys ++ (r.0.key_id ∷ []) in
      ground (
        arith,
        reserve_one-held product db,
        reserve_one-message codec c laws now order oid known product db,
        length-append keys (r.0.key_id ∷ []),
        reserve_products-held keys' products r.1,
      )

  reserve_keys-parts :
      (db : c.Db)
      → order.keys ≡ []
      → let r = reserve_keys_for_order codec c now order db in
        let reserved = reserve_products codec c now order [] order.products db in
        r.0.0 ≡ none → (reserved.0.0 ≡ none) × (r.0.1.keys ≡ reserved.0.1) × (r.1 ≡ reserved.1)
  unfolding reserve_keys_for_order
  reserve_keys-parts db empty h = ground (arith)

  -- Where the reservation for an order without keys ends without an error, the order has one key for
  -- each of its products, in their order, which is in the collection, of the product and of the
  -- platform of the order, and held by it; and the order holds that many more keys of the collection
  -- than before.
  pub reserve_keys_for_order-held :
      (db : c.Db)
      → order.keys ≡ []
      → let r = reserve_keys_for_order codec c now order db in
        r.0.0 ≡ none
        → (length r.0.1.keys ≡ length order.products)
          × (count_if (is_held_by oid) (c.documents r.1)
              ≡ count_if (is_held_by oid) (c.documents db) + length order.products)
          × AreReservedFor codec c laws now order oid known r.1 order.products r.0.1.keys
  unfolding reserve_keys_for_order
  reserve_keys_for_order-held db empty h =
      let (none_failed, keys_are, db_is) = reserve_keys-parts db empty h in
      let (ids, same, each) =
        reserve_products-AreReservedFor codec c laws now order oid known [] order.products db
          none_failed in
      let (more, count) = reserve_products-held [] order.products db none_failed in
      (
        omega (arith, ap length keys_are, count),
        ap held db_is ∙ more,
        subst
            (λ x.
              AreReservedFor codec c laws now order oid known x order.products
                (reserve_keys_for_order codec c now order db).0.1.keys)
            (sym db_is)
            (subst (AreReservedFor codec c laws now order oid known _ order.products)
              (sym (keys_are ∙ same)) each),
      )

module _ (codec : Codec) (c : Collection MgoKey) where
  -- Once an order has been notified as processed, canceled or rejected, a second call with any
  -- status changes neither the order nor a key and mails nothing.
  pub order_notify_key_products-once :
      (now later : ℕ) (status second : PublicStatus) (order : OrderKeys) (db : c.Db)
      → (is_given_back status ≡ true) ⊎ (is_processed status ≡ true)
      → let (order', _, db') = order_notify_key_products codec c now status order db in
        order_notify_key_products codec c later second order' db' ≡ (order', [], db')
  unfolding order_notify_key_products
  order_notify_key_products-once now later status second order db h = ground arith
