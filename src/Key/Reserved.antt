-- ===== src/Key/Reserved.antt =====
-- Which keys an order has after its reservation (reserveKeysForOrder in internal/service/order.go).
use mathlib.Core.List.{append_assoc, append-nil}
use paysuper_billing_server.Base.Text.{String, str_eq_sound, str_eq}
use paysuper_billing_server.Key.Kept.{reserve_key-keeps_held}
use paysuper_billing_server.Base.{
  ℕ, ◌≡◌, true, none, some, List, [], ◌∷◌, ◌++◌, arith, Option-cases, inl, inr, ◌⊎◌, false, sym,
  subst, ap, ◌∙◌, refl,
}
use paysuper_billing_server.Mongo.{Collection, IsCollection, Reply-cases, In, In-Updated}
use paysuper_billing_server.Response.{Status}
use paysuper_billing_server.Key.{
  Codec, MgoKey, reserve_key, Key, map_mgo_to_object, is_none, is_available,
}
use paysuper_billing_server.Key.Available.{reserve_key-Updated, reserve_key-unknown}
use paysuper_billing_server.Key.Service.{key_error_reserve, reserve_key_for_order}
use paysuper_billing_server.Key.Order.{OrderKeys, reserve_products, reserve_request, one_day_ttl}

module _ (codec : Codec) (c : Collection MgoKey) (laws : IsCollection c) (now : ℕ)
    (order : OrderKeys) (oid : ℕ) (known : codec.object_id_from_hex order.id ≡ some oid) where
  -- A reservation that is refused has a message.
  pub reserve_one-message :
      (product : String) (db : c.Db)
      → let rsp =
          (reserve_key_for_order codec c now (reserve_request codec c order product) db).0 in
        (rsp.status ≡ Status.ok)
        ⊎ ((rsp.status ≡ Status.bad_data) × (rsp.message ≡ some key_error_reserve))
  unfolding reserve_key_for_order
  reserve_one-message product db = ground arith

  -- The identifier is of a key in the collection, of the product and the order's platform, that the
  -- order holds.
  abbrev pub IsReservedFor : c.Db → String → String → Type 0
  IsReservedFor db product id =
      (d : MgoKey) × In d (c.documents db)
      × (codec.hex d.id ≡ id)
      × (d.order_id ≡ some oid)
      × (codec.object_id_from_hex product ≡ some d.key_product_id)
      × (d.platform_id ≡ order.platform_id)

  -- One identifier for each product, in the order of the products.
  abbrev pub AreReservedFor : c.Db → List String → List String → Type 0
  AreReservedFor db [] [] = Unit
  AreReservedFor db [] (id ∷ ids) = ⊥
  AreReservedFor db (product ∷ products) [] = ⊥
  AreReservedFor db (product ∷ products) (id ∷ ids) =
      IsReservedFor db product id × AreReservedFor db products ids

  id_of_mapped : (d : MgoKey) (k : Key) → map_mgo_to_object codec d ≡ some k → codec.hex d.id ≡ k.id
  unfolding map_mgo_to_object
  id_of_mapped d k e = ground arith

  available_platform :
      (product : ℕ) (d : MgoKey)
      → is_available product order.platform_id d ≡ true
      → str_eq d.platform_id order.platform_id ≡ true
  available_platform product d e = ground arith

  reserve_one-IsReservedFor :
      (product : String) (db : c.Db)
      → let (rsp, db') =
          reserve_key_for_order codec c now (reserve_request codec c order product) db in
        rsp.status ≡ Status.ok → IsReservedFor db' product rsp.key_id
  unfolding reserve_key_for_order
  reserve_one-IsReservedFor product db h = elim (Option-cases (codec.object_id_from_hex product)) [
    | inl e ↦ ground (
      arith,
      reserve_key-unknown codec c laws now product order.platform_id order.id one_day_ttl db e,
    )
    | inr (product_oid, e) ↦
        elim (Reply-cases
          (reserve_key codec c now product order.platform_id order.id one_day_ttl db).0) [
            | inl (k, ek) ↦
                let (d, u, shown) =
                  reserve_key-Updated codec c laws now product order.platform_id order.id
                    one_day_ttl product_oid oid db e known ek in
                (
                  d,
                  In-Updated _ _ u,
                  ground (arith, ek, id_of_mapped d k shown),
                  ground (arith, u.image),
                  ground (arith, u.image, u.matched, e),
                  ap (λ x. x.platform_id) u.image
                      ∙ str_eq_sound u.old.platform_id order.platform_id
                          (available_platform product_oid u.old u.matched),
                )
            | inr (inl ek) ↦ ground arith
            | inr (inr ek) ↦ ground arith
          ]
  ]

  -- A reservation that goes on has succeeded, and the rest follows it.
  reserve_products-ok :
      (keys : List String) (product : String) (products : List String) (db : c.Db)
      → (reserve_products codec c now order keys (product ∷ products) db).0.0 ≡ none
      → let (rsp, db') =
          reserve_key_for_order codec c now (reserve_request codec c order product) db in
        (rsp.status ≡ Status.ok)
        × (reserve_products codec c now order keys (product ∷ products) db
            ≡ reserve_products codec c now order (keys ++ (rsp.key_id ∷ [])) products db')
  unfolding reserve_products
  reserve_products-ok keys product products db h = ground (arith, reserve_one-message product db)

  reserve_products-keeps :
      (keys products : List String) (db : c.Db) (d : MgoKey)
      → is_none d.order_id ≡ false
      → (reserve_products codec c now order keys products db).0.0 ≡ none
      → In d (c.documents db)
      → In d (c.documents (reserve_products codec c now order keys products db).1)
  unfolding reserve_products reserve_key_for_order
  reserve_products-keeps keys [] db d held h m = m
  reserve_products-keeps keys (product ∷ products) db d held h m =
      let r = reserve_key_for_order codec c now (reserve_request codec c order product) db in
      let (_, step) = reserve_products-ok keys product products db h in
      subst (λ x. In d (c.documents x.1)) (sym step)
        (reserve_products-keeps (keys ++ (r.0.key_id ∷ [])) products r.1 d held
          (subst (λ x. x.0.0 ≡ none) step h)
          (reserve_key-keeps_held codec c laws now product order.platform_id order.id one_day_ttl db
            d held m))

  pub reserve_products-AreReservedFor :
      (keys products : List String) (db : c.Db)
      → let r = reserve_products codec c now order keys products db in
        r.0.0 ≡ none → (ids : List String) × (r.0.1 ≡ keys ++ ids) × AreReservedFor r.1 products ids
  unfolding reserve_products
  reserve_products-AreReservedFor keys [] db h = ([], sym (append-nil keys), tt)
  reserve_products-AreReservedFor keys (product ∷ products) db h =
      let r = reserve_key_for_order codec c now (reserve_request codec c order product) db in
      let keys' = keys ++ (r.0.key_id ∷ []) in
      let (answered, step) = reserve_products-ok keys product products db h in
      let h' = subst (λ x. x.0.0 ≡ none) step h in
      let (ids, same, rest) = reserve_products-AreReservedFor keys' products r.1 h' in
      let (d, there, named, held, product_of, platform_of) =
        reserve_one-IsReservedFor product db answered in
      let still =
        reserve_products-keeps keys' products r.1 d (subst (λ o. is_none o ≡ false) (sym held) refl)
          h' there in
      (
        r.0.key_id ∷ ids,
        ap (λ x. x.0.1) step ∙ same ∙ append_assoc keys (r.0.key_id ∷ []) ids,
        subst (λ x. AreReservedFor x.1 (product ∷ products) (r.0.key_id ∷ ids)) (sym step)
            ((d, still, named, held, product_of, platform_of), rest),
      )
