-- ===== src/Key/Life.antt =====
-- How a property of all keys passes through the repository's operations.
use paysuper_billing_server.Base.{ℕ, ◌≡◌, Bool, true, some, List, All, inl, inr, Option-cases}
use paysuper_billing_server.Base.Int.{ℤ}
use paysuper_billing_server.Base.Text.{String}
use paysuper_billing_server.Mongo.{
  Reply, ok, no_documents, failure, Collection, IsCollection, All-Updated, Inserted,
  FoundAndUpdated,
}
use paysuper_billing_server.Key.{
  Codec, MgoKey, Key, set_reserved, set_canceled, set_redeemed, reserve_key, cancel_by_id,
  finish_redeem_by_id, insert, get_by_id, find_unfinished, count_keys_by_product_platform,
  map_object_to_mgo,
}

-- A property of single keys that each of the updates keeps, holds of all keys after an operation.
module _ (codec : Codec) (c : Collection MgoKey) (laws : IsCollection c) (P : MgoKey → Type 0) where
  open codec use {object_id_from_hex}

  abbrev AllKeys : c.Db → Type 0
  AllKeys db = All P (c.documents db)

  FoundAndUpdated-All :
      (p : MgoKey → Bool) (f : MgoKey → MgoKey) (r : Reply MgoKey) (before after : List MgoKey)
      → ((k : MgoKey) → p k ≡ true → P k → P (f k))
      → FoundAndUpdated p f r before after
      → All P before
      → All P after
  FoundAndUpdated-All p f (ok e) before after keep u h = All-Updated p f u P keep h
  FoundAndUpdated-All p f no_documents before after keep u h = rw u.0 h
  FoundAndUpdated-All p f failure before after keep (inl e) h = rw e h
  FoundAndUpdated-All p f failure before after keep (inr (e, u)) h = All-Updated p f u P keep h

  pub update-All :
      (p : MgoKey → Bool) (f : MgoKey → MgoKey) (db : c.Db)
      → ((k : MgoKey) → p k ≡ true → P k → P (f k))
      → AllKeys db
      → AllKeys (c.find_one_and_update p f db).1
  update-All p f db keep h =
      FoundAndUpdated-All p f _ _ _ keep (laws.find_one_and_update_lem p f db) h

  pub reserve_key-All :
      (now : ℕ) (product platform_id order : String) (ttl : ℤ) (db : c.Db)
      → ((until oid : ℕ) (k : MgoKey) → P k → P (set_reserved until oid k))
      → AllKeys db
      → AllKeys (reserve_key codec c now product platform_id order ttl db).1
  unfolding reserve_key
  reserve_key-All now product platform_id order ttl db keep h =
      elim (Option-cases (object_id_from_hex product)) [
        | inl e ↦ rw (e, reserve_key) h
        | inr (oid, e) ↦ elim (Option-cases (object_id_from_hex order)) [
          | inl e' ↦ rw (e, reserve_key) (rw (e', reserve_key) h)
          | inr (order_oid, e') ↦
              rw (e, e', reserve_key) (update-All _ _ db (λ k m s. keep _ _ k s) h)
        ]
      ]

  pub cancel_by_id-All :
      (id : String) (db : c.Db)
      → ((k : MgoKey) → P k → P (set_canceled k))
      → AllKeys db
      → AllKeys (cancel_by_id codec c id db).1
  unfolding cancel_by_id
  cancel_by_id-All id db keep h = elim (Option-cases (object_id_from_hex id)) [
    | inl e ↦ rw (e, cancel_by_id) h
    | inr (oid, e) ↦ rw (e, cancel_by_id) (update-All _ _ db (λ k m s. keep k s) h)
  ]

  pub finish_redeem_by_id-All :
      (now : ℕ) (id : String) (db : c.Db)
      → ((k : MgoKey) → P k → P (set_redeemed now k))
      → AllKeys db
      → AllKeys (finish_redeem_by_id codec c now id db).1
  unfolding finish_redeem_by_id
  finish_redeem_by_id-All now id db keep h = elim (Option-cases (object_id_from_hex id)) [
    | inl e ↦ rw (e, finish_redeem_by_id) h
    | inr (oid, e) ↦ rw (e, finish_redeem_by_id) (update-All _ _ db (λ k m s. keep k s) h)
  ]

  Inserted-All :
      (d : MgoKey) (r : Reply (Unit {0})) (before after : List MgoKey)
      → P d
      → Inserted d r before after
      → All P before
      → All P after
  Inserted-All d (ok _) before after new e h = rw e (new, h)
  Inserted-All d no_documents before after new e h = rw e h
  Inserted-All d failure before after new (inl e) h = rw e h
  Inserted-All d failure before after new (inr e) h = rw e (new, h)

  pub insert-All :
      (now : ℕ) (key : Key) (db : c.Db)
      → ((d : MgoKey) → map_object_to_mgo codec now key ≡ some d → P d)
      → AllKeys db
      → AllKeys (insert codec c now key db).1
  unfolding insert
  insert-All now key db keep h = elim (Option-cases (map_object_to_mgo codec now key)) [
    | inl e ↦ rw (e, insert) h
    | inr (d, e) ↦ rw (e, insert) (Inserted-All d _ _ _ (keep d e) (laws.insert_one_lem d db) h)
  ]

  pub count_keys-All :
      (product platform_id : String) (db : c.Db)
      → AllKeys db
      → AllKeys (count_keys_by_product_platform codec c product platform_id db).1
  unfolding count_keys_by_product_platform
  count_keys-All product platform_id db h = elim (Option-cases (object_id_from_hex product)) [
    | inl e ↦ rw (e, count_keys_by_product_platform) h
    | inr (oid, e) ↦
        rw (e, count_keys_by_product_platform) (rw ((laws.count_documents_lem _ db).1) h)
  ]

  pub get_by_id-All : (id : String) (db : c.Db) → AllKeys db → AllKeys (get_by_id codec c id db).1
  unfolding get_by_id
  get_by_id-All id db h = elim (Option-cases (object_id_from_hex id)) [
    | inl e ↦ rw (e, get_by_id) h
    | inr (oid, e) ↦ rw (e, get_by_id) (rw ((laws.find_one_lem _ db).1) h)
  ]

  pub find_unfinished-All :
      (now : ℕ) (db : c.Db) → AllKeys db → AllKeys (find_unfinished codec c now db).1
  unfolding find_unfinished
  find_unfinished-All now db h = rw ((laws.find_lem _ db).1) h
