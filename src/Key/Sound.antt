-- ===== src/Key/Sound.antt =====
-- What every method of the service keeps, in any order of calls: a key with a pending reservation
-- belongs to an order.
use paysuper_billing_server.Base.{
  ℕ, ◌+◌, ◌≡◌, refl, Option, none, some, List, [], ◌∷◌, arith, All, inl, inr,
}
use paysuper_billing_server.Base.Text.{String}
use paysuper_billing_server.Bufio.{scan_lines}
use paysuper_billing_server.Mongo.{Collection, IsCollection, Reply-cases}
use paysuper_billing_server.Key.{
  Codec, MgoKey, Key, map_object_to_mgo, find_unfinished, count_keys_by_product_platform,
}
use paysuper_billing_server.Key.Life.{
  reserve_key-All, cancel_by_id-All, finish_redeem_by_id-All, insert-All, count_keys-All,
  get_by_id-All, find_unfinished-All,
}
use paysuper_billing_server.Key.Service.{
  UploadRequest, ReserveRequest, insert_lines, upload_keys_file, get_key_by_id,
  get_available_keys_count, reserve_key_for_order, finish_redeem_key_for_order,
  cancel_redeem_key_for_order, cancel_keys, key_daemon_process, uploaded_key,
}

-- A key that no order holds has no pending reservation.
abbrev pub IsSound : MgoKey → Type 0
IsSound k = k.order_id ≡ none → k.reserved_to ≡ 0

module _ (codec : Codec) (c : Collection MgoKey) where
  -- One call of a method of the service, with any arguments.
  pub data Call (before : c.Db) : c.Db → Type 0 where
    upload :
        (new_id : ℕ → String) (now : ℕ) (req : UploadRequest)
        → Call before (upload_keys_file codec c new_id now req before).1
    count :
        (owner : Option String) (merchant product platform_id : String)
        → Call before (get_available_keys_count codec c owner merchant product platform_id before).1
    get : (id : String) → Call before (get_key_by_id codec c id before).1
    reserve :
        (now : ℕ) (req : ReserveRequest)
        → Call before (reserve_key_for_order codec c now req before).1
    finish :
        (now : ℕ) (id : String) → Call before (finish_redeem_key_for_order codec c now id before).1
    cancel : (id : String) → Call before (cancel_redeem_key_for_order codec c id before).1
    daemon : (now : ℕ) → Call before (key_daemon_process codec c now before).2

  pub data Calls (before : c.Db) : c.Db → Type 0 where
    here : Calls before before
    next : {between after : c.Db} → Calls before between → Call between after → Calls before after

module _ (codec : Codec) (c : Collection MgoKey) (laws : IsCollection c) where
  abbrev AllSound : c.Db → Type 0
  AllSound db = All IsSound (c.documents db)

  uploaded_key-IsSound :
      (now : ℕ) (id : String) (line : List ℕ) (req : UploadRequest) (d : MgoKey)
      → map_object_to_mgo codec now (uploaded_key codec c id line req) ≡ some d
      → IsSound d
  unfolding map_object_to_mgo
  uploaded_key-IsSound now id line req d e = ground arith

  insert_lines-AllSound :
      (new_id : ℕ → String) (now i : ℕ) (req : UploadRequest) (lines : List (List ℕ)) (db : c.Db)
      → AllSound db
      → AllSound (insert_lines codec c new_id now i req lines db).1
  unfolding insert_lines
  insert_lines-AllSound new_id now i req [] db h = h
  insert_lines-AllSound new_id now i req (line ∷ lines) db h =
      insert_lines-AllSound new_id now (i + 1) req lines _
        (insert-All codec c laws IsSound now _ db (uploaded_key-IsSound now (new_id i) line req) h)

  cancel_keys-AllSound :
      (ks : List Key) (db : c.Db) → AllSound db → AllSound (cancel_keys codec c ks db).1
  unfolding cancel_keys
  cancel_keys-AllSound [] db h = h
  cancel_keys-AllSound (k ∷ ks) db h =
      cancel_keys-AllSound ks _ (cancel_by_id-All codec c laws IsSound k.id db (λ k s n. refl) h)

  upload-AllSound :
      (new_id : ℕ → String) (now : ℕ) (req : UploadRequest) (db : c.Db)
      → AllSound db
      → AllSound (upload_keys_file codec c new_id now req db).1
  unfolding upload_keys_file
  upload-AllSound new_id now req db h = ground (
    arith,
    count_keys-All codec c laws IsSound req.key_product_id req.platform_id db,
    insert_lines-AllSound new_id now 0 req (scan_lines req.file).0
        (count_keys_by_product_platform codec c req.key_product_id req.platform_id db).1,
  )

  daemon-AllSound :
      (now : ℕ) (db : c.Db) → AllSound db → AllSound (key_daemon_process codec c now db).2
  unfolding key_daemon_process
  daemon-AllSound now db h =
      let kept = find_unfinished-All codec c laws IsSound now db h in
      elim (Reply-cases (find_unfinished codec c now db).0) [
        | inl (ks, e) ↦ rw (e, key_daemon_process) (cancel_keys-AllSound ks _ kept)
        | inr (inl e) ↦ rw (e, key_daemon_process) kept
        | inr (inr e) ↦ rw (e, key_daemon_process) kept
      ]

  count-AllSound :
      (owner : Option String) (merchant product platform_id : String) (db : c.Db)
      → AllSound db
      → AllSound (get_available_keys_count codec c owner merchant product platform_id db).1
  unfolding get_available_keys_count
  count-AllSound none merchant product platform_id db h = h
  count-AllSound (some owner) merchant product platform_id db h =
      ground (arith, count_keys-All codec c laws IsSound product platform_id db h)

  Call-AllSound :
      {before after : c.Db} → Call codec c before after → AllSound before → AllSound after
  unfolding get_key_by_id reserve_key_for_order finish_redeem_key_for_order
      cancel_redeem_key_for_order
  Call-AllSound {before} (upload new_id now req) h = upload-AllSound new_id now req before h
  Call-AllSound {before} (count owner merchant product platform_id) h =
      count-AllSound owner merchant product platform_id before h
  Call-AllSound {before} (get id) h = get_by_id-All codec c laws IsSound id before h
  Call-AllSound {before} (reserve now req) h =
      reserve_key-All codec c laws IsSound now req.key_product_id req.platform_id req.order_id
        req.ttl before (λ u o k s n. cc) h
  Call-AllSound {before} (finish now id) h =
      finish_redeem_by_id-All codec c laws IsSound now id before (λ k s n. refl) h
  Call-AllSound {before} (cancel id) h =
      cancel_by_id-All codec c laws IsSound id before (λ k s n. refl) h
  Call-AllSound {before} (daemon now) h = daemon-AllSound now before h

  -- After any calls of the service's methods, with any arguments and whatever fails, a key that no
  -- order holds has no pending reservation, if that was so before.
  pub Calls-IsSound :
      {before after : c.Db}
      → Calls codec c before after
      → All IsSound (c.documents before)
      → All IsSound (c.documents after)
  Calls-IsSound here h = h
  Calls-IsSound (next calls call) h = Call-AllSound call (Calls-IsSound calls h)
