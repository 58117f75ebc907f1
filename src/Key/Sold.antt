-- ===== src/Key/Sold.antt =====
-- Keys that were redeemed: what the daemon leaves alone, and when a redeemed key can be sold again.
use paysuper_billing_server.Base.{
  ℕ, ◌≡◌, ◌≢◌, refl, sym, ap, subst, ◌∙◌, Bool, true, false, not, ◌&&◌, none, some, List, [], ◌∷◌,
  arith, All, inl, inr, ltb, ◌==◌,
}
use paysuper_billing_server.Base.Text.{String, str_eq_refl}
use paysuper_billing_server.Mongo.{
  Reply, ok, no_documents, failure, Collection, IsCollection, Reply-cases, In, All-In, count_if,
  count_if-Updated_under, FoundAndUpdated, Listed, In-Updated, In-middle,
}
use paysuper_billing_server.Key.{
  Codec, MgoKey, Key, find_unfinished, cancel_by_id, finish_redeem_by_id, has_id, is_none,
  is_unfinished, is_available, set_canceled, set_redeemed, map_mgo_to_object, map_all, all_mapped,
}
use paysuper_billing_server.Key.Life.{cancel_by_id-All}
use paysuper_billing_server.Key.Available.{Updated-of_mapped}
use paysuper_billing_server.Key.Service.{cancel_keys, key_daemon_process}

-- Redeemed for an order, with no reservation left.
abbrev pub is_sold : MgoKey → Bool
is_sold k = ltb 0 k.redeemed_at && not (is_none k.order_id) && k.reserved_to == 0

-- `_id` is unique in a collection.
abbrev pub UniqueIds : List MgoKey → Type 0
UniqueIds [] = Unit
UniqueIds (k ∷ ks) = All (λ j. j.id ≢ k.id) ks × UniqueIds ks

-- No key with this identifier is sold.
abbrev NotSold : ℕ → MgoKey → Type 0
NotSold oid k = has_id oid k ≡ true → is_sold k ≡ false

All-NotSold_ne : (oid : ℕ) (ks : List MgoKey) → All (λ j. j.id ≢ oid) ks → All (NotSold oid) ks
All-NotSold_ne oid [] h = tt
All-NotSold_ne oid (k ∷ ks) h = (λ e. absurd (h.0 (ground arith)), All-NotSold_ne oid ks h.1)

-- The key that an identifier means is the one that was found.
In-NotSold :
    (d : MgoKey) (ks : List MgoKey)
    → UniqueIds ks
    → In d ks
    → is_sold d ≡ false
    → All (NotSold d.id) ks
In-NotSold d [] unique m e = tt
In-NotSold d (k ∷ ks) unique (inl same) e = (
  λ _. rw (← same) e,
  subst (λ i. All (NotSold i) ks) (ap (λ j. j.id) (sym same)) (All-NotSold_ne k.id ks unique.0),
)
In-NotSold d (k ∷ ks) unique (inr m) e = (
  λ i. absurd (All-In (λ j. j.id ≢ k.id) d ks unique.0 m (ground arith)),
  In-NotSold d ks unique.1 m e,
)

unfinished_not_sold : (now : ℕ) (k : MgoKey) → is_unfinished now k ≡ true → is_sold k ≡ false
unfinished_not_sold now k h = ground arith

module _ (codec : Codec) (c : Collection MgoKey) (laws : IsCollection c) where
  open codec use {object_id_from_hex, hex}

  abbrev sold : c.Db → ℕ
  sold db = count_if is_sold (c.documents db)

  count-FoundAndUpdated :
      (oid : ℕ) (r : Reply MgoKey) (before after : List MgoKey)
      → FoundAndUpdated (has_id oid) set_canceled r before after
      → All (NotSold oid) before
      → count_if is_sold after ≡ count_if is_sold before
  count-FoundAndUpdated oid (ok e) before after u h =
      count_if-Updated_under _ _ u (NotSold oid) is_sold (λ k m n. ground (arith, n m)) h
  count-FoundAndUpdated oid no_documents before after u h = rw u.0
  count-FoundAndUpdated oid failure before after (inl e) h = rw e
  count-FoundAndUpdated oid failure before after (inr (e, u)) h =
      count_if-Updated_under _ _ u (NotSold oid) is_sold (λ k m n. ground (arith, n m)) h

  -- Every key of the list is found by its text under an identifier that no sold key has.
  abbrev Cancelable : c.Db → Key → Type 0
  Cancelable db k =
      (oid : ℕ) × (object_id_from_hex k.id ≡ some oid) × All (NotSold oid) (c.documents db)

  cancel_by_id-sold :
      (k : Key) (db : c.Db) → Cancelable db k → sold (cancel_by_id codec c k.id db).1 ≡ sold db
  unfolding cancel_by_id
  cancel_by_id-sold k db (oid, e, h) =
      rw (e, cancel_by_id) (count-FoundAndUpdated oid _ _ _ (laws.find_one_and_update_lem _ _ db) h)

  Cancelable-cancel :
      (k : Key) (id : String) (db : c.Db)
      → Cancelable db k
      → Cancelable (cancel_by_id codec c id db).1 k
  Cancelable-cancel k id db (oid, e, h) =
      (oid, e, cancel_by_id-All codec c laws (NotSold oid) id db (λ j s m. ground arith) h)

  All-Cancelable-cancel :
      (ks : List Key) (id : String) (db : c.Db)
      → All (Cancelable db) ks
      → All (Cancelable (cancel_by_id codec c id db).1) ks
  All-Cancelable-cancel [] id db h = tt
  All-Cancelable-cancel (k ∷ ks) id db h =
      (Cancelable-cancel k id db h.0, All-Cancelable-cancel ks id db h.1)

  cancel_keys-sold :
      (ks : List Key) (db : c.Db)
      → All (Cancelable db) ks
      → sold (cancel_keys codec c ks db).1 ≡ sold db
  unfolding cancel_keys
  cancel_keys-sold [] db h = refl
  cancel_keys-sold (k ∷ ks) db h =
      cancel_keys-sold ks _ (All-Cancelable-cancel ks k.id db h.1) ∙ cancel_by_id-sold k db h.0

  module _ (round_trip : (oid : ℕ) → object_id_from_hex (hex oid) ≡ some oid) where
    id_of_mapped :
        (d : MgoKey) (k : Key)
        → map_mgo_to_object codec d ≡ some k
        → object_id_from_hex k.id ≡ some d.id
    unfolding map_mgo_to_object
    id_of_mapped d k e = ground (arith, round_trip d.id)

    map_all-cons :
        (d : MgoKey) (ds : List MgoKey) (ks : List Key)
        → map_all codec (d ∷ ds) ≡ some ks
        → (k : Key) × (rest : List Key) × (map_mgo_to_object codec d ≡ some k)
          × (map_all codec ds ≡ some rest)
          × (ks ≡ k ∷ rest)
    unfolding map_all
    map_all-cons d ds ks e = ground arith

    map_all-Cancelable :
        (now : ℕ) (db : c.Db)
        → UniqueIds (c.documents db)
        → (ds : List MgoKey) (ks : List Key)
        → All (λ d. (is_unfinished now d ≡ true) × In d (c.documents db)) ds
        → map_all codec ds ≡ some ks
        → All (Cancelable db) ks
    unfolding map_all
    map_all-Cancelable now db unique [] ks h e =
        let none_left : [] ≡ ks = ground arith in subst (All (Cancelable db)) none_left tt
    map_all-Cancelable now db unique (d ∷ ds) ks h e =
        let (k, rest, ek, er, eks) = map_all-cons d ds ks e in
        let first : Cancelable db k = (
          d.id,
          id_of_mapped d k ek,
          In-NotSold d (c.documents db) unique h.0.1 (unfinished_not_sold now d h.0.0),
        ) in
        subst (All (Cancelable db)) (sym eks)
          (first, map_all-Cancelable now db unique ds rest h.1 er)

    all_mapped-ok :
        (r : Reply (List MgoKey)) {ks : List Key}
        → all_mapped codec c r ≡ ok ks
        → (ds : List MgoKey) × (r ≡ ok ds) × (map_all codec ds ≡ some ks)
    all_mapped-ok (ok ds) h = (ds, refl, ground arith)
    all_mapped-ok no_documents h = cc
    all_mapped-ok failure h = cc

    -- The keys that the daemon goes through are not sold.
    find_unfinished-Cancelable :
        (now : ℕ) (db : c.Db) {ks : List Key}
        → UniqueIds (c.documents db)
        → (find_unfinished codec c now db).0 ≡ ok ks
        → All (Cancelable (find_unfinished codec c now db).1) ks
    unfolding find_unfinished
    find_unfinished-Cancelable now db {ks} unique e =
        let (ds, er, em) = all_mapped-ok (c.find (is_unfinished now) db).0 e in
        let (found, same) = laws.find_lem (is_unfinished now) db in
        map_all-Cancelable now _ (subst UniqueIds (sym same) unique) ds ks
          (subst (λ docs. All (λ d. (is_unfinished now d ≡ true) × In d docs) ds) (sym same)
            (subst (λ r. Listed (is_unfinished now) r (c.documents db)) er found))
          em

    find_unfinished-documents :
        (now : ℕ) (db : c.Db) → c.documents (find_unfinished codec c now db).1 ≡ c.documents db
    unfolding find_unfinished
    find_unfinished-documents now db = (laws.find_lem (is_unfinished now) db).1

    -- A run of the daemon, with no other call between its query and its updates, takes no sold key
    -- back, whatever fails.
    pub key_daemon_process-keeps_sold :
        (now : ℕ) (db : c.Db)
        → UniqueIds (c.documents db)
        → count_if is_sold (c.documents (key_daemon_process codec c now db).2)
          ≡ count_if is_sold (c.documents db)
    unfolding key_daemon_process
    key_daemon_process-keeps_sold now db unique =
        let same : sold (find_unfinished codec c now db).1 ≡ sold db =
          ap (count_if is_sold) (find_unfinished-documents now db) in
        elim (Reply-cases (find_unfinished codec c now db).0) [
          | inl (ks, e) ↦
              rw (e, key_daemon_process)
                (cancel_keys-sold ks _ (find_unfinished-Cancelable now db unique e) ∙ same)
          | inr (inl e) ↦ rw (e, key_daemon_process) same
          | inr (inr e) ↦ rw (e, key_daemon_process) same
        ]

  -- A key that is redeemed while no order holds it, as after the daemon has cancelled a reservation
  -- that has expired: the key that is answered is in the collection, as the document with the
  -- identifier of the request and the time of the redemption, and it can be reserved again.
  pub finish_redeem_by_id-unheld :
      (now oid : ℕ) (id : String) (db : c.Db) {k : Key}
      → object_id_from_hex id ≡ some oid
      → All (λ d. has_id oid d ≡ true → d.order_id ≡ none) (c.documents db)
      → (finish_redeem_by_id codec c now id db).0 ≡ ok k
      → (d : MgoKey) × In d (c.documents (finish_redeem_by_id codec c now id db).1)
        × (d.id ≡ oid)
        × (d.redeemed_at ≡ now)
        × (map_mgo_to_object codec d ≡ some k)
        × (is_available d.key_product_id d.platform_id d ≡ true)
  unfolding finish_redeem_by_id
  finish_redeem_by_id-unheld now oid id db known unheld h =
      let answered = rw (known, finish_redeem_by_id) at h in
      let (d, u, shown) =
        Updated-of_mapped codec c laws (has_id oid) (set_redeemed now) db answered in
      let free =
        (All-In (λ e. has_id oid e ≡ true → e.order_id ≡ none) u.old _ unheld
            (rw u.was (In-middle u.old u.earlier u.later)))
          u.matched in
      (
        d,
        rw (known, finish_redeem_by_id) (In-Updated _ _ u),
        ground (arith, u.image, u.matched),
        ground (arith, u.image),
        shown,
        ground (arith, u.image, str_eq_refl d.platform_id),
      )
