-- ===== src/Key/Upload.antt =====
-- What an upload of keys adds (UploadKeysFile).
use paysuper_billing_server.Base.{
  ℕ, ◌+◌, ◌≤◌, ◌≡◌, ap, subst, true, some, List, [], ◌∷◌, arith, inl, inr, Option-cases, length,
  Bool, false, refl,
}
use paysuper_billing_server.Base.Text.{String, str_eq_refl}
use paysuper_billing_server.Bufio.{scan_lines}
use paysuper_billing_server.Mongo.{
  Reply, ok, no_documents, failure, Collection, IsCollection, Reply-cases, count_if, Inserted,
  Counted,
}
use paysuper_billing_server.Response.{Status}
use paysuper_billing_server.Key.{
  Codec, MgoKey, map_object_to_mgo, insert, is_available, count_keys_by_product_platform,
}
use paysuper_billing_server.Key.Service.{
  UploadRequest, insert_lines, upload_keys_file, uploaded_key, inserted_one, int32,
}

abbrev pub is_stored : Reply (Unit {0}) → Bool
is_stored (ok _) = true
is_stored no_documents = false
is_stored failure = false

abbrev pub is_failed : Reply (Unit {0}) → Bool
is_failed (ok _) = false
is_failed no_documents = false
is_failed failure = true

module _ (codec : Codec) (c : Collection MgoKey) (laws : IsCollection c) (now : ℕ)
    (req : UploadRequest) (oid : ℕ)
    (known : codec.object_id_from_hex req.key_product_id ≡ some oid) where
  abbrev available : c.Db → ℕ
  available db = count_if (is_available oid req.platform_id) (c.documents db)

  -- What the insertions answer, each made after those of the lines before: the `i`-th line is
  -- inserted under the identifier `new_id i`.
  abbrev pub insert_replies : (ℕ → String) → ℕ → List (List ℕ) → c.Db → List (Reply (Unit {0}))
  insert_replies new_id i [] db = []
  insert_replies new_id i (line ∷ lines) db =
      let (r, db') = insert codec c now (uploaded_key codec c (new_id i) line req) db in
      r ∷ insert_replies new_id (i + 1) lines db'

  uploaded_key-is_available :
      (id : String) (line : List ℕ) (d : MgoKey)
      → map_object_to_mgo codec now (uploaded_key codec c id line req) ≡ some d
      → is_available oid req.platform_id d ≡ true
  unfolding map_object_to_mgo
  uploaded_key-is_available id line d e = ground (arith, str_eq_refl req.platform_id, known)

  abbrev lost_one : Reply (Unit {0}) → ℕ
  lost_one (ok _) = 0
  lost_one no_documents = 0
  lost_one failure = 1

  count-stored :
      (r : Reply (Unit {0})) (rs : List (Reply (Unit {0})))
      → count_if is_stored (r ∷ rs) ≡ inserted_one codec c r + count_if is_stored rs
  count-stored (ok _) rs = omega arith
  count-stored no_documents rs = omega arith
  count-stored failure rs = omega arith

  count-failed :
      (r : Reply (Unit {0})) (rs : List (Reply (Unit {0})))
      → count_if is_failed (r ∷ rs) ≡ lost_one r + count_if is_failed rs
  count-failed (ok _) rs = omega arith
  count-failed no_documents rs = omega arith
  count-failed failure rs = omega arith

  -- An insertion adds what it counts, and one that fails at most one key more.
  abbrev Adds : Reply (Unit {0}) → ℕ → ℕ → Type 0
  Adds r before after =
      (inserted_one codec c r + before ≤ after)
      × (after ≤ inserted_one codec c r + before + lost_one r)

  Inserted-count :
      (d : MgoKey) (r : Reply (Unit {0})) (before after : List MgoKey)
      → is_available oid req.platform_id d ≡ true
      → Inserted d r before after
      → Adds r
          (count_if (is_available oid req.platform_id) before)
          (count_if (is_available oid req.platform_id) after)
  Inserted-count d (ok _) before after a e = rw (e, a) (omega arith, omega arith)
  Inserted-count d no_documents before after a e = rw e (omega arith, omega arith)
  Inserted-count d failure before after a (inl e) = rw e (omega arith, omega arith)
  Inserted-count d failure before after a (inr e) = rw (e, a) (omega arith, omega arith)

  insert-count :
      (id : String) (line : List ℕ) (db : c.Db)
      → Adds
          (insert codec c now (uploaded_key codec c id line req) db).0
          (available db)
          (available (insert codec c now (uploaded_key codec c id line req) db).1)
  unfolding insert
  insert-count id line db =
      elim (Option-cases (map_object_to_mgo codec now (uploaded_key codec c id line req))) [
        | inl e ↦ rw (e, insert) (omega arith, omega arith)
        | inr (d, e) ↦
            rw (e, insert)
              (Inserted-count d _ _ _ (uploaded_key-is_available id line d e)
                (laws.insert_one_lem d db))
      ]

  insert_lines-count :
      (new_id : ℕ → String) (i : ℕ) (lines : List (List ℕ)) (db : c.Db)
      → let (n, db') = insert_lines codec c new_id now i req lines db in
        let replies = insert_replies new_id i lines db in
        (n ≡ count_if is_stored replies)
        × (n ≤ length lines)
        × (n + available db ≤ available db')
        × (available db' ≤ n + available db + count_if is_failed replies)
  unfolding insert_lines
  insert_lines-count new_id i [] db = (refl, omega arith, omega arith, omega arith)
  insert_lines-count new_id i (line ∷ lines) db =
      let (r, db') = insert codec c now (uploaded_key codec c (new_id i) line req) db in
      let (same, few, more, bound) = insert_lines-count new_id (i + 1) lines db' in
      let (first, first_bound) = insert-count (new_id i) line db in
      let replies = insert_replies new_id (i + 1) lines db' in
      (
        omega (arith, same, count-stored r replies),
        ground (arith, few),
        omega (arith, more, first),
        omega (arith, bound, first_bound, count-failed r replies),
      )

  -- The collection after the first count.
  abbrev pub counted : c.Db → c.Db
  counted db = (c.count_documents (is_available oid req.platform_id) db).1

  count_keys-eq :
      (db : c.Db)
      → count_keys_by_product_platform codec c req.key_product_id req.platform_id db
        ≡ c.count_documents (is_available oid req.platform_id) db
  unfolding count_keys_by_product_platform
  count_keys-eq db = rw (known, count_keys_by_product_platform)

  Counted-ok :
      (db : c.Db) {n : ℕ}
      → (c.count_documents (is_available oid req.platform_id) db).0 ≡ ok n
      → n ≡ available db
  Counted-ok db e =
      subst (λ r. Counted (is_available oid req.platform_id) r (c.documents db)) e
        (laws.count_documents_lem (is_available oid req.platform_id) db).0

  available-counted : (db : c.Db) → available (counted db) ≡ available db
  available-counted db =
      ap (count_if (is_available oid req.platform_id)) (laws.count_documents_lem _ db).1

  -- An upload that ends well reports, as 32-bit numbers, how many of the lines were stored, which is
  -- how many of the insertions succeeded, and how many keys were available before and that many more;
  -- at least so many keys are available afterwards, and at most one more for each insertion that
  -- failed.
  pub upload_keys_file-adds :
      (new_id : ℕ → String) (db : c.Db)
      → let (rsp, db') = upload_keys_file codec c new_id now req db in
        let replies = insert_replies new_id 0 (scan_lines req.file).0 (counted db) in
        let stored = count_if is_stored replies in
        let before = count_if (is_available oid req.platform_id) (c.documents db) in
        let after = count_if (is_available oid req.platform_id) (c.documents db') in
        rsp.status ≡ Status.ok
        → (stored ≤ length (scan_lines req.file).0)
          × (rsp.keys_processed ≡ int32 stored)
          × (rsp.total_count ≡ int32 (before + stored))
          × (before + stored ≤ after)
          × (after ≤ before + stored + count_if is_failed replies)
  unfolding upload_keys_file
  upload_keys_file-adds new_id db h =
      let (same, few, more, bound) =
        insert_lines-count new_id 0 (scan_lines req.file).0 (counted db) in
      (
        omega (arith, same, few),
        ground (arith, count_keys-eq db, same),
        elim (Reply-cases (c.count_documents (is_available oid req.platform_id) db).0) [
          | inl (count, e) ↦ ground (arith, count_keys-eq db, Counted-ok db e, same)
          | inr (inl e) ↦ ground (arith, count_keys-eq db)
          | inr (inr e) ↦ ground (arith, count_keys-eq db)
        ],
        ground (arith, count_keys-eq db, same, more, available-counted db),
        ground (arith, count_keys-eq db, same, bound, available-counted db),
      )
