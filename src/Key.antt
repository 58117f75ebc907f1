-- ===== src/Key.antt =====
-- Activation keys of game products: the documents and their repository
-- (internal/repository/key.go, internal/repository/models/key.go). The service methods over it are
-- in `Key.Service`. A time is a number of seconds after Go's zero time, which is 0; an identifier
-- of a document is a number behind its hexadecimal text.
pub mod Service
pub mod Available
pub mod Life
pub mod Sound
pub mod Kept
pub mod Reserved
pub mod Held
pub mod Upload
pub mod Notice
pub mod Sold
pub mod Order
mod Tests
use paysuper_billing_server.Base.{
  ℕ, ◌+◌, ◌-◌, ◌<◌, ◌≡◌, Bool, true, false, not, ◌&&◌, Option, none, some, List, [], ◌∷◌, ltb, ◌==◌,
  suc, if◌then◌else◌,
}
use paysuper_billing_server.Base.Int.{ℤ, pos, negsuc}
use paysuper_billing_server.Base.Text.{String, str_eq, is_set}
use paysuper_billing_server.Mongo.{Reply, ok, no_documents, failure, Collection}

-- The packages `primitive` and `ptypes`, which are outside the repository: identifiers and their
-- texts, and times and their protobuf form, each of which can be refused.
pub record Codec : Type 0 where
  pub object_id_from_hex : String → Option ℕ
  pub hex : ℕ → String
  pub timestamp : ℕ → Option ℕ
  pub timestamp_proto : ℕ → Option ℕ

pub record MgoKey : Type 0 where
  pub id : ℕ
  pub code : List ℕ
  pub key_product_id : ℕ
  pub platform_id : String
  pub order_id : Option ℕ
  pub created_at : ℕ
  pub reserved_to : ℕ
  pub redeemed_at : ℕ

-- `billingpb.Key`: a nil pointer is `none`.
pub record Key : Type 0 where
  pub id : String
  pub code : List ℕ
  pub key_product_id : String
  pub platform_id : String
  pub order_id : String
  pub created_at : Option ℕ
  pub reserved_to : Option ℕ
  pub redeemed_at : Option ℕ

-- `Time.Add` of a number of seconds. The clock stands far above 2 ^ 31 seconds, so a negative
-- `ttl` does not reach below zero.
abbrev pub add_seconds : ℕ → ℤ → ℕ
add_seconds t (pos n) = t + n
add_seconds t (negsuc n) = t - suc n

-- The tests of the repository's queries.
abbrev pub is_none : Option ℕ → Bool
is_none none = true
is_none (some _) = false

abbrev pub has_id : ℕ → MgoKey → Bool
has_id oid k = k.id == oid

abbrev pub is_available : ℕ → String → MgoKey → Bool
is_available product platform_id k =
    k.key_product_id == product && str_eq k.platform_id platform_id && is_none k.order_id

abbrev pub is_unfinished : ℕ → MgoKey → Bool
is_unfinished now k = ltb 0 k.reserved_to && ltb k.reserved_to now

-- The `$set` documents of the repository's updates.
abbrev pub set_reserved : ℕ → ℕ → MgoKey → MgoKey
set_reserved until order_oid k = record k { reserved_to = until; order_id = some order_oid }

abbrev pub set_canceled : MgoKey → MgoKey
set_canceled k = record k { reserved_to = 0; order_id = none }

abbrev pub set_redeemed : ℕ → MgoKey → MgoKey
set_redeemed now k = record k { reserved_to = 0; redeemed_at = now }

module _ (codec : Codec) where
  open codec use {object_id_from_hex, hex, timestamp, timestamp_proto}

  -- An optional identifier and an optional time, as `MapObjectToMgo` reads them.
  read_order_id : String → Option (Option ℕ)
  read_order_id s =
      if is_set s
      then elim (object_id_from_hex s) [ none ↦ none | some oid ↦ some (some oid) ]
      else some none

  read_time : ℕ → Option ℕ → Option ℕ
  read_time default none = some default
  read_time default (some t) = timestamp t

  infixl 5 ◌>>=◌
  abbrev ◌>>=◌ : {A B : Type 0} → Option A → (A → Option B) → Option B
  none >>= f = none
  some a >>= f = f a

  unfoldable pub map_object_to_mgo : ℕ → Key → Option MgoKey
  unfolding read_order_id read_time
  map_object_to_mgo now m = do
    oid ← object_id_from_hex m.id
    key_product_oid ← object_id_from_hex m.key_product_id
    order ← read_order_id m.order_id
    redeemed ← read_time 0 m.redeemed_at
    reserved ← read_time 0 m.reserved_to
    created ← read_time now m.created_at
    some (record {
      id = oid;
      code = m.code;
      key_product_id = key_product_oid;
      platform_id = m.platform_id;
      order_id = order;
      created_at = created;
      reserved_to = reserved;
      redeemed_at = redeemed;
    })

  abbrev order_text : Option ℕ → String
  order_text none = ""
  order_text (some oid) = hex oid

  unfoldable pub map_mgo_to_object : MgoKey → Option Key
  map_mgo_to_object d = do
    created ← timestamp_proto d.created_at
    redeemed ← timestamp_proto d.redeemed_at
    reserved ← timestamp_proto d.reserved_to
    some (record {
      id = hex d.id;
      code = d.code;
      key_product_id = hex d.key_product_id;
      platform_id = d.platform_id;
      order_id = order_text d.order_id;
      created_at = some created;
      reserved_to = some reserved;
      redeemed_at = some redeemed;
    })

  -- The mapper behind a query's answer.
  abbrev pub mapped : Reply MgoKey → Reply Key
  mapped (ok d) = elim (map_mgo_to_object d) [ none ↦ failure | some k ↦ ok k ]
  mapped no_documents = no_documents
  mapped failure = failure

  unfoldable pub map_all : List MgoKey → Option (List Key)
  map_all [] = some []
  map_all (d ∷ ds) = do k ← map_mgo_to_object d; ks ← map_all ds; some (k ∷ ks)

  module _ (c : Collection MgoKey) where
    -- `_, err := …; return err`
    unfoldable pub insert : ℕ → Key → c.Db → Reply (Unit {0}) × c.Db
    insert now key db = elim (map_object_to_mgo now key) [
      | none ↦ (failure, db)
      | some d ↦ c.insert_one d db
    ]

    unfoldable pub get_by_id : String → c.Db → Reply Key × c.Db
    get_by_id id db = elim (object_id_from_hex id) [
      | none ↦ (failure, db)
      | some oid ↦ let (r, db') = c.find_one (has_id oid) db in (mapped r, db')
    ]

    unfoldable pub reserve_key : ℕ → String → String → String → ℤ → c.Db → Reply Key × c.Db
    reserve_key now key_product_id platform_id order_id ttl db =
        elim (object_id_from_hex key_product_id) [
          | none ↦ (failure, db)
          | some oid ↦ elim (object_id_from_hex order_id) [
            | none ↦ (failure, db)
            | some order_oid ↦
                let (r, db') =
                  c.find_one_and_update (is_available oid platform_id)
                    (set_reserved (add_seconds now ttl) order_oid) db in
                (mapped r, db')
          ]
        ]

    unfoldable pub cancel_by_id : String → c.Db → Reply Key × c.Db
    cancel_by_id id db = elim (object_id_from_hex id) [
      | none ↦ (failure, db)
      | some oid ↦
          let (r, db') = c.find_one_and_update (has_id oid) set_canceled db in (mapped r, db')
    ]

    unfoldable pub finish_redeem_by_id : ℕ → String → c.Db → Reply Key × c.Db
    finish_redeem_by_id now id db = elim (object_id_from_hex id) [
      | none ↦ (failure, db)
      | some oid ↦
          let (r, db') = c.find_one_and_update (has_id oid) (set_redeemed now) db in (mapped r, db')
    ]

    unfoldable pub count_keys_by_product_platform : String → String → c.Db → Reply ℕ × c.Db
    count_keys_by_product_platform key_product_id platform_id db =
        elim (object_id_from_hex key_product_id) [
          | none ↦ (failure, db)
          | some oid ↦ c.count_documents (is_available oid platform_id) db
        ]

    abbrev all_mapped : Reply (List MgoKey) → Reply (List Key)
    all_mapped (ok ds) = elim (map_all ds) [ none ↦ failure | some ks ↦ ok ks ]
    all_mapped no_documents = no_documents
    all_mapped failure = failure

    unfoldable pub find_unfinished : ℕ → c.Db → Reply (List Key) × c.Db
    find_unfinished now db = let (r, db') = c.find (is_unfinished now) db in (all_mapped r, db')
