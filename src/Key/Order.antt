-- ===== src/Key/Order.antt =====
-- The loops over the keys of an order (internal/service/order.go): reserving a key for each
-- product before a payment, and redeeming or giving back the keys after it.
use paysuper_billing_server.Base.{
  ℕ, Bool, true, false, Option, none, some, List, [], ◌∷◌, ◌++◌, if◌then◌else◌, length, ◌==◌,
}
use paysuper_billing_server.Base.Int.{ℤ, pos}
use paysuper_billing_server.Base.Text.{String, is_set}
use paysuper_billing_server.Mongo.{Collection}
use paysuper_billing_server.Response.{Status}
use paysuper_billing_server.Key.{Codec, MgoKey, Key}
use paysuper_billing_server.Key.Service.{
  Message, ReserveRequest, reserve_key_for_order, cancel_redeem_key_for_order,
  finish_redeem_key_for_order,
}

-- The fields of an order that the loops read and write.
pub record OrderKeys : Type 0 where
  pub id : String
  pub platform_id : String
  pub products : List String
  pub keys : List String
  pub is_key_product_notified : Bool

-- Public statuses of an order, as far as the loops tell them apart.
pub data PublicStatus : Type 0 where
  created processed canceled rejected refunded chargeback pending : PublicStatus

abbrev pub one_day_ttl : ℤ
one_day_ttl = pos 86400

abbrev pub is_given_back : PublicStatus → Bool
is_given_back canceled = true
is_given_back rejected = true
is_given_back _ = false

abbrev pub is_processed : PublicStatus → Bool
is_processed processed = true
is_processed _ = false

module _ (codec : Codec) (c : Collection MgoKey) where
  -- The keys reserved before a failure are given back, one by one; what fails is only logged.
  unfoldable pub cancel_reserved : List String → c.Db → c.Db
  cancel_reserved [] db = db
  cancel_reserved (k ∷ ks) db =
      cancel_reserved ks (if is_set k then (cancel_redeem_key_for_order codec c k db).1 else db)

  abbrev pub reserve_request : OrderKeys → String → ReserveRequest
  reserve_request order product = record {
    key_product_id = product;
    platform_id = order.platform_id;
    order_id = order.id;
    ttl = one_day_ttl;
  }

  abbrev is_ok : Status → Bool
  is_ok Status.ok = true
  is_ok _ = false

  -- `keys` is what has been reserved. The result is the error, if a reservation was refused, and
  -- else the keys of all products.
  unfoldable pub reserve_products :
      ℕ → OrderKeys → List String → List String → c.Db → (Option Message × List String) × c.Db
  reserve_products now order keys [] db = ((none, keys), db)
  reserve_products now order keys (product ∷ products) db =
      let (rsp, db') = reserve_key_for_order codec c now (reserve_request order product) db in
      let rest = reserve_products now order (keys ++ (rsp.key_id ∷ [])) products db' in
      if is_ok rsp.status then rest else ((rsp.message, keys), cancel_reserved keys db')

  abbrev keep_keys : OrderKeys → Option Message × List String → Option Message × OrderKeys
  keep_keys order (none, keys) = (none, record order { keys = keys })
  keep_keys order (some message, _) = (some message, order)

  unfoldable pub reserve_keys_for_order : ℕ → OrderKeys → c.Db → (Option Message × OrderKeys) × c.Db
  unfolding reserve_products
  reserve_keys_for_order now order db =
      let (r, db') = reserve_products now order [] order.products db in
      if length order.keys == 0 then (keep_keys order r, db') else ((none, order), db)

  abbrev mail_for : Option Key → List Key → List Key
  mail_for none rest = rest
  mail_for (some key) rest = key ∷ rest

  -- The keys for which a mail with the code is sent.
  unfoldable pub finish_all : ℕ → List String → c.Db → List Key × c.Db
  finish_all now [] db = ([], db)
  finish_all now (k ∷ ks) db =
      let (rsp, db') = finish_redeem_key_for_order codec c now k db in
      let (mailed, db'') = finish_all now ks db' in (mail_for rsp.key mailed, db'')

  unfoldable pub cancel_all : List String → c.Db → c.Db
  cancel_all [] db = db
  cancel_all (k ∷ ks) db = cancel_all ks (cancel_redeem_key_for_order codec c k db).1

  -- The order after the call, the keys that are mailed, and the collection.
  unfoldable pub order_notify_key_products :
      ℕ → PublicStatus → OrderKeys → c.Db → OrderKeys × List Key × c.Db
  unfolding finish_all cancel_all
  order_notify_key_products now status order db =
      let (mailed, db') = finish_all now order.keys db in
      if order.is_key_product_notified
      then (order, [], db)
      else if is_given_back status
      then (record order { is_key_product_notified = true }, [], cancel_all order.keys db)
      else if is_processed status
      then (record order { is_key_product_notified = true }, mailed, db')
      else (order, [], db)
