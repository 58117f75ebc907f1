-- ===== src/Key/Tests.antt =====
-- Runs of the key methods over a collection in memory, and the theorems at concrete keys.
use paysuper_billing_server.Key.Reserved.{AreReservedFor}
use paysuper_billing_server.Key.Upload.{upload_keys_file-adds, insert_replies, is_stored, is_failed}
use Prim.Native.String.{String}
use paysuper_billing_server.Base.{
  ℕ, zero, suc, ◌+◌, ◌≤◌, ◌≡◌, refl, ap, true, false, Option, none, some, List, [], ◌∷◌, arith,
  length, All, inr,
}
use paysuper_billing_server.Base.Int.{pos}
use paysuper_billing_server.Bufio.{scan_lines}
use paysuper_billing_server.Mongo.{ok, In, count_if, Reply}
use paysuper_billing_server.Memory.{memory, memory-IsCollection}
use paysuper_billing_server.Response.{Status}
use paysuper_billing_server.Key.{
  Codec, MgoKey, map_mgo_to_object, map_all, map_object_to_mgo, insert,
  count_keys_by_product_platform, is_available, reserve_key, finish_redeem_by_id, cancel_by_id,
  find_unfinished, Key,
}
use paysuper_billing_server.Key.Available.{is_held_by, reserve_key-takes_one}
use paysuper_billing_server.Key.Service.{
  UploadRequest, Answers, int32, upload_keys_file, key_daemon_process, reserve_key_for_order,
}
use paysuper_billing_server.Key.Sound.{IsSound, here, next, daemon, Calls-IsSound}
use paysuper_billing_server.Key.Sold.{
  is_sold, key_daemon_process-keeps_sold, finish_redeem_by_id-unheld,
}
use paysuper_billing_server.Key.Notice.{IsDue, check_and_notify_product_keys-IsDue, IsDue-sent}
use paysuper_billing_server.Key.Order.{
  OrderKeys, processed, canceled, reserve_keys_for_order, order_notify_key_products,
}
use paysuper_billing_server.Key.Held.{reserve_keys_for_order-held, order_notify_key_products-once}

-- The identifier n is written as n + 1 letters.
abbrev hex : ℕ → String
hex zero = "a"
hex (suc n) = String.◌∷◌ "a" (hex n)

abbrev letters : String → ℕ
letters String.[] = 0
letters (String.◌∷◌ _ s) = suc (letters s)

abbrev from_hex : String → Option ℕ
from_hex String.[] = none
from_hex (String.◌∷◌ _ s) = some (letters s)

letters-hex : (n : ℕ) → letters (hex n) ≡ suc n
letters-hex zero = refl
letters-hex (suc n) = ap suc (letters-hex n)

from_hex-hex : (n : ℕ) → from_hex (hex n) ≡ some n
from_hex-hex zero = refl
from_hex-hex (suc n) = ap some (letters-hex n)

abbrev codec : Codec
codec = record {
  object_id_from_hex = from_hex;
  hex = hex;
  timestamp = λ t. some t;
  timestamp_proto = λ t. some t;
}

abbrev Store : Type 0
Store = List MgoKey

-- Key `i` of product 1 on "steam".
abbrev free_key : ℕ → MgoKey
free_key i = record {
  id = i;
  code = [];
  key_product_id = 1;
  platform_id = "steam";
  order_id = none;
  created_at = 5;
  reserved_to = 0;
  redeemed_at = 0;
}

abbrev sold_key : MgoKey
sold_key = record (free_key 7) { order_id = some 2; redeemed_at = 90 }

abbrev expired_key : MgoKey
expired_key = record (free_key 8) { order_id = some 3; reserved_to = 95 }

abbrev keys : Store
keys = free_key 6 ∷ sold_key ∷ expired_key ∷ []

-- The reservation of a key of product 1 for order 4 succeeds.
reserve_runs :
    (reserve_key codec (memory MgoKey) 100 "aa" "steam" "aaaaa" (pos 10) keys).1
    ≡ record (free_key 6) { order_id = some 4; reserved_to = 110 } ∷ sold_key ∷ expired_key ∷ []
unfolding reserve_key
reserve_runs = refl

reserve_answers :
    (reserve_key codec (memory MgoKey) 100 "aa" "steam" "aaaaa" (pos 10) keys).0
    ≡ ok (record {
      id = "aaaaaaa";
      code = [];
      key_product_id = "aa";
      platform_id = "steam";
      order_id = "aaaaa";
      created_at = some 5;
      reserved_to = some 110;
      redeemed_at = some 0;
    })
unfolding reserve_key map_mgo_to_object
reserve_answers = refl

reserve_key-takes_one_example :
    count_if
        (is_available 1 "steam")
        (reserve_key codec (memory MgoKey) 100 "aa" "steam" "aaaaa" (pos 10) keys).1
      + 1
    ≡ 1
reserve_key-takes_one_example =
    reserve_key-takes_one codec (memory MgoKey) (memory-IsCollection MgoKey) 100 "aa" "steam"
      "aaaaa" (pos 10) 1 4 keys refl refl reserve_answers

-- The daemon cancels the expired reservation and leaves the sold key.
daemon_runs :
    (key_daemon_process codec (memory MgoKey) 100 keys)
    ≡ (1, false, free_key 6 ∷ sold_key ∷ free_key 8 ∷ [])
unfolding key_daemon_process find_unfinished cancel_by_id map_all map_mgo_to_object
daemon_runs = refl

key_daemon_process-keeps_sold_example :
    count_if is_sold (key_daemon_process codec (memory MgoKey) 100 keys).2 ≡ 1
key_daemon_process-keeps_sold_example =
    key_daemon_process-keeps_sold codec (memory MgoKey) (memory-IsCollection MgoKey) from_hex-hex
      100 keys (ground arith)

Calls-IsSound_example : All IsSound (key_daemon_process codec (memory MgoKey) 100 keys).2
Calls-IsSound_example =
    Calls-IsSound codec (memory MgoKey) (memory-IsCollection MgoKey) (next here (daemon 100))
      (ground arith)

abbrev finished : Key
finished = record {
  id = "aaaaaaa";
  code = [];
  key_product_id = "aa";
  platform_id = "steam";
  order_id = "";
  created_at = some 5;
  reserved_to = some 0;
  redeemed_at = some 100;
}

finish_runs : (finish_redeem_by_id codec (memory MgoKey) 100 "aaaaaaa" keys).0 ≡ ok finished
unfolding finish_redeem_by_id map_mgo_to_object
finish_runs = refl

finish_redeem_by_id-unheld_example :
    (d : MgoKey) × In d (finish_redeem_by_id codec (memory MgoKey) 100 "aaaaaaa" keys).1
    × (d.id ≡ 6)
    × (d.redeemed_at ≡ 100)
    × (map_mgo_to_object codec d ≡ some finished)
    × (is_available d.key_product_id d.platform_id d ≡ true)
finish_redeem_by_id-unheld_example =
    finish_redeem_by_id-unheld codec (memory MgoKey) (memory-IsCollection MgoKey) 100 6 "aaaaaaa"
      keys refl (ground arith) finish_runs

abbrev two_lines : UploadRequest
two_lines = record {
  file = b'A' ∷ b'1' ∷ 13 ∷ 10 ∷ b'B' ∷ [];
  key_product_id = "aa";
  platform_id = "steam";
}

lines_read : scan_lines two_lines.file ≡ ((b'A' ∷ b'1' ∷ []) ∷ (b'B' ∷ []) ∷ [], false)
unfolding scan_lines
lines_read = refl

abbrev fresh : ℕ → String
fresh i = hex (i + 20)

upload_runs :
    let (rsp, db) = upload_keys_file codec (memory MgoKey) fresh 100 two_lines keys in
    (rsp.status ≡ Status.ok) × (rsp.total_count ≡ 3) × (rsp.keys_processed ≡ 2) × (length db ≡ 5)
unfolding upload_keys_file count_keys_by_product_platform scan_lines insert map_object_to_mgo
upload_runs = (refl, refl, refl, refl)

abbrev lines_inserted : List (Reply (Unit {0}))
lines_inserted =
    insert_replies codec (memory MgoKey) (memory-IsCollection MgoKey) 100 two_lines 1 refl fresh 0
      (scan_lines two_lines.file).0 keys

lines_are_stored : (count_if is_stored lines_inserted ≡ 2) × (count_if is_failed lines_inserted ≡ 0)
unfolding scan_lines insert map_object_to_mgo
lines_are_stored = (refl, refl)

upload_keys_file-adds_example :
    let (rsp, db) = upload_keys_file codec (memory MgoKey) fresh 100 two_lines keys in
    let replies = lines_inserted in
    let stored = count_if is_stored replies in
    let after = count_if (is_available 1 "steam") db in
    (stored ≤ length (scan_lines two_lines.file).0)
    × (rsp.keys_processed ≡ int32 stored)
    × (rsp.total_count ≡ int32 (1 + stored))
    × (1 + stored ≤ after)
    × (after ≤ 1 + stored + count_if is_failed replies)
upload_keys_file-adds_example =
    upload_keys_file-adds codec (memory MgoKey) (memory-IsCollection MgoKey) 100 two_lines 1 refl
      fresh keys upload_runs.0

abbrev answers : Answers
answers = record {
  minimal_limit_notify = some 3;
  count = some 0;
  exists = λ _. some 0;
  project_found = true;
  merchant_found = true;
  mail_published = true;
  message_published = false;
  flag_set = true;
}

notice-IsDue : IsDue answers "p" "steam" 3 0
notice-IsDue = ground arith

check_and_notify_product_keys-IsDue_example :
    (limit : ℕ) × (count : ℕ) × IsDue answers "p" "steam" limit count
check_and_notify_product_keys-IsDue_example =
    check_and_notify_product_keys-IsDue answers "p" "steam"
      (λ e. cc (IsDue-sent answers "p" "steam" 3 0 notice-IsDue, e))

abbrev order : OrderKeys
order = record {
  id = "aaaaa";
  platform_id = "steam";
  products = "aa" ∷ [];
  keys = [];
  is_key_product_notified = false;
}

order_reserved :
    (reserve_keys_for_order codec (memory MgoKey) 100 order keys).0
    ≡ (none, record order { keys = "aaaaaaa" ∷ [] })
unfolding reserve_keys_for_order reserve_key_for_order reserve_key map_mgo_to_object
order_reserved = refl

reserve_keys_for_order-held_example :
    let r = reserve_keys_for_order codec (memory MgoKey) 100 order keys in
    (length r.0.1.keys ≡ 1)
    × (count_if (is_held_by 4) r.1 ≡ 1)
    × AreReservedFor codec
        (memory MgoKey)
        (memory-IsCollection MgoKey)
        100
        order
        4
        refl
        r.1
        ("aa" ∷ [])
        r.0.1.keys
reserve_keys_for_order-held_example =
    reserve_keys_for_order-held codec (memory MgoKey) (memory-IsCollection MgoKey) 100 order 4 refl
      keys refl (ap (λ r. r.0) order_reserved)

order_notify_key_products-once_example :
    let (order', _, db') =
      order_notify_key_products codec (memory MgoKey) 100 processed order keys in
    order_notify_key_products codec (memory MgoKey) 101 canceled order' db' ≡ (order', [], db')
order_notify_key_products-once_example =
    order_notify_key_products-once codec (memory MgoKey) 100 101 processed canceled order keys
      (inr refl)
