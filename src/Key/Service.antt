-- ===== src/Key/Service.antt =====
-- The key methods of the service (internal/service/key.go). A method returns its response and the
-- collection after it; its Go error is always nil.
mod Notify
unfoldable pub use Notify.{check_and_notify_product_keys}
pub use Notify.*
use paysuper_billing_server.Base.{
  ℕ, suc, ◌+◌, ◌%◌, ◌^◌, Bool, true, false, not, ◌&&◌, ◌||◌, Option, none, some, List, [], ◌∷◌,
  ◌++◌, ltb, leb, ◌==◌, if◌then◌else◌,
}
use paysuper_billing_server.Base.Int.{ℤ, pos}
use paysuper_billing_server.Base.Text.{String, str_eq, is_set}
use paysuper_billing_server.Bufio.{scan_lines}
use paysuper_billing_server.Mongo.{Reply, ok, no_documents, failure, Collection}
use paysuper_billing_server.Response.{Status}
use paysuper_billing_server.Key.{
  Codec, MgoKey, Key, insert, get_by_id, reserve_key, cancel_by_id, finish_redeem_by_id,
  count_keys_by_product_platform, find_unfinished,
}

pub data Message : Type 0 where
  key_error_not_found key_error_reserve key_error_finish key_error_canceled key_error_file_process :
      Message
  key_product_not_found key_product_merchant_mismatch : Message

-- The bit pattern of `int32(n)`.
abbrev pub int32 : ℕ → ℕ
int32 n = n % 2 ^ 32

pub record UploadRequest : Type 0 where
  pub file : List ℕ
  pub key_product_id : String
  pub platform_id : String

-- `deleted` is the flags that the upload asks the cache to delete; the answer is only logged.
pub record UploadResponse : Type 0 where
  pub status : Status
  pub message : Option Message
  pub total_count : ℕ
  pub keys_processed : ℕ
  pub deleted : List Flag

pub record CountResponse : Type 0 where
  pub status : Status
  pub message : Option Message
  pub count : ℕ

pub record KeyResponse : Type 0 where
  pub status : Status
  pub message : Option Message
  pub key : Option Key

pub record ReserveRequest : Type 0 where
  pub key_product_id : String
  pub platform_id : String
  pub order_id : String
  pub ttl : ℤ

pub record ReserveResponse : Type 0 where
  pub status : Status
  pub message : Option Message
  pub key_id : String

pub record EmptyResponse : Type 0 where
  pub status : Status
  pub message : Option Message

module _ (codec : Codec) (c : Collection MgoKey) where
  -- The key that the loop of `UploadKeysFile` builds of a line; `new_id` is `NewObjectID().Hex()`.
  abbrev pub uploaded_key : String → List ℕ → UploadRequest → Key
  uploaded_key new_id line req = record {
    id = new_id;
    code = line;
    key_product_id = req.key_product_id;
    platform_id = req.platform_id;
    order_id = "";
    created_at = none;
    reserved_to = none;
    redeemed_at = none;
  }

  abbrev pub inserted_one : Reply (Unit {0}) → ℕ
  inserted_one (ok _) = 1
  inserted_one no_documents = 0
  inserted_one failure = 0

  -- The loop over the lines: how many were inserted. The `i`-th line gets the identifier `new_id i`.
  unfoldable pub insert_lines :
      (ℕ → String) → ℕ → ℕ → UploadRequest → List (List ℕ) → c.Db → ℕ × c.Db
  insert_lines new_id now i req [] db = (0, db)
  insert_lines new_id now i req (line ∷ lines) db =
      let (r, db') = insert codec c now (uploaded_key (new_id i) line req) db in
      let (n, db'') = insert_lines new_id now (i + 1) req lines db' in (inserted_one r + n, db'')

  unfoldable pub upload_keys_file : (ℕ → String) → ℕ → UploadRequest → c.Db → UploadResponse × c.Db
  unfolding insert_lines
  upload_keys_file new_id now req db =
      let (r, db') = count_keys_by_product_platform codec c req.key_product_id req.platform_id db in
      elim r [
        | ok count ↦
            let (lines, too_long) = scan_lines req.file in
            let (n, db'') = insert_lines new_id now 0 req lines db' in
            let rsp : UploadResponse = record {
              status = Status.ok;
              message = none;
              total_count = int32 (count + n);
              keys_processed = int32 n;
              deleted =
                  empty_keys_notify req.key_product_id req.platform_id
                  ∷ minimal_keys_notify req.key_product_id req.platform_id
                  ∷ [];
            } in
            (
              if too_long
                  then record rsp {
                    status = Status.bad_data;
                    message = some key_error_file_process;
                    deleted = [];
                  }
                  else rsp,
              db'',
            )
        | no_documents ↦ (upload_failed, db')
        | failure ↦ (upload_failed, db')
      ]
    where
      upload_failed : UploadResponse
      upload_failed = record {
        status = Status.not_found;
        message = some key_error_not_found;
        total_count = 0;
        keys_processed = 0;
        deleted = [];
      }

  abbrev count_response : Reply ℕ → CountResponse
  count_response (ok n) = record { status = Status.ok; message = none; count = int32 n }
  count_response no_documents = record {
    status = Status.not_found;
    message = some key_error_not_found;
    count = 0;
  }
  count_response failure = record {
    status = Status.not_found;
    message = some key_error_not_found;
    count = 0;
  }

  -- `owner` is the merchant of the key product, if it is found.
  unfoldable pub get_available_keys_count :
      Option String → String → String → String → c.Db → CountResponse × c.Db
  get_available_keys_count none merchant_id key_product_id platform_id db =
      (record { status = Status.not_found; message = some key_product_not_found; count = 0 }, db)
  get_available_keys_count (some owner) merchant_id key_product_id platform_id db =
      let (r, db') = count_keys_by_product_platform codec c key_product_id platform_id db in
      if str_eq owner merchant_id then (count_response r, db') else (
        record {
          status = Status.not_found;
          message = some key_product_merchant_mismatch;
          count = 0;
        },
        db,
      )

  abbrev pub key_response : Status → Status → Message → Reply Key → KeyResponse
  key_response good bad message (ok k) = record { status = good; message = none; key = some k }
  key_response good bad message no_documents = record {
    status = bad;
    message = some message;
    key = none;
  }
  key_response good bad message failure = record {
    status = bad;
    message = some message;
    key = none;
  }

  -- A key that is found leaves the status unwritten.
  unfoldable pub get_key_by_id : String → c.Db → KeyResponse × c.Db
  get_key_by_id key_id db =
      let (r, db') = get_by_id codec c key_id db in
      (key_response Status.unset Status.not_found key_error_not_found r, db')

  abbrev reserve_response : Reply Key → ReserveResponse
  reserve_response (ok k) = record { status = Status.ok; message = none; key_id = k.id }
  reserve_response no_documents = record {
    status = Status.bad_data;
    message = some key_error_reserve;
    key_id = "";
  }
  reserve_response failure = record {
    status = Status.bad_data;
    message = some key_error_reserve;
    key_id = "";
  }

  unfoldable pub reserve_key_for_order : ℕ → ReserveRequest → c.Db → ReserveResponse × c.Db
  reserve_key_for_order now req db =
      let (r, db') =
        reserve_key codec c now req.key_product_id req.platform_id req.order_id req.ttl db in
      (reserve_response r, db')

  unfoldable pub finish_redeem_key_for_order : ℕ → String → c.Db → KeyResponse × c.Db
  finish_redeem_key_for_order now key_id db =
      let (r, db') = finish_redeem_by_id codec c now key_id db in
      (key_response Status.ok Status.system_error key_error_finish r, db')

  abbrev cancel_response : Reply Key → EmptyResponse
  cancel_response (ok _) = record { status = Status.ok; message = none }
  cancel_response no_documents = record {
    status = Status.system_error;
    message = some key_error_canceled;
  }
  cancel_response failure = record {
    status = Status.system_error;
    message = some key_error_canceled;
  }

  unfoldable pub cancel_redeem_key_for_order : String → c.Db → EmptyResponse × c.Db
  cancel_redeem_key_for_order key_id db =
      let (r, db') = cancel_by_id codec c key_id db in (cancel_response r, db')

  abbrev pub is_ok : Reply Key → Bool
  is_ok (ok _) = true
  is_ok no_documents = false
  is_ok failure = false

  -- The loop of `KeyDaemonProcess`: how many of the keys were cancelled.
  unfoldable pub cancel_keys : List Key → c.Db → ℕ × c.Db
  cancel_keys [] db = (0, db)
  cancel_keys (k ∷ ks) db =
      let (r, db') = cancel_by_id codec c k.id db in
      let (n, db'') = cancel_keys ks db' in (if is_ok r then n + 1 else n, db'')

  -- The counter, and whether the query has failed.
  unfoldable pub key_daemon_process : ℕ → c.Db → ℕ × Bool × c.Db
  unfolding cancel_keys
  key_daemon_process now db =
      let (r, db') = find_unfinished codec c now db in
      elim r [
        | ok ks ↦ let (n, db'') = cancel_keys ks db' in (n, false, db'')
        | no_documents ↦ (0, true, db')
        | failure ↦ (0, true, db')
      ]
