-- ===== src/Key/Notice.antt =====
-- When a merchant is told that keys run out, and in which order.
use paysuper_billing_server.Base.{ℕ, ◌≤◌, ◌≡◌, ◌≢◌, true, some, [], ◌∷◌, arith, take, if◌then◌else◌}
use paysuper_billing_server.Base.Text.{String}
use paysuper_billing_server.Key.Service.{
  Answers, publish_mail, publish_message, set_flag, chosen_flag, check_and_notify_product_keys,
}

-- The notice is due: the number of available keys is known and not above the product's limit, the
-- cache answers that it has no flag for the notice, and the project and its merchant are found.
pub record IsDue (a : Answers) (product platform_id : String) (limit count : ℕ) : Type 0 where
  pub limit_known : a.minimal_limit_notify ≡ some limit
  pub count_known : a.count ≡ some count
  pub reached : count ≤ limit
  pub not_flagged : a.exists (chosen_flag count product platform_id) ≡ some 0
  pub project : a.project_found ≡ true
  pub merchant : a.merchant_found ≡ true

-- A run has an effect only if the notice is due.
pub check_and_notify_product_keys-IsDue :
    (a : Answers) (product platform_id : String)
    → check_and_notify_product_keys a product platform_id ≢ []
    → (limit : ℕ) × (count : ℕ) × IsDue a product platform_id limit count
unfolding check_and_notify_product_keys
check_and_notify_product_keys-IsDue a product platform_id h = ground arith

-- The sending calls that are made when the notice is due: the mail, the message if the mail is
-- sent, and the flag if the message is sent too.
abbrev pub sent : Answers → ℕ
sent a = if a.mail_published then (if a.message_published then 3 else 2) else 1

pub IsDue-sent :
    (a : Answers) (product platform_id : String) (limit count : ℕ)
    → IsDue a product platform_id limit count
    → let flag = chosen_flag count product platform_id in
      check_and_notify_product_keys a product platform_id
      ≡ take (sent a) (publish_mail flag ∷ publish_message flag ∷ set_flag flag ∷ [])
unfolding check_and_notify_product_keys
IsDue-sent a product platform_id limit count due = ground arith
