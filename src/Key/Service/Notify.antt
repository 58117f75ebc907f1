-- ===== src/Key/Service/Notify.antt =====
-- The notice to a merchant whose keys run out (checkAndNotifyProductKeys in
-- internal/service/key.go), run in the background after a key is redeemed. What each call to the
-- outside answers is an argument; the calls that have an effect are listed in their order.
use paysuper_billing_server.Base.{
  ℕ, Bool, not, ◌&&◌, Option, none, some, List, [], ◌∷◌, leb, ◌==◌, if◌then◌else◌,
}
use paysuper_billing_server.Base.Text.{String}

-- The keys of the cache that remember a sent notice, by product and platform.
pub data Flag : Type 0 where
  minimal_keys_notify empty_keys_notify : String → String → Flag

pub data Effect : Type 0 where
  publish_mail : Flag → Effect
  publish_message : Flag → Effect
  set_flag : Flag → Effect

-- The answers: the product's notice limit, the available keys, whether the cache has the flag
-- (`none`: the call failed), and whether each later call succeeds.
pub record Answers : Type 0 where
  pub minimal_limit_notify : Option ℕ
  pub count : Option ℕ
  pub exists : Flag → Option ℕ
  pub project_found : Bool
  pub merchant_found : Bool
  pub mail_published : Bool
  pub message_published : Bool
  pub flag_set : Bool

-- A mail that cannot be published stops the run; so does a message.
send_notice : Answers → Flag → List Effect
send_notice a flag =
    if not (a.project_found && a.merchant_found)
    then []
    else if not a.mail_published
    then publish_mail flag ∷ []
    else if not a.message_published
    then publish_mail flag ∷ publish_message flag ∷ []
    else publish_mail flag ∷ publish_message flag ∷ set_flag flag ∷ []

abbrev when_absent : Answers → Flag → Option ℕ → List Effect
when_absent a flag none = []
when_absent a flag (some n) = if n == 0 then send_notice a flag else []

abbrev pub chosen_flag : ℕ → String → String → Flag
chosen_flag count key_product_id platform_id =
    if leb count 0
    then empty_keys_notify key_product_id platform_id
    else minimal_keys_notify key_product_id platform_id

abbrev within_limit : Answers → String → String → Option ℕ → Option ℕ → List Effect
within_limit a key_product_id platform_id (some limit) (some count) =
    let flag = chosen_flag count key_product_id platform_id in
    if leb count limit then when_absent a flag (a.exists flag) else []
within_limit a key_product_id platform_id (some limit) none = []
within_limit a key_product_id platform_id none _ = []

-- The effects of one run for a key of the product on the platform.
unfoldable pub check_and_notify_product_keys : Answers → String → String → List Effect
unfolding send_notice
check_and_notify_product_keys a key_product_id platform_id =
    within_limit a key_product_id platform_id a.minimal_limit_notify a.count
