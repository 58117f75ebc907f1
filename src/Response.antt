-- ===== src/Response.antt =====
-- The status of a response (billingpb.ResponseStatus…). A response that no branch has written has
-- the status zero, `unset`.
pub data Status : Type 0 where
  unset ok not_modified bad_data forbidden not_found system_error temporary : Status
