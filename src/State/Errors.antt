-- ===== src/State/Errors.antt =====
-- `StateError` and its `Display`, server/crates/sp-kernel/src/state/mod.rs.
use syncpond.Base.{String}

pub data StateError : Type 0 where
  room_not_found : StateError
  bucket_not_found : StateError
  fragment_not_found : StateError
  fragment_tombstone : StateError
  tx_not_open : StateError
  tx_already_open : StateError
  jwt_key_not_configured : StateError
  jwt_issuer_audience_not_configured : StateError
  jwt_key_too_short : StateError
  reserved_bucket_id : StateError
  invalid_member : StateError
  command_api_key_invalid : StateError
  label_not_found : StateError
  label_in_use : StateError
  label_invalid : StateError
  room_io_busy : StateError
  room_not_loaded : StateError

-- `e.to_string()`
unfoldable pub display : StateError → String
display room_not_found = "room_not_found"
display bucket_not_found = "bucket_not_found"
display fragment_not_found = "not_found"
display fragment_tombstone = "tombstone"
display tx_not_open = "tx_not_open"
display tx_already_open = "tx_already_open"
display jwt_key_not_configured = "jwt_key_not_configured"
display jwt_issuer_audience_not_configured = "jwt_issuer_audience_not_configured"
display jwt_key_too_short = "jwt_key_too_short"
display reserved_bucket_id = "reserved_bucket_id"
display invalid_member = "invalid_member"
display command_api_key_invalid = "command_api_key_invalid"
display label_not_found = "label_not_found"
display label_in_use = "label_in_use"
display label_invalid = "label_invalid"
display room_io_busy = "room_io_busy"
display room_not_loaded = "room_not_loaded"
