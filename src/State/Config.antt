-- ===== src/State/Config.antt =====
-- `AppState::new` and the setters of the configuration, server/crates/sp-kernel/src/state/mod.rs.
use syncpond.Base.{ℕ, String, none, some, [], ok, fail_if, ◌>>◌}
use syncpond.Base.Text.{trim, is_empty_str}
use syncpond.State.{AppState, Outcome}
use syncpond.State.Errors.{command_api_key_invalid}

-- `AppState::new`
unfoldable pub new : {V : Type 0} → AppState V
new = record {
  total_ws_connections = 0;
  total_command_requests = 0;
  command_error_count = 0;
  ws_auth_success = 0;
  ws_auth_failure = 0;
  command_auth_failure = 0;
  invalid_command_count = 0;
  ws_connection_latency_ns_total = 0;
  ws_connection_count = 0;
  ws_update_dropped = 0;
  ws_update_rate_limited = 0;
  ws_send_errors = 0;
  rooms = [];
  labels = [];
  next_room_id = 1;
  jwt_key = none;
  jwt_ttl_seconds = 3600;
  jwt_issuer = none;
  jwt_audience = none;
  last_jwt_issue_seconds = none;
  command_api_key = none;
  save_dir = ".";
}

module _ {V : Type 0} where
  unfoldable pub set_jwt_key : String → AppState V → AppState V
  set_jwt_key key app = record app { jwt_key = some key }

  unfoldable pub set_jwt_ttl : ℕ → AppState V → AppState V
  set_jwt_ttl seconds app = record app { jwt_ttl_seconds = seconds }

  unfoldable pub set_jwt_issuer : String → AppState V → AppState V
  set_jwt_issuer issuer app = record app { jwt_issuer = some issuer }

  unfoldable pub set_jwt_audience : String → AppState V → AppState V
  set_jwt_audience audience app = record app { jwt_audience = some audience }

  unfoldable pub set_command_api_key : String → AppState V → Outcome (AppState V)
  unfolding trim is_empty_str
  set_command_api_key key app = do
    fail_if (is_empty_str (trim key)) command_api_key_invalid
    ok (record app { command_api_key = some key })

  unfoldable pub set_save_dir : String → AppState V → AppState V
  set_save_dir dir app = record app { save_dir = dir }
