-- ===== src/State/Metrics.antt =====
-- `metrics`, server/crates/sp-kernel/src/state/mod.rs. `F` is the type f64, whose operations are
-- arguments; the JSON object is a record of its fields.
use syncpond.Base.{ℕ, ltb, length, if◌then◌else◌}
use syncpond.State.{AppState}

-- What is used of f64: the conversion of a u64, division, and the two constants.
pub record Float (F : Type 0) : Type 0 where
  pub as_f64 : ℕ → F
  pub divide : F → F → F
  pub zero_f64 : F
  pub million : F

pub record Metrics (F : Type 0) : Type 0 where
  pub room_count : ℕ
  pub ws_connections : ℕ
  pub next_room_id : ℕ
  pub total_command_requests : ℕ
  pub command_error_count : ℕ
  pub ws_auth_success : ℕ
  pub ws_auth_failure : ℕ
  pub command_auth_failure : ℕ
  pub invalid_command_count : ℕ
  pub ws_connection_count : ℕ
  pub ws_connection_avg_latency_ms : F
  pub ws_update_rate_limited : ℕ
  pub ws_update_dropped : ℕ
  pub ws_send_errors : ℕ

unfoldable pub metrics : {V F : Type 0} → Float F → AppState V → Metrics F
metrics float app = record {
  room_count = length app.rooms;
  ws_connections = app.total_ws_connections;
  next_room_id = app.next_room_id;
  total_command_requests = app.total_command_requests;
  command_error_count = app.command_error_count;
  ws_auth_success = app.ws_auth_success;
  ws_auth_failure = app.ws_auth_failure;
  command_auth_failure = app.command_auth_failure;
  invalid_command_count = app.invalid_command_count;
  ws_connection_count = app.ws_connection_count;
  ws_connection_avg_latency_ms =
      if ltb 0 app.ws_connection_count
      then float.divide
          (float.divide (float.as_f64 app.ws_connection_latency_ns_total)
            (float.as_f64 app.ws_connection_count))
          float.million
      else float.zero_f64;
  ws_update_rate_limited = app.ws_update_rate_limited;
  ws_update_dropped = app.ws_update_dropped;
  ws_send_errors = app.ws_send_errors;
}
