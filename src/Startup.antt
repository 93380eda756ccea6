-- ===== src/Startup.antt =====
-- `main`, server/crates/server/src/main.rs: from the configuration to the kernel that serves. The
-- file system and the addresses are arguments; the tasks that then run are those of the other
-- modules.
pub mod Outcomes
pub mod Stubs
pub mod Started
pub mod Restored
use Prim.Native.String
use syncpond.Base.{
  ℕ, String, Bool, true, false, Option, none, some, List, [], ◌∷◌, Result, ok, err, fail_if, ok_or,
  ◌>>=◌, ◌>>◌, unwrap_or, leb, max, wrapping_add, if◌then◌else◌,
}
use syncpond.Base.Eq.{nat_eq}
use syncpond.Base.HashMap.{insert}
use syncpond.Base.Text.{trim, is_empty_str}
use syncpond.State.{RoomState, RwLock, AppState, Outcome}
use syncpond.State.Config.{
  new, set_command_api_key, set_jwt_key, set_jwt_issuer, set_jwt_audience, set_jwt_ttl,
  set_save_dir,
}
use syncpond.Persistence.{PersistenceManager, list_room_ids}
use syncpond.Persistence.Directory
use syncpond.Persistence.Directory.{open_existing_room_dbs}
use syncpond.Kernel.{SyncpondKernel}

pub record SyncpondConfig : Type 0 where
  pub command_api_key : String
  pub ws_addr : Option String
  pub upstream_grpc_addr : Option String
  pub jwt_key : Option String
  pub jwt_issuer : Option String
  pub jwt_audience : Option String
  pub jwt_ttl_seconds : Option ℕ
  pub require_tls : Option Bool
  pub ws_allowed_origins : Option (List String)
  pub save_dir : Option String

-- What `main` hands to the tasks. `A` is the type of an address.
pub record Server (V D C A : Type 0) : Type 0 where
  pub kernel : SyncpondKernel V D C
  pub ws_addr : A
  pub grpc_addr : A
  pub ws_allowed_origins : List String
  pub api_key : Option String

-- `iter().max()`
unfoldable pub max_of : List ℕ → Option ℕ
max_of [] = none
max_of (i ∷ is) = elim (max_of is) [ none ↦ some i | some m ↦ some (max i m) ]

-- `fs::create_dir_all(…).context(…)?`
made_dir : Result (Unit {0}) String → Result (Unit {0}) String
made_dir (ok _) = ok tt
made_dir (err e) = err "failed to create save_dir"

module _ {V : Type 0} where
  -- `if let Some(a) = setting { app.set(a) }`
  abbrev pub when_some :
      {A : Type 0} → (A → AppState V → AppState V) → Option A → AppState V → AppState V
  when_some set none app = app
  when_some set (some a) app = set a app

  unfoldable pub with_settings : SyncpondConfig → AppState V → AppState V
  unfolding set_jwt_key set_jwt_issuer set_jwt_audience set_jwt_ttl
  with_settings config app = when_some set_jwt_ttl config.jwt_ttl_seconds (
      when_some set_jwt_audience config.jwt_audience
        (when_some set_jwt_issuer config.jwt_issuer (when_some set_jwt_key config.jwt_key app)))

  with_key : Outcome (AppState V) → Result (AppState V) String
  with_key (ok app) = ok app
  with_key (err e) = err "command_api_key must be configured and non-empty"

  with_save_dir : Option String → AppState V → Result (AppState V) String
  unfolding trim is_empty_str set_save_dir
  with_save_dir none app = err "save_dir must be configured and non-empty"
  with_save_dir (some dir) app =
      if is_empty_str (trim dir)
      then err "save_dir must be configured and non-empty"
      else ok (set_save_dir dir app)

  -- The state from the configuration, before the rooms. An error is its outermost text.
  unfoldable pub configure : SyncpondConfig → Result (AppState V) String
  unfolding new set_command_api_key with_settings with_key with_save_dir
  configure config = do
    keyed ← with_key (set_command_api_key config.command_api_key new)
    with_save_dir config.save_dir (with_settings config keyed)

  -- The `RoomState` of a room that is only known from its store.
  abbrev pub stub_room : RoomState V
  stub_room = record {
    buckets = [];
    room_counter = 0;
    tx_buffer = none;
    io_locked = false;
    loaded = false;
    bucket_labels = [];
    bucket_flags = [];
    members = [];
  }

  unfoldable pub register_stubs : List ℕ → AppState V → AppState V
  unfolding insert
  register_stubs [] app = app
  register_stubs (i ∷ is) app =
      let lock : RwLock (RoomState V) = record { content = stub_room; poisoned = false } in
      register_stubs is (record app { rooms = insert i lock app.rooms })

  -- `if base_state.next_room_id <= max_id { base_state.next_room_id = max_id + 1; }`
  unfoldable pub reserve_ids : Option ℕ → AppState V → AppState V
  reserve_ids none app = app
  reserve_ids (some max_id) app =
      if leb app.next_room_id max_id
      then record app { next_room_id = wrapping_add max_id 1 }
      else app

  unfoldable pub register_existing : List ℕ → AppState V → AppState V
  unfolding register_stubs reserve_ids max_of
  register_existing existing_rooms app =
      reserve_ids (max_of existing_rooms) (register_stubs existing_rooms app)

module _ {D C : Type 0} (open_db : ℕ → Result D String)
    (read_dir : Result (List (Option String)) String) (empty_cache : C) where
  -- `PersistenceManager::new`, and the stores that are found on disk; an error is passed over.
  unfoldable pub open_stores : PersistenceManager D C
  unfolding open_existing_room_dbs Directory.new
  open_stores = (open_existing_room_dbs open_db read_dir (Directory.new empty_cache)).1

-- The kernel with the rooms of the stores, and what else the tasks are given.
unfoldable pub serving :
    {V D C A : Type 0}
    → SyncpondConfig
    → PersistenceManager D C
    → AppState V
    → (ws_addr grpc_addr : A) → Server V D C A
unfolding register_existing list_room_ids
serving config stores base ws_addr grpc_addr = record {
  kernel = record {
    state = register_existing (list_room_ids stores) base;
    persistence = stores;
    notifications = [];
  };
  ws_addr = ws_addr;
  grpc_addr = grpc_addr;
  ws_allowed_origins = unwrap_or config.ws_allowed_origins [];
  api_key = some config.command_api_key;
}

module _ {V D C A : Type 0} (open_db : ℕ → Result D String)
    (create_dir_all : String → Result (Unit {0}) String)
    (read_dir : Result (List (Option String)) String) (parse_addr : String → Option A)
    (empty_cache : C) where
  unfoldable pub start : SyncpondConfig → Result (Server V D C A) String
  unfolding configure made_dir open_stores serving trim is_empty_str
  start config = do
    base ← configure config
    made_dir (create_dir_all base.save_dir)
    fail_if (is_empty_str (trim config.command_api_key))
        "command_api_key must be configured and non-empty"
    fail_if (unwrap_or config.require_tls false)
        "TLS transport required in config, but this binary does not terminate TLS; use reverse proxy for TLS termination"
    let ws_text = unwrap_or config.ws_addr "127.0.0.1:8080"
    ws_addr ← ok_or (parse_addr ws_text) (String.◌++◌ "invalid ws_addr: " ws_text)
    let grpc_text = unwrap_or config.upstream_grpc_addr "127.0.0.1:50051"
    grpc_addr ← ok_or (parse_addr grpc_text) (String.◌++◌ "invalid upstream_grpc_addr: " grpc_text)
    ok (serving config (open_stores open_db read_dir empty_cache) base ws_addr grpc_addr)
