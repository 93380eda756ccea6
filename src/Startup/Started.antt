-- ===== src/Startup/Started.antt =====
-- The server from its start on: its rooms, and what any events leave.
use syncpond.Base.{
  ◌↔◌, ◌⊎◌, refl, true, [], ℕ, ◌+◌, ◌<◌, String, ◌≡◌, ◌∙◌, ◌&&◌, false, Option, none, some, List,
  arith, Bool-cases, inl, inr, Result, ok, err, u64_mod, length, >>=-eq-ok, fail_if, ok_or,
  unwrap_or, if◌then◌else◌, ap,
}
use syncpond.Base.Eq.{nat_eq}
use syncpond.Base.HashMap.{keys}
use syncpond.Base.HashSet.{contains}
use syncpond.Base.Sort.Order.{contains-sort_unstable}
use syncpond.Base.Text.{trim, is_empty_str}
use syncpond.Extern.Json.{Json, Bytes}
use syncpond.Extern.Rocks.{Rocks, Lru, Serde}
use syncpond.State.{RoomState, AppState, room_of}
use syncpond.State.Config.{
  new, set_command_api_key, set_save_dir, set_jwt_key, set_jwt_issuer, set_jwt_audience,
  set_jwt_ttl,
}
use syncpond.State.Errors.{room_not_found}
use syncpond.State.Reachable.Runs.{contains-keys}
use syncpond.Persistence.{BucketRecord, BucketRecords, list_room_ids}
use syncpond.Persistence.Directory.Listed.{is_listed, can_open, contains_key-open_existing}
use syncpond.Persistence.Directory.Names.{IsListed, is_listed_iff}
use syncpond.Kernel.Reachable.{Event, events}
use syncpond.Kernel.Reachable.Invariant.{KernelInv}
use syncpond.Kernel.Reachable.Runs.{events-KernelInv}
use syncpond.Startup.{
  SyncpondConfig, Server, with_key, with_save_dir, with_settings, configure, stub_room, when_some,
  serving, open_stores, made_dir, start,
}
use syncpond.Startup.Stubs.{top_id, IsBlank, room_of-register_existing, register_existing-AppInv}

module _ {V : Type 0} where
  when_some-IsBlank :
      {A : Type 0} (set : A → AppState V → AppState V)
      → ((a : A) (app : AppState V) → IsBlank app → IsBlank (set a app))
      → (o : Option A) (app : AppState V) → IsBlank app
      → IsBlank (when_some set o app)
  when_some-IsBlank set keeps none app h = h
  when_some-IsBlank set keeps (some a) app h = keeps a app h

  IsBlank-with_settings :
      (config : SyncpondConfig) (app : AppState V)
      → IsBlank app
      → IsBlank (with_settings config app)
  unfolding with_settings set_jwt_key set_jwt_issuer set_jwt_audience set_jwt_ttl
  IsBlank-with_settings config app h =
      when_some-IsBlank set_jwt_ttl (λ a b k. ground arith) config.jwt_ttl_seconds _
        (when_some-IsBlank set_jwt_audience (λ a b k. ground arith) config.jwt_audience _
          (when_some-IsBlank set_jwt_issuer (λ a b k. ground arith) config.jwt_issuer _
            (when_some-IsBlank set_jwt_key (λ a b k. ground arith) config.jwt_key app h)))

  IsBlank-with_key :
      (key : String) (keyed : AppState V)
      → with_key (set_command_api_key key new) ≡ ok keyed
      → IsBlank keyed
  unfolding with_key set_command_api_key new
  IsBlank-with_key key keyed h = elim (Bool-cases (is_empty_str (trim key))) [
    | inl blank ↦ ground arith
    | inr real ↦ ground arith
  ]

  IsBlank-with_save_dir :
      (o : Option String) (app base : AppState V)
      → IsBlank app
      → with_save_dir o app ≡ ok base
      → IsBlank base
  unfolding with_save_dir set_save_dir
  IsBlank-with_save_dir none app base h e = cc
  IsBlank-with_save_dir (some dir) app base h e = ground arith

  IsBlank-configure :
      (config : SyncpondConfig) (base : AppState V) → configure config ≡ ok base → IsBlank base
  unfolding configure
  IsBlank-configure config base h =
      let (keyed, with_it, rest) =
        >>=-eq-ok (with_key (set_command_api_key config.command_api_key new)) _ h in
      IsBlank-with_save_dir config.save_dir (with_settings config keyed) base
        (IsBlank-with_settings config keyed (IsBlank-with_key config.command_api_key keyed with_it))
        rest

-- A room of which nothing was read yet.
abbrev pub unread_room : {V : Type 0} → RoomState V
unread_room = record {
  buckets = [];
  room_counter = 0;
  tx_buffer = none;
  io_locked = false;
  loaded = false;
  bucket_labels = [];
  bucket_flags = [];
  members = [];
}

-- A directory of the save directory is the room's, and its store can be opened.
abbrev pub IsOnDisk :
    {D : Type 0} → (ℕ → Result D String) → Result (List (Option String)) String → ℕ → Type 0
IsOnDisk {D} open_db read_dir i = IsListed i read_dir × ((db : D) × (open_db i ≡ ok db))

-- The greatest id of the stores that the server has open; 0 where there is none.
abbrev pub top_store : {V D C A : Type 0} → Server V D C A → ℕ
top_store server = top_id (list_room_ids server.kernel.persistence)

can_open-eq_true : {D : Type 0} (r : Result D String) → can_open r ≡ true → (db : D) × (r ≡ ok db)
can_open-eq_true (ok db) h = (db, refl)
can_open-eq_true (err e) h = cc

module _ {V D C A : Type 0} (open_db : ℕ → Result D String)
    (create_dir_all : String → Result (Unit {0}) String)
    (read_dir : Result (List (Option String)) String) (parse_addr : String → Option A)
    (empty_cache : C) where
  -- What a start that succeeded made.
  pub start-eq-ok :
      (config : SyncpondConfig) (server : Server V D C A)
      → start open_db create_dir_all read_dir parse_addr empty_cache config ≡ ok server
      → (base : AppState V) × (ws_addr : A) × (grpc_addr : A) × IsBlank base
        × (server
            ≡ serving config (open_stores open_db read_dir empty_cache) base ws_addr grpc_addr)
  unfolding start
  start-eq-ok config server h =
      let (base, configured, h1) = >>=-eq-ok (configure config) _ h in
      let (_, created, h2) = >>=-eq-ok (made_dir (create_dir_all base.save_dir)) _ h1 in
      let (_, keyed, h3) =
        >>=-eq-ok (fail_if (is_empty_str (trim config.command_api_key)) _) _ h2 in
      let (_, plain, h4) = >>=-eq-ok (fail_if (unwrap_or config.require_tls false) _) _ h3 in
      let (ws_addr, ws, h5) =
        >>=-eq-ok (ok_or (parse_addr (unwrap_or config.ws_addr "127.0.0.1:8080")) _) _ h4 in
      let (grpc_addr, grpc, h6) =
        >>=-eq-ok (ok_or (parse_addr (unwrap_or config.upstream_grpc_addr "127.0.0.1:50051")) _) _
          h5 in
      (base, ws_addr, grpc_addr, IsBlank-configure config base configured, cc)

  -- The rooms, by the code that reads the names of directories
  pub room_of-start :
      (config : SyncpondConfig) (server : Server V D C A)
      → start open_db create_dir_all read_dir parse_addr empty_cache config ≡ ok server
      → (i : ℕ)
      → room_of i server.kernel.state ≡ (
          if is_listed i read_dir && can_open (open_db i) then ok stub_room else err room_not_found)
  unfolding serving list_room_ids open_stores
  room_of-start config server started i =
      let (base, ws_addr, grpc_addr, blank, same) = start-eq-ok config server started in
      let stores = open_stores open_db read_dir empty_cache in
      let known : contains i (list_room_ids stores)
          ≡ (is_listed i read_dir && can_open (open_db i)) =
        contains-sort_unstable i (keys stores.dbs)
        ∙ (contains-keys i stores.dbs
            ∙ contains_key-open_existing open_db read_dir empty_cache i) in
      rw same (
        room_of-register_existing i (list_room_ids stores) base blank
        ∙ ap (λ known. if known then ok stub_room else err room_not_found) known)

  -- After a start that succeeded, a room exists exactly when the save directory has an entry that
  -- is named `room_` and a number that is its id, and its store can be opened. It can then be
  -- read, is not loaded, not locked and in no transaction, has no data and is at version 0.
  pub start-rooms :
      (config : SyncpondConfig) (server : Server V D C A)
      → start open_db create_dir_all read_dir parse_addr empty_cache config ≡ ok server
      → (i : ℕ)
      → ((room_of i server.kernel.state ≡ ok unread_room) ↔ IsOnDisk open_db read_dir i)
        × ((room_of i server.kernel.state ≡ ok unread_room)
            ⊎ (room_of i server.kernel.state ≡ err room_not_found))
  start-rooms config server started i =
      let rooms = room_of-start config server started i in
      let listed = is_listed_iff i read_dir in
      (
        (
          λ found.
              let both : (is_listed i read_dir && can_open (open_db i)) ≡ true =
                ground (arith, rooms, found) in
              let on_disk : can_open (open_db i) ≡ true = ground (arith, both) in
              (listed.0 (ground (arith, both)), can_open-eq_true (open_db i) on_disk),
          λ (is_there, (db, opened)).
              let there = listed.1 is_there in
              let can : can_open (open_db i) ≡ true = rw opened refl in ground arith,
        ),
        elim (Bool-cases (is_listed i read_dir && can_open (open_db i))) [
          | inl there ↦ inl (ground arith)
          | inr missing ↦ inr (ground arith)
        ],
      )

  module _ {S : Type 0} ⦃J : Json V⦄ ⦃R : Rocks D⦄ ⦃L : Lru BucketRecords C⦄ ⦃I : Serde (List ℕ)⦄
      ⦃M : Serde (List String)⦄ ⦃B : Serde BucketRecord⦄ (from_utf8_lossy : Bytes → String) where
    -- A server that has started, and then any sequence of events (commands, single steps of a
    -- WriteFragment, deletions of rooms, tokens, messages of clients, reads of the channel),
    -- failing ones included, where the greatest id of a store and the events stay together below 2
    -- ^ 64 - 1: the invariant of all rooms and labels holds, and so the next room id is above that
    -- of every room and no counter has wrapped; and the channel of notifications holds at most 1024
    -- messages.
    pub start-events-KernelInv :
        (config : SyncpondConfig) (server : Server V D C A) (es : List (Event S))
        → start open_db create_dir_all read_dir parse_addr empty_cache config ≡ ok server
        → top_store server + length es + 1 < u64_mod
        → KernelInv (top_store server + length es) (events open_db from_utf8_lossy es server.kernel)
    unfolding serving
    start-events-KernelInv config server es started bound =
        let (base, ws_addr, grpc_addr, blank, same) = start-eq-ok config server started in
        let ids = list_room_ids (open_stores open_db read_dir empty_cache) in
        let low : top_store server + 1 < u64_mod = omega arith in
        events-KernelInv open_db from_utf8_lossy (top_store server) es server.kernel bound (
          rw same (record {
            sound = register_existing-AppInv ids base (rw same at low) blank;
            room = omega arith;
          }))
