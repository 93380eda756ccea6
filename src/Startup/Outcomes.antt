-- ===== src/Startup/Outcomes.antt =====
-- When the server starts.
use syncpond.Base.{
  ℕ, String, ◌≡◌, ◌↔◌, refl, false, Option, none, some, List, arith, Result, ok, err, unwrap_or,
  >>=-eq-ok, fail_if, ok_or,
}
use syncpond.Base.Text.{trim, is_empty_str}
use syncpond.State.{AppState}
use syncpond.State.Config.{new, set_command_api_key, set_save_dir}
use syncpond.Startup.{
  serving, open_stores, made_dir, with_key, with_save_dir, with_settings, SyncpondConfig, Server,
  configure, start,
}

module _ {V : Type 0} where
  with_key-eq-ok :
      (key : String) (keyed : AppState V)
      → with_key (set_command_api_key key new) ≡ ok keyed
      → is_empty_str (trim key) ≡ false
  unfolding with_key set_command_api_key
  with_key-eq-ok key keyed h = ground arith

  with_save_dir-eq-ok :
      (o : Option String) (app base : AppState V)
      → with_save_dir o app ≡ ok base
      → (dir : String) × (o ≡ some dir) × (is_empty_str (trim dir) ≡ false) × (base.save_dir ≡ dir)
  unfolding with_save_dir
  with_save_dir-eq-ok none app base h = cc
  with_save_dir-eq-ok (some dir) app base h = (dir, refl, ground arith, ground arith)

  configure-eq-ok :
      (config : SyncpondConfig) (base : AppState V)
      → configure config ≡ ok base
      → (is_empty_str (trim config.command_api_key) ≡ false)
        × (config.save_dir ≡ some base.save_dir)
        × (is_empty_str (trim base.save_dir) ≡ false)
  unfolding configure
  configure-eq-ok config base h =
      let (keyed, with_it, rest) =
        >>=-eq-ok (with_key (set_command_api_key config.command_api_key new)) _ h in
      let (dir, saved, named, same) = with_save_dir-eq-ok config.save_dir _ base rest in
      (with_key-eq-ok config.command_api_key keyed with_it, rw same saved, rw same named)

  with_key-ok :
      (key : String)
      → is_empty_str (trim key) ≡ false
      → with_key {V = V} (set_command_api_key key new)
        ≡ ok (record new { command_api_key = some key })
  unfolding with_key set_command_api_key
  with_key-ok key h = rw h refl

  with_save_dir-ok :
      (dir : String) (o : Option String) (app : AppState V)
      → o ≡ some dir
      → is_empty_str (trim dir) ≡ false
      → with_save_dir o app ≡ ok (set_save_dir dir app)
  unfolding with_save_dir
  with_save_dir-ok dir o app saved named = rw saved (rw named refl)

  configure-ok :
      (config : SyncpondConfig) (dir : String)
      → is_empty_str (trim config.command_api_key) ≡ false
      → config.save_dir ≡ some dir
      → is_empty_str (trim dir) ≡ false
      → (base : AppState V) × (configure config ≡ ok base) × (base.save_dir ≡ dir)
  unfolding configure
  configure-ok config dir keyed saved named =
      let app : AppState V = record new { command_api_key = some config.command_api_key } in
      let base : AppState V = set_save_dir dir (with_settings config app) in
      (
        base,
        rw (with_key-ok config.command_api_key keyed)
            (with_save_dir-ok dir config.save_dir (with_settings config app) saved named),
        refl,
      )

made_dir-eq-ok : (r : Result (Unit {0}) String) → made_dir r ≡ ok tt → r ≡ ok tt
unfolding made_dir
made_dir-eq-ok (ok _) h = refl
made_dir-eq-ok (err e) h = cc

ok_or-eq-ok : {A : Type 0} (o : Option A) (e : String) (a : A) → ok_or o e ≡ ok a → o ≡ some a
ok_or-eq-ok none e a h = cc
ok_or-eq-ok (some b) e a h = ground arith

module _ {A : Type 0} (create_dir_all : String → Result (Unit {0}) String)
    (parse_addr : String → Option A) where
  -- What the configuration has to be like.
  pub record IsServable (config : SyncpondConfig) : Type 0 where
    pub dir : String
    pub ws_addr : A
    pub grpc_addr : A
    pub keyed : is_empty_str (trim config.command_api_key) ≡ false
    pub saved : config.save_dir ≡ some dir
    pub named : is_empty_str (trim dir) ≡ false
    pub created : create_dir_all dir ≡ ok tt
    pub plain : unwrap_or config.require_tls false ≡ false
    pub ws : parse_addr (unwrap_or config.ws_addr "127.0.0.1:8080") ≡ some ws_addr
    pub grpc : parse_addr (unwrap_or config.upstream_grpc_addr "127.0.0.1:50051") ≡ some grpc_addr

module _ {V D C A : Type 0} (open_db : ℕ → Result D String)
    (create_dir_all : String → Result (Unit {0}) String)
    (read_dir : Result (List (Option String)) String) (parse_addr : String → Option A)
    (empty_cache : C) where
  -- The server starts exactly when the command key and the save directory are given and not blank,
  -- the directory can be made, TLS is not asked for, and the two addresses, or their defaults, can
  -- be parsed.
  pub start_iff :
      (config : SyncpondConfig)
      → ((server : Server V D C A) × (start open_db create_dir_all read_dir parse_addr empty_cache
              config
            ≡ ok server))
        ↔ IsServable create_dir_all parse_addr config
  unfolding start
  start_iff config = (
    λ (server, h).
        let (base, configured, h1) = >>=-eq-ok (configure config) _ h in
        let (done0, created, h2) = >>=-eq-ok (made_dir (create_dir_all base.save_dir)) _ h1 in
        let (done1, keyed, h3) =
          >>=-eq-ok (fail_if (is_empty_str (trim config.command_api_key)) _) _ h2 in
        let (done2, plain, h4) = >>=-eq-ok (fail_if (unwrap_or config.require_tls false) _) _ h3 in
        let (ws_addr, ws, h5) =
          >>=-eq-ok (ok_or (parse_addr (unwrap_or config.ws_addr "127.0.0.1:8080")) _) _ h4 in
        let (grpc_addr, grpc, h6) =
          >>=-eq-ok (ok_or (parse_addr (unwrap_or config.upstream_grpc_addr "127.0.0.1:50051")) _) _
            h5 in
        let (keyed', saved, named) = configure-eq-ok config base configured in
        record {
          dir = base.save_dir;
          ws_addr = ws_addr;
          grpc_addr = grpc_addr;
          keyed = keyed';
          saved = saved;
          named = named;
          created = made_dir-eq-ok (create_dir_all base.save_dir) created;
          plain = ground arith;
          ws = ok_or-eq-ok _ _ _ ws;
          grpc = ok_or-eq-ok _ _ _ grpc;
        },
    λ h.
        let (base, configured, same) = configure-ok {V = V} config h.dir h.keyed h.saved h.named in
        let created : create_dir_all base.save_dir ≡ ok tt = rw same h.created in
        (
          serving config (open_stores open_db read_dir empty_cache) base h.ws_addr h.grpc_addr,
          rw (configured, created, h.keyed, h.plain, h.ws, h.grpc) refl,
        ),
  )
