-- ===== src/Upstream/Service.antt =====
-- `CommandServiceImpl`, server/crates/sp-upstream/src/grpc.rs: the remote calls, by a handler of
-- the commands. `S` is the state that the handler works on. A request is its fields, a response
-- its content.
use syncpond.Base.{ℕ, String, Option, List, Result, ok}
use syncpond.Extern.Json.{Bytes}
use syncpond.Extern.Tonic.{Tonic}
use syncpond.Upstream.{
  Status, not_found, failed_precondition, map_room_error, respond, respond_jwt, respond_read,
  ReadFragmentResponse, intercept,
}

-- A method of the trait `CommandHandler`: what it returns, and the state it leaves.
abbrev pub Method : Type 0 → Type 0 → Type 0
Method S A = S → A × S

pub record CommandHandler (S : Type 0) : Type 0 where
  pub new_room : (name : String) → Method S ℕ
  pub list_rooms : Method S (List String)
  pub delete_room : (room_id : ℕ) → Method S (Result (Unit {0}) String)
  pub issue_jwt : (room_id : ℕ) (sub : String) (buckets : List ℕ) → Method S (Result String String)
  pub new_bucket : (room_id bucket_id : ℕ) (label : String) → Method S (Result (Unit {0}) String)
  pub delete_bucket : (room_id bucket_id : ℕ) → Method S (Result (Unit {0}) String)
  pub new_member : (room_id : ℕ) (member : String) → Method S (Result (Unit {0}) String)
  pub delete_member : (room_id : ℕ) (member : String) → Method S (Result (Unit {0}) String)
  pub list_members : (room_id : ℕ) → Method S (List String)
  pub list_buckets : (room_id : ℕ) → Method S (List String)
  pub read_fragment :
      (room_id bucket_id : ℕ) (key : String) → Method S (Result (Option Bytes) String)
  pub write_fragment :
      (room_id bucket_id : ℕ) (key : String) (content : Bytes) → Method S (Result (Unit {0}) String)
  pub load_room : (room_id : ℕ) → Method S (Result (Unit {0}) String)
  pub unload_room : (room_id : ℕ) → Method S (Result (Unit {0}) String)

-- A remote call: the content of the response or a status, and the state it leaves.
abbrev pub Rpc : Type 0 → Type 0 → Type 0
Rpc S A = Method S (Result A Status)

-- The service that the protocol file declares: the trait that the server implements, and what the
-- generated client offers.
pub record CommandService (S : Type 0) : Type 0 where
  pub new_room : (name : String) → Rpc S ℕ
  pub list_rooms : Rpc S (List String)
  pub delete_room : (room_id : ℕ) → Rpc S (Unit {0})
  pub issue_jwt : (room_id : ℕ) (sub : String) (buckets : List ℕ) → Rpc S String
  pub new_bucket : (room_id bucket_id : ℕ) (label : String) → Rpc S (Unit {0})
  pub delete_bucket : (room_id bucket_id : ℕ) → Rpc S (Unit {0})
  pub new_member : (room_id : ℕ) (member : String) → Rpc S (Unit {0})
  pub delete_member : (room_id : ℕ) (member : String) → Rpc S (Unit {0})
  pub list_members : (room_id : ℕ) → Rpc S (List String)
  pub list_buckets : (room_id : ℕ) → Rpc S (List String)
  pub read_fragment : (room_id bucket_id : ℕ) (key : String) → Rpc S ReadFragmentResponse
  pub write_fragment : (room_id bucket_id : ℕ) (key : String) (content : Bytes) → Rpc S (Unit {0})
  pub load_room : (room_id : ℕ) → Rpc S (Unit {0})
  pub unload_room : (room_id : ℕ) → Rpc S (Unit {0})

module _ {S : Type 0} where
  -- The answer of a method, turned into that of the call.
  abbrev pub answer_by : {A B : Type 0} → (A → Result B Status) → Method S A → Rpc S B
  answer_by turn method s = let r = method s in (turn r.0, r.1)

  module _ (inner : CommandHandler S) where
    unfoldable pub serve_new_room : (name : String) → Rpc S ℕ
    serve_new_room name = answer_by ok (inner.new_room name)

    unfoldable pub serve_list_rooms : Rpc S (List String)
    serve_list_rooms = answer_by ok inner.list_rooms

    unfoldable pub serve_delete_room : (room_id : ℕ) → Rpc S (Unit {0})
    unfolding respond
    serve_delete_room room_id =
        answer_by (respond (λ e. (not_found, e))) (inner.delete_room room_id)

    unfoldable pub serve_issue_jwt : (room_id : ℕ) (sub : String) (buckets : List ℕ) → Rpc S String
    unfolding respond_jwt
    serve_issue_jwt room_id sub buckets =
        answer_by respond_jwt (inner.issue_jwt room_id sub buckets)

    unfoldable pub serve_new_bucket : (room_id bucket_id : ℕ) (label : String) → Rpc S (Unit {0})
    unfolding respond map_room_error
    serve_new_bucket room_id bucket_id label =
        answer_by (respond map_room_error) (inner.new_bucket room_id bucket_id label)

    unfoldable pub serve_delete_bucket : (room_id bucket_id : ℕ) → Rpc S (Unit {0})
    unfolding respond map_room_error
    serve_delete_bucket room_id bucket_id =
        answer_by (respond map_room_error) (inner.delete_bucket room_id bucket_id)

    unfoldable pub serve_new_member : (room_id : ℕ) (member : String) → Rpc S (Unit {0})
    unfolding respond map_room_error
    serve_new_member room_id member =
        answer_by (respond map_room_error) (inner.new_member room_id member)

    unfoldable pub serve_delete_member : (room_id : ℕ) (member : String) → Rpc S (Unit {0})
    unfolding respond map_room_error
    serve_delete_member room_id member =
        answer_by (respond map_room_error) (inner.delete_member room_id member)

    unfoldable pub serve_list_members : (room_id : ℕ) → Rpc S (List String)
    serve_list_members room_id = answer_by ok (inner.list_members room_id)

    unfoldable pub serve_list_buckets : (room_id : ℕ) → Rpc S (List String)
    serve_list_buckets room_id = answer_by ok (inner.list_buckets room_id)

    unfoldable pub serve_read_fragment :
        (room_id bucket_id : ℕ) (key : String) → Rpc S ReadFragmentResponse
    unfolding respond_read
    serve_read_fragment room_id bucket_id key =
        answer_by respond_read (inner.read_fragment room_id bucket_id key)

    unfoldable pub serve_write_fragment :
        (room_id bucket_id : ℕ) (key : String) (content : Bytes) → Rpc S (Unit {0})
    unfolding respond map_room_error
    serve_write_fragment room_id bucket_id key content =
        answer_by (respond map_room_error) (inner.write_fragment room_id bucket_id key content)

    unfoldable pub serve_load_room : (room_id : ℕ) → Rpc S (Unit {0})
    unfolding respond
    serve_load_room room_id =
        answer_by (respond (λ e. (failed_precondition, e))) (inner.load_room room_id)

    unfoldable pub serve_unload_room : (room_id : ℕ) → Rpc S (Unit {0})
    unfolding respond
    serve_unload_room room_id =
        answer_by (respond (λ e. (not_found, e))) (inner.unload_room room_id)

    -- `impl CommandService for CommandServiceImpl`
    unfoldable pub service : CommandService S
    unfolding serve_new_room serve_list_rooms serve_delete_room serve_issue_jwt serve_new_bucket
        serve_delete_bucket serve_new_member serve_delete_member serve_list_members
        serve_list_buckets serve_read_fragment serve_write_fragment serve_load_room
        serve_unload_room
    service = record {
      new_room = serve_new_room;
      list_rooms = serve_list_rooms;
      delete_room = serve_delete_room;
      issue_jwt = serve_issue_jwt;
      new_bucket = serve_new_bucket;
      delete_bucket = serve_delete_bucket;
      new_member = serve_new_member;
      delete_member = serve_delete_member;
      list_members = serve_list_members;
      list_buckets = serve_list_buckets;
      read_fragment = serve_read_fragment;
      write_fragment = serve_write_fragment;
      load_room = serve_load_room;
      unload_room = serve_unload_room;
    }

module _ {S : Type 0} ⦃T : Tonic Status⦄ where
  -- `CommandServiceServer::with_interceptor`: the interceptor stands in front of every call.
  unfoldable pub intercepted : Result (Unit {0}) Status → CommandService S → CommandService S
  intercepted pass svc = record {
    new_room = λ name. T.with_interceptor pass (svc.new_room name);
    list_rooms = T.with_interceptor pass svc.list_rooms;
    delete_room = λ room_id. T.with_interceptor pass (svc.delete_room room_id);
    issue_jwt = λ room_id sub buckets. T.with_interceptor pass (svc.issue_jwt room_id sub buckets);
    new_bucket =
        λ room_id bucket_id label. T.with_interceptor pass (svc.new_bucket room_id bucket_id label);
    delete_bucket =
        λ room_id bucket_id. T.with_interceptor pass (svc.delete_bucket room_id bucket_id);
    new_member = λ room_id member. T.with_interceptor pass (svc.new_member room_id member);
    delete_member = λ room_id member. T.with_interceptor pass (svc.delete_member room_id member);
    list_members = λ room_id. T.with_interceptor pass (svc.list_members room_id);
    list_buckets = λ room_id. T.with_interceptor pass (svc.list_buckets room_id);
    read_fragment =
        λ room_id bucket_id key. T.with_interceptor pass (svc.read_fragment room_id bucket_id key);
    write_fragment = λ room_id bucket_id key content.
        T.with_interceptor pass (svc.write_fragment room_id bucket_id key content);
    load_room = λ room_id. T.with_interceptor pass (svc.load_room room_id);
    unload_room = λ room_id. T.with_interceptor pass (svc.unload_room room_id);
  }

  -- `GrpcServer::serve`: the service behind its key, for calls that carry `header`.
  unfoldable pub serve : (api_key header : Option String) → CommandHandler S → CommandService S
  unfolding intercept intercepted service
  serve api_key header inner = intercepted (intercept api_key header) (service inner)
