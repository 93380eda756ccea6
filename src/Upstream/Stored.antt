-- ===== src/Upstream/Stored.antt =====
-- The way of a fragment from a remote call through the service to the kernel, and back.
use syncpond.Base.{
  ℕ, String, ◌≡◌, ◌∙◌, ap, refl, if◌then◌else◌, true, false, err, Option, none, some, List, arith,
  Result, ok,
}
use syncpond.Base.Eq.{string_eq, ==_refl}
use syncpond.Extern.Json.{Json, Bytes}
use syncpond.Extern.Rocks.{Rocks, Lru, Serde}
use syncpond.Extern.Tonic.{Tonic}
use syncpond.Protocol.{fragment_read_response}
use syncpond.State.{RoomState, room_of}
use syncpond.State.Members.{usable}
use syncpond.State.Rooms.{is_room_loaded}
use syncpond.State.Tokens.{JwtClaims}
use syncpond.Persistence.{BucketRecord, BucketRecords}
use syncpond.Kernel.{SyncpondKernel}
use syncpond.Kernel.Commands.{handle_command}
use syncpond.Kernel.Writing.{handle_write_fragment, handle_read_fragment}
use syncpond.Kernel.Parsed.{StandsFor, StandsFor-parse_value}
use syncpond.Kernel.Written.{read-write_fragment, usable-loaded}
use syncpond.Upstream.{failed_precondition, Status, respond_read, intercept}
use syncpond.Upstream.Service.{
  Rpc, CommandService, serve, service, intercepted, serve_read_fragment, serve_write_fragment,
  answer_by,
}
use syncpond.Upstream.Handler.{read_fragment_answer}
use syncpond.Upstream.Handler.Methods.{commanded, kernel_handler}
use syncpond.Upstream.Statuses.{respond-write_fragment}

intercept_self : (key : String) → intercept (some key) (some key) ≡ ok tt
unfolding intercept
intercept_self key = ground (arith, ==_refl key)

passed_call :
    {S A : Type 0} ⦃T : Tonic Status⦄ (call : Rpc S A) (key : String) (s : S)
    → T.with_interceptor (intercept (some key) (some key)) call s ≡ call s
passed_call ⦃T = T⦄ call key s = rw (intercept_self key) (T.passed call s)

respond_some :
    {K : Type 0} (handle : K → Result (Option Bytes) String × K) (bytes : Bytes) (k : K)
    → (handle k).0 ≡ ok (some bytes)
    → (answer_by respond_read handle k).0 ≡ ok (record { content = bytes; found = true })
unfolding respond_read
respond_some handle bytes k h = rw h refl

module _ {V D C : Type 0} ⦃T : Tonic Status⦄ ⦃J : Json V⦄ ⦃R : Rocks D⦄ ⦃L : Lru BucketRecords C⦄
    ⦃I : Serde (List ℕ)⦄ ⦃M : Serde (List String)⦄ ⦃B : Serde BucketRecord⦄
    (open_db : ℕ → Result D String) (from_utf8_lossy : Bytes → String)
    (encode : JwtClaims → String → Option String) (clock : ℕ) (api_key : String) where
  -- The calls of a caller that carries the key of the server.
  abbrev pub keyed_calls : CommandService (SyncpondKernel V D C)
  keyed_calls =
      serve (some api_key) (some api_key) (kernel_handler open_db from_utf8_lossy encode clock)

  keyed_write :
      (i b : ℕ) (key : String) (bytes : Bytes) (k : SyncpondKernel V D C)
      → keyed_calls.write_fragment i b key bytes k ≡ (
        if is_room_loaded i k.state then ok tt else err (failed_precondition, "room_not_loaded"),
        (handle_write_fragment open_db from_utf8_lossy i b key bytes k).1,
      )
  unfolding serve intercepted service serve_write_fragment kernel_handler commanded handle_command
  keyed_write i b key bytes k =
      let handler = kernel_handler open_db from_utf8_lossy encode clock in
      passed_call (serve_write_fragment handler i b key bytes) api_key k
      ∙ ground (arith, respond-write_fragment open_db from_utf8_lossy i b key bytes k)

  keyed_read :
      (i b : ℕ) (key : String) (bytes : Bytes) (k : SyncpondKernel V D C)
      → (handle_read_fragment i b key k).0 ≡ fragment_read_response (some bytes)
      → (keyed_calls.read_fragment i b key k).0 ≡ ok (record { content = bytes; found = true })
  unfolding serve intercepted service serve_read_fragment kernel_handler commanded handle_command
      read_fragment_answer
  keyed_read i b key bytes k h =
      let handler = kernel_handler open_db from_utf8_lossy encode clock in
      ap (λ r. r.0) (passed_call (serve_read_fragment handler i b key) api_key k)
      ∙ respond_some (handler.read_fragment i b key) bytes k (rw h refl)

  -- A caller with the server's key writes some content, which is the JSON of a value or, where it
  -- is no JSON, stands for its text, to a room that can be read, is loaded, is not locked for
  -- input and output and is in no transaction. Where the value is no null and can be serialized,
  -- the write succeeds, and reading the same key then finds the value's serialization.
  pub serve-read-write_fragment :
      (i b : ℕ) (key : String) (content bytes : Bytes) (v : V) (room : RoomState V)
      (k : SyncpondKernel V D C)
      → room_of i k.state ≡ ok room
      → usable room ≡ ok tt
      → room.tx_buffer ≡ none
      → StandsFor from_utf8_lossy content v
      → J.is_null v ≡ false
      → J.to_vec v ≡ some bytes
      → let wrote = keyed_calls.write_fragment i b key content k in
        (wrote.0 ≡ ok tt)
        × ((keyed_calls.read_fragment i b key wrote.1).0
            ≡ ok (record { content = bytes; found = true }))
  serve-read-write_fragment i b key content bytes v room k found ready closed stands real saved =
      let parsed = StandsFor-parse_value from_utf8_lossy content v stands in
      let got =
        read-write_fragment open_db from_utf8_lossy i b key content room k found ready closed
          (rw parsed real) in
      let response = rw (parsed, saved) at got in
      rw (keyed_write i b key content k) (
        ground (arith, usable-loaded i room k.state found ready),
        keyed_read i b key bytes
            ((handle_write_fragment open_db from_utf8_lossy i b key content k).1) response,
      )
