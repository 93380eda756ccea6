-- ===== src/Extern/Tonic.antt =====
-- The crate tonic, as server/crates/sp-upstream/src/grpc.rs uses it: an interceptor in front of
-- each call of a service. `Status` is the type of a status.
use mathlib.Core.Path.{◌≡◌}
use syncpond.Base.{Result, ok, err}

pub record Tonic (Status : Type 0) : Type 1 where
  -- `with_interceptor`: what the interceptor answered, and the call of the service, which works
  -- on a state of type `S`
  pub with_interceptor :
      {S A : Type 0}
      → Result (Unit {0}) Status
      → (S → Result A Status × S)
      → S
      → Result A Status × S
  -- A request that passes is handed to the service; any other is answered with its status.
  pub passed :
      {S A : Type 0} (call : S → Result A Status × S) (s : S)
      → with_interceptor (ok tt) call s ≡ call s
  pub refused :
      {S A : Type 0} (status : Status) (call : S → Result A Status × S) (s : S)
      → with_interceptor (err status) call s ≡ (err status, s)
