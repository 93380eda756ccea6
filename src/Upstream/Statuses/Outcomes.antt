-- ===== src/Upstream/Statuses/Outcomes.antt =====
-- The statuses of the errors that a token can be refused with.
use syncpond.Base.{
  String, ◌≡◌, refl, Bool, true, false, Option, none, some, Result, ok, err, Bool-cases, inl, inr,
  ◌>>=◌, fail_if, ok_or,
}
use syncpond.Base.Eq.{nat_eq, string_eq}
use syncpond.State.{RwLock, Outcome, lock_content}
use syncpond.State.Errors.{StateError, display}
use syncpond.Upstream.{Code, internal, Status, map_jwt_error, respond_jwt}
use syncpond.Upstream.Handler.{to_text}

abbrev pub is_internal : Code → Bool
is_internal internal = true
is_internal code = false

-- The error of the result, if it is one, has a status of its own.
abbrev pub HasStatus : {A : Type 0} → Outcome A → Type 0
HasStatus (ok a) = Unit {0}
HasStatus (err e) = is_internal ((map_jwt_error (display e)).0) ≡ false

pub >>=-HasStatus :
    {A B : Type 0} (m : Outcome A) (f : A → Outcome B)
    → HasStatus m
    → ((a : A) → HasStatus (f a))
    → HasStatus (m >>= f)
>>=-HasStatus (ok a) f h all = all a
>>=-HasStatus (err e) f h all = h

pub fail_if-HasStatus :
    (test : Bool) (e : StateError) → HasStatus {A = Unit {0}} (err e) → HasStatus (fail_if test e)
fail_if-HasStatus true e h = h
fail_if-HasStatus false e h = tt

pub ok_or-HasStatus :
    {A : Type 0} (o : Option A) (e : StateError) → HasStatus {A = A} (err e) → HasStatus (ok_or o e)
ok_or-HasStatus none e h = h
ok_or-HasStatus (some a) e h = tt

pub lock_content-HasStatus : {A : Type 0} (o : Option (RwLock A)) → HasStatus (lock_content o)
unfolding map_jwt_error display
lock_content-HasStatus none = refl
lock_content-HasStatus (some lock) = elim (Bool-cases lock.poisoned) [
  | inl poisoned ↦ rw poisoned refl
  | inr fine ↦ rw fine tt
]

-- The status of a refusal is its own.
abbrev pub IsOwn : Result String Status → Type 0
IsOwn (ok jwt) = Unit {0}
IsOwn (err status) = is_internal status.0 ≡ false

pub respond_jwt-IsOwn : (r : Outcome String) → HasStatus r → IsOwn (respond_jwt (to_text r))
unfolding respond_jwt to_text
respond_jwt-IsOwn (ok jwt) h = tt
respond_jwt-IsOwn (err e) h = h
