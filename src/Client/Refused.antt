-- ===== src/Client/Refused.antt =====
-- The client against the server: no call carries the key that the server wants.
use syncpond.Base.{ℕ, String, ◌≡◌, refl, Option, none, some, List, Result, err}
use syncpond.Extern.Json.{Bytes}
use syncpond.Extern.Tonic.{Tonic}
use syncpond.Upstream.{Status, unauthenticated, intercept}
use syncpond.Upstream.Service.{Rpc, CommandHandler, intercepted}
use syncpond.Client
use syncpond.Client.{received, connect}

keyless :
    (api_key : Option String)
    → intercept api_key none ≡ err (unauthenticated, "no api key provided")
unfolding intercept
keyless none = refl
keyless (some key) = refl

module _ {S : Type 0} where
  -- The call fails with UNAUTHENTICATED, and leaves the state as it was.
  abbrev pub IsRefused : {A : Type 0} → Rpc S A → Type 0
  IsRefused call = (s : S) → call s ≡ (err (unauthenticated, "no api key provided"), s)

  module _ ⦃T : Tonic Status⦄ where
    received-IsRefused :
        {A B : Type 0} (take : A → B) (call : Rpc S A) (pass : Result (Unit {0}) Status)
        → pass ≡ err (unauthenticated, "no api key provided")
        → IsRefused (received take (T.with_interceptor pass call))
    unfolding received
    received-IsRefused take call pass refused s =
        rw refused (rw (T.refused (unauthenticated, "no api key provided") call s) refl)

    -- Whatever key the server was given, and whatever handles the commands: every method of the
    -- client is answered UNAUTHENTICATED, and the server's state stays as it was.
    pub connect-IsRefused :
        (api_key : Option String) (handler : CommandHandler S) (i b : ℕ) (text : String)
        (content : Bytes) (buckets : List ℕ)
        → let client = connect api_key handler in
          IsRefused (Client.new_room client text)
          × IsRefused (Client.list_rooms client)
          × IsRefused (Client.delete_room client i)
          × IsRefused (Client.issue_jwt client i text buckets)
          × IsRefused (Client.new_bucket client i b text)
          × IsRefused (Client.delete_bucket client i b)
          × IsRefused (Client.list_buckets client i)
          × IsRefused (Client.new_member client i text)
          × IsRefused (Client.delete_member client i text)
          × IsRefused (Client.list_members client i)
          × IsRefused (Client.read_fragment client i b text)
          × IsRefused (Client.write_fragment client i b text content)
          × IsRefused (Client.load_room client i)
          × IsRefused (Client.unload_room client i)
    unfolding connect intercepted Client.new_room Client.list_rooms Client.delete_room
        Client.issue_jwt Client.new_bucket Client.delete_bucket Client.list_buckets
        Client.new_member Client.delete_member Client.list_members Client.read_fragment
        Client.write_fragment Client.load_room Client.unload_room
    connect-IsRefused api_key handler i b text content buckets =
        let no_key = keyless api_key in
        (
          received-IsRefused _ _ _ no_key,
          received-IsRefused _ _ _ no_key,
          received-IsRefused _ _ _ no_key,
          received-IsRefused _ _ _ no_key,
          received-IsRefused _ _ _ no_key,
          received-IsRefused _ _ _ no_key,
          received-IsRefused _ _ _ no_key,
          received-IsRefused _ _ _ no_key,
          received-IsRefused _ _ _ no_key,
          received-IsRefused _ _ _ no_key,
          received-IsRefused _ _ _ no_key,
          received-IsRefused _ _ _ no_key,
          received-IsRefused _ _ _ no_key,
          received-IsRefused _ _ _ no_key,
        )
