-- ===== src/Hub/Event.antt =====
-- What a client reads from the event of an update.
use syncpond.Base.{
  true, ◌≡◌, refl, false, none, some, arith, ◌⊎◌, ◌↔◌, ◌∙◌, sym, ap, inl, inr, Option,
  if◌then◌else◌,
}
use syncpond.Extern.Json.{Json, Bytes}
use syncpond.Extern.Wire.{Wire, ProtoDataUpdate, data_update}
use syncpond.Protocol.{DataUpdate}
use syncpond.Hub.{update_event}

module _ {V : Type 0} ⦃J : Json V⦄ ⦃W : Wire⦄ where
  -- The event of an update with a value that can be serialized and has no float and no depth that
  -- its JSON does not give back decodes to a `DataUpdate` frame with the update's bucket, key and
  -- counter, whose bytes are JSON that the value is read back from, and which is not marked as
  -- deleted, not even where the value is the null that stands for a deletion.
  pub decode-update_event :
      (update : DataUpdate V) (v : V) (bytes : Bytes)
      → update.value ≡ some v
      → J.is_exact v ≡ true
      → J.to_vec v ≡ some bytes
      → (p : ProtoDataUpdate) × (W.decode (update_event update) ≡ some (some (data_update p)))
        × (p.bucket_id ≡ update.bucket_id)
        × (p.key ≡ update.key)
        × (p.bucket_counter ≡ update.bucket_counter)
        × (p.deleted ≡ false)
        × (J.from_slice p.value ≡ some v)
  unfolding update_event
  decode-update_event update v bytes valued exact saved = (
    _,
    W.decode-encode_to_vec _,
    refl,
    refl,
    refl,
    ground arith,
    ground (arith, J.from_slice-to_vec v bytes exact saved),
  )

  -- The update has no value, or one that can be serialized and has no float and no depth that its
  -- JSON does not give back.
  abbrev pub IsSendable : DataUpdate V → Type 0
  IsSendable update =
      (update.value ≡ none)
      ⊎ ((v : V) × (bytes : Bytes) × (update.value ≡ some v)
          × (J.is_exact v ≡ true)
          × (J.to_vec v ≡ some bytes))

  -- What a client makes of the frames that it reads: the value by the mark and the bytes
  read_value : ProtoDataUpdate → Option V
  read_value p = if p.deleted then none else J.from_slice p.value

  decode-sendable :
      (update : DataUpdate V)
      → IsSendable update
      → (p : ProtoDataUpdate) × (W.decode (update_event update) ≡ some (some (data_update p)))
        × (p.bucket_id ≡ update.bucket_id)
        × (p.key ≡ update.key)
        × (p.bucket_counter ≡ update.bucket_counter)
        × (read_value p ≡ update.value)
  unfolding update_event read_value
  decode-sendable update (inl valueless) =
      (_, W.decode-encode_to_vec _, refl, refl, refl, ground arith)
  decode-sendable update (inr (v, bytes, valued, exact, saved)) =
      let (p, decoded, bucket, key, counter, live, read) =
        decode-update_event update v bytes valued exact saved in
      (p, decoded, bucket, key, counter, ground arith)

  same_fields :
      (update other : DataUpdate V)
      → update.bucket_id ≡ other.bucket_id
      → update.key ≡ other.key
      → update.value ≡ other.value
      → update.bucket_counter ≡ other.bucket_counter
      → update ≡ other
  same_fields update other bucket key value counter = cc

  same_update :
      (update other : DataUpdate V)
      → IsSendable update
      → IsSendable other
      → update_event update ≡ update_event other
      → update ≡ other
  same_update update other fine other_fine same =
      let (p, decoded, bucket, key, counter, read) = decode-sendable update fine in
      let (q, decoded', bucket', key', counter', read') = decode-sendable other other_fine in
      let both : p ≡ q = cc in
      same_fields update other (sym bucket ∙ (ap (λ r. r.bucket_id) both ∙ bucket'))
        (sym key ∙ (ap (λ r. r.key) both ∙ key')) (sym read ∙ (ap read_value both ∙ read'))
        (sym counter ∙ (ap (λ r. r.bucket_counter) both ∙ counter'))

  pub update_event_iff :
      (update other : DataUpdate V)
      → IsSendable update
      → IsSendable other
      → (update_event update ≡ update_event other) ↔ (update ≡ other)
  update_event_iff update other fine other_fine =
      (λ same. same_update update other fine other_fine same, λ same. ap update_event same)
