-- ===== src/Idem/Keys.antt =====
-- internal/idem/idem.go: `Key`.
use crm_bisync.Prelude.{◌≡◌, ◌⊎◌, inl, inr, Bytes}
use crm_bisync.Prelude.Decimal.{frames, frames_injective}
use crm_bisync.Store.Typed.{Ref}
use crm_bisync.Model.{Formats}
use crm_bisync.Model.Digest.{Collide, sha256_cases}
use crm_bisync.Idem.{key, key_parts}

-- Everything about a write that its key stands for.
pub record Write : Type 0 where
  pub sync : Bytes
  pub kind : Bytes
  pub source : Ref
  pub target : Ref
  pub payload_hash : Bytes

abbrev pub key_of : Formats → Write → Bytes
key_of F w = key F w.sync w.kind w.source w.target w.payload_hash

abbrev pub hashed : Write → Bytes
hashed w = frames (key_parts w.sync w.kind w.source w.target w.payload_hash)

-- The writes agree in all that goes into the key; the kinds of their refs do not.
pub record SameWrite (v w : Write) : Type 0 where
  pub sync : v.sync ≡ w.sync
  pub kind : v.kind ≡ w.kind
  pub source_connector : v.source.connector ≡ w.source.connector
  pub source_id : v.source.remote_id ≡ w.source.remote_id
  pub target_connector : v.target.connector ≡ w.target.connector
  pub target_id : v.target.remote_id ≡ w.target.remote_id
  pub payload_hash : v.payload_hash ≡ w.payload_hash

parts_injective :
    (v w : Write)
    → key_parts v.sync v.kind v.source v.target v.payload_hash
      ≡ key_parts w.sync w.kind w.source w.target w.payload_hash
    → SameWrite v w
unfolding key_parts
parts_injective v w e = record {
  sync = cc;
  kind = cc;
  source_connector = cc;
  source_id = cc;
  target_connector = cc;
  target_id = cc;
  payload_hash = cc;
}

-- Two writes with one idempotency key agree in everything the key is built from, or exhibit a
-- collision of the digest.
pub write_key_injective :
    (F : Formats) (v w : Write)
    → key_of F v ≡ key_of F w
    → SameWrite v w ⊎ Collide F (hashed v) (hashed w)
unfolding key
write_key_injective F v w e = elim (sha256_cases F (hashed v) (hashed w) e) [
  | inl same ↦ inl (parts_injective v w (frames_injective _ _ same))
  | inr clash ↦ inr clash
]
