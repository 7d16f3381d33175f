-- ===== src/Idem.antt =====
-- internal/idem/idem.go: the cache that makes writes safe to repeat.
pub mod Keys
pub mod Protocol
pub mod Once
use crm_bisync.Prelude.{
  ℕ, zero, suc, ◌+◌, ◌*◌, Bool, true, false, Option, none, some, List, [], ◌∷◌, Bytes, ◌==◌,
  if◌then◌else◌,
}
use crm_bisync.Prelude.Int.{ℤ, pos, negsuc}
use crm_bisync.Prelude.Decimal.{frames}
use crm_bisync.Prelude.Result.{Exec, pure, ◌>>=◌, ◌>>◌}
use crm_bisync.Store.Defs.{Store, StoreErr}
use crm_bisync.Store.Typed.{Document, Ref, IdemResult, get_idem, put_idem, coll_idem}
use crm_bisync.Model.{Formats, hex}

pub data Decision : Type 0 where
  proceed replayed recheck : Decision

-- The parts of one write, in the order in which they are hashed.
unfoldable pub key_parts : Bytes → Bytes → Ref → Ref → Bytes → List Bytes
key_parts sync kind source target payload_hash =
    sync ∷ kind ∷ source.connector ∷ source.remote_id ∷ target.connector ∷ target.remote_id
    ∷ payload_hash ∷ []

-- `Key`
unfoldable pub key : Formats → Bytes → Bytes → Ref → Ref → Bytes → Bytes
unfolding key_parts
key F sync kind source target payload_hash =
    hex (F.sha256 (frames (key_parts sync kind source target payload_hash)))

abbrev pub default_ttl : ℕ
default_ttl = 3600 * 1000000000

-- `NewCache`: a ttl that is not positive means the default.
unfoldable pub ttl_of : ℤ → ℕ
ttl_of (pos zero) = default_ttl
ttl_of (pos (suc n)) = suc n
ttl_of (negsuc _) = default_ttl

abbrev pub no_result : IdemResult
no_result = record { remote_id = []; created = false; in_flight = false; written_at = 0 }

-- The result as `Commit` stores it.
unfoldable pub committed : ℕ → IdemResult → IdemResult
committed now res = record res {
  in_flight = false;
  written_at = if res.written_at == 0 then now else res.written_at;
}

-- A result that is still in flight is not one.
abbrev pub landed : Option IdemResult → Option IdemResult
landed none = none
landed (some res) = if res.in_flight then none else some res

module _ (S : Store Document) (ttl : ℕ) where
  -- What `Begin` does with the entry that it found.
  pub begin_from : ℕ → Bytes → Option IdemResult → Exec S.State StoreErr (IdemResult × Decision)
  begin_from now k none = do
    put_idem S k (record no_result { in_flight = true; written_at = now }) (now + ttl)
    pure (no_result, proceed)
  begin_from now k (some prev) =
      if prev.in_flight then pure (no_result, recheck) else pure (prev, replayed)

  unfoldable pub begin : ℕ → Bytes → Exec S.State StoreErr (IdemResult × Decision)
  unfolding begin_from
  begin now k = do prev ← get_idem S now k; begin_from now k prev

  unfoldable pub commit : ℕ → Bytes → IdemResult → Exec S.State StoreErr (Unit {0})
  unfolding committed
  commit now k res = put_idem S k (committed now res) (now + ttl)

module _ (S : Store Document) where
  unfoldable pub abandon : Bytes → Exec S.State StoreErr (Unit {0})
  abandon k = S.delete coll_idem k

  -- `Lookup`
  unfoldable pub lookup_result : ℕ → Bytes → Exec S.State StoreErr (Option IdemResult)
  lookup_result now k = do found ← get_idem S now k; pure (landed found)
