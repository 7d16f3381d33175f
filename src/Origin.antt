-- ===== src/Origin.antt =====
-- internal/origin/origin.go: whether an inbound change is one that this engine caused. The
-- suppressor is the store with its counters; its mutex makes each count one step.
pub mod Tags
pub mod Verdicts
pub mod Echoes
use crm_bisync.Prelude.{
  ℕ, zero, suc, ◌+◌, ◌*◌, Bool, true, false, Option, none, some, Bytes, codes, if◌then◌else◌,
  is_some,
}
use crm_bisync.Prelude.Int.{ℤ, pos, negsuc}
use crm_bisync.Prelude.Dict.{Dict, lookup}
use crm_bisync.Prelude.Result.{Result, Exec, ok, err, pure, ◌>>=◌, ◌>>◌}
use crm_bisync.Store.Defs.{Store, StoreErr}
use crm_bisync.Store.Typed.{
  Document, Ref, Origin, origin_tag, put_origin, take_origin, coll_origins,
}

-- The pseudo-hash of a record's "we wrote something here lately" entry.
abbrev pub recent_marker : Bytes
recent_marker = codes "*recent"

pub data Verdict : Type 0 where
  foreign echo near_miss : Verdict

-- `Processed`: only a confirmed echo stops.
unfoldable pub processed : Verdict → Bool
processed echo = false
processed _ = true

pub record Stats : Type 0 where
  pub foreign : ℕ
  pub echoes : ℕ
  pub near_miss : ℕ
  pub recorded : ℕ
  pub swept : ℕ
  pub unmatched : ℕ

pub record Suppressor (B : Type 0) : Type 0 where
  pub store : B
  pub stats : Stats

abbrev pub five_minutes : ℕ
five_minutes = 5 * 60 * 1000000000

-- `if d, ok := s.window[connector]; ok && d > 0 { return d }`
abbrev pub positive_or_default : Option ℤ → ℕ
positive_or_default none = five_minutes
positive_or_default (some (pos zero)) = five_minutes
positive_or_default (some (pos (suc n))) = suc n
positive_or_default (some (negsuc _)) = five_minutes

-- `Window`
unfoldable pub window_of : Dict ℤ → Bytes → ℕ
window_of windows connector = positive_or_default (lookup connector windows)

module _ (S : Store Document) where
  abbrev pub Method : Type 0 → Type 0
  Method = Exec (Suppressor S.State) StoreErr

  abbrev pub on_store : {A : Type 0} → Exec S.State StoreErr A → Method A
  on_store m o = let (r, s) = m o.store in (r, record o { store = s })

  -- `count`
  abbrev pub count : (Stats → Stats) → Method (Unit {0})
  count f o = (ok tt, record o { stats = f o.stats })

  -- `Record`: the payload's tag, and the record's marker, with one lifetime.
  unfoldable pub note_write : Dict ℤ → ℕ → Ref → Bytes → Method (Unit {0})
  unfolding window_of
  note_write windows now ref hash = do
    let expires = now + window_of windows ref.connector
    on_store (put_origin S (record { ref = ref; hash = hash; written_at = now }) expires)
    on_store (put_origin S (record { ref = ref; hash = recent_marker; written_at = now }) expires)
    count (λ st. record st { recorded = st.recorded + 1 })

  -- `wroteRecently`
  unfoldable pub wrote_recently : ℕ → Ref → Method Bool
  wrote_recently now ref = do
    found ← on_store (S.get now coll_origins (origin_tag ref recent_marker))
    pure (is_some found)

  pub count_foreign : Bool → Method Verdict
  count_foreign true = do count (λ st. record st { near_miss = st.near_miss + 1 }); pure near_miss
  count_foreign false = do count (λ st. record st { foreign = st.foreign + 1 }); pure foreign

  -- What `Classify` does with the entry that it took.
  pub classify_taken : ℕ → Ref → Option Origin → Method Verdict
  unfolding wrote_recently count_foreign
  classify_taken now ref (some _) = do count (λ st. record st { echoes = st.echoes + 1 }); pure echo
  classify_taken now ref none = do recent ← wrote_recently now ref; count_foreign recent

  unfoldable pub classify : ℕ → Ref → Bytes → Method Verdict
  unfolding classify_taken
  classify now ref hash = do
    taken ← on_store (take_origin S now ref hash)
    classify_taken now ref taken

  unfoldable pub sweep : ℕ → Method ℕ
  sweep now = do
    n ← on_store (S.sweep now)
    count (λ st. record st { swept = st.swept + n })
    pure n
