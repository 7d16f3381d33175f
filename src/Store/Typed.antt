-- ===== src/Store/Typed.antt =====
-- internal/store/typed.go, over any store: the shapes that the engine stores, and their keys. The
-- bytes of a stored value are the JSON of one document, and `Document` has a case for each shape;
-- a document of another shape does not decode.
pub mod Access
pub mod Links
use crm_bisync.Prelude.{
  ℕ, ◌+◌, ◌-◌, ◌*◌, Bool, true, false, Option, none, some, List, [], ◌∷◌, ◌++◌, Bytes, codes,
  str_eq, ltb, ◌==◌, if◌then◌else◌,
}
use crm_bisync.Prelude.Int.{ℤ, pos, negsuc, sub_ℕ, to_int64, is_int64}
use crm_bisync.Prelude.Strings.{str_lt}
use crm_bisync.Prelude.Sorting.{sort_by}
use crm_bisync.Prelude.Dict.{Dict}
use crm_bisync.Prelude.Result.{Result, Exec, ok, err, pure, fail, ◌>>=◌, ◌>>◌}
use crm_bisync.Store.Defs.{Store, Entry, StoreErr, decode, first_of_limit}
use crm_bisync.Model.{Value}

abbrev pub coll_watermarks : Bytes
coll_watermarks = codes "watermarks"

abbrev pub coll_links : Bytes
coll_links = codes "links"

abbrev pub coll_snapshots : Bytes
coll_snapshots = codes "snapshots"

abbrev pub coll_origins : Bytes
coll_origins = codes "origins"

abbrev pub coll_idem : Bytes
coll_idem = codes "idem"

abbrev pub coll_deliveries : Bytes
coll_deliveries = codes "deliveries"

abbrev pub coll_dlq : Bytes
coll_dlq = codes "dlq"

abbrev pub coll_review : Bytes
coll_review = codes "review"

abbrev pub coll_keys : Bytes
coll_keys = codes "keys"

abbrev pub coll_key_owner : Bytes
coll_key_owner = codes "key_owner"

-- `a + "\x00" + b`
infixr 66 ◌⊹◌
abbrev pub ◌⊹◌ : Bytes → Bytes → Bytes
a ⊹ b = a ++ 0 ∷ b

pub record Ref : Type 0 where
  pub connector : Bytes
  pub kind : Bytes
  pub remote_id : Bytes

unfoldable pub key : Ref → Bytes
key r = r.connector ⊹ r.kind ⊹ r.remote_id

pub record Link : Type 0 where
  pub left : Ref
  pub right : Ref
  pub linked_at : ℕ

-- `Peer`: the other side of the link.
unfoldable pub peer : Link → Ref → Option Ref
unfolding key
peer l r =
    if str_eq (key r) (key l.left)
    then some l.right
    else if str_eq (key r) (key l.right)
    then some l.left
    else none

pub record Snapshot : Type 0 where
  pub hash : Bytes
  pub values : Dict Value
  pub at : ℕ

pub record Origin : Type 0 where
  pub ref : Ref
  pub hash : Bytes
  pub written_at : ℕ

unfoldable pub origin_tag : Ref → Bytes → Bytes
unfolding key
origin_tag r hash = key r ⊹ hash

pub record IdemResult : Type 0 where
  pub remote_id : Bytes
  pub created : Bool
  pub in_flight : Bool
  pub written_at : ℕ

pub record QueueItem : Type 0 where
  pub id : Bytes
  pub sync : Bytes
  pub ref : Ref
  pub reason : Bytes
  pub created_at : ℕ
  pub attempts : ℕ
  pub payload : Bytes

pub data Document : Type 0 where
  link : Link → Document
  nanos : ℤ → Document
  snapshot : Snapshot → Document
  origin : Origin → Document
  idem : IdemResult → Document
  queue_item : QueueItem → Document
  key_entry : List Ref → Document
  owner_entry : List Bytes → Document

-- Nanoseconds from Go's zero time to the Unix epoch.
abbrev pub unix_epoch : ℕ
unix_epoch = 62135596800 * 1000000000

-- `UnixNano`: the distance to the epoch, wrapped to an int64; within the years 1678 to 2262 it
-- does not wrap.
unfoldable pub unix_nano : ℕ → ℤ
unix_nano t = to_int64 (sub_ℕ t unix_epoch)

abbrev pub from_epoch : ℤ → ℕ
from_epoch (pos n) = unix_epoch + n
from_epoch (negsuc n) = unix_epoch - (n + 1)

-- `time.Unix(0, n)` of an int64: at most 2^63 nanoseconds before the epoch, so after the zero time.
unfoldable pub from_unix_nano : ℤ → ℕ
from_unix_nano n = from_epoch (to_int64 n)

abbrev pub at_nanos : Option ℤ → Option ℕ
at_nanos none = none
at_nanos (some n) = some (from_unix_nano n)

-- The checks of `json.Unmarshal`, one for each shape.
abbrev pub as_link : Document → Result StoreErr Link
as_link (link l) = ok l
as_link _ = err decode

abbrev pub as_nanos : Document → Result StoreErr ℤ
as_nanos (nanos n) = if is_int64 n then ok n else err decode  -- a number out of range
as_nanos _ = err decode

abbrev pub as_snapshot : Document → Result StoreErr Snapshot
as_snapshot (snapshot s) = ok s
as_snapshot _ = err decode

abbrev pub as_origin : Document → Result StoreErr Origin
as_origin (origin o) = ok o
as_origin _ = err decode

abbrev pub as_idem : Document → Result StoreErr IdemResult
as_idem (idem r) = ok r
as_idem _ = err decode

abbrev pub as_queue_item : Document → Result StoreErr QueueItem
as_queue_item (queue_item i) = ok i
as_queue_item _ = err decode

-- `if err != nil || !ok { return …, false, err }`, and then the document decoded.
abbrev pub lift_some : {A : Type 0} → Result StoreErr A → Result StoreErr (Option A)
lift_some (ok a) = ok (some a)
lift_some (err e) = err e

abbrev pub decoded :
    {A : Type 0} → (Document → Result StoreErr A) → Option Document → Result StoreErr (Option A)
decoded read none = ok none
decoded read (some d) = lift_some (read d)

pub decode_items : List (Entry Document) → Result StoreErr (List QueueItem)
decode_items [] = ok []
decode_items (e ∷ es) =
    let rest = decode_items es in
    elim (as_queue_item e.value) [
      | err x ↦ err x
      | ok i ↦ elim rest [ err x ↦ err x | ok is ↦ ok (i ∷ is) ]
    ]

-- Oldest first, and by identifier among items of one instant.
unfoldable pub older : QueueItem → QueueItem → Bool
older a b = if a.created_at == b.created_at then str_lt a.id b.id else ltb a.created_at b.created_at

module _ (S : Store Document) where
  -- A read and the decoding of what it finds.
  unfoldable pub get_as :
      {A : Type 0}
      → (Document → Result StoreErr A)
      → ℕ
      → Bytes
      → Bytes
      → Exec S.State StoreErr (Option A)
  get_as read now collection k = do raw ← S.get now collection k; λ s. (decoded read raw, s)

  unfoldable pub put_link : Link → Exec S.State StoreErr (Unit {0})
  put_link l = do
    S.put coll_links (key l.left) (link l) 0
    S.put coll_links (key l.right) (link l) 0

  unfoldable pub get_link : ℕ → Ref → Exec S.State StoreErr (Option Link)
  get_link now r = get_as as_link now coll_links (key r)

  unfoldable pub delete_link : Link → Exec S.State StoreErr (Unit {0})
  delete_link l = do S.delete coll_links (key l.left); S.delete coll_links (key l.right)

  -- `Watermark`
  unfoldable pub watermark : ℕ → Bytes → Bytes → Exec S.State StoreErr (Option ℕ)
  watermark now connector kind = do
    found ← get_as as_nanos now coll_watermarks (connector ⊹ kind)
    pure (at_nanos found)

  unfoldable pub set_watermark : Bytes → Bytes → ℕ → Exec S.State StoreErr (Unit {0})
  unfolding unix_nano
  set_watermark connector kind at =
      S.put coll_watermarks (connector ⊹ kind) (nanos (unix_nano at)) 0

  unfoldable pub get_snapshot : ℕ → Ref → Exec S.State StoreErr (Option Snapshot)
  get_snapshot now r = get_as as_snapshot now coll_snapshots (key r)

  unfoldable pub set_snapshot : Ref → Snapshot → Exec S.State StoreErr (Unit {0})
  set_snapshot r snap = S.put coll_snapshots (key r) (snapshot snap) 0

  unfoldable pub put_origin : Origin → ℕ → Exec S.State StoreErr (Unit {0})
  put_origin o expires_at = S.put coll_origins (origin_tag o.ref o.hash) (origin o) expires_at

  unfoldable pub take_origin : ℕ → Ref → Bytes → Exec S.State StoreErr (Option Origin)
  take_origin now r hash = do
    raw ← S.take now coll_origins (origin_tag r hash)
    λ s. (decoded as_origin raw, s)

  unfoldable pub get_idem : ℕ → Bytes → Exec S.State StoreErr (Option IdemResult)
  get_idem now k = get_as as_idem now coll_idem k

  unfoldable pub put_idem : Bytes → IdemResult → ℕ → Exec S.State StoreErr (Unit {0})
  put_idem k r expires_at = S.put coll_idem k (idem r) expires_at

  -- Whether the delivery had been seen; if not, it has now.
  unfoldable pub seen_delivery : ℕ → Bytes → Bytes → ℕ → ℕ → Exec S.State StoreErr Bool
  unfolding unix_nano
  seen_delivery now connector delivery_id at expires_at = do
    found ← S.get now coll_deliveries (connector ⊹ delivery_id)
    elim found [
      | some _ ↦ pure true
      | none ↦ do
        S.put coll_deliveries (connector ⊹ delivery_id) (nanos (unix_nano at)) expires_at
        pure false
    ]

  unfoldable pub put_queue_item : Bytes → QueueItem → Exec S.State StoreErr (Unit {0})
  put_queue_item collection i = S.put collection i.id (queue_item i) 0

  unfoldable pub get_queue_item : ℕ → Bytes → Bytes → Exec S.State StoreErr (Option QueueItem)
  get_queue_item now collection id = get_as as_queue_item now collection id

  unfoldable pub delete_queue_item : Bytes → Bytes → Exec S.State StoreErr (Unit {0})
  delete_queue_item collection id = S.delete collection id

  unfoldable pub list_queue_items : ℕ → Bytes → ℕ → Exec S.State StoreErr (List QueueItem)
  unfolding decode_items older
  list_queue_items now collection limit = do
    entries ← S.list now collection 0
    items ← λ s. (decode_items entries, s)
    pure (first_of_limit limit (sort_by older items))
