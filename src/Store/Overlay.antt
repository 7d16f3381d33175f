-- ===== src/Store/Overlay.antt =====
-- internal/store/overlay.go: a writable view of a store whose writes are thrown away. The base is
-- any store; the layer over it is an in-memory store, with tombstones for what was deleted.
pub mod View
pub mod Taking
pub mod DryRun
use crm_bisync.Prelude.{
  ℕ, Bool, true, false, Option, none, some, List, [], ◌∷◌, ◌++◌, Bytes, if◌then◌else◌, length,
}
use crm_bisync.Prelude.Strings.{str_lt}
use crm_bisync.Prelude.Sorting.{sort_by}
use crm_bisync.Prelude.Dict.{Dict, lookup, insert, erase}
use crm_bisync.Prelude.Result.{Result, Exec, ok, err}
use crm_bisync.Store.Defs.{Store, Entry, StoreErr, closed, first_of_limit}
use crm_bisync.Store.Mem
use crm_bisync.Store.Mem.{Mem}

pub record Overlay (B V : Type 0) : Type 0 where
  pub base : B
  pub over : Mem V
  pub deleted : Dict Bool
  pub is_closed : Bool

abbrev pub nul : ℕ
nul = 0

unfoldable pub tomb : Bytes → Bytes → Bytes
tomb collection key = collection ++ nul ∷ key

-- A missing key of a `map[string]bool` reads as `false`.
abbrev pub or_false : Option Bool → Bool
or_false none = false
or_false (some b) = b

module _ {V : Type 0} where
  -- `merged`: what the base lists and the run did not delete, with the run's own entries over it.
  pub merge_base : Bytes → Dict Bool → Dict (Entry V) → List (Entry V) → Dict (Entry V)
  merge_base collection deleted merged [] = merged
  merge_base collection deleted merged (e ∷ es) =
      merge_base collection deleted
        (if or_false (lookup (tomb collection e.key) deleted)
          then merged
          else insert e.key e merged)
        es

  pub merge_over : Dict (Entry V) → List (Entry V) → Dict (Entry V)
  merge_over merged [] = merged
  merge_over merged (e ∷ es) = merge_over (insert e.key e merged) es

  pub keys : Dict (Entry V) → List Bytes
  keys [] = []
  keys ((k, _) ∷ d) = k ∷ keys d

  abbrev pub add_found : Option (Entry V) → List (Entry V) → List (Entry V)
  add_found none out = out
  add_found (some e) out = e ∷ out

  pub entries_at : Dict (Entry V) → List Bytes → List (Entry V)
  entries_at merged [] = []
  entries_at merged (k ∷ ks) = add_found (lookup k merged) (entries_at merged ks)

  pub listed : ℕ → Dict (Entry V) → List (Entry V)
  unfolding keys entries_at
  listed limit merged = entries_at merged (first_of_limit limit (sort_by str_lt (keys merged)))

module _ {V : Type 0} (S : Store V) where
  abbrev pub State : Type 0
  State = Overlay S.State V

  unfoldable pub new_overlay : S.State → State
  new_overlay base = record { base = base; over = Mem.new_mem; deleted = []; is_closed = false }

  pub is_deleted : Bytes → Bytes → State → Bool
  is_deleted collection key o = or_false (lookup (tomb collection key) o.deleted)

  -- `return o.base.Get(collection, key)`
  pub from_base : Result StoreErr (Option V) × S.State → State → Result StoreErr (Option V) × State
  from_base (r, b) o = (r, record o { base = b })

  -- `if v, ok, err := o.over.Get(...); err != nil || ok { return v, ok, err }`, and what follows.
  pub get_over : ℕ → Bytes → Bytes → Result StoreErr (Option V) → Exec State StoreErr (Option V)
  unfolding is_deleted from_base
  get_over now collection key (err e) o = (err e, o)
  get_over now collection key (ok (some v)) o = (ok (some v), o)
  get_over now collection key (ok none) o =
      if is_deleted collection key o
      then (ok none, o)
      else from_base (S.get now collection key o.base) o

  unfoldable pub get : ℕ → Bytes → Bytes → Exec State StoreErr (Option V)
  unfolding get_over
  get now collection key o =
      if o.is_closed
      then (err closed, o)
      else get_over now collection key (Mem.get now collection key o.over).0 o

  unfoldable pub put : Bytes → Bytes → V → ℕ → Exec State StoreErr (Unit {0})
  put collection key value expires_at o =
      let (r, over') = Mem.put collection key value expires_at o.over in
      if o.is_closed
      then (err closed, o)
      else (r, record o { deleted = erase (tomb collection key) o.deleted; over = over' })

  unfoldable pub delete : Bytes → Bytes → Exec State StoreErr (Unit {0})
  delete collection key o =
      let (r, over') = Mem.delete collection key o.over in
      if o.is_closed
      then (err closed, o)
      else (r, record o { deleted = insert (tomb collection key) true o.deleted; over = over' })

  -- What `Take` does with what `get` returned.
  pub take_got : Bytes → Bytes → Result StoreErr (Option V) → Exec State StoreErr (Option V)
  take_got collection key (err e) o = (err e, o)
  take_got collection key (ok none) o = (ok none, o)
  take_got collection key (ok (some v)) o =
      let (r, over') = Mem.delete collection key o.over in
      let o' : State = record o {
        deleted = insert (tomb collection key) true o.deleted;
        over = over';
      } in
      elim r [ ok _ ↦ (ok (some v), o') | err e ↦ (err e, o') ]

  unfoldable pub take : ℕ → Bytes → Bytes → Exec State StoreErr (Option V)
  unfolding take_got
  take now collection key o = let (r, o') = get now collection key o in take_got collection key r o'

  pub list_base :
      ℕ
      → Bytes
      → ℕ
      → Result StoreErr (List (Entry V)) × S.State
      → Exec State StoreErr (List (Entry V))
  unfolding merge_base merge_over listed
  list_base now collection limit (err e, b) o = (err e, record o { base = b })
  list_base now collection limit (ok es, b) o =
      let merged = merge_base collection o.deleted [] es in
      elim (Mem.list now collection 0 o.over).0 [
        | err e ↦ (err e, record o { base = b })
        | ok overs ↦ (ok (listed limit (merge_over merged overs)), record o { base = b })
      ]

  unfoldable pub list : ℕ → Bytes → ℕ → Exec State StoreErr (List (Entry V))
  unfolding list_base
  list now collection limit o =
      if o.is_closed
      then (err closed, o)
      else list_base now collection limit (S.list now collection 0 o.base) o

  pub counted : Result StoreErr (List (Entry V)) × State → Result StoreErr ℕ × State
  counted (err e, o) = (err e, o)
  counted (ok es, o) = (ok (length es), o)

  unfoldable pub len : ℕ → Bytes → Exec State StoreErr ℕ
  unfolding counted
  len now collection o = counted (list now collection 0 o)

  -- Only the layer is swept.
  unfoldable pub sweep : ℕ → Exec State StoreErr ℕ
  sweep now o =
      let (r, over') = Mem.sweep now o.over in
      if o.is_closed then (err closed, o) else (r, record o { over = over' })

  -- The base stays open: it is somebody else's.
  unfoldable pub close : Exec State StoreErr (Unit {0})
  close o = let (r, over') = Mem.close o.over in (r, record o { is_closed = true; over = over' })

  abbrev pub overlay_store : Store V
  overlay_store = record {
    State = State;
    get = get;
    put = put;
    delete = delete;
    take = take;
    list = list;
    len = len;
    sweep = sweep;
    close = close;
  }
