-- ===== src/Store/Defs.antt =====
-- internal/store/store.go: the expiring key-value store over named collections, as an interface
-- that the engine's parts are written against, with what a lawful store promises of it.
--
-- An instant is the number of nanoseconds since Go's zero time, so `0` is `IsZero`. An operation
-- takes the reading of the clock under which it runs.

use crm_bisync.Prelude.{
  ℕ, zero, suc, ◌≡◌, Bool, true, ◌&&◌, ◌||◌, Option, none, some, List, [], ◌∷◌, Bytes, str_eq, ltb,
  ◌==◌, ◌≤◌, if◌then◌else◌, All, length, take as list_take,
}
use crm_bisync.Prelude.Ascending.{Ascending}
use crm_bisync.Prelude.Result.{Exec, ok, err}

-- `ErrClosed`, and a document that does not decode to the shape that is read.
pub data StoreErr : Type 0 where
  closed decode : StoreErr

pub record Entry (V : Type 0) : Type 0 where
  pub key : Bytes
  pub value : V
  pub expires_at : ℕ  -- 0: never

-- `live`: a zero expiry never expires.
unfoldable pub live : ℕ → ℕ → Bool
live expires_at now = expires_at == 0 || ltb now expires_at

-- `if limit > 0 && len(keys) > limit { keys = keys[:limit] }`
abbrev pub first_of_limit {ℓ} : {A : Type ℓ} → ℕ → List A → List A
first_of_limit zero xs = xs
first_of_limit (suc n) xs = list_take (suc n) xs

-- `type Store interface`. `Get` and `Take` return `none` where Go returns `ok == false`.
pub record Store (V : Type 0) : Type 1 where
  pub State : Type 0
  pub get : (now : ℕ) (collection key : Bytes) → Exec State StoreErr (Option V)
  pub put : (collection key : Bytes) (value : V) (expires_at : ℕ) → Exec State StoreErr (Unit {0})
  pub delete : (collection key : Bytes) → Exec State StoreErr (Unit {0})
  pub take : (now : ℕ) (collection key : Bytes) → Exec State StoreErr (Option V)
  pub list : (now : ℕ) (collection : Bytes) (limit : ℕ) → Exec State StoreErr (List (Entry V))
  pub len : (now : ℕ) (collection : Bytes) → Exec State StoreErr ℕ
  pub sweep : (now : ℕ) → Exec State StoreErr ℕ
  pub close : Exec State StoreErr (Unit {0})

abbrev pub same : Bytes → Bytes → Bytes → Bytes → Bool
same c k c' k' = str_eq c c' && str_eq k k'

-- What a listing says of a key
abbrev pub listed_value : {V : Type 0} → Bytes → List (Entry V) → Option V
listed_value k [] = none
listed_value k (e ∷ es) = if str_eq e.key k then some e.value else listed_value k es

-- The contract that the interface's comments state, over what a reader sees at an instant.
-- `IsOpen` is the implementation's own condition, open and well formed: a new store meets it, and
-- every operation but Close keeps it, so that it holds of all that the operations reach.
pub record IsLawful {V : Type 0} (S : Store V) : Type 1 where
  pub IsOpen : S.State → Type 0
  pub IsClosed : S.State → Type 0
  pub new : S.State
  pub new-IsOpen : IsOpen new
  pub view : (now : ℕ) (collection key : Bytes) → S.State → Option V
  pub view-new : (now : ℕ) (c k : Bytes) → view now c k new ≡ none
  pub get_lem :
      (now : ℕ) (c k : Bytes) (s : S.State) → IsOpen s → S.get now c k s ≡ (ok (view now c k s), s)
  -- Reading changes nothing.
  pub get_reads : (now : ℕ) (c k : Bytes) (s : S.State) → (S.get now c k s).1 ≡ s
  pub list_reads : (now : ℕ) (c : Bytes) (limit : ℕ) (s : S.State) → (S.list now c limit s).1 ≡ s
  pub put_ok : (c k : Bytes) (v : V) (e : ℕ) (s : S.State) → IsOpen s → (S.put c k v e s).0 ≡ ok tt
  pub put-IsOpen :
      (c k : Bytes) (v : V) (e : ℕ) (s : S.State) → IsOpen s → IsOpen (S.put c k v e s).1
  -- Writing a key that exists replaces it, and an expired record is never visible.
  pub view-put :
      (c k : Bytes) (v : V) (e : ℕ) (s : S.State) (now : ℕ) (c' k' : Bytes)
      → IsOpen s
      → view now c' k' (S.put c k v e s).1
        ≡ (if same c k c' k' then (if live e now then some v else none) else view now c' k' s)
  pub delete_ok : (c k : Bytes) (s : S.State) → IsOpen s → (S.delete c k s).0 ≡ ok tt
  pub delete-IsOpen : (c k : Bytes) (s : S.State) → IsOpen s → IsOpen (S.delete c k s).1
  pub view-delete :
      (c k : Bytes) (s : S.State) (now : ℕ) (c' k' : Bytes)
      → IsOpen s
      → view now c' k' (S.delete c k s).1 ≡ (if same c k c' k' then none else view now c' k' s)
  -- `Take` returns what is visible, and removes it.
  pub take_ok :
      (now : ℕ) (c k : Bytes) (s : S.State) → IsOpen s → (S.take now c k s).0 ≡ ok (view now c k s)
  pub take-IsOpen : (now : ℕ) (c k : Bytes) (s : S.State) → IsOpen s → IsOpen (S.take now c k s).1
  pub view-take :
      (now : ℕ) (c k : Bytes) (s : S.State) (later : ℕ) (c' k' : Bytes)
      → IsOpen s
      → now ≤ later
      → view later c' k' (S.take now c k s).1
        ≡ (if same c k c' k' then none else view later c' k' s)
  -- What is visible later was visible before: time only takes records away.
  pub view_earlier :
      (now later : ℕ) (c k : Bytes) (s : S.State) (v : V)
      → now ≤ later
      → view later c k s ≡ some v
      → view now c k s ≡ some v
  -- `List` gives the live entries of a collection in key order, each key once, with the values
  -- that are read; a limit keeps the first of them, and `Len` is their number.
  pub entries : (now : ℕ) (collection : Bytes) → S.State → List (Entry V)
  pub list_lem :
      (now : ℕ) (c : Bytes) (limit : ℕ) (s : S.State)
      → IsOpen s
      → S.list now c limit s ≡ (ok (first_of_limit limit (entries now c s)), s)
  pub entries-view :
      (now : ℕ) (c k : Bytes) (s : S.State)
      → IsOpen s
      → listed_value k (entries now c s) ≡ view now c k s
  pub entries-Ascending :
      (now : ℕ) (c : Bytes) (s : S.State) → IsOpen s → Ascending (λ e. e.key) (entries now c s)
  pub entries_live :
      (now : ℕ) (c : Bytes) (s : S.State)
      → IsOpen s
      → All (λ e. live e.expires_at now ≡ true) (entries now c s)
  pub len_lem :
      (now : ℕ) (c : Bytes) (s : S.State)
      → IsOpen s
      → S.len now c s ≡ (ok (length (entries now c s)), s)
  -- A sweep reports a number, and a second one at the same instant finds nothing left to drop.
  pub sweep_ok : (t : ℕ) (s : S.State) → IsOpen s → (n : ℕ) × ((S.sweep t s).0 ≡ ok n)
  pub sweep_again : (t : ℕ) (s : S.State) → IsOpen s → (S.sweep t (S.sweep t s).1).0 ≡ ok 0
  -- No reader can tell that a sweep has run.
  pub sweep-IsOpen : (t : ℕ) (s : S.State) → IsOpen s → IsOpen (S.sweep t s).1
  pub view-sweep :
      (t : ℕ) (s : S.State) (now : ℕ) (c k : Bytes)
      → IsOpen s
      → t ≤ now
      → view now c k (S.sweep t s).1 ≡ view now c k s
  pub closed_get :
      (now : ℕ) (c k : Bytes) (s : S.State) → IsClosed s → S.get now c k s ≡ (err closed, s)
  pub closed_put :
      (c k : Bytes) (v : V) (e : ℕ) (s : S.State) → IsClosed s → S.put c k v e s ≡ (err closed, s)
  pub closed_take :
      (now : ℕ) (c k : Bytes) (s : S.State) → IsClosed s → S.take now c k s ≡ (err closed, s)
  pub closed_delete : (c k : Bytes) (s : S.State) → IsClosed s → S.delete c k s ≡ (err closed, s)
  pub closed_list :
      (now : ℕ) (c : Bytes) (limit : ℕ) (s : S.State)
      → IsClosed s
      → S.list now c limit s ≡ (err closed, s)
  pub closed_len :
      (now : ℕ) (c : Bytes) (s : S.State) → IsClosed s → S.len now c s ≡ (err closed, s)
  pub closed_sweep : (t : ℕ) (s : S.State) → IsClosed s → S.sweep t s ≡ (err closed, s)
  -- Closing succeeds, also once more.
  pub close_ok : (s : S.State) → (S.close s).0 ≡ ok tt
  pub close-IsClosed : (s : S.State) → IsClosed (S.close s).1
