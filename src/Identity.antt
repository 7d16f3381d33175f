-- ===== src/Identity.antt =====
-- internal/identity/identity.go: which record of one peer is the same thing as a record of another.
--
-- The reasons are data, one constructor for each text. All reads of one call see the clock at `now`;
-- entries of the key index do not expire.
pub mod Entries
pub mod Indexing
pub mod Reindexing
pub mod Matching
use crm_bisync.Prelude.{
  ℕ, ◌++◌, Bool, true, false, ◌&&◌, Option, none, some, List, [], ◌∷◌, Bytes, codes, str_eq, length,
  is_empty, if◌then◌else◌,
}
use crm_bisync.Prelude.Strings.{str_lt}
use crm_bisync.Prelude.Sorting.{sort_by, any_b}
use crm_bisync.Prelude.Dict.{Dict, lookup}
use crm_bisync.Prelude.Result.{Result, Exec, ok, err, pure, ◌>>=◌, ◌>>◌}
use crm_bisync.Model.{Value, null, text, Formats}
use crm_bisync.Store.Defs.{Store, StoreErr, decode}
use crm_bisync.Store.Typed.{
  Document, key_entry, owner_entry, Ref, key, Link, peer, get_link, get_as, coll_keys,
  coll_key_owner,
}
use crm_bisync.Conflict.Terms.{join_fields}

pub data Outcome : Type 0 where
  linked matched create review skip : Outcome

pub data Reason : Type 0 where
  is_linked no_match : Reason
  matched_on : Bytes → Reason
  several_match : ℕ → Bytes → Bytes → Reason

pub record Resolution : Type 0 where
  pub outcome : Outcome
  pub peer_ref : Option Ref
  pub candidates : List Ref
  pub reason : Reason

-- The policies on ambiguity; any other text, and none, is the first.
pub data OnAmbiguous : Type 0 where
  to_review to_create to_skip : OnAmbiguous

unfoldable pub on_ambiguous_of : Bytes → OnAmbiguous
on_ambiguous_of p =
    if str_eq p (codes "create")
    then to_create
    else if str_eq p (codes "skip")
    then to_skip
    else to_review

pub record Resolver : Type 0 where
  pub kind : Bytes
  pub keys : List Bytes
  pub on_ambiguous : OnAmbiguous

-- `isEmpty`
unfoldable pub is_blank : Value → Bool
is_blank null = true
is_blank (text []) = true
is_blank _ = false

-- The value that takes part in matching on a key: one that is there and not empty
unfoldable pub usable : Bytes → Dict Value → Option Value
unfolding is_blank
usable name canonical = elim (lookup name canonical) [
  | none ↦ none
  | some v ↦ if is_blank v then none else some v
]

-- `existing == ref`
unfoldable pub ref_eq : Ref → Ref → Bool
ref_eq r q =
    str_eq r.connector q.connector && (str_eq r.kind q.kind && str_eq r.remote_id q.remote_id)

abbrev pub listed : Ref → List Ref → Bool
listed r refs = any_b (λ q. ref_eq q r) refs

abbrev pub by_id : Ref → Ref → Bool
by_id r q = str_lt r.remote_id q.remote_id

unfoldable pub without : Ref → List Ref → List Ref
without r [] = []
without r (q ∷ qs) = let rest = without r qs in if ref_eq q r then rest else q ∷ rest

abbrev pub as_key_entry : Document → Result StoreErr (List Ref)
as_key_entry (key_entry refs) = ok refs
as_key_entry _ = err decode

abbrev pub as_owner_entry : Document → Result StoreErr (List Bytes)
as_owner_entry (owner_entry keys) = ok keys
as_owner_entry _ = err decode

abbrev pub or_none : {A : Type 0} → Option (List A) → List A
or_none none = []
or_none (some xs) = xs

-- The refs that are not yet in `out`, in order
unfoldable pub add_unseen : List Ref → List Ref → List Ref
add_unseen out [] = out
add_unseen out (r ∷ rs) = add_unseen (if listed r out then out else out ++ r ∷ []) rs

module _ (F : Formats) (S : Store Document) where
  abbrev pub Method : Type 0 → Type 0
  Method = Exec S.State StoreErr

  unfoldable pub key_string : Bytes → Bytes → Bytes → Value → Bytes
  key_string connector kind name v = connector ++ 0 ∷ (kind ++ 0 ∷ (name ++ 0 ∷ F.sprint v))

  unfoldable pub load_key : ℕ → Bytes → Method (List Ref)
  load_key now k = do found ← get_as S as_key_entry now coll_keys k; pure (or_none found)

  unfoldable pub save_key : Bytes → List Ref → Method (Unit {0})
  save_key k refs = S.put coll_keys k (key_entry refs) 0

  unfoldable pub add_to : Bytes → Ref → List Ref → Method (Unit {0})
  unfolding save_key
  add_to k r refs = if listed r refs then pure tt else save_key k (sort_by by_id (refs ++ r ∷ []))

  unfoldable pub add_ref : ℕ → Bytes → Ref → Method (Unit {0})
  add_ref now k r = do refs ← load_key now k; add_to k r refs

  unfoldable pub keep : Bytes → List Ref → Method (Unit {0})
  keep k [] = S.delete coll_keys k
  keep k (r ∷ rs) = save_key k (r ∷ rs)

  unfoldable pub remove_ref : ℕ → Bytes → Ref → Method (Unit {0})
  remove_ref now k r = do refs ← load_key now k; keep k (without r refs)

  unfoldable pub remove_all : ℕ → Ref → List Bytes → Method (Unit {0})
  remove_all now r [] = pure tt
  remove_all now r (k ∷ ks) = do remove_ref now k r; remove_all now r ks

  unfoldable pub release_found : ℕ → Ref → Option (List Bytes) → Method (Unit {0})
  release_found now r none = pure tt
  release_found now r (some ks) = do remove_all now r ks; S.delete coll_key_owner (key r)

  unfoldable pub release_keys : ℕ → Ref → Method (Unit {0})
  release_keys now r = do
    found ← get_as S as_owner_entry now coll_key_owner (key r)
    release_found now r found

  -- The key of a name, where the record has a value for it
  unfoldable pub held_key : Ref → Dict Value → Bytes → Option Bytes
  held_key r canonical name = elim (usable name canonical) [
    | none ↦ none
    | some v ↦ some (key_string r.connector r.kind name v)
  ]

  unfoldable pub add_held : ℕ → Ref → Dict Value → List Bytes → Method (List Bytes)
  add_held now r canonical [] = pure []
  add_held now r canonical (name ∷ names) = elim (held_key r canonical name) [
    | none ↦ add_held now r canonical names
    | some k ↦ (do add_ref now k r; rest ← add_held now r canonical names; pure (k ∷ rest))
  ]

  unfoldable pub record_owner : Ref → List Bytes → Method (Unit {0})
  record_owner r [] = pure tt
  record_owner r (k ∷ ks) = S.put coll_key_owner (key r) (owner_entry (sort_by str_lt (k ∷ ks))) 0

  -- `Index`
  unfoldable pub index : Resolver → ℕ → Ref → Dict Value → Method (Unit {0})
  index resolver now r canonical = do
    release_keys now r
    held ← add_held now r canonical resolver.keys
    record_owner r held

  -- `Deindex`
  unfoldable pub deindex : ℕ → Ref → Method (Unit {0})
  deindex now r = release_keys now r

  -- The loop of `candidates`, with what it has gathered
  unfoldable pub gather :
      Resolver
      → ℕ
      → Bytes
      → Dict Value
      → List Bytes
      → List Ref
      → List Bytes
      → Method (List Ref × Bytes)
  gather resolver now connector canonical [] out names = pure (sort_by by_id out, join_fields names)
  gather resolver now connector canonical (name ∷ rest) out names = elim (usable name canonical) [
    | none ↦ gather resolver now connector canonical rest out names
    | some v ↦ (do
      refs ← load_key now (key_string connector resolver.kind name v)
      gather resolver now connector canonical rest (add_unseen out refs)
          (if is_empty refs then names else names ++ name ∷ []))
  ]

  -- `candidates`
  unfoldable pub candidates_of : Resolver → ℕ → Bytes → Dict Value → Method (List Ref × Bytes)
  candidates_of resolver now connector canonical =
      gather resolver now connector canonical resolver.keys [] []

  -- What `Resolve` answers to its candidates
  unfoldable pub decide : OnAmbiguous → Bytes → List Ref → Bytes → Resolution
  decide policy connector (r ∷ []) names = record {
    outcome = matched;
    peer_ref = some r;
    candidates = [];
    reason = matched_on names;
  }
  decide policy connector [] names = record {
    outcome = elim policy [ to_skip ↦ skip | _ ↦ create ];
    peer_ref = none;
    candidates = [];
    reason = no_match;
  }
  decide policy connector rs names = record {
    outcome = elim policy [ to_create ↦ create | to_skip ↦ skip | to_review ↦ review ];
    peer_ref = none;
    candidates = rs;
    reason = several_match (length rs) connector names;
  }

  unfoldable pub by_keys : Resolver → ℕ → Bytes → Dict Value → Method Resolution
  by_keys resolver now connector canonical = do
    found ← candidates_of resolver now connector canonical
    pure (decide resolver.on_ambiguous connector found.0 found.1)

  -- The other end of the link that was found
  unfoldable pub linked_peer : Option Link → Ref → Option Ref
  linked_peer none from = none
  linked_peer (some l) from = peer l from

  unfoldable pub after_link : Resolver → ℕ → Bytes → Dict Value → Option Ref → Method Resolution
  after_link resolver now connector canonical (some p) =
      pure (record { outcome = linked; peer_ref = some p; candidates = []; reason = is_linked })
  after_link resolver now connector canonical none = by_keys resolver now connector canonical

  -- `Resolve`
  unfoldable pub resolve : Resolver → ℕ → Ref → Bytes → Dict Value → Method Resolution
  resolve resolver now from connector canonical = do
    found ← get_link S now from
    after_link resolver now connector canonical (linked_peer found from)
