-- ===== src/Engine/Parts.antt =====
-- internal/engine: the engine's state and what it works with, from engine.go, plan.go and
-- pipeline.go.
--
-- The peers, with their rate limiters and the clock, are the interface `Peers` over a state of
-- their own. What fmt and encoding/json make of errors, reasons and payloads is `Texts`. The methods
-- are those of one worker: the keyed mutex gives it the records that it works on.
use crm_bisync.Prelude.{
  ℕ, ◌+◌, Bool, true, false, Option, none, some, List, [], ◌∷◌, ◌++◌, Bytes, codes, str_eq,
  if◌then◌else◌,
}
use crm_bisync.Prelude.Int.{ℤ}
use crm_bisync.Prelude.Decimal.{itoa}
use crm_bisync.Prelude.Strings.{str_lt}
use crm_bisync.Prelude.Sorting.{sort_by}
use crm_bisync.Prelude.Dict.{Dict, lookup}
use crm_bisync.Prelude.Result.{Result, Exec, ok, err, continue}
use crm_bisync.Model.{Value, Record, ChangeEvent, Formats}
use crm_bisync.Connector.{
  Failure, other, WriteResult, Page, kind_of, Kind, rate_limited, retry_after_of,
}
use crm_bisync.Mapping.Directions.{Side, left, right}
use crm_bisync.Mapping.Fields.{Mapper, Problem}
use crm_bisync.Mapping.Transforms.{Letters}
use crm_bisync.Store.Defs.{Store, StoreErr}
use crm_bisync.Store.Typed.{Document, Ref}
use crm_bisync.Origin
use crm_bisync.Origin.{Suppressor}
use crm_bisync.Identity
use crm_bisync.Conflict.Terms

pub record Peer : Type 0 where
  pub name : Bytes
  pub side : Side

pub record Sync : Type 0 where
  pub name : Bytes
  pub kind : Bytes
  pub left_peer : Peer
  pub right_peer : Peer
  pub mapper : Mapper
  pub identity : Identity.Resolver
  pub conflict : Terms.Resolver
  pub canonical : List Bytes

-- `peerByName`
unfoldable pub peer_by_name : Sync → Bytes → Option Peer
peer_by_name s name =
    if str_eq name s.left_peer.name
    then some s.left_peer
    else if str_eq name s.right_peer.name
    then some s.right_peer
    else none

abbrev pub is_left : Side → Bool
is_left left = true
is_left right = false

-- `other`; the two peers of a sync are told apart by their sides.
unfoldable pub other_peer : Sync → Peer → Peer
other_peer s p = if is_left p.side then s.right_peer else s.left_peer

pub data Outcome : Type 0 where
  echo no_change created updated deleted reviewed skipped dead_letter : Outcome

pub record Stats : Type 0 where
  pub ingested : ℕ
  pub echoes : ℕ
  pub near_misses : ℕ
  pub created : ℕ
  pub updated : ℕ
  pub deleted : ℕ
  pub reviewed : ℕ
  pub skipped : ℕ
  pub no_change : ℕ
  pub retried : ℕ
  pub dead_lettered : ℕ

pub record NamedVal : Type 0 where
  pub field : Bytes
  pub value : Value

pub data PlanAction : Type 0 where
  create update delete : PlanAction

pub record PlannedChange : Type 0 where
  pub sync : Bytes
  pub action : PlanAction
  pub source : Ref
  pub target : Ref
  pub fields : List NamedVal

pub record Planner : Type 0 where
  pub changes : List PlannedChange
  pub next : ℕ

abbrev pub planned_id : ℕ → Bytes
planned_id n = codes "planned-" ++ itoa n

-- A create is planned for the identifier that it would get.
unfoldable pub named_change : PlannedChange → Bytes → PlannedChange
named_change c id = elim c.action [
  | create ↦ record c { target = record c.target { remote_id = id } }
  | _ ↦ c
]

-- `record`
unfoldable pub plan_change : PlannedChange → Planner → Bytes × Planner
unfolding named_change
plan_change c p =
    let id = planned_id (p.next + 1) in
    (id, record p { changes = p.changes ++ named_change c id ∷ []; next = p.next + 1 })

unfoldable pub keys_of : Dict Value → List Bytes
keys_of [] = []
keys_of ((k, _) ∷ d) = k ∷ keys_of d

abbrev pub named : Bytes → Option Value → List NamedVal → List NamedVal
named name none rest = rest
named name (some v) rest = record { field = name; value = v } ∷ rest

unfoldable pub values_at : Dict Value → List Bytes → List NamedVal
values_at d [] = []
values_at d (n ∷ ns) = named n (lookup n d) (values_at d ns)

-- `namedValues`
unfoldable pub named_values : Dict Value → List NamedVal
unfolding values_at keys_of
named_values d = values_at d (sort_by str_lt (keys_of d))

pub data Payload : Type 0 where
  ambiguous : List Bytes → Dict Value → Payload
  disputed : Terms.Situation → Terms.Policy → List Terms.FieldDiff → Bytes → Payload
  failed : ChangeEvent → Bytes → Kind → Payload

pub record Texts : Type 0 where
  pub of_store : StoreErr → Bytes
  pub of_problems : List Problem → Bytes
  pub of_match : Identity.Reason → Bytes
  pub of_resolution : Terms.Reason → Bytes
  pub of_failure : Failure → Bytes  -- `cause.Error()`
  pub encode : Payload → Result Bytes Bytes  -- `json.Marshal`, or its error
  pub quoted : Bytes → Bytes  -- `%q`

-- The peers by their names, behind their rate limiters, and the clock
pub record Peers : Type 1 where
  pub World : Type 0
  pub time : World → ℕ
  pub wait : (name : Bytes) → Exec World Failure (Unit {0})  -- `Bucket.Wait`
  pub succeed : (name : Bytes) → World → World  -- `Bucket.Success`
  pub reject : (name : Bytes) → ℕ → World → World  -- `Bucket.Reject`
  pub get : (name kind id : Bytes) → Exec World Failure Record
  pub upsert : (name kind : Bytes) → Record → (key : Bytes) → Exec World Failure WriteResult
  pub delete : (name kind id key : Bytes) → Exec World Failure (Unit {0})
  pub list_changed : (name kind : Bytes) → (since : ℤ) → (cursor : Bytes) → Exec World Failure Page
  pub cancelled : World → Bool  -- `ctx.Err() != nil`
  pub random : ℕ → World → ℕ × World  -- `rnd.Int63n`

-- What an engine is built with; its syncs are by name.
pub record Setting : Type 1 where
  pub formats : Formats
  pub texts : Texts
  pub letters : Letters
  pub store : Store Document
  pub peers : Peers
  pub syncs : Dict Sync
  pub windows : Dict ℤ
  pub idem_ttl : ℕ
  pub max_attempts : ℕ

-- The engine's state. A planner is there in a dry run.
pub record Engine (B W : Type 0) : Type 0 where
  pub store : B
  pub tags : Origin.Stats
  pub stats : Stats
  pub world : W
  pub plan : Option Planner
  pub seq : ℕ

module _ (E : Setting) where
  abbrev pub State : Type 0
  State = Engine E.store.State E.peers.World

  abbrev pub Method : Type 0 → Type 0
  Method = Exec State Failure

  abbrev pub lift_stored : {A : Type 0} → Result StoreErr A → Result Failure A
  lift_stored (ok a) = ok a
  lift_stored (err e) = err (other (E.texts.of_store e))

  unfoldable pub pure : {A : Type 0} → A → Method A
  pure a e = (ok a, e)

  unfoldable pub fail : {A : Type 0} → Failure → Method A
  fail f e = (err f, e)

  -- A call of the store
  unfoldable pub on_store : {A : Type 0} → Exec E.store.State StoreErr A → Method A
  on_store m e = let (r, s) = m e.store in (lift_stored r, record e { store = s })

  -- A call of the suppressor, which counts
  unfoldable pub on_origin : {A : Type 0} → Exec (Suppressor E.store.State) StoreErr A → Method A
  on_origin m e =
      let o : Suppressor E.store.State = record { store = e.store; stats = e.tags } in
      let (r, o') = m o in (lift_stored r, record e { store = o'.store; tags = o'.stats })

  -- A call of a peer
  unfoldable pub on_world : {A : Type 0} → Exec E.peers.World Failure A → Method A
  on_world m e = let (r, w) = m e.world in (r, record e { world = w })

  unfoldable pub change_world : (E.peers.World → E.peers.World) → Method (Unit {0})
  change_world f e = (ok tt, record e { world = f e.world })

  -- `e.clock.Now()`
  unfoldable pub now : Method ℕ
  now e = (ok (E.peers.time e.world), e)

  -- `count`
  unfoldable pub count : (Stats → Stats) → Method (Unit {0})
  count f e = (ok tt, record e { stats = f e.stats })

  -- The error of a call as a value
  unfoldable pub attempt : {A : Type 0} → Method A → Method (Result Failure A)
  attempt m e = let (r, e') = m e in (ok r, e')

-- Opening this opens the calls above too.
infixl 10 ◌>>=◌ ◌>>◌
unfoldable pub ◌>>=◌ :
    {S A B : Type 0} → Exec S Failure A → (A → Exec S Failure B) → Exec S Failure B
unfolding pure fail on_store on_origin on_world change_world now count attempt
◌>>=◌ m f e = continue f (m e)

abbrev pub ◌>>◌ : {S A B : Type 0} → Exec S Failure A → Exec S Failure B → Exec S Failure B
m >> n = m >>= λ _. n

module _ (E : Setting) where
  abbrev pub is_rate_limited : Kind → Bool
  is_rate_limited rate_limited = true
  is_rate_limited _ = false

  -- `noteFailure`
  unfoldable pub note_failure : Peer → Failure → Method E (Unit {0})
  note_failure p f =
      if is_rate_limited (kind_of f)
      then change_world E (E.peers.reject p.name (retry_after_of f))
      else pure E tt

  -- What follows a call of a peer
  unfoldable pub got : {A : Type 0} → Peer → Result Failure A → Method E A
  unfolding note_failure
  got p (err f) = do note_failure p f; fail E f
  got p (ok a) = do change_world E (E.peers.succeed p.name); pure E a

  -- `get`
  unfoldable pub get : Peer → Bytes → Bytes → Method E Record
  unfolding got
  get p kind id = do
    on_world E (E.peers.wait p.name)
    r ← attempt E (on_world E (E.peers.get p.name kind id))
    got p r
