-- ===== src/Connector.antt =====
-- internal/connector: what the engine knows of a peer. The failures of errors.go, and the schemas,
-- pages and write results of connector.go. A failure is data: the classified error, the marks that
-- the engine puts round another error, or any other error, which has a text.
pub mod Kinds
use crm_bisync.Prelude.{
  ℕ, Bool, true, false, not, Option, none, some, List, [], ◌∷◌, Bytes, codes, str_eq, is_empty,
  if◌then◌else◌,
}
use crm_bisync.Model.{Record}

pub data Kind : Type 0 where
  unknown transient rate_limited permanent_kind not_found auth : Kind

-- `String`
unfoldable pub kind_name : Kind → Bytes
kind_name transient = codes "transient"
kind_name rate_limited = codes "rate_limited"
kind_name permanent_kind = codes "permanent"
kind_name not_found = codes "not_found"
kind_name auth = codes "auth"
kind_name unknown = codes "unknown"

-- `type Error struct`; the cause is its text.
pub record Classified : Type 0 where
  pub connector : Bytes
  pub op : Bytes
  pub kind : Kind
  pub retry_after : ℕ
  pub cause : Bytes

-- An error, with what `errors.As` finds on the way down its chain. `permanent` and `recheck` are
-- the marks of internal/engine/pipeline.go, where `permanent` wraps its cause.
pub data Failure : Type 0 where
  classified : Classified → Failure
  other : Bytes → Failure
  permanent : Failure → Failure
  wrapped : Bytes → Failure → Failure  -- `fmt.Errorf("…: %w", …)`
  recheck : Failure

-- `errors.As(err, &ce)`
unfoldable pub as_classified : Failure → Option Classified
as_classified (classified c) = some c
as_classified (other _) = none
as_classified (permanent e) = as_classified e
as_classified (wrapped _ e) = as_classified e
as_classified recheck = none

-- `KindOf`, of an error that there is, and of none
unfoldable pub kind_of : Failure → Kind
unfolding as_classified
kind_of e = elim (as_classified e) [ some c ↦ c.kind | none ↦ transient ]

unfoldable pub kind_of_any : Option Failure → Kind
unfolding kind_of
kind_of_any none = unknown
kind_of_any (some e) = kind_of e

unfoldable pub retry_after_of : Failure → ℕ
unfolding as_classified
retry_after_of e = elim (as_classified e) [ some c ↦ c.retry_after | none ↦ 0 ]

abbrev pub worth_retrying : Kind → Bool
worth_retrying transient = true
worth_retrying rate_limited = true
worth_retrying unknown = true
worth_retrying _ = false

-- `Retryable`
unfoldable pub can_retry : Failure → Bool
unfolding kind_of
can_retry e = worth_retrying (kind_of e)

abbrev pub is_kind_not_found : Kind → Bool
is_kind_not_found not_found = true
is_kind_not_found _ = false

unfoldable pub is_not_found : Failure → Bool
unfolding kind_of
is_not_found e = is_kind_not_found (kind_of e)

unfoldable pub answered : Failure → Bool
unfolding as_classified
answered e = elim (as_classified e) [ some _ ↦ true | none ↦ false ]

pub record Page : Type 0 where
  pub records : List Record
  pub deleted : List Bytes
  pub cursor : Bytes

unfoldable pub has_more : Page → Bool
has_more p = not (is_empty p.cursor)

pub record FieldSpec : Type 0 where
  pub name : Bytes
  pub type_name : Bytes
  pub read_only : Bool
  pub required : Bool

pub record Schema : Type 0 where
  pub kind : Bytes
  pub fields : List FieldSpec

unfoldable pub field_among : Bytes → List FieldSpec → Option FieldSpec
field_among name [] = none
field_among name (f ∷ fs) = if str_eq f.name name then some f else field_among name fs

-- `Field`
unfoldable pub schema_field : Schema → Bytes → Option FieldSpec
unfolding field_among
schema_field s name = field_among name s.fields

pub names_of : List FieldSpec → List Bytes
names_of [] = []
names_of (f ∷ fs) = f.name ∷ names_of fs

-- `Names`
unfoldable pub schema_names : Schema → List Bytes
unfolding names_of
schema_names s = names_of s.fields

pub record WriteResult : Type 0 where
  pub remote_id : Bytes
  pub created : Bool
  pub version : Bytes
  pub updated_at : ℕ
