-- ===== src/Model.antt =====
-- internal/model/record.go: the canonical shapes that the engine moves between connectors, and the
-- digest of a record's mapped fields.
--
-- A field value is a value of Go's `any` as JSON and the connectors produce it. A float64 is its bit
-- pattern; what the source asks of package math's format of it, of `time` and of `fmt` is taken as
-- the parameter `Formats`, and so is SHA-256.
pub mod Digest
use crm_bisync.Prelude.{
  ℕ, ◌+◌, ◌/◌, ◌%◌, Bool, true, false, Option, none, some, List, [], ◌∷◌, ◌++◌, Bytes, codes, ltb,
  if◌then◌else◌,
}
use crm_bisync.Prelude.Int.{ℤ, pos, negsuc}
use crm_bisync.Prelude.Decimal.{itoa, frames}
use crm_bisync.Prelude.Strings.{str_lt}
use crm_bisync.Prelude.Sorting.{sort_by}
use crm_bisync.Prelude.Dict.{Dict, lookup}

mutual
  pub data Value : Type 0 where
    null : Value
    text : Bytes → Value
    flag : Bool → Value
    instant : ℕ → Value
    int : ℤ → Value
    float : ℕ → Value
    object : Fields → Value
    array : Items → Value

  -- A nested `map[string]any`
  pub data Fields : Type 0 where
    no_fields : Fields
    field : Bytes → Value → Fields → Fields

  pub data Items : Type 0 where
    no_items : Items
    item : Value → Items → Items

pub record Record : Type 0 where
  pub kind : Bytes
  pub remote_id : Bytes
  pub fields : Dict Value
  pub updated_at : ℕ
  pub version : Bytes

pub record ChangeEvent : Type 0 where
  pub source : Bytes
  pub kind : Bytes
  pub remote_id : Bytes
  pub delivery_id : Bytes
  pub observed_at : ℕ
  pub deleted : Bool
  pub body : Option Record  -- `Record *Record`

unfoldable pub hydrated : ChangeEvent → Bool
hydrated e = elim e.body [ none ↦ false | some _ ↦ true ]

-- The parts of the standard library that the digest rests on.
pub record Formats : Type 0 where
  pub float_of_int : ℤ → ℕ  -- the conversion `float64(t)`
  pub whole : ℕ → Option ℤ  -- `int64(f)`, where `f == float64(int64(f))`
  pub format_float : ℕ → Bytes  -- `strconv.FormatFloat(f, 'g', -1, 64)`
  pub format_time : ℕ → Bytes  -- `t.UTC().Format(time.RFC3339Nano)`
  pub sprint : Value → Bytes  -- `fmt.Sprintf("%v", t)`
  pub sha256 : Bytes → Bytes

-- `strconv.FormatInt(i, 10)`
unfoldable pub format_int : ℤ → Bytes
format_int (pos n) = itoa n
format_int (negsuc n) = b'-' ∷ itoa (n + 1)

hex_digit : ℕ → ℕ
hex_digit n = if ltb n 10 then b'0' + n else 87 + n

-- `hex.EncodeToString`
unfoldable pub hex : Bytes → Bytes
unfolding hex_digit
hex [] = []
hex (b ∷ s) = hex_digit (b / 16) ∷ hex_digit (b % 16) ∷ hex s

module _ (F : Formats) where
  unfoldable pub numeric : ℕ → Bytes
  numeric f = elim (F.whole f) [ some i ↦ b'n' ∷ format_int i | none ↦ b'n' ∷ F.format_float f ]

  unfoldable pub canonical_value : Value → Bytes
  unfolding numeric
  canonical_value null = 0 ∷ codes "null"
  canonical_value (text s) = b's' ∷ s
  canonical_value (flag true) = b'b' ∷ codes "true"
  canonical_value (flag false) = b'b' ∷ codes "false"
  canonical_value (instant t) = b't' ∷ F.format_time t
  canonical_value (int i) = numeric (F.float_of_int i)
  canonical_value (float f) = numeric f
  canonical_value v = b'x' ∷ F.sprint v

  -- What stands for one named field: its canonical value, or that it is absent.
  unfoldable pub rendered : Option Value → Bytes
  unfolding canonical_value
  rendered none = 0 ∷ codes "absent"
  rendered (some v) = canonical_value v

  -- The chunks that the loop writes.
  unfoldable pub chunks : Dict Value → List Bytes → List Bytes
  unfolding rendered
  chunks fields [] = []
  chunks fields (name ∷ names) = name ∷ rendered (lookup name fields) ∷ chunks fields names

  unfoldable pub snapshot_hash : Dict Value → List Bytes → Bytes
  unfolding chunks
  snapshot_hash fields names = hex (F.sha256 (frames (chunks fields (sort_by str_lt names))))
