-- ===== src/Examples/Values.antt =====
-- The refs, links, stores and formats of the examples.
use crm_bisync.Prelude.Strings.{str_eq}
use crm_bisync.Prelude.{false, none, Bytes, [], codes, ◌≡◌, ◌≢◌, refl, str_eq_iff, arith}
use crm_bisync.Model.{Formats, Value, text}
use crm_bisync.Mapping.Transforms.{Letters}
use crm_bisync.Store.Defs.{Store, IsLawful}
use crm_bisync.Store.Typed.{Document, Ref, Link, key}
use crm_bisync.Store.Mem.{Mem, new_mem, mem_store}
use crm_bisync.Store.Mem.Lawful.{mem_laws}
use crm_bisync.Store.Mem.Writes

abbrev pub S : Store Document
S = mem_store Document

abbrev pub L : IsLawful S
L = mem_laws Document

abbrev pub empty : Mem Document
empty = new_mem

pub empty-IsOpen : L.IsOpen empty
empty-IsOpen = Writes.new_mem-IsOpen

abbrev pub contact : Bytes
contact = codes "contact"

abbrev pub crm_seven : Ref
crm_seven = record { connector = codes "crm"; kind = contact; remote_id = codes "7" }

abbrev pub desk_nine : Ref
desk_nine = record { connector = codes "desk"; kind = contact; remote_id = codes "9" }

abbrev pub crm_eight : Ref
crm_eight = record { connector = codes "crm"; kind = contact; remote_id = codes "8" }

abbrev pub seven_nine : Link
seven_nine = record { left = crm_seven; right = desk_nine; linked_at = 100 }

-- A text shows as itself.
abbrev pub shown : Value → Bytes
shown (text t) = t
shown _ = []

-- Formats for values that no example holds, and a digest that keeps every byte
abbrev pub formats : Formats
formats = record {
  float_of_int = λ i. 0;
  whole = λ f. none;
  format_float = λ f. [];
  format_time = λ t. [];
  sprint = shown;
  sha256 = λ b. b;
}

-- Letters that are already trimmed and in lower case
abbrev pub as_is : Letters
as_is = record { trim_space = λ s. s; to_lower = λ s. s }

pub differ : (a b : Bytes) → str_eq a b ≡ false → a ≢ b
differ a b h = λ e. ground (arith, str_eq_iff a b)

pub seven_not_nine : key crm_seven ≢ key desk_nine
unfolding str_eq
seven_not_nine = differ (key crm_seven) (key desk_nine) (unfold key in refl)

pub eight_not_seven : key crm_eight ≢ key crm_seven
unfolding str_eq
eight_not_seven = differ (key crm_eight) (key crm_seven) (unfold key in refl)

pub eight_not_nine : key crm_eight ≢ key desk_nine
unfolding str_eq
eight_not_nine = differ (key crm_eight) (key desk_nine) (unfold key in refl)
