-- ===== src/Mapping/Paths.antt =====
-- internal/mapping/mapping.go: `getPath` and `setPath` over nested maps. Maps are values here; a
-- path through the value that another path wrote would, in Go, change that value in place.
use crm_bisync.Prelude.{ℕ, Option, none, some, List, [], ◌∷◌, Bytes, str_eq, ◌==◌, if◌then◌else◌}
use crm_bisync.Prelude.Dict.{Dict, lookup, insert}
use crm_bisync.Model.{Value, object, Fields, no_fields, field}

-- The parts of a text: the first, and the others
abbrev pub Parts : Type 0
Parts = Bytes × List Bytes

abbrev pub add_byte : ℕ → Parts → Parts
add_byte c (h, t) = if c == b'.' then ([], h ∷ t) else (c ∷ h, t)

-- `strings.Split(path, ".")`
unfoldable pub split_dots : Bytes → Parts
split_dots [] = ([], [])
split_dots (c ∷ s) = add_byte c (split_dots s)

unfoldable pub lookup_field : Bytes → Fields → Option Value
lookup_field k no_fields = none
lookup_field k (field j v fs) = if str_eq j k then some v else lookup_field k fs

unfoldable pub put_field : Bytes → Value → Fields → Fields
put_field k v no_fields = field k v no_fields
put_field k v (field j w fs) = if str_eq j k then field k v fs else field j w (put_field k v fs)

-- The loop of `getPath`, from a value
unfoldable pub get_in : Option Value → List Bytes → Option Value
unfolding lookup_field
get_in v [] = v
get_in (some (object fs)) (p ∷ ps) = get_in (lookup_field p fs) ps
get_in _ (p ∷ ps) = none

unfoldable pub traverse : Dict Value → Parts → Option Value
unfolding get_in
traverse fields (h, []) = none
traverse fields (h, p ∷ ps) = get_in (lookup h fields) (p ∷ ps)

abbrev pub or_else : Option Value → Option Value → Option Value
or_else (some v) w = some v
or_else none w = w

-- `getPath`
unfoldable pub get_path : Dict Value → Bytes → Option Value
unfolding traverse split_dots
get_path fields path = or_else (lookup path fields) (traverse fields (split_dots path))

-- `next, ok := cur[part].(map[string]any)`, and a new map if there is none
abbrev pub nested : Option Value → Fields
nested (some (object fs)) = fs
nested _ = no_fields

unfoldable pub set_in : Fields → Bytes → List Bytes → Value → Fields
unfolding put_field lookup_field
set_in fs p [] v = put_field p v fs
set_in fs p (q ∷ ps) v = put_field p (object (set_in (nested (lookup_field p fs)) q ps v)) fs

unfoldable pub set_at : Dict Value → Bytes → Parts → Value → Dict Value
unfolding set_in
set_at fields path (h, []) v = insert path v fields
set_at fields path (h, p ∷ ps) v =
    insert h (object (set_in (nested (lookup h fields)) p ps v)) fields

-- `setPath`
unfoldable pub set_path : Dict Value → Bytes → Value → Dict Value
unfolding set_at split_dots
set_path fields path v = set_at fields path (split_dots path) v
