-- ===== src/Mapping/Exchange.antt =====
-- internal/mapping/mapping.go: `FromCanonical`, and `ToCanonical` of what it wrote.
use crm_bisync.Prelude.{
  ◌≡◌, ◌≢◌, ◌∙◌, refl, sym, inl, inr, Option, none, some, List, [], ◌∷◌, Bytes, str_eq_iff, arith,
  All, Bool-cases, if◌then◌else◌,
}
use crm_bisync.Prelude.Dict.{Dict, lookup, insert, lookup-insert, lookup-nil}
use crm_bisync.Prelude.Result.{ok}
use crm_bisync.Model.{Value, Record}
use crm_bisync.Mapping.Directions.{Side, writes_to}
use crm_bisync.Mapping.Transforms.{Letters, apply}
use crm_bisync.Mapping.Paths.{get_path}
use crm_bisync.Mapping.RoundTrip.{
  head_of, get_path-set_path, get_path-set_path_other, lookup_of_get_path, get_path_nil,
}
use crm_bisync.Mapping.Fields.{
  Field, Mapper, path, written, write_field, write_fields, from_canonical, add_read, read_found,
  read_fields, to_canonical,
}

-- No two fields of a side begin at the same key.
abbrev pub Apart : Side → List Field → Type 0
Apart side [] = Unit
Apart side (f ∷ fs) = All (λ g. head_of (path f side) ≢ head_of (path g side)) fs × Apart side fs

-- What a field of a side's record is to be: the canonical value, if there is one and the direction
-- lets it through.
abbrev pub sent : Side → Dict Value → Field → Option Value
sent side canonical f = if writes_to f.direction side then lookup f.canonical canonical else none

module _ (side : Side) (canonical : Dict Value) where
  written_other :
      (p at : Bytes) (v : Option Value) (out : Dict Value)
      → head_of p ≢ head_of at
      → get_path (written p v out) at ≡ get_path out at
  written_other p at none out d = refl
  written_other p at (some v) out d = get_path-set_path_other out p at v d

  write_field_other :
      (f : Field) (at : Bytes) (out : Dict Value)
      → head_of (path f side) ≢ head_of at
      → get_path (write_field side canonical f out) at ≡ get_path out at
  unfolding write_field
  write_field_other f at out d = elim (Bool-cases (writes_to f.direction side)) [
    | inl w ↦ rw w (written_other (path f side) at (lookup f.canonical canonical) out d)
    | inr w ↦ rw w refl
  ]

  written_here :
      (p : Bytes) (v : Option Value) (out : Dict Value)
      → get_path out p ≡ none
      → get_path (written p v out) p ≡ v
  written_here p none out e = e
  written_here p (some v) out e = get_path-set_path out p v (lookup_of_get_path out p e)

  write_field_here :
      (f : Field) (out : Dict Value)
      → get_path out (path f side) ≡ none
      → get_path (write_field side canonical f out) (path f side) ≡ sent side canonical f
  unfolding write_field
  write_field_here f out e = elim (Bool-cases (writes_to f.direction side)) [
    | inl w ↦ rw w (written_here (path f side) (lookup f.canonical canonical) out e)
    | inr w ↦ rw w e
  ]

  write_fields_other :
      (fs : List Field) (at : Bytes) (out : Dict Value)
      → All (λ g. head_of at ≢ head_of (path g side)) fs
      → get_path (write_fields side canonical fs out) at ≡ get_path out at
  unfolding write_fields
  write_fields_other [] at out d = refl
  write_fields_other (f ∷ fs) at out (d, ds) =
      write_fields_other fs at (write_field side canonical f out) ds
      ∙ write_field_other f at out (λ e. d (sym e))

  -- Nothing stands yet where the fields are to be written.
  abbrev Vacant : Dict Value → List Field → Type 0
  Vacant out fs = All (λ g. get_path out (path g side) ≡ none) fs

  write_field-Vacant :
      (f : Field) (fs : List Field) (out : Dict Value)
      → All (λ g. head_of (path f side) ≢ head_of (path g side)) fs
      → Vacant out fs
      → Vacant (write_field side canonical f out) fs
  write_field-Vacant f [] out d v = tt
  write_field-Vacant f (g ∷ fs) out (d, ds) (v, vs) =
      (write_field_other f (path g side) out d ∙ v, write_field-Vacant f fs out ds vs)

  abbrev pub Holds : Dict Value → List Field → Type 0
  Holds out fs = All (λ g. get_path out (path g side) ≡ sent side canonical g) fs

  write_fields-Holds :
      (fs : List Field) (out : Dict Value)
      → Apart side fs
      → Vacant out fs
      → Holds (write_fields side canonical fs out) fs
  unfolding write_fields
  write_fields-Holds [] out a v = tt
  write_fields-Holds (f ∷ fs) out (d, a) (v, vs) = (
    write_fields_other fs (path f side) (write_field side canonical f out) d
        ∙ write_field_here f out v,
    write_fields-Holds fs (write_field side canonical f out) a (write_field-Vacant f fs out d vs),
  )

vacant_nil : (side : Side) (fs : List Field) → All (λ g. get_path ([]) (path g side) ≡ none) fs
vacant_nil side [] = tt
vacant_nil side (f ∷ fs) = (get_path_nil (path f side), vacant_nil side fs)

pub from_canonical-Holds :
    (m : Mapper) (side : Side) (canonical : Dict Value)
    → Apart side m.fields
    → Holds side canonical (from_canonical m side canonical) m.fields
unfolding from_canonical
from_canonical-Holds m side canonical a =
    write_fields-Holds side canonical m.fields [] a (vacant_nil side m.fields)

-- No two fields have one name.
abbrev pub NamedApart : List Field → Type 0
NamedApart [] = Unit
NamedApart (f ∷ fs) = All (λ (g : Field). f.canonical ≢ g.canonical) fs × NamedApart fs

module _ (L : Letters) (side : Side) (canonical : Dict Value) where
  -- The transform leaves each value that is sent as it is.
  abbrev pub Settled : List Field → Type 0
  Settled fs =
      All
        (λ (f : Field). (v : Value) → sent side canonical f ≡ some v → apply L f.transform v ≡ ok v)
        fs

  abbrev put_sent : Bytes → Option Value → Dict Value → Dict Value
  put_sent name none out = out
  put_sent name (some v) out = insert name v out

  abbrev collected : List Field → Dict Value → Dict Value
  collected [] out = out
  collected (f ∷ fs) out = collected fs (put_sent f.canonical (sent side canonical f) out)

  read_found_sent :
      (f : Field) (out : Dict Value) (o : Option Value)
      → ((v : Value) → o ≡ some v → apply L f.transform v ≡ ok v)
      → read_found L f o (out, []) ≡ (put_sent f.canonical o out, [])
  unfolding read_found add_read
  read_found_sent f out none h = refl
  read_found_sent f out (some v) h = rw (h v refl) refl

  read_fields-collected :
      (fields : Dict Value) (fs : List Field) (out : Dict Value)
      → Holds side canonical fields fs
      → Settled fs
      → read_fields L side fields fs (out, []) ≡ (collected fs out, [])
  unfolding read_fields
  read_fields-collected fields [] out h s = refl
  read_fields-collected fields (f ∷ fs) out (h, hs) (s, ss) =
      rw (h, read_found_sent f out (sent side canonical f) s)
        (read_fields-collected fields fs _ hs ss)

  lookup-put_sent :
      (name j : Bytes) (o : Option Value) (out : Dict Value)
      → name ≢ j
      → lookup j (put_sent name o out) ≡ lookup j out
  lookup-put_sent name j none out d = refl
  lookup-put_sent name j (some v) out d =
      lookup-insert name j v out ∙ ground (arith, str_eq_iff name j)

  put_sent_here :
      (name : Bytes) (o : Option Value) (out : Dict Value)
      → lookup name out ≡ none
      → lookup name (put_sent name o out) ≡ o
  put_sent_here name none out e = e
  put_sent_here name (some v) out e =
      lookup-insert name name v out ∙ ground (arith, str_eq_iff name name)

  collected_other :
      (j : Bytes) (fs : List Field) (out : Dict Value)
      → All (λ (g : Field). j ≢ g.canonical) fs
      → lookup j (collected fs out) ≡ lookup j out
  collected_other j [] out d = refl
  collected_other j (f ∷ fs) out (d, ds) =
      collected_other j fs (put_sent f.canonical (sent side canonical f) out) ds
      ∙ lookup-put_sent f.canonical j (sent side canonical f) out (λ e. d (sym e))

  abbrev Unread : Dict Value → List Field → Type 0
  Unread out fs = All (λ (g : Field). lookup g.canonical out ≡ none) fs

  put_sent-Unread :
      (f : Field) (fs : List Field) (out : Dict Value)
      → All (λ (g : Field). f.canonical ≢ g.canonical) fs
      → Unread out fs
      → Unread (put_sent f.canonical (sent side canonical f) out) fs
  put_sent-Unread f [] out d u = tt
  put_sent-Unread f (g ∷ fs) out (d, ds) (u, us) = (
    lookup-put_sent f.canonical g.canonical (sent side canonical f) out d ∙ u,
    put_sent-Unread f fs out ds us,
  )

  abbrev pub ReadBack : Dict Value → List Field → Type 0
  ReadBack out fs = All (λ (g : Field). lookup g.canonical out ≡ sent side canonical g) fs

  collected-ReadBack :
      (fs : List Field) (out : Dict Value)
      → NamedApart fs
      → Unread out fs
      → ReadBack (collected fs out) fs
  collected-ReadBack [] out n u = tt
  collected-ReadBack (f ∷ fs) out (n, ns) (u, us) = (
    collected_other f.canonical fs (put_sent f.canonical (sent side canonical f) out) n
        ∙ put_sent_here f.canonical (sent side canonical f) out u,
    collected-ReadBack fs (put_sent f.canonical (sent side canonical f) out) ns
        (put_sent-Unread f fs out n us),
  )

  Unread-nil : (fs : List Field) → Unread ([]) fs
  Unread-nil [] = tt
  Unread-nil (f ∷ fs) = (lookup-nil f.canonical, Unread-nil fs)

  -- If no two fields of a side begin at one key and no two have one name, and the transforms
  -- leave each value that is sent as it is, then reading back the record that FromCanonical
  -- writes to a side succeeds and gives each field the value that was sent, or none where the
  -- canonical record has none or the direction keeps it back.
  pub to_canonical-from_canonical :
      (m : Mapper) (rec : Record)
      → rec.fields ≡ from_canonical m side canonical
      → Apart side m.fields
      → NamedApart m.fields
      → Settled m.fields
      → (out : Dict Value) × (to_canonical L m side rec ≡ ok out) × ReadBack out m.fields
  unfolding to_canonical
  to_canonical-from_canonical m rec e a n s = (
    collected m.fields [],
    rw
        (
          e,
          read_fields-collected (from_canonical m side canonical) m.fields []
              (from_canonical-Holds m side canonical a) s,
        )
        refl,
    collected-ReadBack m.fields [] n (Unread-nil m.fields),
  )
