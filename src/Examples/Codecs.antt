-- ===== src/Examples/Codecs.antt =====
-- A coding of the file store's operations and snapshots as bytes without a newline.
use crm_bisync.Prelude.{
  ℕ, zero, suc, ◌+◌, ◌-◌, ◌≡◌, ◌∙◌, refl, ap, sym, Option, none, some, List, [], ◌∷◌, ◌++◌, Bytes,
  length, arith, ◌==◌, if◌then◌else◌,
}
use mathlib.Core.List.{append_assoc, append-nil}
use crm_bisync.Prelude.Strings.{Without, Without-append}
use crm_bisync.Prelude.Int.{ℤ, pos, negsuc}
use crm_bisync.Store.File.{Op, put_op, delete_op, Json, Tables, newline}
use crm_bisync.Store.File.Replay.{IsFaithful}

pub record Codec (A : Type 0) : Type 0 where
  pub enc : A → Bytes
  pub dec : Bytes → Option (A × Bytes)
  pub back : (a : A) (rest : Bytes) → dec (enc a ++ rest) ≡ some (a, rest)
  pub plain : (a : A) → Without newline (enc a)

abbrev dec_number : Bytes → Option (ℕ × Bytes)
dec_number [] = none
dec_number (b ∷ s) = some (b - 20, s)

-- A number is one byte, above the newline.
unfoldable pub number : Codec ℕ
number = record {
  enc = λ n. (n + 20) ∷ [];
  dec = dec_number;
  back = λ n rest. ap (λ m. some (m, rest)) (omega arith);
  plain = λ n. ((λ e. omega arith), tt);
}

module _ {A B : Type 0} where
  abbrev with_first : A → Option (B × Bytes) → Option ((A × B) × Bytes)
  with_first a none = none
  with_first a (some (b, s)) = some ((a, b), s)

  abbrev then_second : (Bytes → Option (B × Bytes)) → Option (A × Bytes) → Option ((A × B) × Bytes)
  then_second d none = none
  then_second d (some (a, s)) = with_first a (d s)

  unfoldable pub pair : Codec A → Codec B → Codec (A × B)
  pair x y = record {
    enc = λ p. x.enc p.0 ++ y.enc p.1;
    dec = λ s. then_second y.dec (x.dec s);
    back = λ p rest.
        ap (λ s. then_second y.dec (x.dec s)) (append_assoc (x.enc p.0) (y.enc p.1) rest)
        ∙ ap (then_second y.dec) (x.back p.0 (y.enc p.1 ++ rest))
        ∙ ap (with_first p.0) (y.back p.1 rest);
    plain = λ p. Without-append newline (x.enc p.0) (y.enc p.1) (x.plain p.0) (y.plain p.1);
  }

  abbrev map_first : (A → B) → Option (A × Bytes) → Option (B × Bytes)
  map_first g none = none
  map_first g (some (a, s)) = some (g a, s)

  -- A type that goes into another and back
  unfoldable pub through : (f : B → A) (g : A → B) → ((b : B) → g (f b) ≡ b) → Codec A → Codec B
  through f g h x = record {
    enc = λ b. x.enc (f b);
    dec = λ s. map_first g (x.dec s);
    back = λ b rest. ap (map_first g) (x.back (f b) rest) ∙ ap (λ c. some (c, rest)) (h b);
    plain = λ b. x.plain (f b);
  }

module _ {A : Type 0} (x : Codec A) where
  unfoldable pub enc_all : List A → Bytes
  enc_all [] = []
  enc_all (a ∷ xs) = x.enc a ++ enc_all xs

  abbrev with_head : A → Option (List A × Bytes) → Option (List A × Bytes)
  with_head a none = none
  with_head a (some (xs, s)) = some (a ∷ xs, s)

  abbrev then_more :
      (Bytes → Option (List A × Bytes)) → Option (A × Bytes) → Option (List A × Bytes)
  then_more go none = none
  then_more go (some (a, s)) = with_head a (go s)

  unfoldable pub dec_all : ℕ → Bytes → Option (List A × Bytes)
  dec_all zero s = some ([], s)
  dec_all (suc n) s = then_more (dec_all n) (x.dec s)

  abbrev counted : Option (ℕ × Bytes) → Option (List A × Bytes)
  counted none = none
  counted (some (n, s)) = dec_all n s

  pub all_back :
      (xs : List A) (rest : Bytes) → dec_all (length xs) (enc_all xs ++ rest) ≡ some (xs, rest)
  unfolding dec_all enc_all
  all_back [] rest = refl
  all_back (a ∷ xs) rest =
      let go : Bytes → Option (List A × Bytes) = dec_all (length xs) in
      ap (λ s. then_more go (x.dec s)) (append_assoc (x.enc a) (enc_all xs) rest)
      ∙ ap (then_more go) (x.back a (enc_all xs ++ rest))
      ∙ ap (with_head a) (all_back xs rest)

  pub all_plain : (xs : List A) → Without newline (enc_all xs)
  unfolding enc_all
  all_plain [] = tt
  all_plain (a ∷ xs) = Without-append newline (x.enc a) (enc_all xs) (x.plain a) (all_plain xs)

  unfoldable pub list : Codec (List A)
  list = record {
    enc = λ xs. number.enc (length xs) ++ enc_all xs;
    dec = λ s. counted (number.dec s);
    back = λ xs rest.
        ap (λ s. counted (number.dec s)) (append_assoc (number.enc (length xs)) (enc_all xs) rest)
        ∙ ap counted (number.back (length xs) (enc_all xs ++ rest))
        ∙ all_back xs rest;
    plain = λ xs.
        Without-append newline (number.enc (length xs)) (enc_all xs) (number.plain (length xs))
          (all_plain xs);
  }

abbrev signed : ℤ → ℕ × ℕ
signed (pos n) = (0, n)
signed (negsuc n) = (1, n)

abbrev of_signed : ℕ × ℕ → ℤ
of_signed (s, n) = if s == 0 then pos n else negsuc n

pub of_signed_back : (i : ℤ) → of_signed (signed i) ≡ i
of_signed_back (pos n) = refl
of_signed_back (negsuc n) = refl

unfoldable pub integer : Codec ℤ
integer = through signed of_signed of_signed_back (pair number number)

unfoldable pub bytes : Codec Bytes
bytes = list number

abbrev Fields : Type 0
Fields = ℕ × (Bytes × (Bytes × (ℕ × ℤ)))

abbrev fields_of : Op ℕ → Fields
fields_of (put_op c k v e) = (0, (c, (k, (v, e))))
fields_of (delete_op c k) = (1, (c, (k, (0, pos 0))))

abbrev of_fields : Fields → Op ℕ
of_fields (t, (c, (k, (v, e)))) = if t == 0 then put_op c k v e else delete_op c k

pub of_fields_back : (o : Op ℕ) → of_fields (fields_of o) ≡ o
of_fields_back (put_op c k v e) = refl
of_fields_back (delete_op c k) = refl

unfoldable pub operation : Codec (Op ℕ)
operation =
    through fields_of of_fields of_fields_back
      (pair number (pair bytes (pair bytes (pair number integer))))

unfoldable pub snapshots : Codec (Tables (Op ℕ))
snapshots = list (pair bytes (list (pair bytes operation)))

-- All of a text, and nothing after it
abbrev completely : {A : Type 0} → Option (A × Bytes) → Option A
completely (some (a, [])) = some a
completely _ = none

pub completely_back : {A : Type 0} (x : Codec A) (a : A) → completely (x.dec (x.enc a)) ≡ some a
completely_back x a =
    ap (λ s. completely (x.dec s)) (sym (append-nil (x.enc a))) ∙ ap completely (x.back a [])

abbrev pub json : Json ℕ
json = record {
  encode_op = operation.enc;
  decode_op = λ s. completely (operation.dec s);
  encode_snapshot = snapshots.enc;
  decode_snapshot = λ s. completely (snapshots.dec s);
}

pub json-IsFaithful : IsFaithful json
json-IsFaithful = record {
  op_back = λ o _. completely_back operation o;
  one_line = operation.plain;
  snapshot_back = λ d _. completely_back snapshots d;
}
