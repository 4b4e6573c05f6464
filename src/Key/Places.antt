-- ===== src/Key/Places.antt =====
-- Where `format_key` puts the fields of a key.
use zapps.Prelude.{
  subst, ℕ, ◌+◌, ◌-◌, ◌≤◌, ◌≡◌, ◌≢◌, refl, ◌∙◌, ap, arith, false, List, [], ◌∷◌, ◌++◌, length,
  get_elem?, Option, some, none, ok, deref-bind, zero, suc,
}
use zapps.Prelude.Memory.{
  Bytes, put, slice, write-ok, length-put, slice-put_before, slice-put_behind, slice-put_extend,
}
use zapps.Field.{DescPtr, FieldValue, zeros}
use zapps.Field.Access.{copy_value}
use zapps.Field.Valid.{IsValid}
use zapps.Row.Values.{AllValid}
use zapps.Format.Copies.{copy_value-Copies, copied_size-le}
use zapps.Format.Region.{Clean}
use zapps.Key.{format_key_fields}

abbrev pub NotIn : ℕ → List ℕ → Type 0
NotIn k [] = Unit {0}
NotIn k (j ∷ js) = (k ≢ j) × NotIn k js

-- The fields of the key are there, different, and not null.
abbrev pub KeyOf : List FieldValue → List ℕ → Type 0
KeyOf vs [] = Unit {0}
KeyOf vs (k ∷ ks) =
    ((v : FieldValue) × (get_elem? vs k ≡ some v) × (v.null_flag ≡ false))
    × NotIn k ks
    × KeyOf vs ks

abbrev max_of : Option FieldValue → ℕ
max_of none = 0
max_of (some v) = v.max_size

-- The space of the fields of the key.
unfoldable pub key_space : List FieldValue → List ℕ → ℕ
key_space vs [] = 0
key_space vs (k ∷ ks) = max_of (get_elem? vs k) + key_space vs ks

abbrev from_some : FieldValue → Option FieldValue → FieldValue
from_some w none = w
from_some w (some v) = v

-- A value that is set up for its description.
pub get_elem?-IsValid :
    (ps : List DescPtr) (vs : List FieldValue) (k : ℕ) {v : FieldValue}
    → AllValid ps vs
    → get_elem? vs k ≡ some v
    → (p : DescPtr) × (get_elem? ps k ≡ some p) × IsValid p v
get_elem?-IsValid [] [] k valid e = cc
get_elem?-IsValid [] (w ∷ vs) k valid e = absurd valid
get_elem?-IsValid (p ∷ ps) [] k valid e = cc
get_elem?-IsValid (p ∷ ps) (w ∷ vs) zero valid e =
    (p, refl, subst (λ x. IsValid p x) (ap (from_some w) e) valid.0)
get_elem?-IsValid (p ∷ ps) (w ∷ vs) (suc k) valid e = get_elem?-IsValid ps vs k valid.1 e

-- Each field stands in its place, filled up with zeros.
abbrev pub Placed : List FieldValue → Bytes → List ℕ → ℕ → Type 0
Placed vs out [] offset = Unit {0}
Placed vs out (k ∷ ks) offset =
    (v : FieldValue) × (bs : Bytes) × (get_elem? vs k ≡ some v)
    × (copy_value v ≡ ok bs)
    × (offset + v.max_size ≤ length out)
    × (slice out offset v.max_size ≡ bs ++ zeros (v.max_size - length bs))
    × Placed vs out ks (offset + v.max_size)

pub record Formatted (vs : List FieldValue) (ks : List ℕ) (offset : ℕ) (buf : Bytes) : Type 0 where
  pub out : Bytes
  pub formatted : format_key_fields vs ks offset buf ≡ ok out
  pub kept : length out ≡ length buf
  pub frame : (o n : ℕ) → o + n ≤ offset → slice out o n ≡ slice buf o n
  pub placed : Placed vs out ks offset

slice-put_padded :
    (buf : Bytes) (offset : ℕ) (bs : Bytes) (size : ℕ)
    → length bs ≤ size
    → offset + size ≤ length buf
    → Clean buf offset (offset + size)
    → slice (put buf offset bs) offset size ≡ bs ++ zeros (size - length bs)
slice-put_padded buf offset bs size short room clean =
    let pad : ℕ = size - length bs in
    let whole : size ≡ length bs + pad = omega arith in
    ap (slice (put buf offset bs) offset) whole
    ∙ slice-put_extend buf offset bs pad (omega arith)
    ∙ ap (◌++◌ bs) (clean (offset + length bs) pad (omega arith) (omega arith))

pub format_key_fields-Formatted :
    (ps : List DescPtr) (vs : List FieldValue) (ks : List ℕ) (offset : ℕ) (buf : Bytes)
    → AllValid ps vs
    → KeyOf vs ks
    → offset + key_space vs ks ≤ length buf
    → Clean buf offset (offset + key_space vs ks)
    → Formatted vs ks offset buf
unfolding format_key_fields key_space
format_key_fields-Formatted ps vs [] offset buf valid fields room clean = record {
  out = buf;
  formatted = refl;
  kept = refl;
  frame = λ o n h. refl;
  placed = tt;
}
format_key_fields-Formatted ps vs (k ∷ ks) offset buf valid fields room clean =
    let (v, there, shown) = fields.0 in
    let (p, _, ok_v) = get_elem?-IsValid ps vs k valid there in
    let (bs, copied, size) = copy_value-Copies p v ok_v shown in
    let space : key_space vs (k ∷ ks) ≡ v.max_size + key_space vs ks =
      ap (λ o. max_of o + key_space vs ks) there in
    let short : length bs ≤ v.max_size =
      omega (arith, size, copied_size-le p.type p.size v ok_v.holds) in
    let buf1 = put buf offset bs in
    let rest =
      format_key_fields-Formatted ps vs ks (offset + v.max_size) buf1 valid fields.2
        (omega (arith, space, room, length-put buf offset bs))
        (λ o n from to.
          slice-put_behind buf offset bs o n (omega arith)
          ∙ clean o n (omega arith) (omega (arith, space, to))) in
    record {
      out = rest.out;
      formatted =
          deref-bind _ there
          ∙ rw (copied, write-ok buf offset bs (omega (arith, space, short, room))) rest.formatted;
      kept = rest.kept ∙ length-put buf offset bs;
      frame = λ o n h. rest.frame o n (omega arith) ∙ slice-put_before buf offset bs o n h;
      placed = (
        v,
        bs,
        there,
        copied,
        omega (arith, space, rest.kept, length-put buf offset bs),
        rest.frame offset v.max_size (omega arith)
            ∙ slice-put_padded buf offset bs v.max_size short (omega (arith, space, room))
                (λ o n from to. clean o n from (omega (arith, space, to))),
        rest.placed,
      );
    }
