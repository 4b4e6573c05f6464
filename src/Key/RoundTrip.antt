-- ===== src/Key/RoundTrip.antt =====
-- `load_key` reads back what `format_key` wrote, whatever row it is given.
use zapps.Prelude.{
  ℕ, ◌+◌, ◌-◌, ◌≤◌, ◌≡◌, refl, sym, ◌∙◌, ap, subst, arith, false, List, [], ◌∷◌, ◌++◌, length,
  get_elem?, set, some, ok, deref-bind, get_elem?-set_self, get_elem?-set_ne,
}
use zapps.Prelude.Memory.{Bytes, slice}
use zapps.Field.{DescPtr, FieldValue, zeros}
use zapps.Field.Access.{copy_value}
use zapps.Row.Values.{AllValid, get_elem?-AllValid, set-AllValid}
use zapps.Format.Region.{Clean}
use zapps.Format.Loads.{set_value-drop, Enough-max}
use zapps.Key.{format_key_fields, load_key_fields}
use zapps.Key.Places.{
  NotIn, KeyOf, key_space, Placed, get_elem?-IsValid, format_key_fields-Formatted,
}

-- Field `k` of `back` holds what field `k` of `vs` holds, filled up with zeros.
abbrev pub Restored : List FieldValue → List FieldValue → ℕ → Type 0
Restored vs back k =
    (v u : FieldValue) × (bs : Bytes) × (get_elem? vs k ≡ some v)
    × (get_elem? back k ≡ some u)
    × (u.null_flag ≡ false)
    × (copy_value v ≡ ok bs)
    × (copy_value u ≡ ok (bs ++ zeros (v.max_size - length bs)))

abbrev pub AllRestored : List FieldValue → List FieldValue → List ℕ → Type 0
AllRestored vs back [] = Unit {0}
AllRestored vs back (k ∷ ks) = Restored vs back k × AllRestored vs back ks

record Loaded (ps : List DescPtr) (vs : List FieldValue) (out : Bytes) (ks : List ℕ) (offset : ℕ)
    (ws : List FieldValue) : Type 0 where
  pub back : List FieldValue
  pub loaded : load_key_fields out ks offset ws ≡ ok back
  pub valid : AllValid ps back
  pub others : (j : ℕ) → NotIn j ks → get_elem? back j ≡ get_elem? ws j
  pub restored : AllRestored vs back ks

load_key_fields-Loaded :
    (ps : List DescPtr) (vs : List FieldValue) (out : Bytes) (ks : List ℕ) (offset : ℕ)
    (ws : List FieldValue)
    → AllValid ps vs
    → KeyOf vs ks
    → Placed vs out ks offset
    → AllValid ps ws
    → Loaded ps vs out ks offset ws
unfolding load_key_fields
load_key_fields-Loaded ps vs out [] offset ws valid fields placed target = record {
  back = ws;
  loaded = refl;
  valid = target;
  others = λ j h. refl;
  restored = tt;
}
load_key_fields-Loaded ps vs out (k ∷ ks) offset ws valid fields placed target =
    let (v, bs, there, copied, room, shows, more) = placed in
    let (p, at_k, ok_v) = get_elem?-IsValid ps vs k valid there in
    let (w, own, ok_w, in_range) = get_elem?-AllValid ps ws k target at_k in
    let same : v.max_size ≡ w.max_size = ok_v.holds.sized ∙ sym ok_w.holds.sized in
    let (u, e, ok_u, shown, reads) =
      set_value-drop p w out offset w.max_size ok_w (omega (arith, room, same)) (omega arith)
        (Enough-max p.type w) in
    let rest =
      load_key_fields-Loaded ps vs out ks (offset + w.max_size) (set ws k u) valid fields.2
        (subst (λ n. Placed vs out ks (offset + n)) same more)
        (set-AllValid ps ws k u target at_k ok_u) in
    record {
      back = rest.back;
      loaded = deref-bind _ own ∙ rw e rest.loaded;
      valid = rest.valid;
      others = λ j h. rest.others j h.1 ∙ get_elem?-set_ne ws u (λ eq. h.0 (sym eq));
      restored = (
        (
          v,
          u,
          bs,
          there,
          rest.others k fields.1 ∙ get_elem?-set_self ws k u in_range,
          shown,
          copied,
          reads ∙ ap (λ n. ok (slice out offset n)) (sym same) ∙ ap ok shows,
        ),
        rest.restored,
      );
    }

-- For fields of a key that are there, different and not null, and a cleared buffer with room for
-- them, `format_key` succeeds, and `load_key` of what it wrote, into any row of the table, gives
-- each field of the key again, filled up with zeros to its maximal size, and leaves the other
-- fields alone.
pub load_key-format_key :
    (ps : List DescPtr) (vs ws : List FieldValue) (ks : List ℕ) (buf : Bytes)
    → AllValid ps vs
    → AllValid ps ws
    → KeyOf vs ks
    → key_space vs ks ≤ length buf
    → Clean buf 0 (key_space vs ks)
    → (out : Bytes) × (back : List FieldValue) × (format_key_fields vs ks 0 buf ≡ ok out)
      × (load_key_fields out ks 0 ws ≡ ok back)
      × AllValid ps back
      × AllRestored vs back ks
      × ((j : ℕ) → NotIn j ks → get_elem? back j ≡ get_elem? ws j)
load_key-format_key ps vs ws ks buf valid target fields room clean =
    let f =
      format_key_fields-Formatted ps vs ks 0 buf valid fields (omega (arith, room))
        (λ o n from to. clean o n from (omega (arith, to))) in
    let l = load_key_fields-Loaded ps vs f.out ks 0 ws valid fields f.placed target in
    (f.out, l.back, f.formatted, l.loaded, l.valid, l.restored, l.others)
