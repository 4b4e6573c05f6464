-- ===== src/Format/Inverse.antt =====
-- `format` and `load` as a whole: the space, the scratchpad, and both loops.
use zapps.Prelude.{
  deref-bind, ℕ, ◌+◌, ◌*◌, ◌/◌, ◌≤◌, ◌<◌, ◌≡◌, refl, ◌∙◌, ap, arith, List, [], ◌∷◌, length, none,
  some, Option, ok, ◌==◌, if◌then◌else◌, Bool-cases, inl, inr, assert_some-bind, ltb,
  length-replicate, zero, suc,
}
use zapps.Prelude.Memory.{Bytes, slice, put, malloc, write-ok, length-put, length-malloc}
use zapps.Field.{DescPtr, FieldValue, zeros}
use zapps.Field.Valid.{buffer_length}
use zapps.Row.{
  Row, RepRow, set_rep, set_rep_in, clear_rep, var_fields, nullable_fields, fixed_space,
}
use zapps.Row.Values.{AllValid, AllShown}
use zapps.Row.Layout.{IsLaidOut, flag_bytes, desc_space, fixed_space-desc_space}
use zapps.Format.{var_space, skips, tuple_size, start, format, load}
use zapps.Format.Region.{Fits, Clean, var_total}
use zapps.Format.RoundTrip.{loops-Trip, AllReloaded}

pub slice-zeros : (n o k : ℕ) → o + k ≤ n → slice (zeros n) o k ≡ zeros k
unfolding slice
slice-zeros n zero zero h = refl
slice-zeros zero zero (suc k) h = absurd (omega arith)
slice-zeros (suc n) zero (suc k) h = ap (◌∷◌ 0) (slice-zeros n zero k (omega arith))
slice-zeros zero (suc o) k h = absurd (omega arith)
slice-zeros (suc n) (suc o) k h = slice-zeros n o k (omega arith)

-- memset(buf, 0, n) clears the first `n` bytes.
put-zeros-Clean : (buf : Bytes) (n : ℕ) → n ≤ length buf → Clean (put buf 0 (zeros n)) 0 n
unfolding slice put
put-zeros-Clean buf zero l zero zero a b = refl
put-zeros-Clean buf zero l zero (suc k) a b = absurd (omega arith)
put-zeros-Clean buf zero l (suc o) k a b = absurd (omega arith)
put-zeros-Clean [] (suc n) l o k a b = absurd (omega arith)
put-zeros-Clean (x ∷ buf) (suc n) l zero zero a b = refl
put-zeros-Clean (x ∷ buf) (suc n) l zero (suc k) a b =
    ap (◌∷◌ 0) (put-zeros-Clean buf n (omega arith) 0 k (omega arith) (omega arith))
put-zeros-Clean (x ∷ buf) (suc n) l (suc o) k a b =
    put-zeros-Clean buf n (omega arith) o k (omega arith) (omega arith)

-- The scratchpad knows the length of its buffer.
abbrev pub HoldsRep : RepRow → Type 0
HoldsRep rep = buffer_length rep.dest ≡ rep.bufsz

-- What `set` leaves: a buffer of at least `n` bytes, of which the first `n` are clear.
pub record Ready (rep : RepRow) (n : ℕ) (rep' : RepRow) (buf : Bytes) : Type 0 where
  pub dest : rep'.dest ≡ some buf
  pub room : n ≤ length buf
  pub clean : Clean buf 0 n
  pub holds : HoldsRep rep'
  pub nbytes : rep'.nbytes ≡ rep.nbytes

clear_rep-Ready :
    (rep : RepRow) (buf : Bytes) (size n : ℕ)
    → length buf ≡ size
    → n ≤ size
    → (rep' : RepRow) × (buf' : Bytes) × (clear_rep rep buf size n ≡ ok rep')
      × Ready rep n rep' buf'
unfolding clear_rep
clear_rep-Ready rep buf size n e h = (
  record rep { dest = some (put buf 0 (zeros n)); bufsz = size },
  put buf 0 (zeros n),
  ground (arith, length-replicate {A = ℕ} n 0, write-ok buf 0 (zeros n)),
  record {
    dest = refl;
    room = omega (arith, length-put buf 0 (zeros n));
    clean = put-zeros-Clean buf n (omega arith);
    holds = length-put buf 0 (zeros n) ∙ e;
    nbytes = refl;
  },
)

set_rep_in-Ready :
    (heap : ℕ → ℕ) (rep : RepRow) (o : Option Bytes) (n : ℕ)
    → buffer_length o ≡ rep.bufsz
    → n ≤ rep.nbytes
    → (rep' : RepRow) × (buf : Bytes) × (set_rep_in heap rep o n ≡ ok rep') × Ready rep n rep' buf
unfolding set_rep_in
set_rep_in-Ready heap rep none n held fits =
    clear_rep-Ready rep (malloc heap rep.nbytes) rep.nbytes n (length-malloc heap rep.nbytes) fits
set_rep_in-Ready heap rep (some buf) n held fits = elim (Bool-cases (ltb rep.bufsz n)) [
  | inl small ↦ rw small (
      clear_rep-Ready rep (malloc heap rep.nbytes) rep.nbytes n (length-malloc heap rep.nbytes)
        fits)
  | inr large ↦ rw large (clear_rep-Ready rep buf rep.bufsz n held (ground arith))
]

-- For a scratchpad that knows its buffer's size, and a size that the pool's buffers have: `set`
-- succeeds, and leaves a buffer of at least that size with its first bytes cleared, and a
-- scratchpad that knows its size.
pub set_rep-Ready :
    (heap : ℕ → ℕ) (rep : RepRow) (n : ℕ)
    → HoldsRep rep
    → n ≤ rep.nbytes
    → (rep' : RepRow) × (buf : Bytes) × (set_rep heap rep n ≡ ok rep') × Ready rep n rep' buf
unfolding set_rep
set_rep-Ready heap rep n held fits = set_rep_in-Ready heap rep rep.dest n held fits

-- Without an index, the space of the variable fields is their lengths and their slots.
var_space-none :
    (ps : List DescPtr) (vs : List FieldValue) (i : ℕ)
    → AllValid ps vs
    → AllShown vs
    → var_space none i vs ≡ ok (var_total ps vs + 8 * var_fields ps)
unfolding var_space skips var_total var_fields
var_space-none [] [] i valid shown = refl
var_space-none [] (v ∷ vs) i valid shown = absurd valid
var_space-none (p ∷ ps) [] i valid shown = absurd valid
var_space-none (p ∷ ps) (v ∷ vs) i valid shown =
    assert_some-bind _ valid.0.described
    ∙ ground (arith, shown.0, var_space-none ps vs (i + 1) valid.1 shown.2)

-- The size of a record without null values.
unfoldable pub record_size : List DescPtr → List FieldValue → ℕ
record_size ps vs =
    var_total ps vs
    + 8 * var_fields ps
    + desc_space ps
    + (if nullable_fields ps == 0 then 0 else nullable_fields ps / 8 + 1)

module _ (ps : List DescPtr) (vs : List FieldValue) (r : Row) (laid : IsLaidOut ps r)
    (valid : AllValid ps vs) (shown : AllShown vs) where
  pub tuple_size-record_size : tuple_size r vs none ≡ ok (record_size ps vs)
  unfolding tuple_size record_size
  tuple_size-record_size =
      rw (var_space-none ps vs 0 valid shown, laid.nulls) (ap ok (omega (arith, laid.slots)))

  flags-le-size : flag_bytes (nullable_fields ps) ≤ record_size ps vs
  unfolding record_size
  flags-le-size = ground arith

  fixed-le-size : r.fixed_offset + fixed_space ps vs ≤ record_size ps vs
  unfolding record_size
  fixed-le-size = let e = fixed_space-desc_space ps vs valid in ground (arith, laid.flags)

  Fits-start :
      (n : ℕ) → record_size ps vs ≤ n → Fits (flag_bytes (nullable_fields ps)) n ps vs (start r)
  unfolding record_size start
  Fits-start n h =
      let e = fixed_space-desc_space ps vs valid in
      ground (arith, laid.flags, laid.slots, laid.vars)

start-eq : (ps : List DescPtr) (r s : Row) → IsLaidOut ps r → IsLaidOut ps s → start r ≡ start s
unfolding start
start-eq ps r s lr ls = ground (arith, lr.flags, lr.slots, lr.vars, ls.flags, ls.slots, ls.vars)

module _ (heap : ℕ → ℕ) (rep : RepRow) (r s : Row) (ps : List DescPtr)
    (vs ws : List FieldValue) where
  -- Both rows are laid out for the table and set up, no value of the first is null, and the pool's
  -- buffers hold the record.
  pub record Formattable : Type 0 where
    pub source : IsLaidOut ps r
    pub source_values : r.values ≡ some vs
    pub source_valid : AllValid ps vs
    pub shown : AllShown vs
    pub target : IsLaidOut ps s
    pub target_values : s.values ≡ some ws
    pub target_valid : AllValid ps ws
    pub scratchpad : HoldsRep rep
    pub nonempty : 0 < record_size ps vs
    pub fits : record_size ps vs ≤ rep.nbytes

  -- For two rows that are laid out and set up for one table, the first without null values and
  -- with lengths below 2 ^ 64, a record that is not empty, and a scratchpad that knows its
  -- buffer's size and whose pool has buffers for the record: `format` without an index succeeds
  -- with the size of the record, and `load` of the record into the second row gives each value
  -- again, a value of fixed length that was shorter filled up with zeros.
  pub load-format :
      Formattable
      → (rep' : RepRow) × (out : Bytes) × (back : List FieldValue) × (format heap rep r none
          ≡ ok (rep', record_size ps vs))
        × (rep'.dest ≡ some out)
        × (load s out none ≡ ok (record s { values = some back }))
        × AllReloaded ps vs back
  unfolding format load
  load-format f =
      let (rep1, buf, made, ready) =
        set_rep-Ready heap rep (record_size ps vs) f.scratchpad f.fits in
      let fits = Fits-start ps vs r f.source f.source_valid f.shown (length buf) ready.room in
      let trip =
        loops-Trip (flag_bytes (nullable_fields ps)) ps vs ws 0 (start r) buf fits
          (λ o n from to.
            ready.clean o n from
              (omega (arith, to, flags-le-size ps vs r f.source f.source_valid f.shown)))
          (λ o n from to.
            ready.clean o n (omega arith)
              (omega (arith, to, fixed-le-size ps vs r f.source f.source_valid f.shown)))
          f.source_valid f.shown f.target_valid in
      (
        record rep1 { dest = some trip.out },
        trip.out,
        trip.back,
        deref-bind _ f.source_values
            ∙ ground (
              arith,
              tuple_size-record_size ps vs r f.source f.source_valid f.shown,
              made,
              ready.dest,
              trip.formatted,
              f.nonempty,
            ),
        refl,
        deref-bind _ f.target_values
            ∙ ground (arith, start-eq ps r s f.source f.target, trip.loaded),
        trip.same,
      )
