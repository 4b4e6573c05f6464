-- ===== src/Format/Sizes.antt =====
-- The two computations of the size of a record: `size` of a row, and the space of `format`.
use zapps.Prelude.{
  ℕ, ◌+◌, ◌*◌, ◌≡◌, refl, ◌∙◌, arith, true, List, [], ◌∷◌, none, some, ok, assert_some-bind,
  deref-bind,
}
use zapps.Field.{DescPtr, FieldValue}
use zapps.Row.{Row, size, size_from, fixed_space, var_fields}
use zapps.Row.Values.{AllValid, AllShown}
use zapps.Row.Layout.{IsLaidOut, fixed_space-desc_space}
use zapps.Format.{tuple_size}
use zapps.Format.Region.{var_total}
use zapps.Format.Inverse.{record_size, tuple_size-record_size}

size_from_lem :
    (ps : List DescPtr) (vs : List FieldValue)
    → AllValid ps vs
    → AllShown vs
    → size_from vs ≡ ok (var_total ps vs + 8 * var_fields ps + fixed_space ps vs)
unfolding size_from var_total var_fields fixed_space
size_from_lem [] [] valid shown = refl
size_from_lem [] (v ∷ vs) valid shown = absurd valid
size_from_lem (p ∷ ps) [] valid shown = absurd valid
size_from_lem (p ∷ ps) (v ∷ vs) valid shown =
    assert_some-bind _ valid.0.described
    ∙ ground (arith, shown.0, size_from_lem ps vs valid.1 shown.2)

-- For a row without null values that is laid out and set up for a table, with lengths below
-- 2 ^ 64, `size` is the space that `format` without an index asks for.
pub size-tuple_size :
    (ps : List DescPtr) (r : Row) (vs : List FieldValue)
    → IsLaidOut ps r
    → r.is_setup ≡ true
    → r.values ≡ some vs
    → AllValid ps vs
    → AllShown vs
    → (n : ℕ) × (size r ≡ ok n) × (tuple_size r vs none ≡ ok n)
unfolding size record_size
size-tuple_size ps r vs laid flag values valid shown = (
  record_size ps vs,
  rw flag (
      deref-bind _ values
      ∙ rw (size_from_lem ps vs valid shown, laid.nulls)
          (ground (arith, fixed_space-desc_space ps vs valid))),
  tuple_size-record_size ps vs r laid valid shown,
)
