-- ===== src/Manager/Memory.antt =====
-- A storage manager in main memory, which keeps its entries.
use zapps.Prelude.{
  ◌≡◌, ◌≢◌, refl, sym, ◌∙◌, ap, List, [], ◌∷◌, Option, some, none, Option-cases, inl, inr,
}
use zapps.Prelude.Memory.{Bytes, put}
use zapps.Manager.Calls.{StorageManager, Error, storage, Found, found_value, found_nothing}
use zapps.Manager.Contents.{Place, Place_discrete, Keeps}
use zapps.Manager.Growth.{Additive}

abbrev pub Contents : Type 0
Contents = List (Place × Bytes)

abbrev pick : {P : Type 0} → Dec P → Option Bytes → Option Bytes → Option Bytes
pick (yes p) here rest = here
pick (no n) here rest = rest

abbrev pub lookup : Contents → Place → Option Bytes
lookup [] a = none
lookup ((b, v) ∷ s) a = pick (Place_discrete b a) (some v) (lookup s a)

abbrev drop_if : {P : Type 0} → Dec P → Contents → Place × Bytes → Contents
drop_if (yes p) s e = s
drop_if (no n) s e = e ∷ s

abbrev erase : Contents → Place → Contents
erase [] a = []
erase ((b, v) ∷ s) a = drop_if (Place_discrete b a) (erase s a) (b, v)

abbrev create_in : Option Bytes → Contents → Place → Bytes → Option Error × Contents
create_in none s a v = (none, (a, v) ∷ s)
create_in (some u) s a v = (some (storage 1), s)

abbrev destroy_in : Option Bytes → Contents → Place → Option Error × Contents
destroy_in none s a = (some (storage 2), s)
destroy_in (some u) s a = (none, erase s a)

abbrev overwrite_in : Option Bytes → Contents → Place → (Bytes → Bytes) → Option Error × Contents
overwrite_in none s a f = (some (storage 2), s)
overwrite_in (some u) s a f = (none, (a, f u) ∷ s)

abbrev find_in : Option Bytes → Found
find_in none = found_nothing
find_in (some v) = found_value v

abbrev pub memory : StorageManager Contents
unfolding put
memory = record {
  create_assoc = λ s i k v. create_in (lookup s (i, k)) s (i, k) v;
  destroy_assoc = λ s i k. destroy_in (lookup s (i, k)) s (i, k);
  overwrite_assoc = λ s i k v offset. overwrite_in (lookup s (i, k)) s (i, k) (λ u. put u offset v);
  find_assoc = λ s i k len. find_in (lookup s (i, k));
}

pub lookup-cons_same : (a : Place) (v : Bytes) (s : Contents) → lookup ((a, v) ∷ s) a ≡ some v
lookup-cons_same a v s = elim (Place_discrete a a) as (λ d. pick d (some v) (lookup s a) ≡ some v) [
  | yes p ↦ refl
  | no n ↦ absurd (n refl)
]

lookup-cons_other :
    (a b : Place) (v : Bytes) (s : Contents) → a ≢ b → lookup ((a, v) ∷ s) b ≡ lookup s b
lookup-cons_other a b v s ne =
    elim (Place_discrete a b) as (λ d. pick d (some v) (lookup s b) ≡ lookup s b) [
      | yes p ↦ absurd (ne p)
      | no n ↦ refl
    ]

lookup-erase_same : (s : Contents) (a : Place) → lookup (erase s a) a ≡ none
lookup-erase_same [] a = refl
lookup-erase_same ((b, v) ∷ s) a =
    elim (Place_discrete b a) as (λ d. lookup (drop_if d (erase s a) (b, v)) a ≡ none) [
      | yes p ↦ lookup-erase_same s a
      | no n ↦ lookup-cons_other b a v (erase s a) n ∙ lookup-erase_same s a
    ]

lookup-erase_other : (s : Contents) (a b : Place) → a ≢ b → lookup (erase s a) b ≡ lookup s b
lookup-erase_other [] a b ne = refl
lookup-erase_other ((c, v) ∷ s) a b ne =
    elim (Place_discrete c a)
      as (λ d. lookup (drop_if d (erase s a) (c, v)) b ≡ lookup ((c, v) ∷ s) b) [
        | yes p ↦
            lookup-erase_other s a b ne ∙ sym (lookup-cons_other c b v s (λ q. ne (sym p ∙ q)))
        | no n ↦ ap (pick (Place_discrete c b) (some v)) (lookup-erase_other s a b ne)
      ]

lookup-again :
    (s : Contents) (a : Place) (v : Bytes)
    → lookup s a ≡ some v
    → (b : Place) → lookup ((a, v) ∷ s) b ≡ lookup s b
lookup-again s a v there b =
    elim (Place_discrete a b) as (λ d. pick d (some v) (lookup s b) ≡ lookup s b) [
      | yes p ↦ sym there ∙ ap (lookup s) p
      | no n ↦ refl
    ]

pub memory-Keeps : Keeps Contents memory lookup
unfolding put
memory-Keeps = record {
  create = λ s a v free. (
    (a, v) ∷ s,
    ap (λ o. create_in o s a v) free,
    lookup-cons_same a v s,
    λ b ne. lookup-cons_other a b v s ne,
  );
  create_taken = λ s a u v there. (storage 1, ap (λ o. create_in o s a v) there);
  destroy = λ s a v there. (
    erase s a,
    ap (λ o. destroy_in o s a) there,
    lookup-erase_same s a,
    λ b ne. lookup-erase_other s a b ne,
  );
  overwrite_nothing = λ s a v there.
      ((a, v) ∷ s, ap (λ o. overwrite_in o s a (λ u. put u 0 [])) there, lookup-again s a v there);
}

lookup-create :
    (s : Contents) (a b : Place) (v u : Bytes)
    → lookup s b ≡ some u
    → lookup (create_in (lookup s a) s a v).1 b ≡ some u
lookup-create s a b v u there = elim (Option-cases (lookup s a)) [
  | inl free ↦
      ap (λ o. lookup (create_in o s a v).1 b) free ∙ lookup-cons_other a b v s (λ e. cc) ∙ there
  | inr (w, taken) ↦ ap (λ o. lookup (create_in o s a v).1 b) taken ∙ there
]

lookup-overwrite :
    (s : Contents) (a b : Place) (u : Bytes)
    → lookup s b ≡ some u
    → lookup (overwrite_in (lookup s a) s a (λ v. put v 0 [])).1 b ≡ some u
unfolding put
lookup-overwrite s a b u there = elim (Option-cases (lookup s a)) [
  | inl free ↦ ap (λ o. lookup (overwrite_in o s a (λ v. put v 0 [])).1 b) free ∙ there
  | inr (w, taken) ↦
      ap (λ o. lookup (overwrite_in o s a (λ v. put v 0 [])).1 b) taken
      ∙ lookup-again s a w taken b
      ∙ there
]

pub memory-Additive : Additive memory lookup
unfolding put
memory-Additive = record {
  create = λ s i k v b u there. lookup-create s (i, k) b v u there;
  overwrite = λ s i k b u there. lookup-overwrite s (i, k) b u there;
}
