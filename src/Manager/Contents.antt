-- ===== src/Manager/Contents.antt =====
-- What a database holds after `add_tuple` and `delete_tuple`, for a storage manager that keeps
-- one value under each key of an index.
use zapps.Prelude.{
  ◌≡◌, ◌≢◌, refl, sym, ◌∙◌, ap, List, [], ◌∷◌, Option, some, none, map, ◌⊎◌, inl, ℕ, inr, subst,
}
use zapps.Prelude.Memory.{Bytes}
use mathlib.Core.HLevel.{×_discrete}
use zapps.Field.{DescPtr, FieldValue}
use zapps.Table.{Stid, IndexDesc}
use zapps.Manager.Calls.{StorageManager, Error, World, done, finish, failed, continue-eq}
use zapps.Manager.Entries.{
  create_all, destroy_all, entry_key, entry_for, HasRecord, entries, add_tuple-create_all,
  delete_tuple-destroy_all,
}
use mathlib.Core.Option.{discrete}
use zapps.Manager.{add_tuple, delete_tuple, update_tuple, primary, rep_key}
use zapps.Manager.Keys.{key_bytes, Same, construct_key-Same}
use native.Mathlib.Decide.{ℕ_discrete}
use zapps.Manager.Runs.{Same-store, Prepared-store, CanStore-Same, CanStore, and_then, Usable-Same}
use mathlib.Core.List.{List-discrete}

-- An index and a key in it.
abbrev pub Place : Type 0
Place = Stid × Bytes

abbrev pub place : Stid × Bytes × Bytes → Place
place (i, k, v) = (i, k)

-- What the code relies on: an entry is made where there is none, an entry that is there is
-- destroyed, the other entries are left alone, and overwriting no byte changes nothing.
pub record Keeps (S : Type 0) (sm : StorageManager S) (lookup : S → Place → Option Bytes)
    : Type 0 where
  pub create :
      (s : S) (a : Place) (v : Bytes)
      → lookup s a ≡ none
      → (s' : S) × (sm.create_assoc s a.0 a.1 v ≡ (none, s'))
        × (lookup s' a ≡ some v)
        × ((b : Place) → a ≢ b → lookup s' b ≡ lookup s b)
  pub create_taken :
      (s : S) (a : Place) (u v : Bytes)
      → lookup s a ≡ some u
      → (e : Error) × (sm.create_assoc s a.0 a.1 v ≡ (some e, s))
  pub destroy :
      (s : S) (a : Place) (v : Bytes)
      → lookup s a ≡ some v
      → (s' : S) × (sm.destroy_assoc s a.0 a.1 ≡ (none, s'))
        × (lookup s' a ≡ none)
        × ((b : Place) → a ≢ b → lookup s' b ≡ lookup s b)
  pub overwrite_nothing :
      (s : S) (a : Place) (v : Bytes)
      → lookup s a ≡ some v
      → (s' : S) × (sm.overwrite_assoc s a.0 a.1 [] 0 ≡ (none, s'))
        × ((b : Place) → lookup s' b ≡ lookup s b)

abbrev pub Each : {A : Type 0} → (A → Type 0) → List A → Type 0
Each P [] = Unit {0}
Each P (x ∷ xs) = P x × Each P xs

Each-zip :
    {A : Type 0} {P Q R : A → Type 0} (xs : List A) (f : (x : A) → P x → Q x → R x)
    → Each P xs
    → Each Q xs
    → Each R xs
Each-zip [] f ps qs = tt
Each-zip (x ∷ xs) f ps qs = (f x ps.0 qs.0, Each-zip xs f ps.1 qs.1)

-- No two of the entries have one place.
abbrev pub Apart : List (Stid × Bytes × Bytes) → Type 0
Apart [] = Unit {0}
Apart (e ∷ es) = Each (λ d. place e ≢ place d) es × Apart es

module _ {S : Type 0} (sm : StorageManager S) (lookup : S → Place → Option Bytes)
    (law : Keeps S sm lookup) where
  abbrev pub Absent : S → List (Stid × Bytes × Bytes) → Type 0
  Absent s = Each (λ e. lookup s (place e) ≡ none)

  abbrev pub AllStored : S → List (Stid × Bytes × Bytes) → Type 0
  AllStored s = Each (λ e. lookup s (place e) ≡ some e.2)

  -- Entries at places that are free and apart are all made.
  create_all-stored :
      (es : List (Stid × Bytes × Bytes)) (s : S)
      → Absent s es
      → Apart es
      → (s' : S) × (create_all sm es s ≡ (none, s'))
        × AllStored s' es
        × ((b : Place) → Each (λ e. place e ≢ b) es → lookup s' b ≡ lookup s b)
  unfolding create_all
  create_all-stored [] s free apart = (s, refl, tt, λ b h. refl)
  create_all-stored (e ∷ es) s free apart =
      let (s1, made, there, others) = law.create s (place e) e.2 free.0 in
      let free1 : Absent s1 es = Each-zip es (λ d ne f. others (place d) ne ∙ f) apart.0 free.1 in
      let (s2, rest, stored, kept) = create_all-stored es s1 free1 apart.1 in
      (
        s2,
        ap (λ r. and_then r (create_all sm es)) made ∙ rest,
        (kept (place e) (Each-zip es (λ d ne u. (λ q. ne (sym q))) apart.0 free1) ∙ there, stored),
        λ b h. kept b h.1 ∙ others b h.0,
      )

  destroy_all-gone :
      (es : List (Stid × Bytes × Bytes)) (s : S)
      → AllStored s es
      → Apart es
      → (s' : S) × (destroy_all sm (map place es) s ≡ (none, s'))
        × Absent s' es
        × ((b : Place) → Each (λ e. place e ≢ b) es → lookup s' b ≡ lookup s b)
  unfolding destroy_all
  destroy_all-gone [] s there apart = (s, refl, tt, λ b h. refl)
  destroy_all-gone (e ∷ es) s there apart =
      let (s1, gone, absent, others) = law.destroy s (place e) e.2 there.0 in
      let there1 : AllStored s1 es =
        Each-zip es (λ d ne f. others (place d) ne ∙ f) apart.0 there.1 in
      let (s2, rest, all_gone, kept) = destroy_all-gone es s1 there1 apart.1 in
      (
        s2,
        ap (λ r. and_then r (destroy_all sm (map place es))) gone ∙ rest,
        (
          kept (place e) (Each-zip es (λ d ne u. (λ q. ne (sym q))) apart.0 there1) ∙ absent,
          all_gone,
        ),
        λ b h. kept b h.1 ∙ others b h.0,
      )

pub Place_discrete : Discrete Place
Place_discrete = ×_discrete (discrete ℕ_discrete) (List-discrete ℕ_discrete)

create_all-refused :
    {S : Type 0} (sm : StorageManager S) {x : Error} (e : Stid × Bytes × Bytes)
    (es : List (Stid × Bytes × Bytes)) (s : S)
    → sm.create_assoc s e.0 e.1 e.2 ≡ (some x, s)
    → create_all sm (e ∷ es) s ≡ (some x, s)
unfolding create_all
create_all-refused sm e es s refused = ap (λ r. and_then r (create_all sm es)) refused

-- A place is the place of an entry, or of none.
among :
    (b : Place) (es : List (Stid × Bytes × Bytes))
    → Each (λ e. place e ≢ b) es ⊎ ((P : Place → Type 0) → Each (λ e. P (place e)) es → P b)
among b [] = inl tt
among b (e ∷ es) = elim (Place_discrete (place e) b) [
  | yes same ↦ inr (λ P ps. subst P same ps.0)
  | no other ↦ elim (among b es) [
    | inl others ↦ inl (other, others)
    | inr one ↦ inr (λ P ps. one P ps.1)
  ]
]

map-entry_key :
    (vs : List FieldValue) (v : Bytes) (is : List IndexDesc)
    → map (entry_key vs) is ≡ map place (map (entry_for vs v) is)
map-entry_key vs v [] = refl
map-entry_key vs v (i ∷ is) = ap (◌∷◌ (entry_key vs i)) (map-entry_key vs v is)

module _ {S : Type 0} (sm : StorageManager S) (lookup : S → Place → Option Bytes)
    (law : Keeps S sm lookup) where
  -- Destroying the entries that were made, the first one last.
  destroy_all-created :
      (e : Stid × Bytes × Bytes) (es : List (Stid × Bytes × Bytes)) (s0 s : S)
      → Absent sm lookup law s0 (e ∷ es)
      → AllStored sm lookup law s (e ∷ es)
      → Apart (e ∷ es)
      → ((b : Place) → Each (λ d. place d ≢ b) (e ∷ es) → lookup s b ≡ lookup s0 b)
      → (s' : S) × (and_then (destroy_all sm (map place es) s) (destroy_all sm (place e ∷ []))
          ≡ (none, s'))
        × ((b : Place) → lookup s' b ≡ lookup s0 b)
  destroy_all-created e es s0 s free stored apart frame =
      let (s1, gone, absent, kept) = destroy_all-gone sm lookup law es s stored.1 apart.1 in
      let apart_from : Each (λ d. place d ≢ place e) es =
        Each-zip es (λ d ne u. (λ q. ne (sym q))) apart.0 absent in
      let (s2, last, absent2, kept2) =
        destroy_all-gone sm lookup law (e ∷ []) s1 (kept (place e) apart_from ∙ stored.0, tt)
          (tt, tt) in
      let absent3 : Absent sm lookup law s2 es =
        Each-zip es (λ d ne a. kept2 (place d) (ne, tt) ∙ a) apart.0 absent in
      (
        s2,
        ap (λ r. and_then r (destroy_all sm (place e ∷ []))) gone ∙ last,
        λ b. elim (among b (e ∷ es)) [
          | inl other ↦ kept2 b (other.0, tt) ∙ kept b other.1 ∙ frame b other
          | inr one ↦
              one (λ a. lookup s2 a ≡ lookup s0 a)
                (absent2.0 ∙ sym free.0, Each-zip es (λ d a f. a ∙ sym f) absent3 free.1)
        ],
      )

  module _ (heap : ℕ → ℕ) (ps : List DescPtr) (vs : List FieldValue) (w : World S) (p : IndexDesc)
      (bs : Bytes) (can : CanStore ps vs w p) where
    -- For a storage manager that keeps its entries, a row that is set up and can be formatted,
    -- and usable indexes in which none of its keys is taken: `add_tuple` succeeds and makes an
    -- entry in each index, and a `delete_tuple` after it succeeds and leaves under every key what
    -- was there before.
    pub delete_tuple-add_tuple :
        HasRecord sm heap ps vs w bs
        → Absent sm lookup law w.store (entries vs bs p w.table.indexes)
        → Apart (entries vs bs p w.table.indexes)
        → (w1 : World S) × (w2 : World S) × (add_tuple sm heap w ≡ done tt w1)
          × AllStored sm lookup law w1.store (entries vs bs p w.table.indexes)
          × (delete_tuple sm heap w1 ≡ done tt w2)
          × ((b : Place) → lookup w2.store b ≡ lookup w.store b)
    delete_tuple-add_tuple has free apart =
        let es : List (Stid × Bytes × Bytes) =
          map (entry_for vs (key_bytes vs p.key)) w.table.indexes in
        let t = add_tuple-create_all sm heap ps vs w p bs can has in
        let (s1, made, stored, kept) =
          create_all-stored sm lookup law (entries vs bs p w.table.indexes) w.store free apart in
        let w1 : World S = record t.final { store = s1 } in
        let same : Same w w1 = Same-store ps vs t.final s1 t.same in
        let can1 : CanStore ps vs w1 p =
          CanStore-Same ps vs (Prepared-store ps vs t.final s1 t.ready) same can in
        let d = delete_tuple-destroy_all sm heap ps vs w1 p can1 in
        let (s2, gone, back) =
          destroy_all-created (entry_for vs bs p) es w.store s1 free stored apart kept in
        let keys : map (entry_key vs) w1.table.indexes ≡ map place es =
          ap (λ t. map (entry_key vs) t.indexes) same.table
          ∙ map-entry_key vs (key_bytes vs p.key) w.table.indexes in
        (
          w1,
          record d.final { store = s2 },
          t.ends ∙ ap (λ r. finish r t.final) made,
          stored,
          d.ends
              ∙ ap
                  (λ ks.
                    finish (and_then (destroy_all sm ks s1) (destroy_all sm (entry_key vs p ∷ [])))
                      d.final)
                  keys
              ∙ ap (λ r. finish r d.final) gone,
          back,
        )

    -- For a storage manager that keeps its entries, a row that is set up, usable indexes, and a
    -- record under the row's primary key: `update_tuple` succeeds, and leaves under every key what
    -- was there before, whatever the row holds.
    pub update_tuple-unchanged :
        {v : Bytes}
        → lookup w.store (entry_key vs p) ≡ some v
        → (w1 : World S) × (update_tuple sm heap w ≡ done tt w1)
          × ((b : Place) → lookup w1.store b ≡ lookup w.store b)
    unfolding update_tuple
    update_tuple-unchanged {v = v} there =
        let (s1, written, back) = law.overwrite_nothing w.store (entry_key vs p) v there in
        let (w1, built, ready, same, kept) =
          construct_key-Same sm heap ps vs w primary p rep_key can.ready can.primary_usable in
        (
          record w1 { store = s1 },
          continue-eq _ built
              ∙ rw ((Usable-Same ps vs primary p same can.primary_usable).at, kept, written) refl,
          back,
        )

    -- For a storage manager that keeps its entries, a row that is set up and can be formatted,
    -- usable indexes, and a record under the row's primary key: `add_tuple` fails, and the
    -- database is as it was.
    pub add_tuple-taken :
        HasRecord sm heap ps vs w bs
        → {v : Bytes} → lookup w.store (entry_key vs p) ≡ some v
        → (e : Error) × (w1 : World S) × (add_tuple sm heap w ≡ failed e w1) × (w1.store ≡ w.store)
    add_tuple-taken has {v = v} there =
        let t = add_tuple-create_all sm heap ps vs w p bs can has in
        let (e, refused) = law.create_taken w.store (entry_key vs p) v bs there in
        let es : List (Stid × Bytes × Bytes) =
          map (entry_for vs (key_bytes vs p.key)) w.table.indexes in
        (
          e,
          record t.final { store = w.store },
          t.ends
              ∙ ap (λ r. finish r t.final)
                  (create_all-refused sm (entry_for vs bs p) es w.store refused),
          refl,
        )
