-- ===== src/Collection/Index.antt =====
-- Which element `Utils_MixedListIndex` finds.
use pdrad.Prelude.{
  ℕ, zero, suc, ◌+◌, ◌-◌, ◌*◌, ◌/◌, ◌%◌, ◌^◌, ◌≤◌, ◌<◌, ◌≡◌, refl, ap, ◌∙◌, ◌⊎◌, inl, inr, Option,
  none, some, true, false, ltb, arith,
}
use pdrad.Memory.{Run, done, fault, Fault, ◌>>=◌, sub64}
use pdrad.Collection.{
  MixedList, walk, next_unit, prev_unit, head_unit, tail_unit, unit_deref, mixed_list_index,
  mixed_list_get, mixed_list_set,
}

walk-next :
    (units n i : ℕ) → i + n < units → walk (next_unit units) n (some i) ≡ done (some (i + n))
unfolding walk
walk-next units zero i h = ap (λ j. done (some j)) (omega arith)
walk-next units (suc n) i h =
    let more : ltb (i + 1) units ≡ true = ground arith in
    let same : i + 1 + n ≡ i + suc n = omega arith in
    rw (more, walk-next units n (i + 1) (omega arith), same)

walk-prev : (n i : ℕ) → n ≤ i → walk prev_unit n (some i) ≡ done (some (i - n))
unfolding walk
walk-prev zero i h = ap (λ j. done (some j)) (omega arith)
walk-prev (suc n) zero h = absurd (omega arith)
walk-prev (suc n) (suc i) h =
    let same : suc i - suc n ≡ i - n = omega arith in rw (walk-prev n i (omega arith), same)

walk_head : (units n : ℕ) → n < units → walk (next_unit units) n (head_unit units) ≡ done (some n)
walk_head zero n h = absurd (omega arith)
walk_head (suc units) n h =
    walk-next (suc units) n 0 (omega arith) ∙ ap (λ j. done (some j)) (omega arith)

walk_tail :
    (units n : ℕ) → n < units → walk prev_unit n (tail_unit units) ≡ done (some (units - 1 - n))
walk_tail zero n h = absurd (omega arith)
walk_tail (suc units) n h = walk-prev n units (omega arith) ∙ ap (λ j. done (some j)) (omega arith)

-- From NULL the loop does not come to an element.
walk_null :
    {A : Type 0} (step : ℕ → Option ℕ) (n : ℕ) (k : ℕ → Run A)
    → (walk step n none >>= λ unit. unit_deref unit >>= k) ≡ fault Fault.null_pointer
unfolding walk
walk_null step zero k = refl
walk_null step (suc n) k = refl

front_or_back : (a b : ℕ) → (a < b) ⊎ (b ≤ a)
front_or_back a b = omega arith

module _ (list : MixedList) (index : ℕ) (small : list.count < 2 ^ 38)
    (inside : index < list.count) where
  mixed_list_index-front :
      list.count ≤ 64 * list.units
      → index < (list.count - 1) / 2
      → mixed_list_index (some list) index ≡ done (some (index / 64, index % 64))
  unfolding mixed_list_index
  mixed_list_index-front fits front =
      let last : sub64 list.count 1 ≡ list.count - 1 = omega arith in
      let here : ltb (list.count - 1) index ≡ false = ground arith in
      let before : ltb index ((list.count - 1) / 2) ≡ true = ground arith in
      rw (last, here, before, walk_head list.units (index / 64) (omega arith))

  mixed_list_index-back :
      list.count ≤ 64 * list.units
      → (list.count - 1) / 2 ≤ index
      → mixed_list_index (some list) index
        ≡ done (some (list.units - 1 - (list.count - 1 - index) / 64, index % 64))
  unfolding mixed_list_index
  mixed_list_index-back fits back =
      let last : sub64 list.count 1 ≡ list.count - 1 = omega arith in
      let here : ltb (list.count - 1) index ≡ false = ground arith in
      let after : ltb index ((list.count - 1) / 2) ≡ false = ground arith in
      let steps : sub64 (list.count - 1) index / 64 % 2 ^ 32 ≡ (list.count - 1 - index) / 64 =
        omega arith in
      rw (
        last,
        here,
        after,
        steps,
        walk_tail list.units ((list.count - 1 - index) / 64) (omega arith),
      )

  -- In a mixed list of less than 2 ^ 38 elements that has as many units as they need,
  -- `Utils_MixedListIndex` finds for an index in the list the element `index % 64` of the unit
  -- `index / 64`, if the index lies in the front half, or the last unit is full, or `index % 64`
  -- is less than the number of elements in the last unit.
  pub mixed_list_index_lem :
      list.units ≡ (list.count + 63) / 64
      → (index < (list.count - 1) / 2) ⊎ ((list.count % 64 ≡ 0) ⊎ (index % 64 < list.count % 64))
      → mixed_list_index (some list) index ≡ done (some (index / 64, index % 64))
  mixed_list_index_lem whole (inl front) = mixed_list_index-front (omega arith) front
  mixed_list_index_lem whole (inr even) = elim (front_or_back index ((list.count - 1) / 2)) [
    | inl front ↦ mixed_list_index-front (omega arith) front
    | inr back ↦
        mixed_list_index-back (omega arith) back
        ∙ ap (λ i. done (some (i, index % 64))) (omega arith)
  ]

  -- In such a list whose last unit is not full, `Utils_MixedListIndex` finds for every index of
  -- the back half whose `index % 64` is not less than the number of elements in the last unit an
  -- element of the unit behind the one meant.
  pub mixed_list_index_late :
      list.units ≡ (list.count + 63) / 64
      → (list.count - 1) / 2 ≤ index
      → 0 < list.count % 64
      → list.count % 64 ≤ index % 64
      → mixed_list_index (some list) index ≡ done (some (index / 64 + 1, index % 64))
  mixed_list_index_late whole back partly late =
      mixed_list_index-back (omega arith) back ∙ ap (λ i. done (some (i, index % 64))) (omega arith)

-- For a 32-bit index that is not in the list, the empty list included, `Utils_MixedListGet` goes
-- through a NULL pointer.
pub mixed_list_get_outside :
    (list : MixedList) (index : ℕ)
    → index < 2 ^ 32
    → list.count < 2 ^ 64
    → list.count ≤ index
    → list.units ≡ (list.count + 63) / 64
    → mixed_list_get (some list) index ≡ fault Fault.null_pointer
unfolding mixed_list_get mixed_list_index walk
mixed_list_get_outside list index small bound outside whole = elim (front_or_back 0 list.count) [
  | inl more ↦ let past : ltb (sub64 list.count 1) index ≡ true = ground arith in rw past
  | inr empty ↦
      let here : ltb (sub64 list.count 1) index ≡ false = ground arith in
      let front : ltb index (sub64 list.count 1 / 2) ≡ true = ground arith in
      let bare : list.units ≡ 0 = omega arith in
      rw (
        here,
        front,
        bare,
        walk_null {A = Option (ℕ × ℕ)} (next_unit 0) (index / 64)
            (λ i. done (some (i, index % 64))),
      )
]

mixed_list_get_lem :
    (list : MixedList) (index : ℕ)
    → list.count < 2 ^ 38
    → index < list.count
    → list.units ≡ (list.count + 63) / 64
    → (index < (list.count - 1) / 2) ⊎ ((list.count % 64 ≡ 0) ⊎ (index % 64 < list.count % 64))
    → mixed_list_get (some list) index ≡ done (list.pointers (index / 64) (index % 64))
unfolding mixed_list_get
mixed_list_get_lem list index small inside whole place =
    rw (mixed_list_index_lem list index small inside whole place)

-- Where `Utils_MixedListIndex` finds the right element, `Utils_MixedListGet` after
-- `Utils_MixedListSet` with any value still gives the old pointer: nothing is stored.
pub mixed_list_set_get :
    (list : MixedList) (index value : ℕ)
    → list.count < 2 ^ 38
    → index < list.count
    → list.units ≡ (list.count + 63) / 64
    → (index < (list.count - 1) / 2) ⊎ ((list.count % 64 ≡ 0) ⊎ (index % 64 < list.count % 64))
    → (mixed_list_set (some list) index value >>= λ list'. mixed_list_get list' index)
      ≡ done (list.pointers (index / 64) (index % 64))
unfolding mixed_list_set
mixed_list_set_get list index value small inside whole place =
    let last : sub64 list.count 1 ≡ list.count - 1 = omega arith in
    let here : ltb (list.count - 1) index ≡ false = ground arith in
    rw (last, here, mixed_list_index_lem list index small inside whole place)
      (mixed_list_get_lem list index small inside whole place)
