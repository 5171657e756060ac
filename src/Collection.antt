-- ===== src/Collection.antt =====
-- `Utils_MixedList` of Src/collection.c: a list of units of 64 pointers, linked both ways. A unit is
-- told by its place in the chain, `none` is NULL; an element's address is its unit and its slot.
pub mod Index
mod Tests
use pdrad.Prelude.{
  ℕ, zero, suc, ◌+◌, ◌-◌, ◌/◌, ◌%◌, ◌^◌, Option, none, some, Bool, true, false, if◌then◌else◌, ltb,
}
use pdrad.Memory.{Run, done, fault, Fault, ◌>>=◌, sub64}

abbrev pub unit_len : ℕ
unit_len = 64

-- The list has `units` nodes; `head` and `tail` are its first and its last,
-- `pointers` what is in them.
pub record MixedList : Type 0 where
  pub count : ℕ
  pub units : ℕ
  pub pointers : ℕ → ℕ → ℕ

abbrev head_unit : ℕ → Option ℕ
head_unit zero = none
head_unit (suc n) = some 0

abbrev tail_unit : ℕ → Option ℕ
tail_unit zero = none
tail_unit (suc n) = some n

abbrev unit_deref : Option ℕ → Run ℕ
unit_deref none = fault Fault.null_pointer
unit_deref (some i) = done i

abbrev next_unit : ℕ → ℕ → Option ℕ
next_unit units i = if ltb (i + 1) units then some (i + 1) else none

abbrev prev_unit : ℕ → Option ℕ
prev_unit zero = none
prev_unit (suc i) = some i

-- The two `for` loops.
unfoldable pub walk : (ℕ → Option ℕ) → ℕ → Option ℕ → Run (Option ℕ)
walk step zero unit = done unit
walk step (suc n) unit = unit_deref unit >>= λ i. walk step n (step i)

-- `Utils_MixedListIndex`. The differences are of `size_t`, the number of steps is a `uint`.
unfoldable pub mixed_list_index : Option MixedList → ℕ → Run (Option (ℕ × ℕ))
unfolding walk
mixed_list_index none index = done none
mixed_list_index (some list) index =
    let last = sub64 list.count 1 in
    if ltb last index then done none else do
      unit ←
          (if ltb index (last / 2)
            then walk (next_unit list.units) (index / unit_len) (head_unit list.units)
            else walk prev_unit (sub64 last index / unit_len % 2 ^ 32) (tail_unit list.units))
      i ← unit_deref unit
      done (some (i, index % unit_len))

-- `Utils_MixedListGet`
unfoldable pub mixed_list_get : Option MixedList → ℕ → Run ℕ
mixed_list_get none index = fault Fault.null_pointer
mixed_list_get (some list) index = do
  element ← mixed_list_index (some list) index
  elim element [ none ↦ fault Fault.null_pointer | some (i, slot) ↦ done (list.pointers i slot) ]

-- `Utils_MixedListSet` finds the element and stores nothing.
unfoldable pub mixed_list_set : Option MixedList → ℕ → ℕ → Run (Option MixedList)
mixed_list_set none index value = done none
mixed_list_set (some list) index value =
    if ltb (sub64 list.count 1) index
    then done (some list)
    else do element ← mixed_list_index (some list) index; done (some list)
