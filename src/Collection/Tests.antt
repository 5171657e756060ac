-- ===== src/Collection/Tests.antt =====
-- The theorems on the mixed list at concrete inputs.
use pdrad.Prelude.{◌+◌, ◌*◌, ◌≡◌, refl, inr, some, arith}
use pdrad.Memory.{done, fault, Fault, ◌>>=◌}
use pdrad.Collection.{MixedList, mixed_list_index, mixed_list_get, mixed_list_set}
use pdrad.Collection.Index.{
  mixed_list_index_lem, mixed_list_index_late, mixed_list_get_outside, mixed_list_set_get,
}

-- Seventy elements in two units.
abbrev seventy : MixedList
seventy = record { count = 70; units = 2; pointers = λ i slot. 64 * i + slot }

mixed_list_index_lem_example : mixed_list_index (some seventy) 66 ≡ done (some (1, 2))
mixed_list_index_lem_example =
    mixed_list_index_lem seventy 66 (omega arith) (omega arith) refl (inr (inr (omega arith)))

mixed_list_index_late_example : mixed_list_index (some seventy) 40 ≡ done (some (1, 40))
mixed_list_index_late_example =
    mixed_list_index_late seventy 40 (omega arith) (omega arith) refl (omega arith) (omega arith)
      (omega arith)

mixed_list_get_outside_example : mixed_list_get (some seventy) 70 ≡ fault Fault.null_pointer
mixed_list_get_outside_example =
    mixed_list_get_outside seventy 70 (omega arith) (omega arith) (omega arith) refl

mixed_list_set_get_example :
    (mixed_list_set (some seventy) 66 7 >>= λ list. mixed_list_get list 66) ≡ done 66
mixed_list_set_get_example =
    mixed_list_set_get seventy 66 7 (omega arith) (omega arith) refl (inr (inr (omega arith)))
