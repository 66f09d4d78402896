-- ===== src/ClassTable/Tests.antt =====
-- Runs of the class table (korp_src/class/class_table.cpp) with names of one character.
use mini_jvm.Common.{ℕ, ◌≡◌, ◌==◌, if◌then◌else◌, List, [], ◌∷◌, none, ok}
use mini_jvm.ClassTable.{Table, new_class_table, class_table_insert, class_table_remove}
use mini_jvm.ClassTable.Refine.{
  view, IsValid, Models, first_of_two, new-Models, insert-Models, remove-Models,
}

-- The string at address `n` has the one byte `n`, and the class at `c` the name at `c`.
abbrev chars_at : ℕ → List ℕ
chars_at n = n ∷ []

abbrev name_of : ℕ → ℕ
name_of c = c

abbrev empty : Table
empty = new_class_table

empty-IsValid : IsValid chars_at name_of empty
empty-IsValid = (new-Models chars_at name_of).valid

insert-Models_example :
    (t' : Table) × (class_table_insert chars_at name_of empty 65 ≡ ok t')
    × Models chars_at name_of
        (λ n.
          if n == name_of 65
          then first_of_two (view chars_at name_of empty n) 65
          else view chars_at name_of empty n)
        t'
insert-Models_example = insert-Models chars_at name_of empty empty-IsValid 65

remove-Models_example :
    (t' : Table) × (class_table_remove chars_at name_of empty 65 ≡ ok t')
    × Models chars_at name_of
        (λ n. if n == name_of 65 then none else view chars_at name_of empty n)
        t'
remove-Models_example = remove-Models chars_at name_of empty empty-IsValid 65
