-- ===== src/Examples/Tables.antt =====
-- Small hash tables.
use gantt.Prelude.{ℕ, ◌≡◌, none, some, if◌then◌else◌}
use gantt.Text.{codes, streq}
use gantt.Hashtable.{Hashtable, new, insert, lookup, remove}
use gantt.Hashtable.Invariant.{IsValid}
use gantt.Hashtable.Resize.{new-IsValid}
use gantt.Hashtable.Refines.{insert-IsValid, lookup-insert, remove_lem}

abbrev one_entry : Hashtable ℕ
one_entry = insert new (codes "src") 1

one_entry-IsValid : IsValid one_entry
one_entry-IsValid = insert-IsValid new (codes "src") 1 new-IsValid

insert-IsValid_example : IsValid (insert one_entry (codes "dest") 2)
insert-IsValid_example = insert-IsValid one_entry (codes "dest") 2 one_entry-IsValid

lookup-insert_example :
    lookup (insert one_entry (codes "dest") 2) (codes "src")
    ≡ (if streq (codes "dest") (codes "src") then some 2 else lookup one_entry (codes "src"))
lookup-insert_example = lookup-insert one_entry (codes "dest") (codes "src") 2 one_entry-IsValid

remove_lem_example :
    ((remove one_entry (codes "src")).1 ≡ lookup one_entry (codes "src"))
    × (lookup (remove one_entry (codes "src")).0 (codes "src")
        ≡ (if streq (codes "src") (codes "src") then none else lookup one_entry (codes "src")))
remove_lem_example = remove_lem one_entry (codes "src") (codes "src") one_entry-IsValid
