-- ===== src/Listener/Forward/Sorted.antt =====
-- `sorted_headers` keeps every header.
use scety.Prelude.{List, [], ◌∷◌, if_cases, Any, here, there}
use scety.Text.{Text}
use scety.Map.{Map}
use scety.Listener.Forward.{text_leb, insert_sorted, sorted_headers}

insert_sorted-Any :
    (P : Text × Text → Type 0) (h : Text × Text) (hs : List (Text × Text))
    → Any P (h ∷ hs)
    → Any P (insert_sorted h hs)
unfolding insert_sorted
insert_sorted-Any P h [] a = a
insert_sorted-Any P h (g ∷ gs) a =
    if_cases (Any P) (text_leb h.0 g.0) (h ∷ g ∷ gs) (g ∷ insert_sorted h gs) (λ _. a)
      (λ _. elim a [
        | here p ↦ there (insert_sorted-Any P h gs (here p))
        | there (here q) ↦ here q
        | there (there b) ↦ there (insert_sorted-Any P h gs (there b))
      ])

pub sorted_headers-Any :
    (P : Text × Text → Type 0) (headers : Map Text) → Any P headers → Any P (sorted_headers headers)
unfolding sorted_headers
sorted_headers-Any P [] a = elim a [ ]
sorted_headers-Any P (h ∷ hs) (here p) = insert_sorted-Any P h (sorted_headers hs) (here p)
sorted_headers-Any P (h ∷ hs) (there a) =
    insert_sorted-Any P h (sorted_headers hs) (there (sorted_headers-Any P hs a))
