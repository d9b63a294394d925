-- ===== src/Builtins/Logic/Laws.antt =====
-- `and` and `or` as selections from their arguments.
use scheme2c.Prelude.{
  ◌≡◌, refl, Bool, not, some, List, [], ◌∷◌, arith, if◌then◌else◌, length, get_elem?,
}
use scheme2c.Value.{Value, symb_f, value_eq}
use scheme2c.Heap.{Heap, bad_argv, ok, fault}
use scheme2c.Builtins.Logic.{and_loop, bin_and, bin_or}

-- The first argument of which `p` says yes, else `d`.
abbrev pub first_or : (Value → Bool) → Value → List Value → Value
first_or p d [] = d
first_or p d (x ∷ xs) = if p x then x else first_or p d xs

abbrev pub last_of : Value → List Value → Value
last_of x [] = x
last_of x (y ∷ ys) = last_of y ys

get_elem?-last :
    (x : Value) (xs : List Value) → get_elem? (x ∷ xs) (length xs) ≡ some (last_of x xs)
get_elem?-last x [] = refl
get_elem?-last x (y ∷ ys) = get_elem?-last y ys

and_loop_lem :
    (x : Value) (xs ys : List Value) (h : Heap)
    → and_loop (x ∷ xs) ys h ≡ ok (first_or (λ v. value_eq v symb_f) (last_of x xs) ys) h
unfolding and_loop
and_loop_lem x xs [] h = ground (arith, get_elem?-last x xs)
and_loop_lem x xs (y ∷ ys) h = ground (arith, and_loop_lem x xs ys h)

bin_or-first :
    (xs : List Value) (h : Heap)
    → bin_or xs h ≡ ok (first_or (λ v. not (value_eq v symb_f)) symb_f xs) h
unfolding bin_or
bin_or-first [] h = refl
bin_or-first (x ∷ xs) h = ground (arith, bin_or-first xs h)

-- On one argument or more `and` returns the first argument that is `#f`, else the last; `or` returns
-- the first that is not `#f`, else `#f`. On no argument `or` returns `#f` and `and` reads outside
-- the argument array. Neither changes the heap where it returns.
pub and_or_lem :
    (x : Value) (xs : List Value) (h : Heap)
    → (bin_and (x ∷ xs) h ≡ ok (first_or (λ v. value_eq v symb_f) (last_of x xs) (x ∷ xs)) h)
      × (bin_or (x ∷ xs) h ≡ ok (first_or (λ v. not (value_eq v symb_f)) symb_f (x ∷ xs)) h)
      × (bin_or [] h ≡ ok symb_f h)
      × (bin_and [] h ≡ fault bad_argv)
unfolding bin_and
and_or_lem x xs h = (and_loop_lem x xs (x ∷ xs) h, bin_or-first (x ∷ xs) h, bin_or-first [] h, refl)
