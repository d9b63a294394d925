-- ===== src/Interpret/Operands.antt =====
-- What the commands of src/interpret.c do in terms of the operands that they were made from.
use scheme2c.Prelude.{
  ℕ, zero, suc, ◌-◌, ◌%◌, ◌^◌, ◌<◌, ◌≡◌, refl, ◌⊎◌, inl, inr, Bool, true, false, none, some, arith,
  ◌==◌,
}
use scheme2c.Value.{Value, nihil, spec, fixnum, char, local, global, ptr}
use scheme2c.Interpret.Command.{
  VarInfo, Cat, cat_l, cat_g, cat_k, Operand, descr_of, resolved, value_cat, varinf_value,
}
use scheme2c.Interpret.Machine.{
  vars, closr, Machine, Turn, fault, Got, got, vec_get, vec_set, with_got, stored, closure_at,
  saved_of, kept_vec, kept_got, get_var_l, get_var_g, get_var_k, global_got, set_global, set_kept,
  set_var_l, set_var_g, set_var_k, ipnext,
}

-- The variable that a descriptor means: one of the frame on top, one of a vector that the closure
-- keeps, or a global one. Any other descriptor stands for itself.
abbrev pub value_in : Machine → Value → (self : Value) → Got
value_in m (local zero ix) d = vec_get m.store (vars m.fr_top) ix
value_in m (local (suc fr) ix) d = kept_got m (saved_of (closure_at m.store (closr m.fr_top)) fr) ix
value_in m (global n) d = global_got (m.store.globals n)
value_in m _ d = got d

abbrev pub denoted : Machine → Operand → Got
denoted m x = value_in m (resolved x) (descr_of x)

-- An assignment to it.
abbrev pub assigned : Machine → Value → Got → Turn
assigned m (local zero ix) g =
    with_got g m.store (λ a. stored m (vec_set m.store (vars m.fr_top) ix a))
assigned m (local (suc fr) ix) g =
    set_kept m (saved_of (closure_at m.store (closr m.fr_top)) fr) ix g
assigned m (global n) g = set_global m n g (m.store.globals n)
assigned m _ g = fault

-- The indices fit into the 32 bits of a `varinfo_t`.
abbrev pub InUint : Value → Type 0
InUint (local fr ix) = (fr < 2 ^ 32) × (ix < 2 ^ 32)
InUint (global n) = n < 2 ^ 32
InUint _ = Unit {0}

abbrev pub IsVar : Value → Type 0
IsVar (local fr ix) = Unit {0}
IsVar (global n) = Unit {0}
IsVar _ = ⊥

abbrev pub is_kept : Cat → Bool
is_kept cat_k = true
is_kept _ = false

-- A variable that the closure keeps.
abbrev pub kept_var : Value → Bool
kept_var (local (suc fr) ix) = true
kept_var _ = false

abbrev pub get_by : Cat → Machine → VarInfo → Got
get_by cat_l = get_var_l
get_by cat_g = get_var_g
get_by cat_k = get_var_k

abbrev pub put_by : Cat → Machine → VarInfo → Got → Turn
put_by cat_l = set_var_l
put_by cat_g = set_var_g
put_by cat_k = set_var_k

small : (n : ℕ) → n < 2 ^ 32 → n % 2 ^ 32 ≡ n
small n h = omega arith

suc-is_zero : (n : ℕ) → (suc n == 0) ≡ false
suc-is_zero n = ground arith

suc-sub : (n : ℕ) → suc n - 1 ≡ n
suc-sub n = omega arith

kept_vec-suc :
    (m : Machine) (n : ℕ) → kept_vec m (suc n) ≡ saved_of (closure_at m.store (closr m.fr_top)) n
kept_vec-suc m n = rw (suc-is_zero n, suc-sub n) refl

-- What a variable's category and its varinfo_t lead to.
pub record Means (v : Value) (c : Cat) : Type 0 where
  pub is_cat : value_cat v ≡ some c
  pub keeps : kept_var v ≡ is_kept c
  pub reads : (m : Machine) (d : Value) → get_by c m (varinf_value v) ≡ value_in m v d
  pub assigns : (m : Machine) (g : Got) → put_by c m (varinf_value v) g ≡ assigned m v g

pub IsVar-Means : (v : Value) → IsVar v → InUint v → (c : Cat) × Means v c
unfolding get_var_l get_var_g get_var_k set_var_l set_var_g set_var_k
IsVar-Means (local zero ix) i u = (
  cat_l,
  record {
    is_cat = refl;
    keeps = refl;
    reads = λ m d. rw (small ix u.1) refl;
    assigns = λ m g. rw (small ix u.1) refl;
  },
)
IsVar-Means (local (suc fr) ix) i u = (
  cat_k,
  record {
    is_cat = rw (suc-is_zero fr) refl;
    keeps = refl;
    reads = λ m d. rw (small ix u.1, small (suc fr) u.0, kept_vec-suc m fr) refl;
    assigns = λ m g. rw (small ix u.1, small (suc fr) u.0, kept_vec-suc m fr) refl;
  },
)
IsVar-Means (global n) i u = (
  cat_g,
  record {
    is_cat = refl;
    keeps = refl;
    reads = λ m d. rw (small n u) refl;
    assigns = λ m g. rw (small n u) refl;
  },
)
IsVar-Means nihil i u = elim i [ ]
IsVar-Means (spec n) i u = elim i [ ]
IsVar-Means (fixnum n) i u = elim i [ ]
IsVar-Means (char n) i u = elim i [ ]
IsVar-Means (ptr n) i u = elim i [ ]

-- A variable, or a descriptor that stands for itself.
pub IsVar-cases :
    (v : Value)
    → IsVar v ⊎ ((value_cat v ≡ none) × ((m : Machine) (d : Value) → value_in m v d ≡ got d))
IsVar-cases (local fr ix) = inl tt
IsVar-cases (global n) = inl tt
IsVar-cases nihil = inr (refl, λ m d. refl)
IsVar-cases (spec n) = inr (refl, λ m d. refl)
IsVar-cases (fixnum n) = inr (refl, λ m d. refl)
IsVar-cases (char n) = inr (refl, λ m d. refl)
IsVar-cases (ptr n) = inr (refl, λ m d. refl)

-- The turn behind an assignment: SET_K_D stays at its own index.
abbrev pub advanced : (stays : Bool) → Turn → Turn
advanced true t = t
advanced false t = ipnext t
