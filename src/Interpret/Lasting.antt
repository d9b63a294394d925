-- ===== src/Interpret/Lasting.antt =====
-- Commands that `icod_create` (src/interpret.c) never takes off, and the first command of an instruction.
use scheme2c.Prelude.{ℕ, ◌≡◌, refl, Bool, true, false, Option, none, some, List, [], ◌∷◌, length}
use mathlib.Core.Path.{subst}
use scheme2c.Value.{Value, nihil, ptr}
use scheme2c.Interpret.Command.{
  VarInfo, Cat, cat_l, cat_g, cat_k, var_cat, varinf_set, descr_of, Operand, Expr, operand, lambda,
  Vmi, lit, lmd, var_lit, var_var, var, prep, Lcod, ret, mark, if_not, jmp,
}
use scheme2c.Interpret.Command as Command
use scheme2c.Interpret.Encode.{
  vmi_set_xy, set_by, vmi_def_xy, def_by, vmi_ret_x, ret_by, vmi_prep_x, by_cat, vmi_if_x, vmi_jmp,
}
use scheme2c.Interpret.Create.{is_set_of, with_lit}

-- A command without its literal, which is set later where it is the target of a jump.
abbrev pub shape : Option Vmi → Option Vmi
shape (some (lit op d)) = some (lit op nihil)
shape (some (var_lit op v d)) = some (var_lit op v nihil)
shape o = o

-- The first command of an instruction, and of linear code; `none` where there is none.
abbrev pub first_expr : Expr → (Operand → Option Vmi) → Option Vmi
first_expr (operand y) simple = simple y
first_expr (lambda k) simple = some (lit lmd (ptr k))
first_expr (Expr.call p args) simple = vmi_prep_x p (length args) false

abbrev pub first_ret : Expr → Option Vmi
first_ret (operand y) = some (vmi_ret_x y)
first_ret (lambda k) = some (lit lmd (ptr k))
first_ret (Expr.call p args) = vmi_prep_x p (length args) true

abbrev pub first_command : List Lcod → Option Vmi
first_command [] = none
first_command (mark m ∷ ls) = first_command ls
first_command (Command.set x r ∷ ls) = first_expr r (vmi_set_xy x)
first_command (Command.def x r ∷ ls) = first_expr r (vmi_def_xy x)
first_command (ret r ∷ ls) = first_ret r
first_command (Command.call p args ∷ ls) = vmi_prep_x p (length args) false
first_command (if_not x m ∷ ls) = vmi_if_x x nihil
first_command (jmp m ∷ ls) = some (vmi_jmp nihil)

-- A command that is never taken off.
abbrev pub Lasting : Option Vmi → Type 0
Lasting o = (fr ix : ℕ) → is_set_of o fr ix ≡ false

set_by-Lasting : (x y : VarInfo) (d : Value) (c k : Option Cat) → Lasting (set_by x y d c k)
set_by-Lasting x y d none k fr ix = refl
set_by-Lasting x y d (some c) none fr ix = refl
set_by-Lasting x y d (some c) (some k) fr ix = refl

def_by-Lasting : (x y : VarInfo) (d : Value) (c k : Option Cat) → Lasting (def_by x y d c k)
def_by-Lasting x y d none k fr ix = refl
def_by-Lasting x y d (some cat_l) k fr ix = refl
def_by-Lasting x y d (some cat_k) k fr ix = refl
def_by-Lasting x y d (some cat_g) none fr ix = refl
def_by-Lasting x y d (some cat_g) (some cat_l) fr ix = refl
def_by-Lasting x y d (some cat_g) (some cat_g) fr ix = refl
def_by-Lasting x y d (some cat_g) (some cat_k) fr ix = refl

ret_by-Lasting : (x : VarInfo) (d : Value) (c : Option Cat) → Lasting (some (ret_by x d c))
ret_by-Lasting x d none fr ix = refl
ret_by-Lasting x d (some cat_l) fr ix = refl
ret_by-Lasting x d (some cat_g) fr ix = refl
ret_by-Lasting x d (some cat_k) fr ix = refl

by_cat-Lasting :
    (f : Cat → Vmi) (c : Option Cat) → ((k : Cat) → Lasting (some (f k))) → Lasting (by_cat f c)
by_cat-Lasting f none h fr ix = refl
by_cat-Lasting f (some c) h fr ix = h c fr ix

pub prep_x-Lasting : (x : Operand) (n : ℕ) (tail : Bool) → Lasting (vmi_prep_x x n tail)
unfolding vmi_prep_x
prep_x-Lasting x n tail = by_cat-Lasting _ (var_cat x) (λ k fr ix. refl)

pub if_x-Lasting : (x : Operand) → Lasting (vmi_if_x x nihil)
unfolding vmi_if_x
if_x-Lasting x = by_cat-Lasting _ (var_cat x) (λ k fr ix. refl)

pub set_xy-Lasting : (x y : Operand) → Lasting (vmi_set_xy x y)
unfolding vmi_set_xy
set_xy-Lasting x y =
    set_by-Lasting (varinf_set x) (varinf_set y) (descr_of y) (var_cat x) (var_cat y)

pub def_xy-Lasting : (x y : Operand) → Lasting (vmi_def_xy x y)
unfolding vmi_def_xy
def_xy-Lasting x y =
    def_by-Lasting (varinf_set x) (varinf_set y) (descr_of y) (var_cat x) (var_cat y)

ret_x-Lasting : (x : Operand) → Lasting (some (vmi_ret_x x))
unfolding vmi_ret_x
ret_x-Lasting x = ret_by-Lasting (varinf_set x) (descr_of x) (var_cat x)

pub first_expr-Lasting :
    (r : Expr) (simple : Operand → Option Vmi)
    → ((y : Operand) → Lasting (simple y))
    → Lasting (first_expr r simple)
first_expr-Lasting (operand y) simple h = h y
first_expr-Lasting (lambda k) simple h = λ fr ix. refl
first_expr-Lasting (Expr.call p args) simple h = prep_x-Lasting p (length args) false

pub first_ret-Lasting : (r : Expr) → Lasting (first_ret r)
first_ret-Lasting (operand y) = ret_x-Lasting y
first_ret-Lasting (lambda k) = λ fr ix. refl
first_ret-Lasting (Expr.call p args) = prep_x-Lasting p (length args) true

pub shape-is_set_of : (o : Option Vmi) (fr ix : ℕ) → is_set_of (shape o) fr ix ≡ is_set_of o fr ix
shape-is_set_of none fr ix = refl
shape-is_set_of (some (lit op d)) fr ix = refl
shape-is_set_of (some (var_lit op v d)) fr ix = refl
shape-is_set_of (some (var_var op v w)) fr ix = refl
shape-is_set_of (some (var op v)) fr ix = refl
shape-is_set_of (some (prep op v n)) fr ix = refl
shape-is_set_of (some (Command.vmi_mark op)) fr ix = refl

pub with_lit-shape :
    (x y : Vmi) (to : Value) → with_lit x to ≡ some y → shape (some y) ≡ shape (some x)
with_lit-shape (lit op d) y to e = subst (λ o. shape o ≡ some (lit op nihil)) e refl
with_lit-shape (var_lit op v d) y to e = subst (λ o. shape o ≡ some (var_lit op v nihil)) e refl
with_lit-shape _ y to e = absurd (cc)
