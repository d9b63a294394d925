-- ===== src/Interpret/Encode.antt =====
-- The commands for the parts of linear code (src/interpret.c: `vmi_set_xy` to `vmi_retcall`). `none` is
-- an assertion that fails, on what should be a variable.
use scheme2c.Prelude.{ℕ, Bool, true, false, Option, none, some, if◌then◌else◌}
use scheme2c.Value.{Value}
use scheme2c.Interpret.Command.{
  VarInfo, var_info, Cat, cat_l, cat_g, cat_k, Operand, descr_of, var_cat, varinf_set, Opcode, Vmi,
  set_l_d, set_l_l, set_l_g, set_l_k, set_l_r, set_k_d, set_k_l, set_k_g, set_k_k, set_k_r, set_g_d,
  set_g_l, set_g_g, set_g_k, set_g_r, def_d, def_g, def_r, if_l, if_g, if_k, if_r, jump, prep_l,
  prep_g, prep_k, prep_r, rprep_l, rprep_g, rprep_k, rprep_r, argpush_d, argpush_l, argpush_g,
  argpush_k, vm_call, retcall, ret_d, ret_l, ret_g, ret_k, ret_r, var_lit, var_var, var, lit, prep,
  vmi_mark,
}

abbrev pub set_code : Cat → Cat → Opcode
set_code cat_l cat_l = set_l_l
set_code cat_l cat_g = set_l_g
set_code cat_l cat_k = set_l_k
set_code cat_g cat_l = set_g_l
set_code cat_g cat_g = set_g_g
set_code cat_g cat_k = set_g_k
set_code cat_k cat_l = set_k_l
set_code cat_k cat_g = set_k_g
set_code cat_k cat_k = set_k_k

abbrev pub set_d_code : Cat → Opcode
set_d_code cat_l = set_l_d
set_d_code cat_g = set_g_d
set_d_code cat_k = set_k_d

abbrev pub set_r_code : Cat → Opcode
set_r_code cat_l = set_l_r
set_r_code cat_g = set_g_r
set_r_code cat_k = set_k_r

-- By the categories of both sides; `d` is the descriptor on the right.
abbrev pub set_by : (x y : VarInfo) → (d : Value) → Option Cat → Option Cat → Option Vmi
set_by x y d none _ = none
set_by x y d (some c) none = some (var_lit (set_d_code c) x d)
set_by x y d (some c) (some k) = some (var_var (set_code c k) x y)

unfoldable pub vmi_set_xy : Operand → Operand → Option Vmi
vmi_set_xy x y = set_by (varinf_set x) (varinf_set y) (descr_of y) (var_cat x) (var_cat y)

-- A command with one variable, by the variable's category.
abbrev pub by_cat : (Cat → Vmi) → Option Cat → Option Vmi
by_cat f none = none
by_cat f (some c) = some (f c)

unfoldable pub vmi_set_xr : Operand → Option Vmi
vmi_set_xr x = by_cat (λ c. var (set_r_code c) (varinf_set x)) (var_cat x)

abbrev pub def_by : (x y : VarInfo) → (d : Value) → Option Cat → Option Cat → Option Vmi
def_by x y d (some cat_g) none = some (var_lit def_d x d)
def_by x y d (some cat_g) (some cat_g) = some (var_var def_g x y)
def_by x y d _ _ = none

unfoldable pub vmi_def_xy : Operand → Operand → Option Vmi
vmi_def_xy x y = def_by (varinf_set x) (varinf_set y) (descr_of y) (var_cat x) (var_cat y)

abbrev pub def_r_by : VarInfo → Option Cat → Option Vmi
def_r_by x (some cat_g) = some (var def_r x)
def_r_by x _ = none

unfoldable pub vmi_def_xr : Operand → Option Vmi
vmi_def_xr x = def_r_by (varinf_set x) (var_cat x)

abbrev pub ret_code : Cat → Opcode
ret_code cat_l = ret_l
ret_code cat_g = ret_g
ret_code cat_k = ret_k

abbrev pub ret_by : (x : VarInfo) → (d : Value) → Option Cat → Vmi
ret_by x d (some c) = var (ret_code c) x
ret_by x d none = lit ret_d d

unfoldable pub vmi_ret_x : Operand → Vmi
vmi_ret_x x = ret_by (varinf_set x) (descr_of x) (var_cat x)

abbrev pub argpush_code : Cat → Opcode
argpush_code cat_l = argpush_l
argpush_code cat_g = argpush_g
argpush_code cat_k = argpush_k

abbrev pub argpush_by : (x : VarInfo) → (d : Value) → Option Cat → Vmi
argpush_by x d (some c) = var (argpush_code c) x
argpush_by x d none = lit argpush_d d

unfoldable pub vmi_argpush : Operand → Vmi
vmi_argpush x = argpush_by (varinf_set x) (descr_of x) (var_cat x)

abbrev pub prep_code : (tail : Bool) → Cat → Opcode
prep_code true cat_l = rprep_l
prep_code true cat_g = rprep_g
prep_code true cat_k = rprep_k
prep_code false cat_l = prep_l
prep_code false cat_g = prep_g
prep_code false cat_k = prep_k

unfoldable pub vmi_prep_x : Operand → (fargc : ℕ) → (tail : Bool) → Option Vmi
vmi_prep_x x fargc tail = by_cat (λ c. prep (prep_code tail c) (varinf_set x) fargc) (var_cat x)

abbrev pub vmi_prep_r : (fargc : ℕ) → (tail : Bool) → Vmi
vmi_prep_r fargc tail = prep (if tail then rprep_r else prep_r) (var_info 0 0) fargc

abbrev pub if_code : Cat → Opcode
if_code cat_l = if_l
if_code cat_g = if_g
if_code cat_k = if_k

unfoldable pub vmi_if_x : Operand → (to : Value) → Option Vmi
vmi_if_x x to = by_cat (λ c. var_lit (if_code c) (varinf_set x) to) (var_cat x)

abbrev pub vmi_if_r : Value → Vmi
vmi_if_r to = lit if_r to

abbrev pub vmi_jmp : Value → Vmi
vmi_jmp to = lit jump to

abbrev pub vmi_ret_r : Vmi
vmi_ret_r = vmi_mark ret_r

abbrev pub vmi_call : Vmi
vmi_call = vmi_mark vm_call

abbrev pub vmi_retcall : Vmi
vmi_retcall = vmi_mark retcall
