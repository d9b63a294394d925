-- ===== src/Interpret/Create.antt =====
-- `icod_create` of src/interpret.c: the commands of a code object from its linear code. The commands
-- are a list in place of the stack of astk_push and astk_pop. A mark holds the command that jumps to
-- it until the mark is reached: `pending` has the number of the mark and the index of the command.
use scheme2c.Prelude.{
  ℕ, ◌-◌, Bool, true, false, not, ◌&&◌, Option, none, some, List, [], ◌∷◌, ◌++◌, ◌==◌,
  if◌then◌else◌, leb, length, get_elem?, set, take,
}
use scheme2c.Value.{Value, nihil, local, fixnum, ptr}
use scheme2c.Interpret.Command.{
  VarInfo, Operand, datum, Expr, operand, lambda, call, Lcod, ret, mark, if_not, jmp, Vmi, var_lit,
  var, lit, lmd, set_l_r,
}
use scheme2c.Interpret.Command as Command
use scheme2c.Interpret.Encode.{
  vmi_set_xy, vmi_set_xr, vmi_def_xy, vmi_def_xr, vmi_ret_x, vmi_argpush, vmi_prep_x, vmi_prep_r,
  vmi_if_x, vmi_if_r, vmi_jmp, vmi_ret_r, vmi_call, vmi_retcall,
}

pub record Icod : Type 0 where
  pub icod : List Vmi
  pub prevmark : Bool
  pub pending : List (ℕ × ℕ)

-- `fatal` is EXCEP_TRANSFORM_FATAL, `assertion` an assertion that fails.
pub data Made : Type 0 where
  made : Icod → Made
  fatal : Made
  assertion : Made

abbrev pub made_from : Made → (Icod → Made) → Made
made_from (made s) k = k s
made_from fatal k = fatal
made_from assertion k = assertion

abbrev pub icod_add : Icod → Vmi → Icod
icod_add s vmi = record s { icod = s.icod ++ (vmi ∷ []); prevmark = false }

abbrev pub add_made : Icod → Option Vmi → Made
add_made s none = assertion
add_made s (some vmi) = made (icod_add s vmi)

-- `varinf_eq_loc`
abbrev pub varinf_eq_loc : VarInfo → (fr ix : ℕ) → Bool
varinf_eq_loc v fr ix = v.ix == ix && v.fr == fr

abbrev pub is_set_of : Option Vmi → (fr ix : ℕ) → Bool
is_set_of (some (var set_l_r v)) fr ix = varinf_eq_loc v fr ix
is_set_of _ fr ix = false

abbrev pub top_of : List Vmi → Option Vmi
top_of icod = get_elem? icod (length icod - 1)

-- `icod_rem_set_xr`: whether the last command moves the result register to this local variable; then
-- it is taken off, and the register is used in place of the variable.
abbrev pub removes : Icod → Operand → Bool
removes s (datum (local fr ix)) =
    not s.prevmark && leb 2 (length s.icod) && is_set_of (top_of s.icod) fr ix
removes s _ = false

abbrev pub without_top : Icod → Icod
without_top s = record s { icod = take (length s.icod - 1) s.icod }

abbrev pub icod_add_lmd : Icod → ℕ → Icod
icod_add_lmd s fcode = icod_add s (lit lmd (ptr fcode))

abbrev pub push_args : Icod → List Operand → Icod
push_args s [] = s
push_args s (x ∷ xs) = push_args (icod_add s (vmi_argpush x)) xs

unfoldable pub icod_add_call : Icod → Operand → List Operand → (tail : Bool) → Made
icod_add_call s p args tail =
    let argc = length args in
    made_from
      (if removes s p
        then made (icod_add (without_top s) (vmi_prep_r argc tail))
        else add_made s (vmi_prep_x p argc tail))
      (λ s'. made (icod_add (push_args s' args) (if tail then vmi_retcall else vmi_call)))

-- `lit` of the command at an index.
abbrev pub with_lit : Vmi → Value → Option Vmi
with_lit (lit op d) to = some (lit op to)
with_lit (var_lit op v d) to = some (var_lit op v to)
with_lit _ to = none

abbrev pub patched : List Vmi → ℕ → Option Vmi → Option (List Vmi)
patched icod i none = none
patched icod i (some vmi) = some (set icod i vmi)

abbrev pub patch_with : List Vmi → ℕ → Value → Option Vmi → Option (List Vmi)
patch_with icod i to none = none
patch_with icod i to (some vmi) = patched icod i (with_lit vmi to)

abbrev pub patch : List Vmi → ℕ → Value → Option (List Vmi)
patch icod i to = patch_with icod i to (get_elem? icod i)

-- The command that waits for a mark, which is taken out.
abbrev pub find_pending : ℕ → List (ℕ × ℕ) → Option ℕ
find_pending m [] = none
find_pending m ((k, i) ∷ ps) = if k == m then some i else find_pending m ps

abbrev pub rem_pending : ℕ → List (ℕ × ℕ) → List (ℕ × ℕ)
rem_pending m [] = []
rem_pending m ((k, i) ∷ ps) = if k == m then rem_pending m ps else (k, i) ∷ rem_pending m ps

abbrev pub marked : Icod → ℕ → Option (List Vmi) → Made
marked s m none = assertion
marked s m (some icod) =
    made (record { icod = icod; prevmark = true; pending = rem_pending m s.pending })

-- A mark without a waiting command is an error. The mark without a number with which `new_fcode` begins a
-- code object, and which is skipped, is not part of the linear code here.
abbrev pub mark_at : Icod → ℕ → Option ℕ → Made
mark_at s m none = fatal
mark_at s m (some i) = marked s m (patch s.icod i (fixnum (length s.icod)))

-- The command that is added next waits for the mark.
abbrev pub waits : Icod → ℕ → Icod
waits s m = record s { pending = (m, length s.icod) ∷ rem_pending m s.pending }

abbrev pub add_jump : Icod → ℕ → Option Vmi → Made
add_jump s m cmd = add_made (waits s m) cmd

-- The value of a lambda or a call goes through the result register.
abbrev pub add_expr : Icod → Expr → (simple : Operand → Option Vmi) → Option Vmi → Made
add_expr s (operand y) simple through = add_made s (simple y)
add_expr s (lambda k) simple through = add_made (icod_add_lmd s k) through
add_expr s (call p args) simple through =
    made_from (icod_add_call s p args false) (λ s'. add_made s' through)

abbrev pub add_ret : Icod → Expr → Made
add_ret s (operand y) = made (icod_add s (vmi_ret_x y))
add_ret s (lambda k) = made (icod_add (icod_add_lmd s k) vmi_ret_r)
add_ret s (call p args) = icod_add_call s p args true

-- One instruction of the loop.
unfoldable pub icod_instr : Icod → Lcod → Made
icod_instr s (Command.set x r) = add_expr s r (vmi_set_xy x) (vmi_set_xr x)
icod_instr s (Command.def x r) = add_expr s r (vmi_def_xy x) (vmi_def_xr x)
icod_instr s (ret r) = add_ret s r
icod_instr s (Command.call p args) = icod_add_call s p args false
icod_instr s (mark m) = mark_at s m (find_pending m s.pending)
icod_instr s (if_not x m) =
    if removes s x
    then add_jump (without_top s) m (some (vmi_if_r nihil))
    else add_jump s m (vmi_if_x x nihil)
icod_instr s (jmp m) = add_jump s m (some (vmi_jmp nihil))

unfoldable pub icod_loop : Icod → List Lcod → Made
icod_loop s [] = made s
icod_loop s (l ∷ ls) = made_from (icod_instr s l) (λ s'. icod_loop s' ls)

abbrev pub no_icod : Icod
no_icod = record { icod = []; prevmark = false; pending = [] }

unfoldable pub icod_create : List Lcod → Made
icod_create ls = icod_loop no_icod ls
