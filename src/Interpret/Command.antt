-- ===== src/Interpret/Command.antt =====
-- Linear code, as src/transform.c makes it, and the commands of the interpreter (inc/interpret.h,
-- inc/vmdefs.h). A command's bits, which only the translation to C reads, its identifiers and its
-- text position, which only messages read, are left out.
use scheme2c.Prelude.{ℕ, ◌%◌, ◌^◌, Option, none, some, List, ◌==◌, if◌then◌else◌}
use scheme2c.Value.{Value, local, global, ptr}

-- `varinfo_t`, with two unsigned integers of 32 bits.
pub record VarInfo : Type 0 where
  pub fr : ℕ
  pub ix : ℕ

abbrev pub var_info : ℕ → ℕ → VarInfo
var_info fr ix = record { fr = fr % 2 ^ 32; ix = ix % 2 ^ 32 }

-- The categories of variables: local, global, and kept in the closure.
pub data Cat : Type 0 where
  cat_l cat_g cat_k : Cat

-- What stands for a value in linear code: an identifier, at its address, with its variable, or any
-- other descriptor.
pub data Operand : Type 0 where
  ident : ℕ → Value → Operand
  datum : Value → Operand

abbrev pub descr_of : Operand → Value
descr_of (ident p var) = ptr p
descr_of (datum d) = d

-- `if(datum_is_id(var)) var = id_var(var)`
abbrev pub resolved : Operand → Value
resolved (ident p var) = var
resolved (datum d) = d

abbrev pub value_cat : Value → Option Cat
value_cat (local fr ix) = if fr == 0 then some cat_l else some cat_k
value_cat (global n) = some cat_g
value_cat _ = none

-- `var_cat`; `none` is VAR_NONVAR.
abbrev pub var_cat : Operand → Option Cat
var_cat x = value_cat (resolved x)

-- `varinf_set`; on what is no variable it throws, which its callers rule out.
abbrev pub varinf_value : Value → VarInfo
varinf_value (local fr ix) = var_info fr ix
varinf_value (global n) = var_info 0 n
varinf_value _ = var_info 0 0

abbrev pub varinf_set : Operand → VarInfo
varinf_set x = varinf_value (resolved x)

-- The right-hand sides, and the instructions of linear code. A mark is known by its number; a call has
-- its procedure and its arguments; code objects are numbered.
pub data Expr : Type 0 where
  operand : Operand → Expr
  lambda : (fcode : ℕ) → Expr
  call : Operand → List Operand → Expr

pub data Lcod : Type 0 where
  set def : Operand → Expr → Lcod
  ret : Expr → Lcod
  call : Operand → List Operand → Lcod
  mark : ℕ → Lcod
  if_not : Operand → (to : ℕ) → Lcod
  jmp : (to : ℕ) → Lcod

-- The command numbers SYMB_VM_*.
pub data Opcode : Type 0 where
  set_l_d set_l_l set_l_g set_l_k set_l_r : Opcode
  set_k_d set_k_l set_k_g set_k_k set_k_r : Opcode
  set_g_d set_g_l set_g_g set_g_k set_g_r : Opcode
  def_d def_g def_r : Opcode
  if_l if_g if_k if_r : Opcode
  jump lmd : Opcode
  prep_l prep_g prep_k prep_r : Opcode
  rprep_l rprep_g rprep_k rprep_r : Opcode
  argpush_d argpush_l argpush_g argpush_k : Opcode
  vm_call retcall : Opcode
  ret_d ret_l ret_g ret_k ret_r : Opcode

-- One constructor for each of the structures: VmiVarLitDatum, VmiVarVarDatum, VmiVarDatum, VmiLitDatum,
-- VmiPrepDatum and VmiDatum. The literal of LAMBDA is `ptr` of the number of its code object.
pub data Vmi : Type 0 where
  var_lit : Opcode → VarInfo → Value → Vmi
  var_var : Opcode → (var1 var2 : VarInfo) → Vmi
  var : Opcode → VarInfo → Vmi
  lit : Opcode → Value → Vmi
  prep : Opcode → VarInfo → (fargc : ℕ) → Vmi
  vmi_mark : Opcode → Vmi
