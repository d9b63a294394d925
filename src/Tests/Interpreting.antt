-- ===== src/Tests/Interpreting.antt =====
-- The theorems on the interpreter of src/interpret.c at concrete machines.
use scheme2c.Interpret.Lasting.{shape, first_command}
use scheme2c.Interpret.Marks.{marks_resolved}
use scheme2c.Prelude.{
  length, ◌++◌, ℕ, ◌≡◌, refl, ◌⊎◌, true, false, none, some, List, [], ◌∷◌, ◌==◌, if◌then◌else◌,
  arith, get_elem?,
}
use mathlib.Core.Option
use scheme2c.Value.{Value, nihil, fixnum, local, global, ptr}
use scheme2c.Interpret.Command.{
  prep_r, lmd, mark, Expr, ret, if_not, Lcod, VarInfo, var_info, Operand, ident, datum, Vmi, prep,
  prep_g, vmi_mark, vm_call, ret_r, ret_d, lit, var_lit, set_k_d, resolved, value_cat,
}
use scheme2c.Interpret.Command
use scheme2c.Interpret.Create.{
  made, Icod, with_lit, icod_create, icod_loop, icod_instr, icod_add_call,
}
use scheme2c.Interpret.Encode.{vmi_if_x, vmi_argpush, vmi_prep_x, vmi_set_xy, vmi_ret_x}
use scheme2c.Interpret.Machine.{
  in_vector, Closure, Object, vector, closure, Frame, base, frame, iret, vars, Store, nowhere,
  Machine, running, got, set_var_k, vec_set, kept_vec,
}
use scheme2c.Interpret.Run.{
  Fcode, Ran, done, prepare, branch, exec, exec_call, step, run, load_closure, frame_ret, arg_push,
}
use scheme2c.Interpret.Operands.{assigned, denoted, advanced}
use scheme2c.Interpret.Effects.{vmi_set_xy-exec, operand_commands}
use scheme2c.Interpret.Machine.{ipnext}
use scheme2c.Interpret.Calls.{Within, Returns, call-Returns}
use scheme2c.Interpret.Kept.{set_k_d_endless}
use scheme2c.Interpret.Closures.{load_closure-kept_vec, frame_up}
use scheme2c.Interpret.TailCalls.{Swapping, tail_call_overwrites}

-- A built-in procedure is not called here.
abbrev builtins : ℕ → List Value → Store → Ran
builtins b argv s = done nihil s

abbrev plain_closure : ℕ → ℕ → List ℕ → Closure
plain_closure argc fcod saved = record {
  argc = argc;
  multiarg = false;
  bin = none;
  fcod = fcod;
  saved = saved;
}

abbrev code_object : List Vmi → ℕ → ℕ → Fcode
code_object icod argc frmax = record {
  icod = icod;
  argc = argc;
  multiarg = false;
  fvc = argc;
  frmax = frmax;
  cached = none;
}

abbrev at_ip : ℕ → Frame → List Object → Machine
at_ip ip top objects = record {
  ip = ip;
  fr_top = top;
  rr = nihil;
  cl_c = none;
  c_locals = none;
  parg = nowhere;
  binargs = nihil ∷ [];
  fargc = 0;
  tailcall = false;
  multy = false;
  store = record { objects = objects; globals = λ i. if i == 3 then some (ptr 0) else none };
}

-- The vector at 1 is on top, the one at 2 is kept by the closure at 0.
abbrev objects : List Object
objects =
    closure (plain_closure 2 0 (2 ∷ []))
    ∷ vector (fixnum 5 ∷ fixnum 6 ∷ [])
    ∷ vector (fixnum 8 ∷ [])
    ∷ []

abbrev machine : Machine
machine = at_ip 0 (base 0 1) objects

vmi_set_xy-exec_example :
    Option.map (exec [] builtins machine) (vmi_set_xy (ident 9 (local 1 0)) (datum (fixnum 7)))
    ≡ some (advanced true (assigned machine (local 1 0) (denoted machine (datum (fixnum 7)))))
vmi_set_xy-exec_example =
    vmi_set_xy-exec [] builtins machine (ident 9 (local 1 0)) (datum (fixnum 7)) tt
      (omega arith, omega arith) tt

operand_commands_example :
    (exec [] builtins machine (vmi_ret_x (ident 9 (global 3)))
      ≡ frame_ret machine (denoted machine (ident 9 (global 3))))
    × (exec [] builtins machine (vmi_argpush (ident 9 (global 3)))
        ≡ ipnext (arg_push machine (denoted machine (ident 9 (global 3)))))
    × (Option.map (exec [] builtins machine) (vmi_prep_x (ident 9 (global 3)) 2 true)
        ≡ Option.map
            (λ _. prepare [] builtins machine (denoted machine (ident 9 (global 3))) 2 true)
            (value_cat (global 3)))
    × (Option.map (exec [] builtins machine) (vmi_if_x (ident 9 (global 3)) (fixnum 5))
        ≡ Option.map
            (λ _. branch machine (denoted machine (ident 9 (global 3))) (fixnum 5))
            (value_cat (global 3)))
operand_commands_example =
    operand_commands [] builtins machine (ident 9 (global 3)) 2 true (fixnum 5) (omega arith)

-- A kept variable is set to a literal.
abbrev setting : List Fcode
setting = code_object (var_lit set_k_d (var_info 1 0) (fixnum 7) ∷ []) 2 1 ∷ []

abbrev behind_set : Machine
behind_set = at_ip 0 (base 0 1) (
    closure (plain_closure 2 0 (2 ∷ []))
    ∷ vector (fixnum 5 ∷ fixnum 6 ∷ [])
    ∷ vector (fixnum 7 ∷ [])
    ∷ [])

sets : set_var_k machine (var_info 1 0) (got (fixnum 7)) ≡ running behind_set
unfolding set_var_k vec_set
sets = refl

set_k_d_endless_example :
    (run setting builtins 1000 (running machine) ≡ running behind_set)
    × (behind_set.ip ≡ machine.ip)
set_k_d_endless_example =
    set_k_d_endless setting builtins machine behind_set
      (var_lit set_k_d (var_info 1 0) (fixnum 7) ∷ []) (var_info 1 0) (fixnum 7) refl refl sets 999

-- A procedure without parameters is called, and returns 9.
abbrev calling : List Fcode
calling =
    code_object (prep prep_g (var_info 0 3) 0 ∷ vmi_mark vm_call ∷ vmi_mark ret_r ∷ []) 0 0
    ∷ code_object (lit ret_d (fixnum 9) ∷ []) 0 0
    ∷ []

abbrev call_objects : List Object
call_objects =
    closure (plain_closure 0 1 []) ∷ closure (plain_closure 0 0 []) ∷ vector [] ∷ vector [] ∷ []

abbrev prepared_call : Machine
prepared_call = record (at_ip 1 (base 1 2) call_objects) { cl_c = some 0; c_locals = some 3 }

abbrev in_call : Machine
in_call = at_ip 0 (frame (iret 2) 0 3 (base 1 2)) call_objects

abbrev behind_call : Machine
behind_call = record (at_ip 2 (base 1 2) call_objects) { rr = fixnum 9 }

enters : step calling builtins prepared_call ≡ running in_call
unfolding step exec exec_call
enters = refl

returns : run calling builtins 1 (running in_call) ≡ running behind_call
unfolding run step exec
returns = refl

call-Returns_example :
    Within (base 1 2) 2 behind_call.fr_top
    ⊎ Returns calling builtins (base 1 2) 2 1 (running in_call)
call-Returns_example =
    call-Returns calling builtins prepared_call in_call behind_call 0 3 1 enters refl returns

-- A procedure makes a closure and calls it.
abbrev two_frames : List Fcode
two_frames =
    code_object (lit ret_d (fixnum 9) ∷ []) 0 2
    ∷ code_object
        (lit lmd (ptr 0) ∷ prep prep_r (var_info 0 0) 0 ∷ vmi_mark vm_call ∷ vmi_mark ret_r ∷ []) 0
        0
    ∷ []

abbrev lambda_objects : List Object
lambda_objects = call_objects ++ (closure (plain_closure 0 0 (3 ∷ 2 ∷ [])) ∷ [])

-- Behind LAMBDA, and in the call of the new closure, whose variables are in a new vector.
abbrev behind_lambda : Machine
behind_lambda = record (at_ip 0 (frame (iret 2) 0 3 (base 1 2)) lambda_objects) { rr = ptr 4 }

abbrev in_lambda : Machine
in_lambda = record behind_lambda {
  fr_top = frame (iret 3) 4 5 (frame (iret 2) 0 3 (base 1 2));
  parg = in_vector 5 0;
  store = record behind_lambda.store { objects = lambda_objects ++ (vector [] ∷ []) };
}

makes_closure : load_closure two_frames builtins in_call (ptr 0) ≡ running behind_lambda
unfolding load_closure
makes_closure = refl

calls_closure : run two_frames builtins 3 (running in_call) ≡ running in_lambda
unfolding run step exec load_closure prepare exec_call
calls_closure = refl

load_closure-kept_vec_example :
    (behind_lambda.rr ≡ ptr 4) × (kept_vec in_lambda 2 ≡ some (vars (frame_up 1 in_call.fr_top)))
load_closure-kept_vec_example =
    load_closure-kept_vec two_frames builtins in_call behind_lambda in_lambda 0 1
      (code_object (lit ret_d (fixnum 9) ∷ []) 0 2) refl refl makes_closure refl refl (omega arith)

abbrev swapping_code : List Fcode
swapping_code =
    code_object
      (prep Command.rprep_g (var_info 0 3) 2
        ∷ Command.var Command.argpush_l (var_info 0 1)
        ∷ Command.var Command.argpush_l (var_info 0 0)
        ∷ vmi_mark Command.retcall
        ∷ [])
      2 1
    ∷ []

is_Swapping : Swapping swapping_code builtins machine 3 (fixnum 5) (fixnum 6) []
unfolding icod_create icod_loop icod_instr icod_add_call vmi_argpush vmi_prep_x
is_Swapping = record {
  p = 10;
  q = 11;
  r = 12;
  commands = refl;
  at_start = refl;
  in_range = omega arith;
  itself = refl;
  c = plain_closure 2 0 (2 ∷ []);
  is_closure = refl;
  two = refl;
  fixed = refl;
  no_bin = refl;
  locals = refl;
}

tail_call_overwrites_example :
    (m' : Machine) × (run swapping_code builtins 4 (running machine) ≡ running m')
    × (m'.ip ≡ 0)
    × (m'.fr_top ≡ machine.fr_top)
    × (get_elem? m'.store.objects (vars m'.fr_top) ≡ some (vector (fixnum 6 ∷ fixnum 6 ∷ [])))
tail_call_overwrites_example =
    tail_call_overwrites swapping_code builtins machine 3 (fixnum 5) (fixnum 6) [] is_Swapping

-- `(if a 1 2)` in tail position.
abbrev in_front : List Lcod
in_front = if_not (ident 5 (local 0 0)) 1 ∷ ret (Expr.operand (datum (fixnum 1))) ∷ []

abbrev behind_mark : List Lcod
behind_mark = ret (Expr.operand (datum (fixnum 2))) ∷ []

abbrev waiting : Icod
waiting = record {
  icod = var_lit Command.if_l (var_info 0 0) nihil ∷ lit ret_d (fixnum 1) ∷ [];
  prevmark = false;
  pending = (1, 0) ∷ [];
}

abbrev resolved_icod : Icod
resolved_icod = record {
  icod =
      var_lit Command.if_l (var_info 0 0) (fixnum 2)
      ∷ lit ret_d (fixnum 1)
      ∷ lit ret_d (fixnum 2)
      ∷ [];
  prevmark = false;
  pending = [];
}

makes_front : icod_create in_front ≡ made waiting
unfolding icod_create icod_loop icod_instr vmi_if_x vmi_ret_x
makes_front = refl

makes_all : icod_create (in_front ++ (mark 1 ∷ behind_mark)) ≡ made resolved_icod
unfolding icod_create icod_loop icod_instr vmi_if_x vmi_ret_x
makes_all = refl

marks_resolved_example :
    (x : Vmi) × (y : Vmi) × (get_elem? waiting.icod 0 ≡ some x)
    × (with_lit x (fixnum (length waiting.icod)) ≡ some y)
    × (get_elem? resolved_icod.icod 0 ≡ some y)
    × (shape (get_elem? resolved_icod.icod 2) ≡ shape (first_command behind_mark))
marks_resolved_example =
    marks_resolved in_front behind_mark 1 0 waiting resolved_icod makes_front refl makes_all
