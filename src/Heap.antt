-- ===== src/Heap.antt =====
-- Heap objects, and commands that read, write and allocate them. The collector moves objects and
-- keeps the references to them right; it is not run here, so an address stands for an object. A
-- fresh object comes at the next address, which no object had.
pub mod Returns
pub mod Writes
use scheme2c.Prelude.{ℕ, suc, Bool, true, false, Option, none, some, List, ◌==◌, if◌then◌else◌}
use scheme2c.Value.{Value, ptr}

-- One constructor for a group of types with the same fields; a real is its 64-bit pattern, a string
-- its code units.
pub data Body : Type 0 where
  cons : (car cdr : Value) → Body
  syntax_cons : (car cdr pos : Value) → Body
  identifier : (pos symbol var : Value) → Body
  real : ℕ → Body
  vector : List Value → Body
  buffer : List ℕ → Body
  box : Value → Body
  weak_box : Value → Body
  string : List ℕ → Body
  symassoc : (globix name : Value) → Body
  hashtable : (buckets : Value) (no_reput : Bool) → Body
  other : (tix : ℕ) → Body

-- `const` is the tag's bit that `datum_set_const` sets.
pub record Obj : Type 0 where
  pub const : Bool
  pub body : Body

abbrev pub obj : Bool → Body → Obj
obj c b = record { const = c; body = b }

pub record Heap : Type 0 where
  pub next : ℕ
  pub cell : ℕ → Option Obj

abbrev pub update : (ℕ → Option Obj) → ℕ → Obj → ℕ → Option Obj
update f p o q = if q == p then some o else f q

-- What is undefined in C: a read outside `argv`, a read through something that is no object of the
-- kind, an integer division by zero.
pub data Fault : Type 0 where
  bad_argv dangling division : Fault

-- `panic` is an exception with its code. A loop that does not end runs out of any fuel.
pub data Run {ℓ} (A : Type ℓ) : Type ℓ where
  ok : A → Heap → Run A
  panic : ℕ → Run A
  fault : Fault → Run A
  out_of_fuel : Run A

abbrev pub Cmd {ℓ} : Type ℓ → Type ℓ
Cmd A = Heap → Run A

module _ {ℓ} {A : Type ℓ} where
  abbrev pub pure : A → Cmd A
  pure a h = ok a h

  abbrev pub and_then {κ} : {B : Type κ} → Run A → (A → Cmd B) → Run B
  and_then (ok a h) k = k a h
  and_then (panic c) k = panic c
  and_then (fault e) k = fault e
  and_then out_of_fuel k = out_of_fuel

  infixl 5 ◌>>=◌ ◌>>◌
  abbrev pub ◌>>=◌ {κ} : {B : Type κ} → Cmd A → (A → Cmd B) → Cmd B
  (m >>= k) h = and_then (m h) k

  abbrev pub ◌>>◌ {κ} : {B : Type κ} → Cmd A → Cmd B → Cmd B
  (m >> n) h = and_then (m h) (λ _. n)

-- `inew_inst` with the fields filled in; a fresh object is mutable.
unfoldable pub alloc : Body → Cmd Value
alloc b h =
    ok (ptr h.next) (record h { next = suc h.next; cell = update h.cell h.next (obj false b) })

-- The object that a descriptor points to.
unfoldable pub deref : Heap → Value → Option Obj
deref h (ptr p) = h.cell p
deref h _ = none

unfoldable pub store : ℕ → Obj → Cmd (Unit {0})
store p o h = ok tt (record h { cell = update h.cell p o })

-- `datum_set_const` does nothing but set the bit.
unfoldable pub datum_set_const : Value → Cmd (Unit {0})
unfolding deref
datum_set_const (ptr p) h = elim (h.cell p) [
  | none ↦ fault dangling
  | some o ↦ ok tt (record h { cell = update h.cell p (record o { const = true }) })
]
datum_set_const _ h = fault dangling

abbrev pub wrong_param : ℕ
wrong_param = 1202

abbrev pub vm_assert : ℕ
vm_assert = 1203

abbrev pub improper_list : ℕ
improper_list = 143
