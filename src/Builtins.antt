-- ===== src/Builtins.antt =====
-- The built-in functions of src/libr.c, in groups: logic and predicates, pairs and lists, numbers,
-- vectors and boxes, and the calls of them that the interpreter makes. `argv` is a list; a read
-- behind its end is undefined in C and a fault here.
pub mod Args
pub mod Logic
pub mod Pairs
pub mod Num
pub mod Vectors
pub mod Call
pub mod Bounds
