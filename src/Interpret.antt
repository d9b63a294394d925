-- ===== src/Interpret.antt =====
-- The interpreter of src/interpret.c: linear code is encoded as commands (`icod_create`), and
-- `icod_interpret` runs the commands.
pub mod Command
pub mod Encode
pub mod Machine
pub mod Run
pub mod Create
pub mod Walk
pub mod Jumps
pub mod Lasting
pub mod Targets
pub mod Marks
pub mod Operands
pub mod Effects
pub mod Turns
pub mod Frames
pub mod Moves
pub mod Calls
pub mod Kept
pub mod Closures
pub mod TailCalls
