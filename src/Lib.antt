-- ===== src/Lib.antt =====
-- A model of scheme2c, a translator and interpreter of Scheme in C, with theorems on what its parts do.
--
-- The program reads a source text (src/parse.c), turns the syntax tree into commands of a virtual
-- machine (src/transform.c), and interprets them (src/interpret.c). Every value is a descriptor, a
-- tagged machine word (inc/datum.h), which may point to a heap object with a tag word of its own; the
-- collectors of src/memmgr.c keep part of their state in that tag. The interpreter calls built-in
-- procedures (src/libr.c) on an array of arguments; these work on the containers of src/datum.c.
--
-- Modules, and the files whose code they follow:
--   Prelude    numbers, lists and Boolean tests that all parts share; Prelude/Word is 64-bit words
--   Descr      descriptors as words: desc_from_* and desc_to_* and desc_is_* (inc/datum.h)
--   Value      what a descriptor stands for, one constructor for each tag; Value/Encode is the coding
--   Tag        the tag word: type_init (src/datum.c), the macros tag_* (inc/datum.h, inc/memmgr.h,
--              inc/vmdefs.h), and the tags that the allocators of src/memmgr.c hand out
--   Chars      character categories: chrp_* and chr_* (src/charcat.c, inc/charcat.h)
--   Heap       heap objects and the commands that read, write and allocate them
--   Lists      new_cons, cl_len, cli_len, clp_proper, cl_last, args_to_cl (src/datum.c), bin_list and
--              bin_mulist (src/libr.c)
--   Builtins   the procedures bin_* of src/libr.c: Logic, Pairs, Num, Vectors; Call is the table of
--              libr_init and the arity test of the PREP commands (src/interpret.c)
--   Growable   the stack and the array list (astk_* and arlist_* of src/datum.c)
--   Hashtable  the hash table (htb_* of src/datum.c)
--   Strings    the growing strings and their hash codes (ss_* of src/datum.c)
--   Lexer      from characters to lexemes, pars_next_lex and what it calls (src/parse.c): State is the
--              scanner and its reading functions, Identifier the comments and names, Number and Text
--              the literals with their printers (bin_print_string of src/ioport.c), Names and Symb the
--              constants; Ascii is what is relied on of the Unicode library, Spelling an independent
--              description of how a token is written, Stream the lexer in front of the reader
--   Reader     the parser over lexemes, from syn_read_datum on (src/parse.c); Reader/Print is an
--              independent description of the lexemes of a datum
--   Interpret  src/interpret.c: Command is linear code and the commands (inc/interpret.h), Encode the
--              functions vmi_*, Create is icod_create, Machine the state of icod_interpret with its reads
--              and writes of variables (inc/__interpret.h), Run the commands, one turn at a time; what
--              commands do in terms of operands is in Operands and Effects, jumps in Jumps, Lasting,
--              Targets and Marks, the frames in Frames, Moves and Calls, kept variables in Kept and
--              Closures
--   Tests      the theorems at concrete inputs
--
-- State. A command on the heap takes a heap and returns a result with a heap, an exception with its
-- code, or a fault, which stands for what is undefined in C: a read outside the argument array, a read
-- through a pointer to no object of the kind, an integer division by zero. The reader's state is the
-- lexemes to come and its two error bits; the scanner's is struct ParserDatum with the characters that
-- the port still has. An exception leaves the state as it is at the throw.
-- The interpreter's state has the registers of icod_interpret, the chain of frames, the objects at their
-- addresses and the table of globals.
--
-- Numbers. A word of w bits is a number below 2 ^ w, and wrap-around is written out. An overflow of
-- `long` arithmetic, undefined in C, wraps. Counts of containers are assumed not to overflow.
--
-- Fuel. The loops along a list take fuel, since on a cyclic list the code does not end; for a list with
-- a finite spine more fuel than pairs is enough. The reader takes fuel; more than four times the
-- number of lexemes is always enough. A lexer function has one fuel for all its loops, which is enough
-- if it is above a small multiple of the text in front of it, as its theorems say.
--
-- Parameters. The Unicode library (Icu, and for the lexer Unicode: the UTF-16 units of a character and
-- reading one of them in a buffer), hexadecimal output, floating-point arithmetic (Double, and Reals with
-- pow), the two closures of a hash table, and for the interpreter the built-in procedures. A port is
-- the list of its code points.
--
-- Not modelled: symbols, string comparison and copies, descr_eq_general and descr_hash_code,
-- cl_clone and list-cat, the collectors' copying, the transformer but for its linear code,
-- closures with a list of further arguments, the translation of commands to C, text positions, the
-- constant bit of data that were read, what bin_assert prints, and
-- ports, logs, options and other input and output. The collector moves objects and keeps the
-- references to them right, so an address of the model stands for an object, wherever it is.
pub mod Prelude
pub mod Descr
pub mod Tag
pub mod Chars
pub mod Value
pub mod Heap
pub mod Lists
pub mod Builtins
pub mod Growable
pub mod Hashtable
pub mod Strings
pub mod Reader
pub mod Interpret
pub mod Lexer
pub mod Tests
