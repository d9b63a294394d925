-- ===== src/Lexer/Symb.antt =====
-- The numbers of the special values of inc/vmdefs.h that the lexer returns.
use scheme2c.Lexer.Identifier.{Lex, spec}

abbrev pub truth : Lex
truth = spec 2

abbrev pub falsity : Lex
falsity = spec 3

abbrev pub open_ro : Lex
open_ro = spec 20

abbrev pub close_ro : Lex
close_ro = spec 21

abbrev pub open_sq : Lex
open_sq = spec 22

abbrev pub close_sq : Lex
close_sq = spec 23

abbrev pub open_vec : Lex
open_vec = spec 24

abbrev pub open_vu : Lex
open_vu = spec 25

abbrev pub comment : Lex
comment = spec 28

abbrev pub point : Lex
point = spec 106

abbrev pub quote : Lex
quote = spec 107

abbrev pub quasi : Lex
quasi = spec 108

abbrev pub unquote : Lex
unquote = spec 109

abbrev pub splicing : Lex
splicing = spec 110
