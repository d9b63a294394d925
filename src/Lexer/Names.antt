-- ===== src/Lexer/Names.antt =====
-- The names of characters in src/parse.c, as code points.
use scheme2c.Prelude.{ℕ, List, [], ◌∷◌}

abbrev pub nul : List ℕ
nul = b'n' ∷ b'u' ∷ b'l' ∷ []

abbrev pub newline : List ℕ
newline = b'n' ∷ b'e' ∷ b'w' ∷ b'l' ∷ b'i' ∷ b'n' ∷ b'e' ∷ []

abbrev pub alarm : List ℕ
alarm = b'a' ∷ b'l' ∷ b'a' ∷ b'r' ∷ b'm' ∷ []

abbrev pub backspace : List ℕ
backspace = b'b' ∷ b'a' ∷ b'c' ∷ b'k' ∷ b's' ∷ b'p' ∷ b'a' ∷ b'c' ∷ b'e' ∷ []

abbrev pub tab : List ℕ
tab = b't' ∷ b'a' ∷ b'b' ∷ []

abbrev pub linefeed : List ℕ
linefeed = b'l' ∷ b'i' ∷ b'n' ∷ b'e' ∷ b'f' ∷ b'e' ∷ b'e' ∷ b'd' ∷ []

abbrev pub vtab : List ℕ
vtab = b'v' ∷ b't' ∷ b'a' ∷ b'b' ∷ []

abbrev pub page : List ℕ
page = b'p' ∷ b'a' ∷ b'g' ∷ b'e' ∷ []

abbrev pub return : List ℕ
return = b'r' ∷ b'e' ∷ b't' ∷ b'u' ∷ b'r' ∷ b'n' ∷ []

abbrev pub esc : List ℕ
esc = b'e' ∷ b's' ∷ b'c' ∷ []

abbrev pub space : List ℕ
space = b's' ∷ b'p' ∷ b'a' ∷ b'c' ∷ b'e' ∷ []

abbrev pub delete : List ℕ
delete = b'd' ∷ b'e' ∷ b'l' ∷ b'e' ∷ b't' ∷ b'e' ∷ []
