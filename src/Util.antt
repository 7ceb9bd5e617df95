-- ===== src/Util.antt =====
-- util.cc: tokenize, and what a C string makes of a std::string. The namespace directory and the
-- name of the user come from system calls and are left out.
pub mod Tokens
use libixp.Base.{ℕ, Bool, true, false, List, [], ◌∷◌, ◌++◌, ◌==◌, if◌then◌else◌, Option, none, some}
use libixp.Msg.Fields.{Str}

-- The calls of std::getline: `line` is what was read of the current line. A last line that is empty
-- does not count.
pub lines : ℕ → (line rest : Str) → List Str
lines delim [] [] = []
lines delim (c ∷ line) [] = (c ∷ line) ∷ []
lines delim line (c ∷ rest) = elim (c == delim) [
  | true ↦ line ∷ lines delim [] rest
  | false ↦ lines delim (line ++ c ∷ []) rest
]

pub not_empty : List Str → List Str
not_empty [] = []
not_empty ([] ∷ ls) = not_empty ls
not_empty ((c ∷ l) ∷ ls) = (c ∷ l) ∷ not_empty ls

unfoldable pub tokenize : Str → ℕ → List Str
unfolding lines not_empty
tokenize input delim = not_empty (lines delim [] input)

-- A char pointer as the argument for a std::string: the bytes before the first NUL.
unfoldable pub c_str : Str → Str
c_str [] = []
c_str (c ∷ s) = let rest = c_str s in if c == 0 then [] else c ∷ rest

-- The characters of a string in turn, last first.
abbrev pub rev_onto : Str → Str → Str
rev_onto [] acc = acc
rev_onto (c ∷ s) acc = rev_onto s (c ∷ acc)

-- The same for a pointer into memory: nothing if there is no NUL before the memory ends.
unfoldable pub string_at : Str → Option Str
string_at [] = none
string_at (c ∷ s) =
    let rest : Option Str = elim (string_at s) [ none ↦ none | some t ↦ some (c ∷ t) ] in
    if c == 0 then some [] else rest
