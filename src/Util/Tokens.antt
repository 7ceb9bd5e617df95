-- ===== src/Util/Tokens.antt =====
-- tokenize against a description of a path: names, with separators before, between and behind.
use mathlib.Core.List.{append-nil, append_assoc}
use libixp.Base.{
  ℕ, zero, suc, ◌≡◌, ◌≢◌, refl, ap, ◌∙◌, List, [], ◌∷◌, ◌++◌, ◌==◌, All, replicate, true, false,
  arith, ==_iff,
}
use libixp.Msg.Fields.{Str}
use libixp.Util.{lines, not_empty, tokenize}

abbrev pub names_of : List (ℕ × Str) → List Str
names_of [] = []
names_of ((k, name) ∷ ps) = name ∷ names_of ps

module _ (delim : ℕ) where
  abbrev pub Lacks : Str → Type 0
  Lacks = All (λ c. c ≢ delim)

  -- A name: some bytes, none of them a separator.
  abbrev pub IsName : Str → Type 0
  IsName s = (s ≢ []) × Lacks s

  -- A path of names, each behind as many more separators as it comes with, and so many at the end.
  abbrev pub path_of : List (ℕ × Str) → ℕ → Str
  path_of [] t = replicate t delim
  path_of ((k, name) ∷ []) t = replicate k delim ++ (name ++ replicate t delim)
  path_of ((k, name) ∷ p ∷ ps) t = replicate k delim ++ (name ++ delim ∷ path_of (p ∷ ps) t)

  at_delim : (line rest : Str) → lines delim line (delim ∷ rest) ≡ line ∷ lines delim [] rest
  unfolding lines
  at_delim [] rest =
      let e : (delim == delim) ≡ true = (==_iff delim delim).1 refl in rw (e, lines) refl
  at_delim (c ∷ line) rest =
      let e : (delim == delim) ≡ true = (==_iff delim delim).1 refl in rw (e, lines) refl

  over_name :
      (line name rest : Str)
      → Lacks name
      → lines delim line (name ++ rest) ≡ lines delim (line ++ name) rest
  unfolding lines
  over_name line [] rest h = rw (append-nil line) refl
  over_name [] (c ∷ name) rest (ne, h) =
      let e : (c == delim) ≡ false = ground arith in rw (e, lines) (over_name (c ∷ []) name rest h)
  over_name (b ∷ line) (c ∷ name) rest (ne, h) =
      let e : (c == delim) ≡ false = ground arith in
      rw (e, lines)
        (over_name ((b ∷ line) ++ c ∷ []) name rest h
          ∙ ap (λ l. lines delim l rest) (append_assoc (b ∷ line) (c ∷ []) name))

  over_delims :
      (k : ℕ) (rest : Str)
      → not_empty (lines delim [] (replicate k delim ++ rest)) ≡ not_empty (lines delim [] rest)
  unfolding not_empty
  over_delims zero rest = refl
  over_delims (suc k) rest =
      ap not_empty (at_delim [] (replicate k delim ++ rest)) ∙ over_delims k rest

  delims_only : (t : ℕ) → not_empty (lines delim [] (replicate t delim)) ≡ []
  unfolding not_empty
  delims_only zero = unfold lines in refl
  delims_only (suc t) = ap not_empty (at_delim [] (replicate t delim)) ∙ delims_only t

  last_name :
      (name : Str) (t : ℕ)
      → name ≢ []
      → not_empty (lines delim name (replicate t delim)) ≡ name ∷ []
  unfolding not_empty lines
  last_name [] t ne = absurd (ne refl)
  last_name (c ∷ name) zero ne = refl
  last_name (c ∷ name) (suc t) ne =
      ap not_empty (at_delim (c ∷ name) (replicate t delim)) ∙ ap (◌∷◌ (c ∷ name)) (delims_only t)

  next_name :
      (name rest : Str)
      → name ≢ []
      → not_empty (lines delim name (delim ∷ rest)) ≡ name ∷ not_empty (lines delim [] rest)
  unfolding not_empty
  next_name [] rest ne = absurd (ne refl)
  next_name (c ∷ name) rest ne = ap not_empty (at_delim (c ∷ name) rest)

-- tokenize finds the names of every path, in their order: no separator in excess, at the front, in
-- between or at the end, makes a name.
pub tokenize-path_of :
    (delim : ℕ) (ps : List (ℕ × Str)) (t : ℕ)
    → All (λ p. IsName delim p.1) ps
    → tokenize (path_of delim ps t) delim ≡ names_of ps
unfolding tokenize
tokenize-path_of delim [] t h = delims_only delim t
tokenize-path_of delim ((k, name) ∷ []) t ((ne, lacks), _) =
    over_delims delim k (name ++ replicate t delim)
    ∙ ap not_empty (over_name delim [] name (replicate t delim) lacks)
    ∙ last_name delim name t ne
tokenize-path_of delim ((k, name) ∷ p ∷ ps) t ((ne, lacks), h) =
    over_delims delim k (name ++ delim ∷ path_of delim (p ∷ ps) t)
    ∙ ap not_empty (over_name delim [] name (delim ∷ path_of delim (p ∷ ps) t) lacks)
    ∙ next_name delim name (path_of delim (p ∷ ps) t) ne
    ∙ ap (◌∷◌ name) (tokenize-path_of delim (p ∷ ps) t h)

slash-here : (c : ℕ) (path : Str) → c ≡ b'/' → lines b'/' [] (c ∷ path) ≡ [] ∷ lines b'/' [] path
unfolding lines
slash-here c path e = rw e refl

-- A path of slashes has no names.
pub tokenize-slashes : (path : Str) → All (λ c. c ≡ b'/') path → tokenize path b'/' ≡ []
unfolding tokenize not_empty
tokenize-slashes [] h = unfold lines in refl
tokenize-slashes (c ∷ path) (e, h) = rw (slash-here c path e) (tokenize-slashes path h)
