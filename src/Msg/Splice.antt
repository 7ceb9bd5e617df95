-- ===== src/Msg/Splice.antt =====
-- Runs of bytes in a buffer: writing one at a position, and finding one there.
use libixp.Base.{
  ℕ, suc, ◌+◌, ◌≤◌, ◌<◌, ◌≡◌, refl, ◌∙◌, List, [], ◌∷◌, ◌++◌, some, arith, length, get_elem?, set,
  length-set, get_elem?-set_self, get_elem?-set_ne,
}

-- The buffer with the bytes written from p on.
unfoldable pub splice : List ℕ → ℕ → List ℕ → List ℕ
splice buf p [] = buf
splice buf p (b ∷ bs) = splice (set buf p b) (suc p) bs

-- The bytes stand in the buffer from p on.
abbrev pub At : List ℕ → ℕ → List ℕ → Type 0
At buf p [] = Unit {0}
At buf p (b ∷ bs) = (get_elem? buf p ≡ some b) × At buf (suc p) bs

pub length-splice : (buf : List ℕ) (p : ℕ) (bs : List ℕ) → length (splice buf p bs) ≡ length buf
unfolding splice
length-splice buf p [] = refl
length-splice buf p (b ∷ bs) = length-splice (set buf p b) (suc p) bs ∙ length-set buf p b

pub splice-append :
    (buf : List ℕ) (p q : ℕ) (xs ys : List ℕ)
    → q ≡ p + length xs
    → splice (splice buf p xs) q ys ≡ splice buf p (xs ++ ys)
unfolding splice
splice-append buf p q [] ys e = let h : q ≡ p = omega arith in rw h
splice-append buf p q (x ∷ xs) ys e = splice-append (set buf p x) (suc p) q xs ys (omega arith)

-- Bytes before the run and behind it are left alone.
pub get_elem?-splice_below :
    (buf : List ℕ) (p i : ℕ) (bs : List ℕ) → i < p → get_elem? (splice buf p bs) i ≡ get_elem? buf i
unfolding splice
get_elem?-splice_below buf p i [] h = refl
get_elem?-splice_below buf p i (b ∷ bs) h =
    get_elem?-splice_below (set buf p b) (suc p) i bs (omega arith)
    ∙ get_elem?-set_ne buf p i b (omega arith)

pub get_elem?-splice_above :
    (buf : List ℕ) (p i : ℕ) (bs : List ℕ)
    → p + length bs ≤ i
    → get_elem? (splice buf p bs) i ≡ get_elem? buf i
unfolding splice
get_elem?-splice_above buf p i [] h = refl
get_elem?-splice_above buf p i (b ∷ bs) h =
    get_elem?-splice_above (set buf p b) (suc p) i bs (omega arith)
    ∙ get_elem?-set_ne buf p i b (omega arith)

-- What was written is there.
pub At-splice :
    (buf : List ℕ) (p : ℕ) (bs : List ℕ) → p + length bs ≤ length buf → At (splice buf p bs) p bs
unfolding splice
At-splice buf p [] h = tt
At-splice buf p (b ∷ bs) h = (
  get_elem?-splice_below (set buf p b) (suc p) p bs (omega arith)
      ∙ get_elem?-set_self buf p b (omega arith),
  At-splice (set buf p b) (suc p) bs (omega (arith, length-set buf p b)),
)

pub At-append_left : (buf : List ℕ) (p : ℕ) (xs ys : List ℕ) → At buf p (xs ++ ys) → At buf p xs
At-append_left buf p [] ys h = tt
At-append_left buf p (x ∷ xs) ys (h, hs) = (h, At-append_left buf (suc p) xs ys hs)

pub At-append_right :
    (buf : List ℕ) (p q : ℕ) (xs ys : List ℕ)
    → q ≡ p + length xs
    → At buf p (xs ++ ys)
    → At buf q ys
At-append_right buf p q [] ys e h = let k : q ≡ p = omega arith in rw k h
At-append_right buf p q (x ∷ xs) ys e (_, hs) = At-append_right buf (suc p) q xs ys (omega arith) hs

pub At-append :
    (buf : List ℕ) (p q : ℕ) (xs ys : List ℕ)
    → q ≡ p + length xs
    → At buf p xs
    → At buf q ys
    → At buf p (xs ++ ys)
At-append buf p q [] ys e hx hy = let k : q ≡ p = omega arith in rw (← k) hy
At-append buf p q (x ∷ xs) ys e (h, hs) hy = (h, At-append buf (suc p) q xs ys (omega arith) hs hy)

-- A run survives a change that leaves its bytes alone.
pub At-transport :
    (buf buf' : List ℕ) (p : ℕ) (bs : List ℕ)
    → ((i : ℕ) → p ≤ i → get_elem? buf' i ≡ get_elem? buf i)
    → At buf p bs
    → At buf' p bs
At-transport buf buf' p [] same h = tt
At-transport buf buf' p (b ∷ bs) same (h, hs) =
    (same p (omega arith) ∙ h, At-transport buf buf' (suc p) bs (λ i le. same i (omega arith)) hs)
