-- ===== src/Msg/Fields/Packing.antt =====
-- pstring, pdata and the array loops in Mode::Pack.
use libixp.Base.{
  ℕ, zero, suc, ◌+◌, ◌%◌, ◌^◌, ◌≤◌, ◌<◌, ◌≡◌, refl, ◌∙◌, List, [], ◌∷◌, ◌++◌, arith, length,
  length-set, take, All, le→ltb_false,
}
use libixp.Msg.{Msg, ok, M, pure, bind-ok, s_word}
use libixp.Msg.Fields.{
  Str, store_bytes, copy, pdata, pstring, store_elements, pdata_vector, for_first, pstrings_round,
  parray,
}
use libixp.Msg.Splice.{splice, At}
use libixp.Msg.Packs.{
  Packs, Packs-bind, Packs-pure, Packs-map, Packs-requested, Packs-uninitialised, Packs-guarded,
}
use libixp.Msg.Uints.{bytes, poke-ok, Packs-pu16}

pub store_bytes-ok :
    (k p : ℕ) (bs : Str) (m : Msg)
    → p ≡ m.pos + k
    → p + length bs ≤ length m.buffer
    → store_bytes k bs m ≡ ok (tt, record m { buffer = splice m.buffer p bs })
unfolding store_bytes splice pure
store_bytes-ok k p [] m e h = refl
store_bytes-ok k p (b ∷ bs) m e h =
    bind-ok _ _ m (poke-ok k b m (omega arith))
    ∙ store_bytes-ok (suc k) (suc p) bs _ (omega arith)
        (omega (arith, length-set m.buffer (m.pos + k) b))
    ∙ rw e refl

copy-ok :
    (str : Str) (len : ℕ) (m : Msg)
    → m.pos + length (take len str) ≤ length m.buffer
    → copy str len m ≡ ok (str, record m { buffer = splice m.buffer m.pos (take len str) })
unfolding copy pure
copy-ok str len m h = bind-ok _ _ m (store_bytes-ok 0 m.pos (take len str) m (omega arith) h)

pub length-take : (n : ℕ) (xs : Str) → n ≤ length xs → length (take n xs) ≡ n
length-take zero xs h = refl
length-take (suc n) [] h = absurd (omega arith)
length-take (suc n) (x ∷ xs) h = omega (arith, length-take n xs (omega arith))

-- A string of which len bytes are taken is packed as those bytes, if it has them.
pub Packs-pdata :
    (junk : ℕ) (str : Str) (len : ℕ)
    → len ≤ length str
    → Packs junk (pdata str len) str (take len str)
unfolding pdata
Packs-pdata junk str len h =
    Packs-guarded _ _ str len junk (take len str) (length-take len str h)
      λ m w room. copy-ok str len m (omega (arith, length-take len str h))

-- The length as a uint16_t and that many bytes.
abbrev pub string_bytes : Str → List ℕ
string_bytes str = bytes s_word (length str % 2 ^ 16) ++ take (length str % 2 ^ 16) str

wire_length : (str : Str) → length (take (length str % 2 ^ 16) str) ≡ length str % 2 ^ 16
wire_length str = length-take (length str % 2 ^ 16) str (omega arith)

pub Packs-pstring : (junk : ℕ) (str : Str) → Packs junk (pstring str) str (string_bytes str)
unfolding pstring
Packs-pstring junk str =
    let n = length str % 2 ^ 16 in
    Packs-bind _ _ (Packs-requested junk) (
      Packs-bind _ _ (Packs-uninitialised junk) (
        Packs-bind _ _ (Packs-pu16 junk n (omega arith)) (
          Packs-guarded _ _ str n junk (take n str) (wire_length str)
            λ m w room. copy-ok str n m (omega (arith, wire_length str)))))

store_elements-ok :
    (elements : Str) (k p n : ℕ) (bs : Str) (m : Msg)
    → p ≡ m.pos + k
    → p + n ≤ length m.buffer
    → At elements k bs
    → length bs ≡ n
    → store_elements elements k n m ≡ ok (tt, record m { buffer = splice m.buffer p bs })
unfolding store_elements splice pure
store_elements-ok elements k p zero [] m e h a l = refl
store_elements-ok elements k p zero (b ∷ bs) m e h a l = absurd (omega arith)
store_elements-ok elements k p (suc n) [] m e h a l = absurd (omega arith)
store_elements-ok elements k p (suc n) (b ∷ bs) m e h (a, rest) l =
    rw (a, store_elements)
      (bind-ok _ _ m (poke-ok k b m (omega arith))
        ∙ store_elements-ok elements (suc k) (suc p) n bs _ (omega arith)
            (omega (arith, length-set m.buffer (m.pos + k) b)) rest (omega arith)
        ∙ rw e refl)

At-cons : (x : ℕ) (buf : List ℕ) (p : ℕ) (bs : List ℕ) → At buf p bs → At (x ∷ buf) (suc p) bs
At-cons x buf p [] h = tt
At-cons x buf p (b ∷ bs) (h, hs) = (h, At-cons x buf (suc p) bs hs)

At-take : (xs : Str) (n : ℕ) → At xs 0 (take n xs)
At-take xs zero = tt
At-take [] (suc n) = tt
At-take (x ∷ xs) (suc n) = (refl, At-cons x xs 0 (take n xs) (At-take xs n))

-- A vector of at least len bytes is packed as its first len.
pub Packs-pdata_vector :
    (junk : ℕ) (elements : Str) (len : ℕ)
    → len ≤ length elements
    → Packs junk (pdata_vector elements len) elements (take len elements)
unfolding pdata_vector pure
Packs-pdata_vector junk elements len h =
    Packs-guarded _ _ elements len junk (take len elements) (length-take len elements h) λ m w room.
      bind-ok _ _ m (
        store_elements-ok elements 0 m.pos len (take len elements) m (omega arith) (omega arith)
          (At-take elements len) (length-take len elements h))

-- The loops over the first n entries of an array.
module _ {A : Type 0} (body : A → M A) (enc : A → List ℕ) where
  abbrev pub first_bytes : ℕ → List A → List ℕ
  first_bytes zero xs = []
  first_bytes (suc n) [] = []
  first_bytes (suc n) (x ∷ xs) = enc x ++ first_bytes n xs

  pub Packs-for_first :
      (junk n : ℕ) (xs : List A)
      → n ≤ length xs
      → All (λ x. Packs junk (body x) x (enc x)) xs
      → Packs junk (for_first body n xs) xs (first_bytes n xs)
  unfolding for_first
  Packs-for_first junk zero xs h v = Packs-pure junk xs
  Packs-for_first junk (suc n) [] h v = absurd (omega arith)
  Packs-for_first junk (suc n) (x ∷ xs) h (v, vs) =
      Packs-bind _ _ v (Packs-map _ (◌∷◌ x) (Packs-for_first junk n xs (omega arith) vs))

  pub Packs-parray :
      (junk limit num : ℕ) (xs : List A)
      → num ≤ limit
      → num ≤ length xs
      → num < 2 ^ 16
      → All (λ x. Packs junk (body x) x (enc x)) xs
      → Packs junk (parray body limit num xs) (num, xs) (bytes s_word num ++ first_bytes num xs)
  unfolding parray
  Packs-parray junk limit num xs hl hx hn v = Packs-bind _ _ (Packs-pu16 junk num hn) (
      rw (le→ltb_false limit num hl)
        (Packs-map _ (λ xs'. (num, xs')) (Packs-for_first junk num xs hx v)))

pub Packs-pstrings_round :
    (junk : ℕ) (str : Str) → Packs junk (pstrings_round str) str (string_bytes str)
unfolding pstrings_round
Packs-pstrings_round junk str = Packs-bind _ _ (Packs-requested junk) (
    Packs-bind _ _ (Packs-pu16 junk (length str % 2 ^ 16) (omega arith))
      (Packs-pdata junk str (length str % 2 ^ 16) (omega arith)))
