-- ===== src/Msg/Fields/Unpacking.antt =====
-- pstring, pdata and the array loops in Mode::Unpack.
use libixp.Base.{
  ℕ, zero, suc, ◌+◌, ◌%◌, ◌^◌, ◌≤◌, ◌<◌, ◌≡◌, refl, ◌∙◌, List, [], ◌∷◌, ◌++◌, arith, length,
  take-length, All, le→ltb_false,
}
use libixp.Msg.{Msg, ok, M, pure, bind-ok, s_word}
use libixp.Msg.Fields.{Str, load_bytes, pdata, pstring, pdata_vector, for_first, parray}
use libixp.Msg.Fields.Packing.{string_bytes, first_bytes}
use libixp.Msg.Splice.{At}
use libixp.Msg.Unpacks.{
  Unpacks, Unpacks-bind, Unpacks-pure, Unpacks-map, Unpacks-requested, Unpacks-uninitialised,
  Unpacks-guarded,
}
use libixp.Msg.Uints.{bytes}
use libixp.Msg.Reading.{load-ok, Unpacks-pu16}

pub load_bytes-ok :
    (k p : ℕ) (bs : Str) (m : Msg)
    → p ≡ m.pos + k
    → At m.buffer p bs
    → load_bytes k (length bs) m ≡ ok (bs, m)
unfolding load_bytes pure
load_bytes-ok k p [] m e at = refl
load_bytes-ok k p (b ∷ bs) m e (at, rest) =
    bind-ok _ _ m (load-ok k p b m e at)
    ∙ bind-ok _ _ m (load_bytes-ok (suc k) (suc p) bs m (omega arith) rest)

pub Unpacks-pdata : (junk : ℕ) (old str : Str) → Unpacks junk (pdata old (length str)) str str
unfolding pdata
Unpacks-pdata junk old str =
    Unpacks-guarded _ _ old (length str) junk str refl
      λ m w at. load_bytes-ok 0 m.pos str m (omega arith) at

pub Unpacks-pstring :
    (junk : ℕ) (old str : Str)
    → length str < 2 ^ 16
    → Unpacks junk (pstring old) str (string_bytes str)
unfolding pstring
Unpacks-pstring junk old str h =
    let e : length str % 2 ^ 16 ≡ length str = omega arith in
    rw (e, take-length str)
      (Unpacks-bind _ _ (Unpacks-requested junk) (
        Unpacks-bind _ _ (Unpacks-uninitialised junk) (
          Unpacks-bind _ _ (Unpacks-pu16 junk (junk % 2 ^ 16) (length str) h) (
            Unpacks-guarded _ _ old (length str) junk str refl
              λ m w at. load_bytes-ok 0 m.pos str m (omega arith) at))))

-- Unpacked bytes go behind those that the vector holds.
pub Unpacks-pdata_vector :
    (junk : ℕ) (old bs : Str) → Unpacks junk (pdata_vector old (length bs)) (old ++ bs) bs
unfolding pdata_vector pure
Unpacks-pdata_vector junk old bs =
    Unpacks-guarded _ _ old (length bs) junk bs refl
      λ m w at. bind-ok _ _ m (load_bytes-ok 0 m.pos bs m (omega arith) at)

module _ {A : Type 0} (body : A → M A) (enc : A → List ℕ) (merge : A → A → A) where
  -- The entries of old, the first n of them replaced from xs.
  abbrev pub merge_first : ℕ → List A → List A → List A
  merge_first zero xs olds = olds
  merge_first (suc n) [] olds = olds
  merge_first (suc n) (x ∷ xs) [] = []
  merge_first (suc n) (x ∷ xs) (o ∷ olds) = merge x o ∷ merge_first n xs olds

  pub Unpacks-for_first :
      (junk n : ℕ) (xs olds : List A)
      → n ≤ length xs
      → n ≤ length olds
      → All (λ x. (old : A) → Unpacks junk (body old) (merge x old) (enc x)) xs
      → Unpacks junk (for_first body n olds) (merge_first n xs olds) (first_bytes body enc n xs)
  unfolding for_first
  Unpacks-for_first junk zero xs olds h k v = Unpacks-pure junk olds
  Unpacks-for_first junk (suc n) [] olds h k v = absurd (omega arith)
  Unpacks-for_first junk (suc n) (x ∷ xs) [] h k v = absurd (omega arith)
  Unpacks-for_first junk (suc n) (x ∷ xs) (o ∷ olds) h k (v, vs) = Unpacks-bind _ _ (v o) (
      Unpacks-map _ (◌∷◌ (merge x o))
        (Unpacks-for_first junk n xs olds (omega arith) (omega arith) vs))

  pub Unpacks-parray :
      (junk limit old num : ℕ) (xs olds : List A)
      → num ≤ limit
      → num ≤ length xs
      → num ≤ length olds
      → num < 2 ^ 16
      → All (λ x. (o : A) → Unpacks junk (body o) (merge x o) (enc x)) xs
      → Unpacks junk
          (parray body limit old olds)
          (num, merge_first num xs olds)
          (bytes s_word num ++ first_bytes body enc num xs)
  unfolding parray
  Unpacks-parray junk limit old num xs olds hl hx ho hn v =
      Unpacks-bind _ _ (Unpacks-pu16 junk old num hn) (
        rw (le→ltb_false limit num hl)
          (Unpacks-map _ (λ xs'. (num, xs')) (Unpacks-for_first junk num xs olds hx ho v)))
