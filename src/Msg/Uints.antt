-- ===== src/Msg/Uints.antt =====
-- pu8 to pu64 in Mode::Pack: they pack the bytes of the value, the lowest first.
use libixp.Base.{
  ℕ, suc, ◌+◌, ◌*◌, ◌/◌, ◌%◌, ◌^◌, ◌≤◌, ◌<◌, ◌≡◌, refl, ◌∙◌, List, [], ◌∷◌, ◌++◌, arith, length,
  set, length-set, set_comm, lt→ltb,
}
use Prim.Native.Nat.{bit_or}
use libixp.Base.Bits.{bit_or_low_high}
use libixp.Msg.{
  Msg, ok, pure, bind-ok, poke, store, NumberSize, s_byte, s_word, s_dword, width, pack_uint, puint,
  pu8, pu16, pu32, pu64,
}
use libixp.Msg.Splice.{splice}
use libixp.Msg.Packs.{Packs, Packs-bind, Packs-pure, Packs-guarded}

-- The bytes of a number on the wire.
abbrev pub bytes : NumberSize → ℕ → List ℕ
bytes s_byte v = v % 256 ∷ []
bytes s_word v = v % 256 ∷ v / 2 ^ 8 % 256 ∷ []
bytes s_dword v = v % 256 ∷ v / 2 ^ 8 % 256 ∷ v / 2 ^ 16 % 256 ∷ v / 2 ^ 24 % 256 ∷ []

pub poke-ok :
    (k b : ℕ) (m : Msg)
    → m.pos + k < length m.buffer
    → poke k b m ≡ ok (tt, record m { buffer = set m.buffer (m.pos + k) b })
unfolding poke
poke-ok k b m h = rw (lt→ltb _ _ h)

store-ok :
    (k v : ℕ) (m : Msg)
    → m.pos + k < length m.buffer
    → store k v m ≡ ok (tt, record m { buffer = set m.buffer (m.pos + k) (v % 256) })
unfolding store
store-ok k v m h = poke-ok k (v % 256) m h

set_two : (buf : List ℕ) (p a b : ℕ) → set (set buf (p + 1) b) (p + 0) a ≡ splice buf p (a ∷ b ∷ [])
unfolding splice
set_two buf p a b =
    let e0 : p + 0 ≡ p = omega arith in
    let e1 : p + 1 ≡ suc p = omega arith in rw (e0, e1) (set_comm buf (suc p) p b a (omega arith))

set_four :
    (buf : List ℕ) (p a b c d : ℕ)
    → set (set (set (set buf (p + 3) d) (p + 2) c) (p + 1) b) (p + 0) a
      ≡ splice buf p (a ∷ b ∷ c ∷ d ∷ [])
unfolding splice
set_four buf p a b c d =
    let e0 : p + 0 ≡ p = omega arith in
    let e1 : p + 1 ≡ suc p = omega arith in
    let e2 : p + 2 ≡ suc (suc p) = omega arith in
    let e3 : p + 3 ≡ suc (suc (suc p)) = omega arith in
    rw (e0, e1, e2, e3)
      (cc (
        set_comm (set (set buf (suc (suc (suc p))) d) (suc (suc p)) c) (suc p) p b a (omega arith),
        set_comm (set buf (suc (suc (suc p))) d) (suc (suc p)) p c a (omega arith),
        set_comm buf (suc (suc (suc p))) p d a (omega arith),
        set_comm (set (set buf p a) (suc (suc (suc p))) d) (suc (suc p)) (suc p) c b (omega arith),
        set_comm (set buf p a) (suc (suc (suc p))) (suc p) d b (omega arith),
        set_comm (set (set buf p a) (suc p) b) (suc (suc (suc p))) (suc (suc p)) d c (omega arith),
      ))

pack_uint-ok :
    (s : NumberSize) (v : ℕ) (m : Msg)
    → m.pos + width s ≤ length m.buffer
    → pack_uint s v m ≡ ok (tt, record m { buffer = splice m.buffer m.pos (bytes s v) })
unfolding pack_uint splice
pack_uint-ok s_byte v m h =
    let e0 : m.pos + 0 ≡ m.pos = omega arith in store-ok 0 v m (omega arith) ∙ rw e0 refl
pack_uint-ok s_word v m h =
    bind-ok _ _ m (store-ok 1 (v / 2 ^ 8) m (omega arith))
    ∙ store-ok 0 v _ (omega (arith, length-set m.buffer (m.pos + 1) (v / 2 ^ 8 % 256)))
    ∙ rw (set_two m.buffer m.pos (v % 256) (v / 2 ^ 8 % 256)) refl
pack_uint-ok s_dword v m h =
    bind-ok _ _ m (store-ok 3 (v / 2 ^ 24) m (omega arith))
    ∙ bind-ok _ _ _ (store-ok 2 (v / 2 ^ 16) _ (omega (arith, length-set {0})))
    ∙ bind-ok _ _ _ (store-ok 1 (v / 2 ^ 8) _ (omega (arith, length-set {0})))
    ∙ store-ok 0 v _ (omega (arith, length-set {0}))
    ∙ rw (set_four m.buffer m.pos (v % 256) (v / 2 ^ 8 % 256) (v / 2 ^ 16 % 256) (v / 2 ^ 24 % 256))
        refl

pub length-bytes : (s : NumberSize) (v : ℕ) → length (bytes s v) ≡ width s
length-bytes s_byte v = refl
length-bytes s_word v = refl
length-bytes s_dword v = refl

pub Packs-puint : (junk : ℕ) (s : NumberSize) (v : ℕ) → Packs junk (puint s v) v (bytes s v)
unfolding puint pure
Packs-puint junk s v =
    Packs-guarded _ _ v (width s) junk (bytes s v) (length-bytes s v)
      λ m w h. bind-ok _ _ m (pack_uint-ok s v m (omega arith))

-- A packed value is given back as it was, and the bytes are those of its width.
pub Packs-pu8 : (junk v : ℕ) → v < 2 ^ 8 → Packs junk (pu8 v) v (bytes s_byte v)
unfolding pu8
Packs-pu8 junk v h =
    let e : v % 2 ^ 8 ≡ v = omega arith in
    Packs-bind _ _ (Packs-puint junk s_byte v) (rw e (Packs-pure junk v))

pub Packs-pu16 : (junk v : ℕ) → v < 2 ^ 16 → Packs junk (pu16 v) v (bytes s_word v)
unfolding pu16
Packs-pu16 junk v h =
    let e : v % 2 ^ 16 ≡ v = omega arith in
    Packs-bind _ _ (Packs-puint junk s_word v) (rw e (Packs-pure junk v))

pub Packs-pu32 : (junk v : ℕ) → Packs junk (pu32 v) v (bytes s_dword v)
unfolding pu32
Packs-pu32 junk v = Packs-puint junk s_dword v

abbrev pub bytes64 : ℕ → List ℕ
bytes64 v = bytes s_dword (v % 2 ^ 32) ++ bytes s_dword (v / 2 ^ 32 % 2 ^ 32)

pub joined : (v : ℕ) → v < 2 ^ 64 → bit_or (v % 2 ^ 32) (v / 2 ^ 32 % 2 ^ 32 * 2 ^ 32) ≡ v
joined v h = bit_or_low_high 32 (v / 2 ^ 32 % 2 ^ 32) (v % 2 ^ 32) (omega arith) ∙ omega arith

pub Packs-pu64 : (junk v : ℕ) → v < 2 ^ 64 → Packs junk (pu64 v) v (bytes64 v)
unfolding pu64
Packs-pu64 junk v h =
    let e : bit_or (v % 2 ^ 32) (v / 2 ^ 32 % 2 ^ 32 * 2 ^ 32) ≡ v = joined v h in
    Packs-bind _ _ (Packs-puint junk s_dword (v % 2 ^ 32))
      (Packs-bind _ _ (Packs-puint junk s_dword (v / 2 ^ 32 % 2 ^ 32)) (rw e (Packs-pure junk v)))
