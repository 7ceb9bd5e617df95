-- ===== src/Msg/Reading.antt =====
-- pu8 to pu64 in Mode::Unpack: they give the value back whose bytes stand in the buffer.
use libixp.Base.{ℕ, suc, ◌+◌, ◌/◌, ◌%◌, ◌^◌, ◌<◌, ◌≡◌, refl, ap, ◌∙◌, some, arith, get_elem?}
use libixp.Base.Bits.{or_two, or_four}
use libixp.Msg.{
  Msg, ok, pure, bind-ok, load, NumberSize, s_byte, s_word, s_dword, width, unpack_uint, puint, pu8,
  pu16, pu32, pu64,
}
use libixp.Msg.Splice.{At}
use libixp.Msg.Unpacks.{Unpacks, Unpacks-bind, Unpacks-pure, Unpacks-guarded}
use libixp.Msg.Uints.{bytes, bytes64, joined, length-bytes}

pub load-ok :
    (k p b : ℕ) (m : Msg) → p ≡ m.pos + k → get_elem? m.buffer p ≡ some b → load k m ≡ ok (b, m)
unfolding load
load-ok k p b m e h = rw (← e, h, load)

unpack_uint-ok :
    (s : NumberSize) (v : ℕ) (m : Msg)
    → v < 256 ^ width s
    → At m.buffer m.pos (bytes s v)
    → unpack_uint s m ≡ ok (v, m)
unfolding unpack_uint pure
unpack_uint-ok s_byte v m h at =
    let e : v % 256 ≡ v = omega arith in load-ok 0 m.pos (v % 256) m (omega arith) at.0 ∙ rw e refl
unpack_uint-ok s_word v m h at =
    bind-ok _ _ m (load-ok 1 (suc m.pos) (v / 2 ^ 8 % 256) m (omega arith) at.1.0)
    ∙ bind-ok _ _ m (load-ok 0 m.pos (v % 256) m (omega arith) at.0)
    ∙ ap (λ x. ok (x, m)) (or_two (v % 256) (v / 2 ^ 8 % 256) (omega arith) ∙ omega arith)
unpack_uint-ok s_dword v m h at =
    bind-ok _ _ m (load-ok 3 (suc (suc (suc m.pos))) (v / 2 ^ 24 % 256) m (omega arith) at.1.1.1.0)
    ∙ bind-ok _ _ m (load-ok 2 (suc (suc m.pos)) (v / 2 ^ 16 % 256) m (omega arith) at.1.1.0)
    ∙ bind-ok _ _ m (load-ok 1 (suc m.pos) (v / 2 ^ 8 % 256) m (omega arith) at.1.0)
    ∙ bind-ok _ _ m (load-ok 0 m.pos (v % 256) m (omega arith) at.0)
    ∙ ap (λ x. ok (x, m))
        (or_four (v % 256) (v / 2 ^ 8 % 256) (v / 2 ^ 16 % 256) (v / 2 ^ 24 % 256) (omega arith)
            (omega arith) (omega arith)
          ∙ omega arith)

pub Unpacks-puint :
    (junk : ℕ) (s : NumberSize) (old v : ℕ)
    → v < 256 ^ width s
    → Unpacks junk (puint s old) v (bytes s v)
unfolding puint
Unpacks-puint junk s old v h =
    Unpacks-guarded _ _ old (width s) junk (bytes s v) (length-bytes s v)
      (λ m w at. unpack_uint-ok s v m h at)

pub Unpacks-pu8 : (junk old v : ℕ) → v < 2 ^ 8 → Unpacks junk (pu8 old) v (bytes s_byte v)
unfolding pu8
Unpacks-pu8 junk old v h =
    let e : v % 2 ^ 8 ≡ v = omega arith in
    Unpacks-bind _ _ (Unpacks-puint junk s_byte old v h) (rw e (Unpacks-pure junk v))

pub Unpacks-pu16 : (junk old v : ℕ) → v < 2 ^ 16 → Unpacks junk (pu16 old) v (bytes s_word v)
unfolding pu16
Unpacks-pu16 junk old v h =
    let e : v % 2 ^ 16 ≡ v = omega arith in
    Unpacks-bind _ _ (Unpacks-puint junk s_word old v h) (rw e (Unpacks-pure junk v))

pub Unpacks-pu32 : (junk old v : ℕ) → v < 2 ^ 32 → Unpacks junk (pu32 old) v (bytes s_dword v)
unfolding pu32
Unpacks-pu32 junk old v h = Unpacks-puint junk s_dword old v h

pub Unpacks-pu64 : (junk old v : ℕ) → v < 2 ^ 64 → Unpacks junk (pu64 old) v (bytes64 v)
unfolding pu64
Unpacks-pu64 junk old v h =
    Unpacks-bind _ _ (Unpacks-puint junk s_dword (old % 2 ^ 32) (v % 2 ^ 32) (omega arith)) (
      Unpacks-bind _ _
        (Unpacks-puint junk s_dword (old / 2 ^ 32 % 2 ^ 32) (v / 2 ^ 32 % 2 ^ 32) (omega arith))
        (rw (joined v h) (Unpacks-pure junk v)))
