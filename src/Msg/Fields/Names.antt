-- ===== src/Msg/Fields/Names.antt =====
-- The strings of a walk in Mode::Unpack: the loop of pstrings does not step over what it reads.
use libixp.Base.{
  ℕ, zero, suc, ◌+◌, ◌*◌, ◌/◌, ◌%◌, ◌^◌, ◌≤◌, ◌<◌, ◌≡◌, refl, sym, ◌∙◌, inl, inr, none, some, List,
  [], ◌∷◌, ◌++◌, arith, length, get_elem?, Option-cases, le→ltb_false, lt-cases,
}
use libixp.Types.{max_welem}
use libixp.Msg.{Mode, Msg, bad_access, ok, err, bind-ok, bind-err, load, s_word}
use libixp.Msg.Fields.{Str, load_bytes, for_first, pstrings_round, parray, pstrings}
use libixp.Msg.Fields.Unpacking.{load_bytes-ok}
use libixp.Msg.Packs.{IsWithin}
use libixp.Msg.Reading.{load-ok, Unpacks-pu16}
use libixp.Msg.Splice.{At, At-append_left, At-append_right}
use libixp.Msg.Steps.{packing-no}
use libixp.Msg.Uints.{bytes}

get_elem?-ge : (xs : List ℕ) (i : ℕ) → length xs ≤ i → get_elem? xs i ≡ none
get_elem?-ge [] i h = refl
get_elem?-ge (x ∷ xs) zero h = absurd (omega (arith, h))
get_elem?-ge (x ∷ xs) (suc i) h = get_elem?-ge xs i (omega arith)

get_elem?-some : (xs : List ℕ) (i : ℕ) {v : ℕ} → get_elem? xs i ≡ some v → i < length xs
get_elem?-some xs i h = elim (lt-cases i (length xs)) [
  | inl lt ↦ lt
  | inr ge ↦ let e = sym (get_elem?-ge xs i ge) ∙ h in cc
]

-- A read that runs out of the buffer.
load_bytes-overrun :
    (k n : ℕ) (m : Msg)
    → m.pos + k ≤ length m.buffer
    → length m.buffer < m.pos + k + n
    → load_bytes k n m ≡ err bad_access
unfolding load_bytes load
load_bytes-overrun k zero m here h = absurd (omega (arith, here, h))
load_bytes-overrun k (suc n) m here h = elim (Option-cases (get_elem? m.buffer (m.pos + k))) [
  | inl out ↦ bind-err _ _ m (rw (out, load) refl)
  | inr (b, e) ↦
      bind-ok _ _ m (load-ok k _ b m refl e)
      ∙ bind-err _ _ m (
          load_bytes-overrun (suc k) n m (omega (arith, get_elem?-some m.buffer (m.pos + k) e))
            (omega arith))
]

-- One round on a name: its length is stepped over, its bytes are not.
round-ok :
    (str old : Str) (m : Msg)
    → IsWithin m
    → m.mode ≡ Mode.unpack
    → length str < 2 ^ 16
    → m.pos + 2 ≤ m.end
    → At m.buffer m.pos (bytes s_word (length str) ++ str)
    → pstrings_round old m ≡ ok (str, record m { pos = m.pos + 2 })
unfolding pstrings_round
round-ok str old m w p short fit at =
    bind-ok _ _ m (packing-no m p)
    ∙ bind-ok _ _ m (
        (Unpacks-pu16 m.uninit 0 (length str) short).run m w p refl fit
          (At-append_left m.buffer m.pos (bytes s_word (length str)) str at))
    ∙ load_bytes-ok 0 (m.pos + 2) str _ (omega arith)
        (At-append_right m.buffer m.pos (m.pos + 2) (bytes s_word (length str)) str refl at)

-- One round where the length that is read leads out of the buffer.
round-overrun :
    (v : ℕ) (old : Str) (m : Msg)
    → IsWithin m
    → m.mode ≡ Mode.unpack
    → v < 2 ^ 16
    → m.pos + 2 ≤ m.end
    → At m.buffer m.pos (bytes s_word v)
    → length m.buffer < m.pos + 2 + v
    → pstrings_round old m ≡ err bad_access
unfolding pstrings_round
round-overrun v old m w p short fit at over =
    bind-ok _ _ m (packing-no m p)
    ∙ bind-ok _ _ m ((Unpacks-pu16 m.uninit 0 v short).run m w p refl fit at)
    ∙ load_bytes-overrun 0 v _ (omega arith) (omega arith)

-- Two rounds, the second from within the name that the first has read.
loop-overrun :
    (m : Msg) (n a b : ℕ) (x y name : Str) (names : List Str)
    → IsWithin m
    → length m.buffer ≤ 8192
    → m.mode ≡ Mode.unpack
    → a < 256
    → 32 ≤ b
    → b < 256
    → 2 + length name < 2 ^ 16
    → m.pos + length name + 4 ≤ m.end
    → At m.buffer m.pos (bytes s_word (2 + length name) ++ (a ∷ b ∷ name))
    → for_first pstrings_round (suc (suc n)) (x ∷ y ∷ names) m ≡ err bad_access
unfolding for_first
loop-overrun m n a b x y name names w small p ha low hb short fit at =
    let str : Str = a ∷ b ∷ name in
    let len : length str ≡ 2 + length name = omega arith in
    let v = a + 256 * b in
    let lo : v % 256 ≡ a = omega arith in
    let hi : v / 2 ^ 8 % 256 ≡ b = omega arith in
    let at2 : At m.buffer (m.pos + 2) str =
      At-append_right m.buffer m.pos (m.pos + 2) (bytes s_word (2 + length name)) str refl at in
    bind-ok _ _ m (round-ok str x m w p (rw len short) (omega arith) (rw len at))
    ∙ bind-err _ _ _ (
        bind-err _ _ _ (
          round-overrun v y _ w p (omega arith) (omega arith) (rw (lo, hi) (at2.0, (at2.1.0, tt)))
            (omega arith)))

-- The names of a walk stand behind their number, each with its length in front. unpack reads the
-- first name and takes the first two bytes of it for the length of the second. If the second of
-- these bytes is 32 or more, as in any text, the read leaves a buffer of up to 8192 bytes,
-- whatever else the message holds.
pub pstrings-overrun :
    (m : Msg) (num n a b : ℕ) (x y name : Str) (names : List Str)
    → IsWithin m
    → length m.buffer ≤ 8192
    → m.mode ≡ Mode.unpack
    → 2 + n ≤ max_welem
    → a < 256
    → 32 ≤ b
    → b < 256
    → 2 + length name < 2 ^ 16
    → m.pos + length name + 6 ≤ m.end
    → At m.buffer m.pos (bytes s_word (2 + n) ++ (bytes s_word (2 + length name) ++ (a ∷ b ∷ name)))
    → pstrings max_welem num (x ∷ y ∷ names) m ≡ err bad_access
unfolding pstrings parray
pstrings-overrun m num n a b x y name names w small p max ha low hb short fit at =
    let rest = bytes s_word (2 + length name) ++ (a ∷ b ∷ name) in
    let first = bytes s_word (2 + n) in
    let e : 2 + n ≡ suc (suc n) = omega arith in
    bind-ok _ _ m (
      (Unpacks-pu16 m.uninit num (2 + n) (omega arith)).run m w p refl (omega arith)
        (At-append_left m.buffer m.pos first rest at))
    ∙ rw (le→ltb_false _ _ max) (
        bind-err _ _ _ (
          rw e (
            loop-overrun (record m { pos = m.pos + 2 }) n a b x y name names w small p ha low hb
              short (omega arith) (At-append_right m.buffer m.pos (m.pos + 2) first rest refl at))))
