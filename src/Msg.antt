-- ===== src/Msg.antt =====
-- Msg.h and convert.cc: a message over a buffer, and the functions that pack a value at the
-- current position or unpack one from it, by the mode.
pub mod Fields
pub mod Splice
pub mod Steps
pub mod Packs
pub mod Uints
pub mod Unpacks
pub mod Codec
pub mod Reading
pub mod Reads
use Prim.Native.Nat.{bit_or}
use libixp.Base.{
  ℕ, ◌≡◌, ◌+◌, ◌*◌, ◌/◌, ◌%◌, ◌^◌, Bool, true, false, List, none, some, ltb, leb, if◌then◌else◌,
  length, get_elem?, set,
}

-- Msg::Mode.
pub data Mode : Type 0 where
  pack unpack : Mode

-- The buffer at _data, with _pos and _end as offsets into it. `uninit` is what an uninitialised
-- local of the functions below happens to hold.
pub record Msg : Type 0 where
  pub buffer : List ℕ
  pub size : ℕ
  pub pos : ℕ
  pub end : ℕ
  pub mode : Mode
  pub uninit : ℕ

-- What stops a call: an access outside of an allocation, a jyq::Exception, or std::terminate, which
-- an exception calls that leaves a noexcept function.
pub data Error : Type 0 where
  bad_access exception terminated : Error

pub data Result {ℓ} (A : Type ℓ) : Type ℓ where
  ok : A → Result A
  err : Error → Result A

-- A function that works on a message.
abbrev pub M : Type 0 → Type 0
M A = Msg → Result (A × Msg)

unfoldable pub pure : {A : Type 0} → A → M A
pure a m = ok (a, m)

unfoldable pub throw : {A : Type 0} → M A
throw m = err exception

infixl 5 ◌>>=◌ ◌>>◌
-- Opening this opens `pure` and `throw` too.
unfoldable pub ◌>>=◌ : {A B : Type 0} → M A → (A → M B) → M B
unfolding pure throw
◌>>=◌ m f s = elim (m s) [ ok (a, s') ↦ f a s' | err e ↦ err e ]

abbrev pub ◌>>◌ : {B : Type 0} → M (Unit {0}) → M B → M B
m >> k = m >>= λ _. k

pub bind-ok :
    {A B : Type 0} (op : M A) (f : A → M B) (m : Msg) {a : A} {m' : Msg}
    → op m ≡ ok (a, m')
    → (op >>= f) m ≡ f a m'
unfolding ◌>>=◌
bind-ok op f m e = rw (e, ◌>>=◌)

pub bind-err :
    {A B : Type 0} (op : M A) (f : A → M B) (m : Msg) {e : Error}
    → op m ≡ err e
    → (op >>= f) m ≡ err e
unfolding ◌>>=◌
bind-err op f m h = rw (h, ◌>>=◌)

-- packRequested.
pub pack_requested : M Bool
pack_requested m = ok (elim m.mode [ pack ↦ true | unpack ↦ false ], m)

pub uninitialised : M ℕ
uninitialised m = ok (m.uninit % 2 ^ 16, m)

-- _pos += n.
pub advance : ℕ → M (Unit {0})
advance n m = ok (tt, record m { pos = m.pos + n })

-- _pos + n <= _end.
pub fits : ℕ → M Bool
fits n m = ok (leb (m.pos + n) m.end, m)

-- The byte at _pos + k becomes b.
pub poke : ℕ → ℕ → M (Unit {0})
poke k b m =
    if ltb (m.pos + k) (length m.buffer)
    then ok (tt, record m { buffer = set m.buffer (m.pos + k) b })
    else err bad_access

-- pos[k] = v, into an array of uint8_t.
pub store : ℕ → ℕ → M (Unit {0})
unfolding poke
store k v = poke k (v % 256)

-- pos[k].
pub load : ℕ → M ℕ
load k m = elim (get_elem? m.buffer (m.pos + k)) [ none ↦ err bad_access | some v ↦ ok (v, m) ]

-- NumberSize.
pub data NumberSize : Type 0 where
  s_byte s_word s_dword : NumberSize

abbrev pub width : NumberSize → ℕ
width s_byte = 1
width s_word = 2
width s_dword = 4

-- The lambdas do1, do2 and do4 of puint, in Mode::Pack.
pub pack_uint : NumberSize → ℕ → M (Unit {0})
pack_uint s_byte v = store 0 v
pack_uint s_word v = do store 1 (v / 2 ^ 8); store 0 v
pack_uint s_dword v = do store 3 (v / 2 ^ 24); store 2 (v / 2 ^ 16); store 1 (v / 2 ^ 8); store 0 v

-- The same in Mode::Unpack: `v |= pos[k] << 8 * k`, from the highest byte down.
pub unpack_uint : NumberSize → M ℕ
unpack_uint s_byte = load 0
unpack_uint s_word = do b1 ← load 1; b0 ← load 0; pure (bit_or (b1 * 2 ^ 8) b0)
unpack_uint s_dword = do
  b3 ← load 3
  b2 ← load 2
  b1 ← load 1
  b0 ← load 0
  pure (bit_or (bit_or (bit_or (b3 * 2 ^ 24) (b2 * 2 ^ 16)) (b1 * 2 ^ 8)) b0)

-- The argument is *val before the call, and the result *val after it.
pub puint : NumberSize → ℕ → M ℕ
puint s val = do
  room ← fits (width s)
  packing ← pack_requested
  v ← if room then (if packing then (do pack_uint s val; pure val) else unpack_uint s) else pure val
  advance (width s)
  pure v

pub pu8 : ℕ → M ℕ
pu8 val = do v ← puint s_byte val; pure (v % 2 ^ 8)

pub pu16 : ℕ → M ℕ
pu16 val = do v ← puint s_word val; pure (v % 2 ^ 16)

pub pu32 : ℕ → M ℕ
pu32 val = puint s_dword val

-- vl | (uint64_t)vb << 32.
pub pu64 : ℕ → M ℕ
pu64 val = do
  vl ← puint s_dword (val % 2 ^ 32)
  vb ← puint s_dword (val / 2 ^ 32 % 2 ^ 32)
  pure (bit_or vl (vb * 2 ^ 32))
