-- ===== src/Msg/Fields.antt =====
-- convert.cc and the templates of Msg.h: strings, raw data and arrays in a message.
-- A std::string and a std::vector of bytes are lists of bytes.
pub mod Packing
pub mod Unpacking
pub mod Names
pub mod Reads
use libixp.Base.{
  ℕ, zero, suc, ◌+◌, ◌%◌, ◌^◌, List, [], ◌∷◌, ◌++◌, none, some, ltb, if◌then◌else◌, length,
  get_elem?, take,
}
use libixp.Msg.{
  bad_access, ok, err, M, pure, ◌>>=◌, ◌>>◌, pack_requested, uninitialised, advance, fits, poke,
  load, pu16,
}

abbrev pub Str : Type 0
Str = List ℕ

-- The loop that copies bytes to _pos + k and on.
pub store_bytes : ℕ → Str → M (Unit {0})
store_bytes k [] = pure tt
store_bytes k (b ∷ bs) = do poke k b; store_bytes (suc k) bs

-- The n bytes from _pos + k on.
pub load_bytes : ℕ → ℕ → M Str
load_bytes k zero = pure []
load_bytes k (suc n) = do b ← load k; bs ← load_bytes (suc k) n; pure (b ∷ bs)

-- str.copy(_pos, len) takes the bytes that str has, len at most.
pub copy : Str → ℕ → M Str
copy str len = do store_bytes 0 (take len str); pure str

-- pdata(std::string&, uint).
pub pdata : Str → ℕ → M Str
pdata str len = do
  room ← fits len
  packing ← pack_requested
  str' ← if room then (if packing then copy str len else load_bytes 0 len) else pure str
  advance len
  pure str'

-- pstring(std::string&). The local len has no value yet when a string is unpacked.
pub pstring : Str → M Str
pstring str = do
  packing ← pack_requested
  junk ← uninitialised
  len ← pu16 (if packing then length str % 2 ^ 16 else junk)
  room ← fits len
  packing' ← pack_requested
  str' ← if room then (if packing' then copy str len else load_bytes 0 len) else pure str
  advance len
  pure str'

-- *start = data[start - _pos], for the n places from k on.
pub store_elements : Str → ℕ → ℕ → M (Unit {0})
store_elements elements k zero = pure tt
store_elements elements k (suc n) = elim (get_elem? elements k) [
  | none ↦ λ m. err bad_access
  | some b ↦ do poke k b; store_elements elements (suc k) n
]

-- pdata(std::vector<uint8_t>&, uint). Unpacking appends to the vector.
pub pdata_vector : Str → ℕ → M Str
pdata_vector elements len = do
  room ← fits len
  packing ← pack_requested
  elements' ←
      if room
      then (if packing
          then (do store_elements elements 0 len; pure elements)
          else (do bs ← load_bytes 0 len; pure (elements ++ bs)))
      else pure elements
  advance len
  pure elements'

-- _pos = _end + 1.
pub past_end : M (Unit {0})
past_end m = ok (tt, record m { pos = m.end + 1 })

-- The loops over the first num entries of an array.
pub for_first : {A : Type 0} → (A → M A) → ℕ → List A → M (List A)
for_first body zero xs = pure xs
for_first body (suc n) [] = λ m. err bad_access
for_first body (suc n) (x ∷ xs) = do x' ← body x; xs' ← for_first body n xs; pure (x' ∷ xs')

-- One round of the loop of pstrings: what is unpacked is not stepped over.
pub pstrings_round : Str → M Str
pstrings_round str = do
  packing ← pack_requested
  len ← pu16 (if packing then length str % 2 ^ 16 else 0)
  if packing then pdata str len else load_bytes 0 len

-- The guard and the loop that pstrings and pqids share.
pub parray : {A : Type 0} → (A → M A) → ℕ → ℕ → List A → M (ℕ × List A)
parray body limit num xs = do
  num' ← pu16 num
  if ltb limit num'
      then (do past_end; pure (num', xs))
      else (do xs' ← for_first body num' xs; pure (num', xs'))

-- pstrings over an array of std::string.
unfoldable pub pstrings : ℕ → ℕ → List Str → M (ℕ × List Str)
pstrings limit num strings = parray pstrings_round limit num strings
