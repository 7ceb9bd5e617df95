-- ===== src/Types.antt =====
-- types.h: the protocol's constants, and the two-argument min. A constant of an enumeration stands
-- in the child module that is named for the enumeration.
pub mod FType
pub mod Bits
use libixp.Base.{ℕ, ◌-◌, ◌^◌, ltb, if◌then◌else◌, List, [], ◌∷◌}

-- maximum::Msg, maximum::Welem.
abbrev pub max_msg : ℕ
max_msg = 8192

abbrev pub max_welem : ℕ
max_welem = 16

-- uint16_t(~0) and ~0u.
abbrev pub no_tag : ℕ
no_tag = 2 ^ 16 - 1

abbrev pub no_fid : ℕ
no_fid = 2 ^ 32 - 1

-- "9P2000" and "9P", as bytes.
abbrev pub version_9p2000 : List ℕ
version_9p2000 = b'9' ∷ b'P' ∷ b'2' ∷ b'0' ∷ b'0' ∷ b'0' ∷ []

abbrev pub version_9p : List ℕ
version_9p = b'9' ∷ b'P' ∷ []

-- jyq::min, on values that are not negative.
abbrev pub min : ℕ → ℕ → ℕ
min a b = if ltb a b then a else b
