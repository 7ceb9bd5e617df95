-- ===== src/Types/Bits.antt =====
-- The bits of OMode, QType and DMode that the library itself tests.
use libixp.Base.{ℕ}

-- OMode::READ, WRITE, RDWR and RCLOSE.
abbrev pub o_read : ℕ
o_read = 0

abbrev pub o_write : ℕ
o_write = 1

abbrev pub o_rdwr : ℕ
o_rdwr = 2

abbrev pub o_rclose : ℕ
o_rclose = 64

-- QType::DIR and DMode::DIR.
abbrev pub q_dir : ℕ
q_dir = 0x80

abbrev pub d_dir : ℕ
d_dir = 0x8000_0000
