-- ===== src/Stat.antt =====
-- stat.h, Stat::size of message.cc and Stat::packUnpack of convert.cc.
pub mod Wire
use libixp.Base.{ℕ, ◌+◌, ◌-◌, ◌*◌, ◌%◌, ◌^◌, if◌then◌else◌, length, []}
use libixp.Msg.{M, pure, ◌>>=◌, ◌>>◌, pack_requested, pu16, pu32, pu64}
use libixp.Msg.Fields.{Str, pstring}
use libixp.Qid.{Qid, pack_unpack_qid}

pub record Stat : Type 0 where
  pub type : ℕ
  pub dev : ℕ
  pub qid : Qid
  pub mode : ℕ
  pub atime : ℕ
  pub mtime : ℕ
  pub length : ℕ
  pub name : Str
  pub uid : Str
  pub gid : Str
  pub muid : Str

-- computeStringSize.
abbrev pub string_size : Str → ℕ
string_size str = 2 + length str

-- Stat::size, a uint16_t.
pub stat_size : Stat → ℕ
stat_size s =
    (2
      + 2
      + 4
      + 13
      + 3 * 4
      + 8
      + string_size s.name
      + string_size s.uid
      + string_size s.gid
      + string_size s.muid)
    % 2 ^ 16

-- Stat::reset.
pub reset_stat : Stat → Stat
reset_stat s = record s { name = []; uid = []; gid = []; muid = [] }

pub pack_unpack_stat : Stat → M Stat
pack_unpack_stat s = do
  packing ← pack_requested
  _total ← pu16 (if packing then (stat_size s + 2 ^ 16 - 2) % 2 ^ 16 else 0)
  type ← pu16 s.type
  dev ← pu32 s.dev
  qid ← pack_unpack_qid s.qid
  mode ← pu32 s.mode
  atime ← pu32 s.atime
  mtime ← pu32 s.mtime
  size ← pu64 s.length
  name ← pstring s.name
  uid ← pstring s.uid
  gid ← pstring s.gid
  muid ← pstring s.muid
  pure (record {
    type = type;
    dev = dev;
    qid = qid;
    mode = mode;
    atime = atime;
    mtime = mtime;
    length = size;
    name = name;
    uid = uid;
    gid = gid;
    muid = muid;
  })
