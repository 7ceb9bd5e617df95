-- ===== src/Qid.antt =====
-- qid.h, and Qid::packUnpack of convert.cc.
pub mod Wire
use libixp.Base.{ℕ}
use libixp.Msg.{M, pure, ◌>>=◌, pu8, pu32, pu64}

pub record Qid : Type 0 where
  pub type : ℕ
  pub version : ℕ
  pub path : ℕ
  pub dir_type : ℕ

-- packUnpackMany(&_type, &_version, &_path).
pub pack_unpack_qid : Qid → M Qid
pack_unpack_qid q = do
  type ← pu8 q.type
  version ← pu32 q.version
  path ← pu64 q.path
  pure (record q { type = type; version = version; path = path })
