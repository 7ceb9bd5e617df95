-- ===== src/Fcall/Storage.antt =====
-- The variant that an Fcall stores, the blank storage for a type, and Fcall::packUnpack.
pub mod Wire
pub mod Call
pub mod Safety
use libixp.Base.{
  ℕ, ◌%◌, ◌^◌, Bool, true, false, List, [], ◌||◌, ◌==◌, if◌then◌else◌, Option, none, some,
  replicate,
}
use libixp.Types.{max_welem}
use libixp.Types.FType.{
  t_version, r_version, t_auth, r_auth, t_attach, r_attach, t_error, r_error, t_flush, t_walk,
  r_walk, t_open, r_open, t_create, r_create, t_read, r_read, t_write, r_write, t_clunk, r_clunk,
  t_remove, t_stat, r_stat, t_wstat,
}
use libixp.Msg.{Msg, ok, M, pure, throw, ◌>>=◌, ◌>>◌, pack_requested}
use libixp.Qid.{Qid}
use libixp.Stat.{Stat}
use libixp.Fcall.{
  FHdr, FVersion, FtFlush, FError, FrOpen, FrAuth, FAttach, FtCreate, FtWalk, FrWalk, Fio, FrStat,
  FtWstat, pack_unpack_hdr, pack_unpack_full_header, pack_unpack_version, pack_unpack_attach,
  pack_unpack_rauth, pack_unpack_ropen, pack_unpack_twalk, pack_unpack_tflush, pack_unpack_error,
  pack_unpack_rwalk, pack_unpack_tcreate, pack_unpack_io, pack_unpack_rstat, pack_unpack_twstat,
}

-- Fcall::VariantStorage.
pub data VariantStorage : Type 0 where
  f_version : FVersion → VariantStorage
  f_tflush : FtFlush → VariantStorage
  f_ropen : FrOpen → VariantStorage
  f_error : FError → VariantStorage
  f_rauth : FrAuth → VariantStorage
  f_attach : FAttach → VariantStorage
  f_tcreate : FtCreate → VariantStorage
  f_twalk : FtWalk → VariantStorage
  f_rwalk : FrWalk → VariantStorage
  f_twstat : FtWstat → VariantStorage
  f_rstat : FrStat → VariantStorage
  f_io : Fio → VariantStorage
  f_hdr : FHdr → VariantStorage
  f_full_header : FHdr → VariantStorage

-- Fcall: _storage is a std::optional.
pub record Fcall : Type 0 where
  pub storage : Option VariantStorage

-- getHeader on a storage.
abbrev pub header_of : VariantStorage → FHdr
header_of (f_version f) = f.hdr
header_of (f_tflush f) = f.hdr
header_of (f_ropen f) = f.hdr
header_of (f_error f) = f.hdr
header_of (f_rauth f) = f.hdr
header_of (f_attach f) = f.hdr
header_of (f_tcreate f) = f.hdr
header_of (f_twalk f) = f.hdr
header_of (f_rwalk f) = f.hdr
header_of (f_twstat f) = f.hdr
header_of (f_rstat f) = f.hdr
header_of (f_io f) = f.hdr
header_of (f_hdr h) = h
header_of (f_full_header h) = h

-- What `emplace` makes of a Qid and a Stat: the members of a fresh structure are zero or empty.
abbrev pub zero_qid : Qid
zero_qid = record { type = 0; version = 0; path = 0; dir_type = 0 }

abbrev pub zero_stat : Stat
zero_stat = record {
  type = 0;
  dev = 0;
  qid = zero_qid;
  mode = 0;
  atime = 0;
  mtime = 0;
  length = 0;
  name = [];
  uid = [];
  gid = [];
  muid = [];
}

-- The switch of constructBlankStorage; nothing for the types at which it throws.
unfoldable pub blank_of : ℕ → FHdr → Option VariantStorage
blank_of type hdr =
    if type == t_version || type == r_version
    then some (f_version (record { hdr = hdr; size = 0; version = [] }))
    else if type == t_flush
    then some (f_tflush (record { hdr = hdr; oldtag = 0 }))
    else if type == r_open || type == r_create || type == r_attach
    then some (f_ropen (record { hdr = hdr; qid = zero_qid; iounit = 0 }))
    else if type == t_error || type == r_error
    then some (f_error (record { hdr = hdr; ename = [] }))
    else if type == r_auth
    then some (f_rauth (record { hdr = hdr; aqid = zero_qid }))
    else if type == t_attach || type == t_auth
    then some (f_attach (record { hdr = hdr; afid = 0; uname = []; aname = [] }))
    else if type == t_create || type == t_open
    then some (f_tcreate (record { hdr = hdr; perm = 0; name = []; mode = 0 }))
    else if type == t_walk
    then some (f_twalk (record { hdr = hdr; size = 0; newfid = 0; wname = replicate max_welem [] }))
    else if type == r_walk
    then some (f_rwalk (record { hdr = hdr; size = 0; wqid = replicate max_welem zero_qid }))
    else if type == t_wstat
    then some (f_twstat (record { hdr = hdr; stat = zero_stat }))
    else if type == r_stat
    then some (f_rstat (record { hdr = hdr; size = 0; stat = [] }))
    else if type == t_write || type == r_write || type == t_read || type == r_read
    then some (f_io (record { hdr = hdr; size = 0; offset = 0; contents = [] }))
    else if type == t_clunk || type == t_remove || type == t_stat
    then some (f_full_header hdr)
    else if type == r_clunk
    then some (f_hdr hdr)
    else none

-- constructBlankStorage: the type, tag and fid of hdr are copied into the new structure.
unfoldable pub construct_blank_storage : FHdr → Option VariantStorage
unfolding blank_of
construct_blank_storage hdr = blank_of hdr.type hdr

-- The call of the stored structure's packUnpack.
pub visit_pack_unpack : VariantStorage → M VariantStorage
visit_pack_unpack (f_version f) = do f' ← pack_unpack_version f; pure (f_version f')
visit_pack_unpack (f_tflush f) = do f' ← pack_unpack_tflush f; pure (f_tflush f')
visit_pack_unpack (f_ropen f) = do f' ← pack_unpack_ropen f; pure (f_ropen f')
visit_pack_unpack (f_error f) = do f' ← pack_unpack_error f; pure (f_error f')
visit_pack_unpack (f_rauth f) = do f' ← pack_unpack_rauth f; pure (f_rauth f')
visit_pack_unpack (f_attach f) = do f' ← pack_unpack_attach f; pure (f_attach f')
visit_pack_unpack (f_tcreate f) = do f' ← pack_unpack_tcreate f; pure (f_tcreate f')
visit_pack_unpack (f_twalk f) = do f' ← pack_unpack_twalk f; pure (f_twalk f')
visit_pack_unpack (f_rwalk f) = do f' ← pack_unpack_rwalk f; pure (f_rwalk f')
visit_pack_unpack (f_twstat f) = do f' ← pack_unpack_twstat f; pure (f_twstat f')
visit_pack_unpack (f_rstat f) = do f' ← pack_unpack_rstat f; pure (f_rstat f')
visit_pack_unpack (f_io f) = do f' ← pack_unpack_io f; pure (f_io f')
visit_pack_unpack (f_hdr h) = do h' ← pack_unpack_hdr h; pure (f_hdr h')
visit_pack_unpack (f_full_header h) = do h' ← pack_unpack_full_header h; pure (f_full_header h')

-- The local `FHdr tmp`, which has no initialiser.
abbrev pub indeterminate : ℕ → FHdr
indeterminate junk = record { type = junk % 2 ^ 8; tag = junk % 2 ^ 16; fid = junk % 2 ^ 32 }

-- Fcall::Fcall(FType) and Fcall::reset: tag and fid come from an uninitialised local.
unfoldable pub new_fcall : (junk : ℕ) → ℕ → Option VariantStorage
unfolding construct_blank_storage
new_fcall junk type = construct_blank_storage (record (indeterminate junk) { type = type })

pub tmp_header : M FHdr
tmp_header m = ok (indeterminate m.uninit, m)

-- msg.getPos() and msg.setPos(...).
unfoldable pub get_pos : M ℕ
get_pos m = ok (m.pos, m)

unfoldable pub set_pos : ℕ → M (Unit {0})
set_pos p m = ok (tt, record m { pos = p })

-- Where constructBlankStorage throws.
abbrev pub or_throw : Option VariantStorage → M VariantStorage
or_throw none = throw
or_throw (some s) = pure s

-- The storage that is made for the type found in the message; the position goes back.
pub blank_for_message : M VariantStorage
blank_for_message = do
  start ← get_pos
  tmp ← tmp_header
  hdr ← pack_unpack_hdr tmp
  set_pos start
  or_throw (construct_blank_storage hdr)

pub storage_for : Option VariantStorage → Bool → M VariantStorage
unfolding blank_for_message
storage_for (some s) packing = pure s
storage_for none true = throw
storage_for none false = blank_for_message

-- Fcall::packUnpack.
pub pack_unpack_fcall : Fcall → M Fcall
unfolding storage_for
pack_unpack_fcall f = do
  packing ← pack_requested
  s ← storage_for f.storage packing
  s' ← visit_pack_unpack s
  pure (record { storage = some s' })
