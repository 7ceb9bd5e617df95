-- ===== src/Fcall.antt =====
-- Fcall.h and the packUnpack methods of message.cc: the structures of the 9P messages.
pub mod Headers
pub mod Bodies
pub mod Typed
pub mod Arrays
pub mod Reads
pub mod Retrieve
pub mod Storage
pub mod Message
use libixp.Base.{ℕ, ◌==◌, ◌||◌, not, true, false, List, [], if◌then◌else◌}
use libixp.Types.{max_welem}
use libixp.Types.FType.{t_attach, r_attach, t_create, t_read, t_write, r_read}
use libixp.Msg.{M, pure, ◌>>=◌, ◌>>◌, pack_requested, uninitialised, pu8, pu16, pu32, pu64}
use libixp.Msg.Fields.{Str, pstring, pdata, pdata_vector, pstrings, parray}
use libixp.Qid.{Qid, pack_unpack_qid}
use libixp.Stat.{Stat, pack_unpack_stat}

pub record FHdr : Type 0 where
  pub type : ℕ
  pub tag : ℕ
  pub fid : ℕ

pub record FVersion : Type 0 where
  pub hdr : FHdr
  pub open hdr use *
  pub size : ℕ
  pub version : Str

pub record FtFlush : Type 0 where
  pub hdr : FHdr
  pub open hdr use *
  pub oldtag : ℕ

pub record FError : Type 0 where
  pub hdr : FHdr
  pub open hdr use *
  pub ename : Str

pub record FrOpen : Type 0 where
  pub hdr : FHdr
  pub open hdr use *
  pub qid : Qid
  pub iounit : ℕ

pub record FrAuth : Type 0 where
  pub hdr : FHdr
  pub open hdr use *
  pub aqid : Qid

pub record FAttach : Type 0 where
  pub hdr : FHdr
  pub open hdr use *
  pub afid : ℕ
  pub uname : Str
  pub aname : Str

pub record FtCreate : Type 0 where
  pub hdr : FHdr
  pub open hdr use *
  pub perm : ℕ
  pub name : Str
  pub mode : ℕ

-- The arrays have maximum::Welem entries.
pub record FtWalk : Type 0 where
  pub hdr : FHdr
  pub open hdr use *
  pub size : ℕ
  pub newfid : ℕ
  pub wname : List Str

pub record FrWalk : Type 0 where
  pub hdr : FHdr
  pub open hdr use *
  pub size : ℕ
  pub wqid : List Qid

pub record Fio : Type 0 where
  pub hdr : FHdr
  pub open hdr use *
  pub size : ℕ
  pub offset : ℕ
  pub contents : Str

pub record FrStat : Type 0 where
  pub hdr : FHdr
  pub open hdr use *
  pub size : ℕ
  pub stat : Str

pub record FtWstat : Type 0 where
  pub hdr : FHdr
  pub open hdr use *
  pub stat : Stat

pub pack_unpack_hdr : FHdr → M FHdr
pack_unpack_hdr h = do
  type ← pu8 h.type
  tag ← pu16 h.tag
  pure (record h { type = type; tag = tag })

pub pack_unpack_fid : FHdr → M FHdr
pack_unpack_fid h = do fid ← pu32 h.fid; pure (record h { fid = fid })

-- FFullHeader is an FHdr whose packUnpack takes the fid along.
pub pack_unpack_full_header : FHdr → M FHdr
pack_unpack_full_header h = do h' ← pack_unpack_hdr h; pack_unpack_fid h'

pub pack_unpack_version : FVersion → M FVersion
pack_unpack_version f = do
  hdr ← pack_unpack_hdr f.hdr
  size ← pu32 f.size
  version ← pstring f.version
  pure (record { hdr = hdr; size = size; version = version })

pub pack_unpack_attach : FAttach → M FAttach
pack_unpack_attach f = do
  hdr ← pack_unpack_hdr f.hdr
  hdr' ← if hdr.type == t_attach then pack_unpack_fid hdr else pure hdr
  afid ← pu32 f.afid
  uname ← pstring f.uname
  aname ← pstring f.aname
  pure (record { hdr = hdr'; afid = afid; uname = uname; aname = aname })

pub pack_unpack_rauth : FrAuth → M FrAuth
pack_unpack_rauth f = do
  hdr ← pack_unpack_hdr f.hdr
  aqid ← pack_unpack_qid f.aqid
  pure (record { hdr = hdr; aqid = aqid })

pub pack_unpack_ropen : FrOpen → M FrOpen
pack_unpack_ropen f = do
  hdr ← pack_unpack_hdr f.hdr
  qid ← pack_unpack_qid f.qid
  iounit ← if hdr.type == r_attach then pure f.iounit else pu32 f.iounit
  pure (record { hdr = hdr; qid = qid; iounit = iounit })

pub pack_unpack_twalk : FtWalk → M FtWalk
pack_unpack_twalk f = do
  hdr ← pack_unpack_hdr f.hdr
  hdr' ← pack_unpack_fid hdr
  newfid ← pu32 f.newfid
  (size, wname) ← pstrings max_welem f.size f.wname
  pure (record { hdr = hdr'; size = size; newfid = newfid; wname = wname })

pub pack_unpack_tflush : FtFlush → M FtFlush
pack_unpack_tflush f = do
  hdr ← pack_unpack_hdr f.hdr
  oldtag ← pu16 f.oldtag
  pure (record { hdr = hdr; oldtag = oldtag })

pub pack_unpack_error : FError → M FError
pack_unpack_error f = do
  hdr ← pack_unpack_hdr f.hdr
  ename ← pstring f.ename
  pure (record { hdr = hdr; ename = ename })

pub pack_unpack_rwalk : FrWalk → M FrWalk
pack_unpack_rwalk f = do
  hdr ← pack_unpack_hdr f.hdr
  (size, wqid) ← parray pack_unpack_qid max_welem f.size f.wqid
  pure (record { hdr = hdr; size = size; wqid = wqid })

-- The test that both TOpen and TCreate make, on the type just packed or unpacked.
pub pack_unpack_name_perm : FHdr → Str → ℕ → M (Str × ℕ)
pack_unpack_name_perm hdr name perm =
    if hdr.type == t_create
    then (do name' ← pstring name; perm' ← pu32 perm; pure (name', perm'))
    else pure (name, perm)

pub pack_unpack_tcreate : FtCreate → M FtCreate
pack_unpack_tcreate f = do
  hdr ← pack_unpack_hdr f.hdr
  hdr' ← pack_unpack_fid hdr
  (name, perm) ← pack_unpack_name_perm hdr' f.name f.perm
  mode ← pu8 f.mode
  pure (record { hdr = hdr'; perm = perm; name = name; mode = mode })

pub pack_unpack_offset : FHdr → ℕ → M (FHdr × ℕ)
pack_unpack_offset hdr offset =
    if hdr.type == t_read || hdr.type == t_write
    then (do hdr' ← pack_unpack_fid hdr; offset' ← pu64 offset; pure (hdr', offset'))
    else pure (hdr, offset)

pub pack_unpack_io : Fio → M Fio
pack_unpack_io f = do
  hdr ← pack_unpack_hdr f.hdr
  (hdr', offset) ← pack_unpack_offset hdr f.offset
  size ← pu32 f.size
  contents ←
      if hdr.type == r_read || hdr.type == t_write then pdata f.contents size else pure f.contents
  pure (record { hdr = hdr'; size = size; offset = offset; contents = contents })

pub pack_unpack_rstat : FrStat → M FrStat
pack_unpack_rstat f = do
  hdr ← pack_unpack_hdr f.hdr
  packing ← pack_requested
  size ← pu16 f.size
  stat ← pdata_vector (if packing then f.stat else []) size
  pure (record { hdr = hdr; size = size; stat = stat })

-- The local size has no value when it is packed, and is dropped when it is unpacked.
pub pack_unpack_twstat : FtWstat → M FtWstat
pack_unpack_twstat f = do
  hdr ← pack_unpack_hdr f.hdr
  hdr' ← pack_unpack_fid hdr
  junk ← uninitialised
  _size ← pu16 junk
  stat ← pack_unpack_stat f.stat
  pure (record { hdr = hdr'; stat = stat })
