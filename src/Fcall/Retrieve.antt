-- ===== src/Fcall/Retrieve.antt =====
-- The accessors of Fcall on a storage: retrieveFromStorage throws if another structure is stored.
use libixp.Base.{ℕ, ◌%◌, ◌^◌}
use libixp.Msg.{exception, Result, ok, err}
use libixp.Fcall.{FVersion, FrOpen, FrWalk, FrStat, Fio}
use libixp.Fcall.Storage.{
  VariantStorage, f_version, f_tflush, f_ropen, f_error, f_rauth, f_attach, f_tcreate, f_twalk,
  f_rwalk, f_twstat, f_rstat, f_io, f_hdr, f_full_header,
}

unfoldable pub get_version : VariantStorage → Result FVersion
get_version (f_version f) = ok f
get_version _ = err exception

unfoldable pub get_ropen : VariantStorage → Result FrOpen
get_ropen (f_ropen f) = ok f
get_ropen _ = err exception

unfoldable pub get_rwalk : VariantStorage → Result FrWalk
get_rwalk (f_rwalk f) = ok f
get_rwalk _ = err exception

unfoldable pub get_rstat : VariantStorage → Result FrStat
get_rstat (f_rstat f) = ok f
get_rstat _ = err exception

unfoldable pub get_io : VariantStorage → Result Fio
get_io (f_io f) = ok f
get_io _ = err exception

-- setTag, on the header of whatever is stored.
unfoldable pub with_tag : ℕ → VariantStorage → VariantStorage
with_tag tag (f_version f) = f_version (record f { hdr = record f.hdr { tag = tag % 2 ^ 16 } })
with_tag tag (f_tflush f) = f_tflush (record f { hdr = record f.hdr { tag = tag % 2 ^ 16 } })
with_tag tag (f_ropen f) = f_ropen (record f { hdr = record f.hdr { tag = tag % 2 ^ 16 } })
with_tag tag (f_error f) = f_error (record f { hdr = record f.hdr { tag = tag % 2 ^ 16 } })
with_tag tag (f_rauth f) = f_rauth (record f { hdr = record f.hdr { tag = tag % 2 ^ 16 } })
with_tag tag (f_attach f) = f_attach (record f { hdr = record f.hdr { tag = tag % 2 ^ 16 } })
with_tag tag (f_tcreate f) = f_tcreate (record f { hdr = record f.hdr { tag = tag % 2 ^ 16 } })
with_tag tag (f_twalk f) = f_twalk (record f { hdr = record f.hdr { tag = tag % 2 ^ 16 } })
with_tag tag (f_rwalk f) = f_rwalk (record f { hdr = record f.hdr { tag = tag % 2 ^ 16 } })
with_tag tag (f_twstat f) = f_twstat (record f { hdr = record f.hdr { tag = tag % 2 ^ 16 } })
with_tag tag (f_rstat f) = f_rstat (record f { hdr = record f.hdr { tag = tag % 2 ^ 16 } })
with_tag tag (f_io f) = f_io (record f { hdr = record f.hdr { tag = tag % 2 ^ 16 } })
with_tag tag (f_hdr h) = f_hdr (record h { tag = tag % 2 ^ 16 })
with_tag tag (f_full_header h) = f_full_header (record h { tag = tag % 2 ^ 16 })
