-- ===== src/Fcall/Storage/Wire.antt =====
-- Any stored message on the wire: its bytes, and what a reader makes of them.
use libixp.Base.{ℕ, ◌≡◌, refl, sym, subst, List, [], some, replicate, arith}
use libixp.Types.{max_welem}
use libixp.Msg.Fields.{pstrings, pstrings_round}
use libixp.Msg.Fields.Packing.{string_bytes}
use libixp.Msg.Fields.Unpacking.{Unpacks-parray}
use libixp.Msg.Packs.{Packs, Packs-map}
use libixp.Msg.Reading.{Unpacks-pu32}
use libixp.Msg.Unpacks.{Unpacks, Unpacks-map, Unpacks-bind}
use libixp.Fcall.{FHdr, FtWalk, pack_unpack_twalk}
use libixp.Fcall.Headers.{
  IsHdr, hdr_bytes, merge_hdr, full_header_bytes, Packs-hdr, Unpacks-hdr, Unpacks-fid,
  Packs-full_header, Unpacks-full_header, IsFVersion, version_bytes, Packs-version, Unpacks-version,
  IsFtFlush, tflush_bytes, Packs-tflush, Unpacks-tflush, IsFError, error_bytes, Packs-error,
  Unpacks-error,
}
use libixp.Fcall.Bodies.{
  IsFrAuth, rauth_bytes, merge_rauth, Packs-rauth, Unpacks-rauth, IsFrOpen, ropen_bytes,
  merge_ropen, Packs-ropen, Unpacks-ropen, IsFAttach, attach_bytes, merge_attach, Packs-attach,
  Unpacks-attach,
}
use libixp.Fcall.Typed.{
  IsFtCreate, tcreate_bytes, merge_tcreate, Packs-tcreate, Unpacks-tcreate, IsFio, io_bytes,
  merge_io, Packs-io, Unpacks-io, IsFrStat, rstat_bytes, Packs-rstat, Unpacks-rstat, IsFtWstat,
  twstat_bytes, merge_twstat, Packs-twstat, Unpacks-twstat,
}
use libixp.Fcall.Arrays.{
  IsFrWalk, rwalk_bytes, merge_rwalk, Packs-rwalk, Unpacks-rwalk, IsFtWalk, twalk_bytes,
  Packs-twalk,
}
use libixp.Fcall.Storage.{
  VariantStorage, f_version, f_tflush, f_ropen, f_error, f_rauth, f_attach, f_tcreate, f_twalk,
  f_rwalk, f_twstat, f_rstat, f_io, f_hdr, f_full_header, header_of, zero_qid, zero_stat, blank_of,
  visit_pack_unpack,
}

-- The fields fit their places on the wire.
abbrev pub IsStorage : VariantStorage → Type 0
IsStorage (f_version f) = IsFVersion f
IsStorage (f_tflush f) = IsFtFlush f
IsStorage (f_ropen f) = IsFrOpen f
IsStorage (f_error f) = IsFError f
IsStorage (f_rauth f) = IsFrAuth f
IsStorage (f_attach f) = IsFAttach f
IsStorage (f_tcreate f) = IsFtCreate f
IsStorage (f_twalk f) = IsFtWalk f
IsStorage (f_rwalk f) = IsFrWalk f
IsStorage (f_twstat f) = IsFtWstat f
IsStorage (f_rstat f) = IsFrStat f
IsStorage (f_io f) = IsFio f
IsStorage (f_hdr h) = IsHdr h
IsStorage (f_full_header h) = IsHdr h

abbrev pub storage_bytes : (junk : ℕ) → VariantStorage → List ℕ
storage_bytes junk (f_version f) = version_bytes f
storage_bytes junk (f_tflush f) = tflush_bytes f
storage_bytes junk (f_ropen f) = ropen_bytes f
storage_bytes junk (f_error f) = error_bytes f
storage_bytes junk (f_rauth f) = rauth_bytes f
storage_bytes junk (f_attach f) = attach_bytes f
storage_bytes junk (f_tcreate f) = tcreate_bytes f
storage_bytes junk (f_twalk f) = twalk_bytes f
storage_bytes junk (f_rwalk f) = rwalk_bytes f
storage_bytes junk (f_twstat f) = twstat_bytes junk f
storage_bytes junk (f_rstat f) = rstat_bytes f
storage_bytes junk (f_io f) = io_bytes f
storage_bytes junk (f_hdr h) = hdr_bytes h
storage_bytes junk (f_full_header h) = full_header_bytes h

pub Packs-visit :
    (junk : ℕ) (s : VariantStorage)
    → IsStorage s
    → Packs junk (visit_pack_unpack s) s (storage_bytes junk s)
unfolding visit_pack_unpack
Packs-visit junk (f_version f) v = Packs-map _ f_version (Packs-version junk f v)
Packs-visit junk (f_tflush f) v = Packs-map _ f_tflush (Packs-tflush junk f v)
Packs-visit junk (f_ropen f) v = Packs-map _ f_ropen (Packs-ropen junk f v)
Packs-visit junk (f_error f) v = Packs-map _ f_error (Packs-error junk f v)
Packs-visit junk (f_rauth f) v = Packs-map _ f_rauth (Packs-rauth junk f v)
Packs-visit junk (f_attach f) v = Packs-map _ f_attach (Packs-attach junk f v)
Packs-visit junk (f_tcreate f) v = Packs-map _ f_tcreate (Packs-tcreate junk f v)
Packs-visit junk (f_twalk f) v = Packs-map _ f_twalk (Packs-twalk junk f v)
Packs-visit junk (f_rwalk f) v = Packs-map _ f_rwalk (Packs-rwalk junk f v)
Packs-visit junk (f_twstat f) v = Packs-map _ f_twstat (Packs-twstat junk f v)
Packs-visit junk (f_rstat f) v = Packs-map _ f_rstat (Packs-rstat junk f v)
Packs-visit junk (f_io f) v = Packs-map _ f_io (Packs-io junk f v)
Packs-visit junk (f_hdr h) v = Packs-map _ f_hdr (Packs-hdr junk h v)
Packs-visit junk (f_full_header h) v = Packs-map _ f_full_header (Packs-full_header junk h v)

-- A fresh structure of the same kind under the header.
abbrev pub blank_like : VariantStorage → FHdr → VariantStorage
blank_like (f_version _) h = f_version (record { hdr = h; size = 0; version = [] })
blank_like (f_tflush _) h = f_tflush (record { hdr = h; oldtag = 0 })
blank_like (f_ropen _) h = f_ropen (record { hdr = h; qid = zero_qid; iounit = 0 })
blank_like (f_error _) h = f_error (record { hdr = h; ename = [] })
blank_like (f_rauth _) h = f_rauth (record { hdr = h; aqid = zero_qid })
blank_like (f_attach _) h = f_attach (record { hdr = h; afid = 0; uname = []; aname = [] })
blank_like (f_tcreate _) h = f_tcreate (record { hdr = h; perm = 0; name = []; mode = 0 })
blank_like (f_twalk _) h =
    f_twalk (record { hdr = h; size = 0; newfid = 0; wname = replicate max_welem [] })
blank_like (f_rwalk _) h =
    f_rwalk (record { hdr = h; size = 0; wqid = replicate max_welem zero_qid })
blank_like (f_twstat _) h = f_twstat (record { hdr = h; stat = zero_stat })
blank_like (f_rstat _) h = f_rstat (record { hdr = h; size = 0; stat = [] })
blank_like (f_io _) h = f_io (record { hdr = h; size = 0; offset = 0; contents = [] })
blank_like (f_hdr _) h = f_hdr h
blank_like (f_full_header _) h = f_full_header h

-- The structure is the one that the reader makes for the type in its header.
abbrev pub SuitsType : VariantStorage → Type 0
SuitsType s = (h : FHdr) → blank_of (header_of s).type h ≡ some (blank_like s h)

-- What a reader can tell: a walk only if it has no names.
abbrev pub IsReadable : VariantStorage → Type 0
IsReadable (f_twalk f) = f.size ≡ 0
IsReadable (f_version f) = Unit {0}
IsReadable _ = Unit {0}

-- The message that comes out of the wire: the fields that are not sent are those of the blank
-- structure under the header h.
abbrev pub received : VariantStorage → FHdr → VariantStorage
received (f_version f) h = f_version (record f { hdr = merge_hdr f.hdr h })
received (f_tflush f) h = f_tflush (record f { hdr = merge_hdr f.hdr h })
received (f_ropen f) h = f_ropen (merge_ropen f (record { hdr = h; qid = zero_qid; iounit = 0 }))
received (f_error f) h = f_error (record f { hdr = merge_hdr f.hdr h })
received (f_rauth f) h = f_rauth (merge_rauth f (record { hdr = h; aqid = zero_qid }))
received (f_attach f) h =
    f_attach (merge_attach f (record { hdr = h; afid = 0; uname = []; aname = [] }))
received (f_tcreate f) h =
    f_tcreate (merge_tcreate f (record { hdr = h; perm = 0; name = []; mode = 0 }))
received (f_twalk f) h = f_twalk (record f { wname = replicate max_welem [] })
received (f_rwalk f) h =
    f_rwalk (merge_rwalk f (record { hdr = h; size = 0; wqid = replicate max_welem zero_qid }))
received (f_twstat f) h = f_twstat (merge_twstat f (record { hdr = h; stat = zero_stat }))
received (f_rstat f) h = f_rstat (record f { hdr = merge_hdr f.hdr h })
received (f_io f) h = f_io (merge_io f (record { hdr = h; size = 0; offset = 0; contents = [] }))
received (f_hdr h') h = f_hdr (merge_hdr h' h)
received (f_full_header h') h = f_full_header h'

Unpacks-clone :
    (junk : ℕ) (f old : FtWalk)
    → IsFtWalk f
    → f.size ≡ 0
    → Unpacks junk
        (pack_unpack_twalk old)
        (record f { size = 0; wname = old.wname })
        (twalk_bytes f)
unfolding pack_unpack_twalk pstrings
Unpacks-clone junk f old v e = Unpacks-bind _ _ (Unpacks-hdr junk f.hdr old.hdr v.hdr_valid) (
    Unpacks-bind _ _ (Unpacks-fid junk f.hdr old.hdr v.hdr_valid) (
      Unpacks-bind _ _ (Unpacks-pu32 junk old.newfid f.newfid v.newfid_fits) (
        rw e (
          Unpacks-map _ (λ p. record f { size = p.0; wname = p.1 })
            (Unpacks-parray pstrings_round string_bytes (λ name _. name) junk max_welem old.size 0
              [] old.wname (omega arith) (omega arith) (omega arith) (omega arith) tt)))))

pub Unpacks-visit :
    (sent junk : ℕ) (s : VariantStorage) (h : FHdr)
    → IsStorage s
    → IsReadable s
    → Unpacks junk (visit_pack_unpack (blank_like s h)) (received s h) (storage_bytes sent s)
unfolding visit_pack_unpack
Unpacks-visit sent junk (f_version f) h v r = Unpacks-map _ f_version (Unpacks-version junk f _ v)
Unpacks-visit sent junk (f_tflush f) h v r = Unpacks-map _ f_tflush (Unpacks-tflush junk f _ v)
Unpacks-visit sent junk (f_ropen f) h v r = Unpacks-map _ f_ropen (Unpacks-ropen junk f _ v)
Unpacks-visit sent junk (f_error f) h v r = Unpacks-map _ f_error (Unpacks-error junk f _ v)
Unpacks-visit sent junk (f_rauth f) h v r = Unpacks-map _ f_rauth (Unpacks-rauth junk f _ v)
Unpacks-visit sent junk (f_attach f) h v r = Unpacks-map _ f_attach (Unpacks-attach junk f _ v)
Unpacks-visit sent junk (f_tcreate f) h v r = Unpacks-map _ f_tcreate (Unpacks-tcreate junk f _ v)
Unpacks-visit sent junk (f_twalk f) h v r =
    subst
      (λ n.
        Unpacks junk (visit_pack_unpack (blank_like (f_twalk f) h))
          (f_twalk (record f { size = n; wname = replicate max_welem [] })) (twalk_bytes f))
      (sym r) (Unpacks-map _ f_twalk (Unpacks-clone junk f _ v r))
Unpacks-visit sent junk (f_rwalk f) h v r = Unpacks-map _ f_rwalk (Unpacks-rwalk junk f _ v refl)
Unpacks-visit sent junk (f_twstat f) h v r = Unpacks-map _ f_twstat (Unpacks-twstat sent junk f _ v)
Unpacks-visit sent junk (f_rstat f) h v r = Unpacks-map _ f_rstat (Unpacks-rstat junk f _ v)
Unpacks-visit sent junk (f_io f) h v r = Unpacks-map _ f_io (Unpacks-io junk f _ v)
Unpacks-visit sent junk (f_hdr h') h v r = Unpacks-map _ f_hdr (Unpacks-hdr junk h' h v)
Unpacks-visit sent junk (f_full_header h') h v r =
    Unpacks-map _ f_full_header (Unpacks-full_header junk h' h v)
