-- ===== src/Fcall/Reads.antt =====
-- The structures in Mode::Unpack, on any bytes.
use libixp.Base.{◌≤◌, ◌||◌, ◌==◌, length}
use libixp.Types.{max_welem}
use libixp.Types.FType.{t_attach, t_create, t_read, t_write, r_read, r_attach}
use libixp.Msg.Fields.Reads.{Reads-pdata, Reads-pdata_vector, Reads-pstring, Reads-parray}
use libixp.Msg.Reads.{
  Reads, Reads-pure, Reads-bind, Reads-if, Reads-requested, Reads-uninitialised, Reads-pu8,
  Reads-pu16, Reads-pu32, Reads-pu64,
}
use libixp.Qid.{pack_unpack_qid}
use libixp.Qid.Wire.{Reads-qid}
use libixp.Stat.Wire.{Reads-stat}
use libixp.Fcall.{
  FHdr, FVersion, FtFlush, FError, FrOpen, FrAuth, FAttach, FtCreate, FrWalk, Fio, FrStat, FtWstat,
  pack_unpack_hdr, pack_unpack_fid, pack_unpack_full_header, pack_unpack_version,
  pack_unpack_attach, pack_unpack_rauth, pack_unpack_ropen, pack_unpack_tflush, pack_unpack_error,
  pack_unpack_rwalk, pack_unpack_name_perm, pack_unpack_tcreate, pack_unpack_offset, pack_unpack_io,
  pack_unpack_rstat, pack_unpack_twstat,
}

pub Reads-hdr : (h : FHdr) → Reads (pack_unpack_hdr h)
unfolding pack_unpack_hdr
Reads-hdr h =
    Reads-bind _ _ (Reads-pu8 _) (λ type. Reads-bind _ _ (Reads-pu16 _) (λ tag. Reads-pure _))

Reads-fid : (h : FHdr) → Reads (pack_unpack_fid h)
unfolding pack_unpack_fid
Reads-fid h = Reads-bind _ _ (Reads-pu32 _) (λ fid. Reads-pure _)

pub Reads-full_header : (h : FHdr) → Reads (pack_unpack_full_header h)
unfolding pack_unpack_full_header
Reads-full_header h = Reads-bind _ _ (Reads-hdr h) (λ h'. Reads-fid h')

pub Reads-version : (f : FVersion) → Reads (pack_unpack_version f)
unfolding pack_unpack_version
Reads-version f = Reads-bind _ _ (Reads-hdr _) (λ hdr.
    Reads-bind _ _ (Reads-pu32 _) (λ size. Reads-bind _ _ (Reads-pstring _) (λ v. Reads-pure _)))

pub Reads-attach : (f : FAttach) → Reads (pack_unpack_attach f)
unfolding pack_unpack_attach
Reads-attach f = Reads-bind _ _ (Reads-hdr _) (λ hdr.
    Reads-bind _ _ (Reads-if (hdr.type == t_attach) (Reads-fid hdr) (Reads-pure hdr)) (λ hdr'.
      Reads-bind _ _ (Reads-pu32 _) (λ afid.
        Reads-bind _ _ (Reads-pstring _)
          (λ uname. Reads-bind _ _ (Reads-pstring _) (λ aname. Reads-pure _)))))

pub Reads-rauth : (f : FrAuth) → Reads (pack_unpack_rauth f)
unfolding pack_unpack_rauth
Reads-rauth f =
    Reads-bind _ _ (Reads-hdr _) (λ hdr. Reads-bind _ _ (Reads-qid _) (λ q. Reads-pure _))

pub Reads-ropen : (f : FrOpen) → Reads (pack_unpack_ropen f)
unfolding pack_unpack_ropen
Reads-ropen f = Reads-bind _ _ (Reads-hdr _) (λ hdr. Reads-bind _ _ (Reads-qid _) (λ q.
    Reads-bind _ _ (Reads-if (hdr.type == r_attach) (Reads-pure _) (Reads-pu32 _))
      (λ n. Reads-pure _)))

pub Reads-tflush : (f : FtFlush) → Reads (pack_unpack_tflush f)
unfolding pack_unpack_tflush
Reads-tflush f =
    Reads-bind _ _ (Reads-hdr _) (λ hdr. Reads-bind _ _ (Reads-pu16 _) (λ t. Reads-pure _))

pub Reads-error : (f : FError) → Reads (pack_unpack_error f)
unfolding pack_unpack_error
Reads-error f =
    Reads-bind _ _ (Reads-hdr _) (λ hdr. Reads-bind _ _ (Reads-pstring _) (λ e. Reads-pure _))

pub Reads-rwalk : (f : FrWalk) → max_welem ≤ length f.wqid → Reads (pack_unpack_rwalk f)
unfolding pack_unpack_rwalk
Reads-rwalk f h = Reads-bind _ _ (Reads-hdr _) (λ hdr.
    Reads-bind _ _ (Reads-parray pack_unpack_qid Reads-qid max_welem _ f.wqid h)
      (λ p. Reads-pure _))

pub Reads-tcreate : (f : FtCreate) → Reads (pack_unpack_tcreate f)
unfolding pack_unpack_tcreate pack_unpack_name_perm
Reads-tcreate f = Reads-bind _ _ (Reads-hdr _) (λ hdr. Reads-bind _ _ (Reads-fid hdr) (λ hdr'.
    Reads-bind _ _
      (Reads-if (hdr'.type == t_create)
        (Reads-bind _ _ (Reads-pstring _)
          (λ name. Reads-bind _ _ (Reads-pu32 _) (λ perm. Reads-pure _)))
        (Reads-pure _))
      (λ p. Reads-bind _ _ (Reads-pu8 _) (λ mode. Reads-pure _))))

pub Reads-io : (f : Fio) → Reads (pack_unpack_io f)
unfolding pack_unpack_io pack_unpack_offset
Reads-io f = Reads-bind _ _ (Reads-hdr _) (λ hdr.
    Reads-bind _ _
      (Reads-if (hdr.type == t_read || hdr.type == t_write)
        (Reads-bind _ _ (Reads-fid hdr)
          (λ hdr'. Reads-bind _ _ (Reads-pu64 _) (λ offset. Reads-pure _)))
        (Reads-pure _))
      (λ p. Reads-bind _ _ (Reads-pu32 _) (λ size.
        Reads-bind _ _
          (Reads-if (hdr.type == r_read || hdr.type == t_write) (Reads-pdata _ _) (Reads-pure _))
          (λ contents. Reads-pure _))))

pub Reads-rstat : (f : FrStat) → Reads (pack_unpack_rstat f)
unfolding pack_unpack_rstat
Reads-rstat f = Reads-bind _ _ (Reads-hdr _) (λ hdr. Reads-requested _ (
    Reads-bind _ _ (Reads-pu16 _)
      (λ n. Reads-bind _ _ (Reads-pdata_vector _ _) (λ s. Reads-pure _))))

pub Reads-twstat : (f : FtWstat) → Reads (pack_unpack_twstat f)
unfolding pack_unpack_twstat
Reads-twstat f = Reads-bind _ _ (Reads-hdr _) (λ hdr. Reads-bind _ _ (Reads-fid hdr) (λ hdr'.
    Reads-bind _ _ Reads-uninitialised (λ junk.
      Reads-bind _ _ (Reads-pu16 _) (λ n. Reads-bind _ _ (Reads-stat _) (λ s. Reads-pure _)))))
