-- ===== src/Fcall/Bodies.antt =====
-- The structures with qids, and those whose fields on the wire depend on the type of the message.
use libixp.Base.{ℕ, ◌^◌, ◌<◌, List, [], ◌++◌, ◌==◌, if◌then◌else◌}
use libixp.Types.FType.{t_attach, r_attach}
use libixp.Msg.{s_dword}
use libixp.Msg.Fields.Packing.{string_bytes, Packs-pstring}
use libixp.Msg.Fields.Unpacking.{Unpacks-pstring}
use libixp.Msg.Packs.{Packs, Packs-bind, Packs-map, Packs-if, Packs-pure}
use libixp.Msg.Unpacks.{Unpacks, Unpacks-bind, Unpacks-map, Unpacks-if, Unpacks-pure}
use libixp.Msg.Uints.{bytes, Packs-pu32}
use libixp.Msg.Reading.{Unpacks-pu32}
use libixp.Qid.Wire.{IsQid, qid_bytes, merge_qid, Packs-qid, Unpacks-qid}
use libixp.Stat.Wire.{IsShort}
use libixp.Fcall.{FrOpen, FrAuth, FAttach, pack_unpack_attach, pack_unpack_rauth, pack_unpack_ropen}
use libixp.Fcall.Headers.{
  IsHdr, hdr_bytes, merge_hdr, Packs-hdr, Unpacks-hdr, Packs-fid, Unpacks-fid,
}

pub record IsFrAuth (f : FrAuth) : Type 0 where
  pub hdr_valid : IsHdr f.hdr
  pub aqid_valid : IsQid f.aqid

abbrev pub rauth_bytes : FrAuth → List ℕ
rauth_bytes f = hdr_bytes f.hdr ++ qid_bytes f.aqid

abbrev pub merge_rauth : FrAuth → FrAuth → FrAuth
merge_rauth f old = record { hdr = merge_hdr f.hdr old.hdr; aqid = merge_qid f.aqid old.aqid }

pub Packs-rauth :
    (junk : ℕ) (f : FrAuth) → IsFrAuth f → Packs junk (pack_unpack_rauth f) f (rauth_bytes f)
unfolding pack_unpack_rauth
Packs-rauth junk f v =
    Packs-bind _ _ (Packs-hdr junk f.hdr v.hdr_valid)
      (Packs-map _ (λ aqid. record f { aqid = aqid }) (Packs-qid junk f.aqid v.aqid_valid))

pub Unpacks-rauth :
    (junk : ℕ) (f old : FrAuth)
    → IsFrAuth f
    → Unpacks junk (pack_unpack_rauth old) (merge_rauth f old) (rauth_bytes f)
unfolding pack_unpack_rauth
Unpacks-rauth junk f old v = Unpacks-bind _ _ (Unpacks-hdr junk f.hdr old.hdr v.hdr_valid) (
    Unpacks-map _ (λ aqid. record (merge_rauth f old) { aqid = aqid })
      (Unpacks-qid junk f.aqid old.aqid v.aqid_valid))

pub record IsFrOpen (f : FrOpen) : Type 0 where
  pub hdr_valid : IsHdr f.hdr
  pub qid_valid : IsQid f.qid
  pub iounit_fits : f.iounit < 2 ^ 32

abbrev pub ropen_bytes : FrOpen → List ℕ
ropen_bytes f =
    hdr_bytes f.hdr
    ++ (qid_bytes f.qid ++ (if f.type == r_attach then [] else bytes s_dword f.iounit))

abbrev pub merge_ropen : FrOpen → FrOpen → FrOpen
merge_ropen f old = record {
  hdr = merge_hdr f.hdr old.hdr;
  qid = merge_qid f.qid old.qid;
  iounit = if f.type == r_attach then old.iounit else f.iounit;
}

pub Packs-ropen :
    (junk : ℕ) (f : FrOpen) → IsFrOpen f → Packs junk (pack_unpack_ropen f) f (ropen_bytes f)
unfolding pack_unpack_ropen
Packs-ropen junk f v = Packs-bind _ _ (Packs-hdr junk f.hdr v.hdr_valid) (
    Packs-bind _ _ (Packs-qid junk f.qid v.qid_valid) (
      Packs-map _ (λ iounit. record f { iounit = iounit })
        (Packs-if (f.type == r_attach) (λ _. Packs-pure junk f.iounit)
          (λ _. Packs-pu32 junk f.iounit))))

pub Unpacks-ropen :
    (junk : ℕ) (f old : FrOpen)
    → IsFrOpen f
    → Unpacks junk (pack_unpack_ropen old) (merge_ropen f old) (ropen_bytes f)
unfolding pack_unpack_ropen
Unpacks-ropen junk f old v = Unpacks-bind _ _ (Unpacks-hdr junk f.hdr old.hdr v.hdr_valid) (
    Unpacks-bind _ _ (Unpacks-qid junk f.qid old.qid v.qid_valid) (
      Unpacks-map _ (λ iounit. record (merge_ropen f old) { iounit = iounit })
        (Unpacks-if (f.type == r_attach) (λ _. Unpacks-pure junk old.iounit)
          (λ _. Unpacks-pu32 junk old.iounit f.iounit v.iounit_fits))))

pub record IsFAttach (f : FAttach) : Type 0 where
  pub hdr_valid : IsHdr f.hdr
  pub afid_fits : f.afid < 2 ^ 32
  pub uname_short : IsShort f.uname
  pub aname_short : IsShort f.aname

abbrev pub attach_bytes : FAttach → List ℕ
attach_bytes f =
    hdr_bytes f.hdr
    ++ ((if f.type == t_attach then bytes s_dword f.fid else [])
        ++ (bytes s_dword f.afid ++ (string_bytes f.uname ++ string_bytes f.aname)))

abbrev pub merge_attach : FAttach → FAttach → FAttach
merge_attach f old = record f {
  hdr = if f.type == t_attach then f.hdr else merge_hdr f.hdr old.hdr;
}

pub Packs-attach :
    (junk : ℕ) (f : FAttach) → IsFAttach f → Packs junk (pack_unpack_attach f) f (attach_bytes f)
unfolding pack_unpack_attach
Packs-attach junk f v = Packs-bind _ _ (Packs-hdr junk f.hdr v.hdr_valid) (
    Packs-bind _ _
      (Packs-if (f.type == t_attach) (λ _. Packs-fid junk f.hdr) (λ _. Packs-pure junk f.hdr))
      (Packs-bind _ _ (Packs-pu32 junk f.afid) (
        Packs-bind _ _ (Packs-pstring junk f.uname)
          (Packs-map _ (λ aname. record f { aname = aname }) (Packs-pstring junk f.aname)))))

pub Unpacks-attach :
    (junk : ℕ) (f old : FAttach)
    → IsFAttach f
    → Unpacks junk (pack_unpack_attach old) (merge_attach f old) (attach_bytes f)
unfolding pack_unpack_attach
Unpacks-attach junk f old v = Unpacks-bind _ _ (Unpacks-hdr junk f.hdr old.hdr v.hdr_valid) (
    Unpacks-bind _ _
      (Unpacks-if (f.type == t_attach) (λ _. Unpacks-fid junk f.hdr old.hdr v.hdr_valid)
        (λ _. Unpacks-pure junk (merge_hdr f.hdr old.hdr)))
      (Unpacks-bind _ _ (Unpacks-pu32 junk old.afid f.afid v.afid_fits) (
        Unpacks-bind _ _ (Unpacks-pstring junk old.uname f.uname v.uname_short) (
          Unpacks-map _ (λ aname. record (merge_attach f old) { aname = aname })
            (Unpacks-pstring junk old.aname f.aname v.aname_short)))))
