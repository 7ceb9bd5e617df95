-- ===== src/Qid/Wire.antt =====
-- A Qid on the wire: 13 bytes; _dirType is not sent.
use libixp.Base.{ℕ, ◌^◌, ◌<◌, List, ◌++◌}
use libixp.Msg.Reads.{Reads, Reads-pure, Reads-bind, Reads-pu8, Reads-pu32, Reads-pu64}
use libixp.Msg.{s_byte, s_dword}
use libixp.Msg.Codec.{Codec}
use libixp.Msg.Packs.{Packs, Packs-bind, Packs-map}
use libixp.Msg.Unpacks.{Unpacks, Unpacks-bind, Unpacks-map}
use libixp.Msg.Uints.{bytes, bytes64, Packs-pu8, Packs-pu32, Packs-pu64}
use libixp.Msg.Reading.{Unpacks-pu8, Unpacks-pu32, Unpacks-pu64}
use libixp.Qid.{Qid, pack_unpack_qid}

pub record IsQid (q : Qid) : Type 0 where
  pub type_fits : q.type < 2 ^ 8
  pub version_fits : q.version < 2 ^ 32
  pub path_fits : q.path < 2 ^ 64

abbrev pub qid_bytes : Qid → List ℕ
qid_bytes q = bytes s_byte q.type ++ (bytes s_dword q.version ++ bytes64 q.path)

abbrev pub merge_qid : Qid → Qid → Qid
merge_qid q old = record q { dir_type = old.dir_type }

pub Packs-qid : (junk : ℕ) (q : Qid) → IsQid q → Packs junk (pack_unpack_qid q) q (qid_bytes q)
unfolding pack_unpack_qid
Packs-qid junk q v = Packs-bind _ _ (Packs-pu8 junk q.type v.type_fits) (
    Packs-bind _ _ (Packs-pu32 junk q.version)
      (Packs-map _ (λ path. record q { path = path }) (Packs-pu64 junk q.path v.path_fits)))

pub Unpacks-qid :
    (junk : ℕ) (q old : Qid)
    → IsQid q
    → Unpacks junk (pack_unpack_qid old) (merge_qid q old) (qid_bytes q)
unfolding pack_unpack_qid
Unpacks-qid junk q old v = Unpacks-bind _ _ (Unpacks-pu8 junk old.type q.type v.type_fits) (
    Unpacks-bind _ _ (Unpacks-pu32 junk old.version q.version v.version_fits) (
      Unpacks-map _ (λ path. record old { type = q.type; version = q.version; path = path })
        (Unpacks-pu64 junk old.path q.path v.path_fits)))

abbrev pub qid_codec : Codec pack_unpack_qid
qid_codec = record {
  wire = λ junk. qid_bytes;
  IsValid = IsQid;
  merge = merge_qid;
  packs = Packs-qid;
  unpacks = λ junk. Unpacks-qid;
}

pub Reads-qid : (q : Qid) → Reads (pack_unpack_qid q)
unfolding pack_unpack_qid
Reads-qid q = Reads-bind _ _ (Reads-pu8 _) (λ type.
    Reads-bind _ _ (Reads-pu32 _) (λ version. Reads-bind _ _ (Reads-pu64 _) (λ path. Reads-pure _)))
