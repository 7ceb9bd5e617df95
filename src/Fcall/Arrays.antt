-- ===== src/Fcall/Arrays.antt =====
-- The walk messages, which carry an array.
use libixp.Base.{ℕ, ◌^◌, ◌≤◌, ◌<◌, ◌≡◌, List, ◌++◌, ◌∷◌, [], length, All, arith}
use libixp.Types.{max_welem}
use libixp.Msg.{s_word, s_dword}
use libixp.Msg.Fields.{Str, pstrings, pstrings_round}
use libixp.Msg.Fields.Packing.{string_bytes, first_bytes, Packs-parray, Packs-pstrings_round}
use libixp.Msg.Fields.Unpacking.{merge_first, Unpacks-parray}
use libixp.Msg.Packs.{Packs, Packs-bind, Packs-map}
use libixp.Msg.Unpacks.{Unpacks, Unpacks-bind, Unpacks-map}
use libixp.Msg.Uints.{bytes, Packs-pu32}
use libixp.Qid.{Qid, pack_unpack_qid}
use libixp.Qid.Wire.{IsQid, qid_bytes, merge_qid, Packs-qid, Unpacks-qid}
use libixp.Fcall.{FtWalk, FrWalk, pack_unpack_twalk, pack_unpack_rwalk}
use libixp.Fcall.Headers.{IsHdr, hdr_bytes, merge_hdr, Packs-hdr, Unpacks-hdr, Packs-fid}

-- The array is full, and num entries of it count.
pub record IsArray {A : Type 0} (num : ℕ) (xs : List A) : Type 0 where
  pub full : length xs ≡ max_welem
  pub count : num ≤ max_welem

pub record IsFrWalk (f : FrWalk) : Type 0 where
  pub hdr_valid : IsHdr f.hdr
  pub array : IsArray f.size f.wqid
  pub qids_valid : All IsQid f.wqid

abbrev pub rwalk_bytes : FrWalk → List ℕ
rwalk_bytes f =
    hdr_bytes f.hdr ++ (bytes s_word f.size ++ first_bytes pack_unpack_qid qid_bytes f.size f.wqid)

-- The qids past the count are those that the array had.
abbrev pub merge_rwalk : FrWalk → FrWalk → FrWalk
merge_rwalk f old = record {
  hdr = merge_hdr f.hdr old.hdr;
  size = f.size;
  wqid = merge_first pack_unpack_qid qid_bytes merge_qid f.size f.wqid old.wqid;
}

packed_qids :
    (junk : ℕ) (qs : List Qid)
    → All IsQid qs
    → All (λ q. Packs junk (pack_unpack_qid q) q (qid_bytes q)) qs
packed_qids junk [] v = tt
packed_qids junk (q ∷ qs) (v, vs) = (Packs-qid junk q v, packed_qids junk qs vs)

unpacked_qids :
    (junk : ℕ) (qs : List Qid)
    → All IsQid qs
    → All (λ q. (old : Qid) → Unpacks junk (pack_unpack_qid old) (merge_qid q old) (qid_bytes q)) qs
unpacked_qids junk [] v = tt
unpacked_qids junk (q ∷ qs) (v, vs) = (λ old. Unpacks-qid junk q old v, unpacked_qids junk qs vs)

pub Packs-rwalk :
    (junk : ℕ) (f : FrWalk) → IsFrWalk f → Packs junk (pack_unpack_rwalk f) f (rwalk_bytes f)
unfolding pack_unpack_rwalk
Packs-rwalk junk f v =
    let a = v.array in
    Packs-bind _ _ (Packs-hdr junk f.hdr v.hdr_valid) (
      Packs-map _ (λ p. record f { size = p.0; wqid = p.1 })
        (Packs-parray pack_unpack_qid qid_bytes junk max_welem f.size f.wqid a.count
          (omega (arith, a.full, a.count)) (omega (arith, a.count))
          (packed_qids junk f.wqid v.qids_valid)))

pub Unpacks-rwalk :
    (junk : ℕ) (f old : FrWalk)
    → IsFrWalk f
    → length old.wqid ≡ max_welem
    → Unpacks junk (pack_unpack_rwalk old) (merge_rwalk f old) (rwalk_bytes f)
unfolding pack_unpack_rwalk
Unpacks-rwalk junk f old v full =
    let a = v.array in
    Unpacks-bind _ _ (Unpacks-hdr junk f.hdr old.hdr v.hdr_valid) (
      Unpacks-map _ (λ p. record (merge_rwalk f old) { size = p.0; wqid = p.1 })
        (Unpacks-parray pack_unpack_qid qid_bytes merge_qid junk max_welem old.size f.size f.wqid
          old.wqid a.count (omega (arith, a.full, a.count)) (omega (arith, full, a.count))
          (omega (arith, a.count)) (unpacked_qids junk f.wqid v.qids_valid)))

pub record IsFtWalk (f : FtWalk) : Type 0 where
  pub hdr_valid : IsHdr f.hdr
  pub newfid_fits : f.newfid < 2 ^ 32
  pub array : IsArray f.size f.wname

abbrev pub twalk_bytes : FtWalk → List ℕ
twalk_bytes f =
    hdr_bytes f.hdr
    ++ (bytes s_dword f.fid
        ++ (bytes s_dword f.newfid
            ++ (bytes s_word f.size ++ first_bytes pstrings_round string_bytes f.size f.wname)))

packed_names :
    (junk : ℕ) (names : List Str)
    → All (λ name. Packs junk (pstrings_round name) name (string_bytes name)) names
packed_names junk [] = tt
packed_names junk (name ∷ names) = (Packs-pstrings_round junk name, packed_names junk names)

pub Packs-twalk :
    (junk : ℕ) (f : FtWalk) → IsFtWalk f → Packs junk (pack_unpack_twalk f) f (twalk_bytes f)
unfolding pack_unpack_twalk pstrings
Packs-twalk junk f v =
    let a = v.array in
    Packs-bind _ _ (Packs-hdr junk f.hdr v.hdr_valid) (
      Packs-bind _ _ (Packs-fid junk f.hdr) (
        Packs-bind _ _ (Packs-pu32 junk f.newfid) (
          Packs-map _ (λ p. record f { size = p.0; wname = p.1 })
            (Packs-parray pstrings_round string_bytes junk max_welem f.size f.wname a.count
              (omega (arith, a.full, a.count)) (omega (arith, a.count))
              (packed_names junk f.wname)))))
