-- ===== src/Fcall/Typed.antt =====
-- TCreate and TOpen, the reads and writes, and the messages that carry a stat.
use libixp.Base.{
  ℕ, ◌^◌, ◌<◌, ◌≡◌, subst, Bool, true, ◌%◌, List, [], ◌++◌, ◌==◌, ◌||◌, if◌then◌else◌, length,
  take-length, arith,
}
use libixp.Types.FType.{t_create, t_read, t_write, r_read}
use libixp.Msg.{s_byte, s_word, s_dword}
use libixp.Msg.Fields.{Str, pdata, pdata_vector}
use libixp.Msg.Fields.Packing.{string_bytes, Packs-pstring, Packs-pdata, Packs-pdata_vector}
use libixp.Msg.Fields.Unpacking.{Unpacks-pstring, Unpacks-pdata, Unpacks-pdata_vector}
use libixp.Msg.Packs.{
  Packs, Packs-bind, Packs-map, Packs-if, Packs-pure, Packs-requested, Packs-uninitialised,
}
use libixp.Msg.Unpacks.{
  Unpacks, Unpacks-bind, Unpacks-map, Unpacks-if, Unpacks-pure, Unpacks-requested,
  Unpacks-uninitialised,
}
use libixp.Msg.Uints.{bytes, bytes64, Packs-pu8, Packs-pu16, Packs-pu32, Packs-pu64}
use libixp.Msg.Reading.{Unpacks-pu8, Unpacks-pu16, Unpacks-pu32, Unpacks-pu64}
use libixp.Stat.Wire.{IsShort, IsStat, stat_bytes, merge_stat, Packs-stat, Unpacks-stat}
use libixp.Fcall.{
  FHdr, FtCreate, Fio, FrStat, FtWstat, pack_unpack_name_perm, pack_unpack_tcreate,
  pack_unpack_offset, pack_unpack_io, pack_unpack_rstat, pack_unpack_twstat,
}
use libixp.Fcall.Headers.{
  IsHdr, hdr_bytes, merge_hdr, Packs-hdr, Unpacks-hdr, Packs-fid, Unpacks-fid,
}

pub record IsFtCreate (f : FtCreate) : Type 0 where
  pub hdr_valid : IsHdr f.hdr
  pub perm_fits : f.perm < 2 ^ 32
  pub name_short : IsShort f.name
  pub mode_fits : f.mode < 2 ^ 8

abbrev pub tcreate_bytes : FtCreate → List ℕ
tcreate_bytes f =
    hdr_bytes f.hdr
    ++ (bytes s_dword f.fid
        ++ ((if f.type == t_create then string_bytes f.name ++ bytes s_dword f.perm else [])
            ++ bytes s_byte f.mode))

-- A TOpen has no name and no permissions.
abbrev pub merge_tcreate : FtCreate → FtCreate → FtCreate
merge_tcreate f old =
    let sent : Str × ℕ = if f.type == t_create then (f.name, f.perm) else (old.name, old.perm) in
    record f { perm = sent.1; name = sent.0 }

pub Packs-tcreate :
    (junk : ℕ) (f : FtCreate)
    → IsFtCreate f
    → Packs junk (pack_unpack_tcreate f) f (tcreate_bytes f)
unfolding pack_unpack_tcreate pack_unpack_name_perm
Packs-tcreate junk f v = Packs-bind _ _ (Packs-hdr junk f.hdr v.hdr_valid) (
    Packs-bind _ _ (Packs-fid junk f.hdr) (
      Packs-bind _ _ {a = (f.name, f.perm)}
        (Packs-if (f.type == t_create)
          (λ _.
            Packs-bind _ _ (Packs-pstring junk f.name)
              (Packs-map _ (λ perm. (f.name, perm)) (Packs-pu32 junk f.perm)))
          (λ _. Packs-pure junk (f.name, f.perm)))
        (Packs-map _ (λ mode. record f { mode = mode }) (Packs-pu8 junk f.mode v.mode_fits))))

pub Unpacks-tcreate :
    (junk : ℕ) (f old : FtCreate)
    → IsFtCreate f
    → Unpacks junk (pack_unpack_tcreate old) (merge_tcreate f old) (tcreate_bytes f)
unfolding pack_unpack_tcreate pack_unpack_name_perm
Unpacks-tcreate junk f old v = Unpacks-bind _ _ (Unpacks-hdr junk f.hdr old.hdr v.hdr_valid) (
    Unpacks-bind _ _ (Unpacks-fid junk f.hdr old.hdr v.hdr_valid) (
      Unpacks-bind _ _
        (Unpacks-if (f.type == t_create)
          (λ _. Unpacks-bind _ _ (Unpacks-pstring junk old.name f.name v.name_short) (
            Unpacks-map _ (λ perm. (f.name, perm)) (Unpacks-pu32 junk old.perm f.perm v.perm_fits)))
          (λ _. Unpacks-pure junk (old.name, old.perm)))
        (Unpacks-map _ (λ mode. record (merge_tcreate f old) { mode = mode })
          (Unpacks-pu8 junk old.mode f.mode v.mode_fits))))

abbrev pub sends_offset : Fio → Bool
sends_offset f = f.type == t_read || f.type == t_write

abbrev pub sends_data : Fio → Bool
sends_data f = f.type == r_read || f.type == t_write

-- Where the data is sent, size is its length.
pub record IsFio (f : Fio) : Type 0 where
  pub hdr_valid : IsHdr f.hdr
  pub size_fits : f.size < 2 ^ 32
  pub offset_fits : f.offset < 2 ^ 64
  pub size_is : sends_data f ≡ true → f.size ≡ length f.contents

abbrev pub io_bytes : Fio → List ℕ
io_bytes f =
    hdr_bytes f.hdr
    ++ ((if sends_offset f then bytes s_dword f.fid ++ bytes64 f.offset else [])
        ++ (bytes s_dword f.size ++ (if sends_data f then f.contents else [])))

abbrev pub merge_io : Fio → Fio → Fio
merge_io f old =
    let sent : FHdr × ℕ =
      if sends_offset f then (f.hdr, f.offset) else (merge_hdr f.hdr old.hdr, old.offset) in
    record {
      hdr = sent.0;
      size = f.size;
      offset = sent.1;
      contents = if sends_data f then f.contents else old.contents;
    }

Packs-contents : (junk : ℕ) (str : Str) (n : ℕ) → n ≡ length str → Packs junk (pdata str n) str str
Packs-contents junk str n e = rw e (
    subst (Packs junk (pdata str (length str)) str) (take-length str)
      (Packs-pdata junk str (length str) (omega arith)))

Unpacks-contents :
    (junk : ℕ) (old str : Str) (n : ℕ) → n ≡ length str → Unpacks junk (pdata old n) str str
Unpacks-contents junk old str n e = rw e (Unpacks-pdata junk old str)

pub Packs-io : (junk : ℕ) (f : Fio) → IsFio f → Packs junk (pack_unpack_io f) f (io_bytes f)
unfolding pack_unpack_io pack_unpack_offset
Packs-io junk f v = Packs-bind _ _ (Packs-hdr junk f.hdr v.hdr_valid) (
    Packs-bind _ _ {a = (f.hdr, f.offset)}
      (Packs-if (sends_offset f)
        (λ _.
          Packs-bind _ _ (Packs-fid junk f.hdr)
            (Packs-map _ (λ offset. (f.hdr, offset)) (Packs-pu64 junk f.offset v.offset_fits)))
        (λ _. Packs-pure junk (f.hdr, f.offset)))
      (Packs-bind _ _ (Packs-pu32 junk f.size) (
        Packs-map _ (λ contents. record f { contents = contents })
          (Packs-if (sends_data f) (λ e. Packs-contents junk f.contents f.size (v.size_is e))
            (λ _. Packs-pure junk f.contents)))))

pub Unpacks-io :
    (junk : ℕ) (f old : Fio)
    → IsFio f
    → Unpacks junk (pack_unpack_io old) (merge_io f old) (io_bytes f)
unfolding pack_unpack_io pack_unpack_offset
Unpacks-io junk f old v = Unpacks-bind _ _ (Unpacks-hdr junk f.hdr old.hdr v.hdr_valid) (
    Unpacks-bind _ _
      (Unpacks-if (sends_offset f)
        (λ _. Unpacks-bind _ _ (Unpacks-fid junk f.hdr old.hdr v.hdr_valid) (
          Unpacks-map _ (λ offset. (f.hdr, offset))
            (Unpacks-pu64 junk old.offset f.offset v.offset_fits)))
        (λ _. Unpacks-pure junk (merge_hdr f.hdr old.hdr, old.offset)))
      (Unpacks-bind _ _ (Unpacks-pu32 junk old.size f.size v.size_fits) (
        Unpacks-map _ (λ contents. record (merge_io f old) { contents = contents })
          (Unpacks-if (sends_data f)
            (λ e. Unpacks-contents junk old.contents f.contents f.size (v.size_is e))
            (λ _. Unpacks-pure junk old.contents)))))

-- size is the length of the packed stat.
pub record IsFrStat (f : FrStat) : Type 0 where
  pub hdr_valid : IsHdr f.hdr
  pub size_fits : f.size < 2 ^ 16
  pub size_is : f.size ≡ length f.stat

abbrev pub rstat_bytes : FrStat → List ℕ
rstat_bytes f = hdr_bytes f.hdr ++ (bytes s_word f.size ++ f.stat)

abbrev pub merge_rstat : FrStat → FrStat → FrStat
merge_rstat f old = record f { hdr = merge_hdr f.hdr old.hdr }

Packs-elements :
    (junk : ℕ) (str : Str) (n : ℕ) → n ≡ length str → Packs junk (pdata_vector str n) str str
Packs-elements junk str n e = rw e (
    subst (Packs junk (pdata_vector str (length str)) str) (take-length str)
      (Packs-pdata_vector junk str (length str) (omega arith)))

pub Packs-rstat :
    (junk : ℕ) (f : FrStat) → IsFrStat f → Packs junk (pack_unpack_rstat f) f (rstat_bytes f)
unfolding pack_unpack_rstat
Packs-rstat junk f v = Packs-bind _ _ (Packs-hdr junk f.hdr v.hdr_valid) (
    Packs-bind _ _ (Packs-requested junk) (
      Packs-bind _ _ (Packs-pu16 junk f.size v.size_fits) (
        Packs-map _ (λ stat. record f { stat = stat })
          (Packs-elements junk f.stat f.size v.size_is))))

pub Unpacks-rstat :
    (junk : ℕ) (f old : FrStat)
    → IsFrStat f
    → Unpacks junk (pack_unpack_rstat old) (merge_rstat f old) (rstat_bytes f)
unfolding pack_unpack_rstat
Unpacks-rstat junk f old v = Unpacks-bind _ _ (Unpacks-hdr junk f.hdr old.hdr v.hdr_valid) (
    Unpacks-bind _ _ (Unpacks-requested junk) (
      Unpacks-bind _ _ (Unpacks-pu16 junk old.size f.size v.size_fits) (
        Unpacks-map _ (λ stat. record (merge_rstat f old) { stat = stat })
          (rw v.size_is (Unpacks-pdata_vector junk [] f.stat)))))

pub record IsFtWstat (f : FtWstat) : Type 0 where
  pub hdr_valid : IsHdr f.hdr
  pub stat_valid : IsStat f.stat

-- The size before the stat is whatever the local held.
abbrev pub twstat_bytes : ℕ → FtWstat → List ℕ
twstat_bytes junk f =
    hdr_bytes f.hdr ++ (bytes s_dword f.fid ++ (bytes s_word (junk % 2 ^ 16) ++ stat_bytes f.stat))

abbrev pub merge_twstat : FtWstat → FtWstat → FtWstat
merge_twstat f old = record f { stat = merge_stat f.stat old.stat }

pub Packs-twstat :
    (junk : ℕ) (f : FtWstat)
    → IsFtWstat f
    → Packs junk (pack_unpack_twstat f) f (twstat_bytes junk f)
unfolding pack_unpack_twstat
Packs-twstat junk f v = Packs-bind _ _ (Packs-hdr junk f.hdr v.hdr_valid) (
    Packs-bind _ _ (Packs-fid junk f.hdr) (
      Packs-bind _ _ (Packs-uninitialised junk) (
        Packs-bind _ _ (Packs-pu16 junk (junk % 2 ^ 16) (omega arith))
          (Packs-map _ (λ stat. record f { stat = stat }) (Packs-stat junk f.stat v.stat_valid)))))

pub Unpacks-twstat :
    (sent junk : ℕ) (f old : FtWstat)
    → IsFtWstat f
    → Unpacks junk (pack_unpack_twstat old) (merge_twstat f old) (twstat_bytes sent f)
unfolding pack_unpack_twstat
Unpacks-twstat sent junk f old v = Unpacks-bind _ _ (Unpacks-hdr junk f.hdr old.hdr v.hdr_valid) (
    Unpacks-bind _ _ (Unpacks-fid junk f.hdr old.hdr v.hdr_valid) (
      Unpacks-bind _ _ (Unpacks-uninitialised junk) (
        Unpacks-bind _ _ (Unpacks-pu16 junk (junk % 2 ^ 16) (sent % 2 ^ 16) (omega arith)) (
          Unpacks-map _ (λ stat. record (merge_twstat f old) { stat = stat })
            (Unpacks-stat junk f.stat old.stat v.stat_valid)))))
