-- ===== src/Fcall/Headers.antt =====
-- The headers and the structures of a header and plain fields, on the wire.
use libixp.Base.{List, get_elem?, refl, some, ℕ, ◌%◌, ◌++◌, ◌+◌, ◌<◌, ◌^◌, ◌∙◌, ◌≡◌, ◌≤◌}
use libixp.Msg.Reads.{Reads-pu16}
use libixp.Msg.Packs.{IsWithin}
use libixp.Msg.{Mode, Msg, ok, pure, bind-ok}
use libixp.Msg.{s_byte, s_word, s_dword}
use libixp.Msg.Fields.Packing.{string_bytes, Packs-pstring}
use libixp.Msg.Fields.Unpacking.{Unpacks-pstring}
use libixp.Msg.Packs.{Packs, Packs-bind, Packs-map}
use libixp.Msg.Unpacks.{Unpacks, Unpacks-bind, Unpacks-map}
use libixp.Msg.Uints.{bytes, Packs-pu8, Packs-pu16, Packs-pu32}
use libixp.Msg.Reading.{Unpacks-pu8, Unpacks-pu16, Unpacks-pu32}
use libixp.Stat.Wire.{IsShort}
use libixp.Fcall.{
  FHdr, FVersion, FtFlush, FError, pack_unpack_hdr, pack_unpack_fid, pack_unpack_full_header,
  pack_unpack_version, pack_unpack_tflush, pack_unpack_error,
}

pub record IsHdr (h : FHdr) : Type 0 where
  pub type_fits : h.type < 2 ^ 8
  pub tag_fits : h.tag < 2 ^ 16
  pub fid_fits : h.fid < 2 ^ 32

abbrev pub hdr_bytes : FHdr → List ℕ
hdr_bytes h = bytes s_byte h.type ++ bytes s_word h.tag

-- The header as it is read where the fid is not sent.
abbrev pub merge_hdr : FHdr → FHdr → FHdr
merge_hdr h old = record h { fid = old.fid }

pub Packs-hdr : (junk : ℕ) (h : FHdr) → IsHdr h → Packs junk (pack_unpack_hdr h) h (hdr_bytes h)
unfolding pack_unpack_hdr
Packs-hdr junk h v =
    Packs-bind _ _ (Packs-pu8 junk h.type v.type_fits)
      (Packs-map _ (λ tag. record h { tag = tag }) (Packs-pu16 junk h.tag v.tag_fits))

pub Unpacks-hdr :
    (junk : ℕ) (h old : FHdr)
    → IsHdr h
    → Unpacks junk (pack_unpack_hdr old) (merge_hdr h old) (hdr_bytes h)
unfolding pack_unpack_hdr
Unpacks-hdr junk h old v = Unpacks-bind _ _ (Unpacks-pu8 junk old.type h.type v.type_fits) (
    Unpacks-map _ (λ tag. record (merge_hdr h old) { tag = tag })
      (Unpacks-pu16 junk old.tag h.tag v.tag_fits))

-- On any bytes, the type is the byte at the position.
pub hdr-known :
    (m : Msg) (type : ℕ) (h : FHdr)
    → IsWithin m
    → m.mode ≡ Mode.unpack
    → m.pos + 1 ≤ m.end
    → type < 2 ^ 8
    → get_elem? m.buffer m.pos ≡ some (type % 256)
    → (tag : ℕ) × (q : ℕ) × (pack_unpack_hdr h m
        ≡ ok (record h { type = type; tag = tag }, record m { pos = q }))
unfolding pack_unpack_hdr pure
hdr-known m type h w p room small at =
    let (tag, q, e) = (Reads-pu16 h.tag).run (record m { pos = m.pos + 1 }) w p in
    (
      tag,
      q,
      bind-ok _ _ m ((Unpacks-pu8 m.uninit h.type type small).run m w p refl room (at, tt))
          ∙ bind-ok _ _ _ e,
    )

pub Packs-fid : (junk : ℕ) (h : FHdr) → Packs junk (pack_unpack_fid h) h (bytes s_dword h.fid)
unfolding pack_unpack_fid
Packs-fid junk h = Packs-map _ (λ fid. record h { fid = fid }) (Packs-pu32 junk h.fid)

pub Unpacks-fid :
    (junk : ℕ) (h old : FHdr)
    → IsHdr h
    → Unpacks junk (pack_unpack_fid (merge_hdr h old)) h (bytes s_dword h.fid)
unfolding pack_unpack_fid
Unpacks-fid junk h old v =
    Unpacks-map _ (λ fid. record h { fid = fid }) (Unpacks-pu32 junk old.fid h.fid v.fid_fits)

abbrev pub full_header_bytes : FHdr → List ℕ
full_header_bytes h = hdr_bytes h ++ bytes s_dword h.fid

pub Packs-full_header :
    (junk : ℕ) (h : FHdr) → IsHdr h → Packs junk (pack_unpack_full_header h) h (full_header_bytes h)
unfolding pack_unpack_full_header
Packs-full_header junk h v = Packs-bind _ _ (Packs-hdr junk h v) (Packs-fid junk h)

pub Unpacks-full_header :
    (junk : ℕ) (h old : FHdr)
    → IsHdr h
    → Unpacks junk (pack_unpack_full_header old) h (full_header_bytes h)
unfolding pack_unpack_full_header
Unpacks-full_header junk h old v =
    Unpacks-bind _ _ (Unpacks-hdr junk h old v) (Unpacks-fid junk h old v)

pub record IsFVersion (f : FVersion) : Type 0 where
  pub hdr_valid : IsHdr f.hdr
  pub size_fits : f.size < 2 ^ 32
  pub version_short : IsShort f.version

abbrev pub version_bytes : FVersion → List ℕ
version_bytes f = hdr_bytes f.hdr ++ (bytes s_dword f.size ++ string_bytes f.version)

abbrev pub merge_version : FVersion → FVersion → FVersion
merge_version f old = record f { hdr = merge_hdr f.hdr old.hdr }

pub Packs-version :
    (junk : ℕ) (f : FVersion)
    → IsFVersion f
    → Packs junk (pack_unpack_version f) f (version_bytes f)
unfolding pack_unpack_version
Packs-version junk f v = Packs-bind _ _ (Packs-hdr junk f.hdr v.hdr_valid) (
    Packs-bind _ _ (Packs-pu32 junk f.size)
      (Packs-map _ (λ version. record f { version = version }) (Packs-pstring junk f.version)))

pub Unpacks-version :
    (junk : ℕ) (f old : FVersion)
    → IsFVersion f
    → Unpacks junk (pack_unpack_version old) (merge_version f old) (version_bytes f)
unfolding pack_unpack_version
Unpacks-version junk f old v = Unpacks-bind _ _ (Unpacks-hdr junk f.hdr old.hdr v.hdr_valid) (
    Unpacks-bind _ _ (Unpacks-pu32 junk old.size f.size v.size_fits) (
      Unpacks-map _ (λ version. record (merge_version f old) { version = version })
        (Unpacks-pstring junk old.version f.version v.version_short)))

pub record IsFtFlush (f : FtFlush) : Type 0 where
  pub hdr_valid : IsHdr f.hdr
  pub oldtag_fits : f.oldtag < 2 ^ 16

abbrev pub tflush_bytes : FtFlush → List ℕ
tflush_bytes f = hdr_bytes f.hdr ++ bytes s_word f.oldtag

abbrev pub merge_tflush : FtFlush → FtFlush → FtFlush
merge_tflush f old = record f { hdr = merge_hdr f.hdr old.hdr }

pub Packs-tflush :
    (junk : ℕ) (f : FtFlush) → IsFtFlush f → Packs junk (pack_unpack_tflush f) f (tflush_bytes f)
unfolding pack_unpack_tflush
Packs-tflush junk f v =
    Packs-bind _ _ (Packs-hdr junk f.hdr v.hdr_valid) (
      Packs-map _ (λ oldtag. record f { oldtag = oldtag }) (Packs-pu16 junk f.oldtag v.oldtag_fits))

pub Unpacks-tflush :
    (junk : ℕ) (f old : FtFlush)
    → IsFtFlush f
    → Unpacks junk (pack_unpack_tflush old) (merge_tflush f old) (tflush_bytes f)
unfolding pack_unpack_tflush
Unpacks-tflush junk f old v = Unpacks-bind _ _ (Unpacks-hdr junk f.hdr old.hdr v.hdr_valid) (
    Unpacks-map _ (λ oldtag. record (merge_tflush f old) { oldtag = oldtag })
      (Unpacks-pu16 junk old.oldtag f.oldtag v.oldtag_fits))

pub record IsFError (f : FError) : Type 0 where
  pub hdr_valid : IsHdr f.hdr
  pub ename_short : IsShort f.ename

abbrev pub error_bytes : FError → List ℕ
error_bytes f = hdr_bytes f.hdr ++ string_bytes f.ename

abbrev pub merge_error : FError → FError → FError
merge_error f old = record f { hdr = merge_hdr f.hdr old.hdr }

pub Packs-error :
    (junk : ℕ) (f : FError) → IsFError f → Packs junk (pack_unpack_error f) f (error_bytes f)
unfolding pack_unpack_error
Packs-error junk f v =
    Packs-bind _ _ (Packs-hdr junk f.hdr v.hdr_valid)
      (Packs-map _ (λ ename. record f { ename = ename }) (Packs-pstring junk f.ename))

pub Unpacks-error :
    (junk : ℕ) (f old : FError)
    → IsFError f
    → Unpacks junk (pack_unpack_error old) (merge_error f old) (error_bytes f)
unfolding pack_unpack_error
Unpacks-error junk f old v = Unpacks-bind _ _ (Unpacks-hdr junk f.hdr old.hdr v.hdr_valid) (
    Unpacks-map _ (λ ename. record (merge_error f old) { ename = ename })
      (Unpacks-pstring junk old.ename f.ename v.ename_short))
