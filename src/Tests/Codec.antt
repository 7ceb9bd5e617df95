-- ===== src/Tests/Codec.antt =====
-- A TVersion message and the round trip through a message of 32 bytes.
use libixp.Base.{ℕ, ◌≤◌, ◌≡◌, refl, List, [], ◌∷◌, some, arith, replicate, length, get_elem?}
use libixp.Types.{version_9p}
use libixp.Msg.{Mode, Msg, ok, pu64}
use libixp.Msg.Packs.{Packs}
use libixp.Msg.Unpacks.{Unpacks}
use libixp.Msg.Uints.{bytes64, Packs-pu64}
use libixp.Msg.Reading.{Unpacks-pu64}
use libixp.Msg.Fields.{pstring}
use libixp.Msg.Fields.Packing.{string_bytes}
use libixp.Msg.Fields.Unpacking.{Unpacks-pstring}
use libixp.Fcall.{FHdr}
use libixp.Fcall.Headers.{IsHdr}
use libixp.Fcall.Storage.{VariantStorage, f_version, blank_of}
use libixp.Fcall.Storage.Wire.{IsStorage, SuitsType, received}
use libixp.Fcall.Storage.Call.{read_header}
use libixp.Fcall.Message.{pack_msg, unpack_msg}
use libixp.Fcall.Message.Packing.{pack-too_long}
use libixp.Fcall.Message.RoundTrip.{blank_fcall, unpack-pack}

abbrev pub version_hdr : FHdr
version_hdr = record { type = 100; tag = 65535; fid = 0 }

abbrev pub hello : VariantStorage
hello = f_version (record { hdr = version_hdr; size = 8192; version = version_9p })

abbrev pub message_of : ℕ → Msg
message_of size = record {
  buffer = replicate size 0;
  size = size;
  pos = 0;
  end = 0;
  mode = Mode.pack;
  uninit = 7;
}

version_hdr-IsHdr : IsHdr version_hdr
version_hdr-IsHdr = record {
  type_fits = omega arith;
  tag_fits = omega arith;
  fid_fits = omega arith;
}

pub hello-IsStorage : IsStorage hello
hello-IsStorage = record {
  hdr_valid = version_hdr-IsHdr;
  size_fits = omega arith;
  version_short = omega arith;
}

pub hello-SuitsType : SuitsType hello
unfolding blank_of
hello-SuitsType h = refl

pack-too_long_example :
    (b : List ℕ) × (pack_msg (record { storage = some hello }) (message_of 9)
      ≡ ok (0, record (message_of 9) { buffer = b; pos = 15; end = 9; mode = Mode.pack }))
    × (length b ≡ 9)
    × ((i : ℕ) → 9 ≤ i → get_elem? b i ≡ get_elem? (replicate 9 0) i)
pack-too_long_example =
    pack-too_long (message_of 9) hello (omega arith) hello-IsStorage (omega arith)

-- The message as it stands on the wire.
abbrev incoming : Msg
incoming = record {
  buffer = 15 ∷ 0 ∷ 0 ∷ 0 ∷ 100 ∷ 255 ∷ 255 ∷ 0 ∷ 32 ∷ 0 ∷ 0 ∷ 2 ∷ 0 ∷ 57 ∷ 80 ∷ [];
  size = 15;
  pos = 9;
  end = 15;
  mode = Mode.pack;
  uninit = 7;
}

abbrev got : VariantStorage
got = received hello (read_header 7 version_hdr)

unpack-pack_example :
    (b : List ℕ) × (pack_msg (record { storage = some hello }) (message_of 32)
      ≡ ok (15, record (message_of 32) { buffer = b; pos = 0; end = 15; mode = Mode.pack }))
    × (unpack_msg blank_fcall (record incoming { buffer = b; end = 15 })
        ≡ ok (
          (15, record { storage = some got }),
          record incoming { buffer = b; end = 15; pos = 15; mode = Mode.unpack },
        ))
unpack-pack_example =
    unpack-pack (message_of 32) incoming hello (omega arith) hello-IsStorage tt hello-SuitsType
      (omega arith)

Packs-pu64_example :
    Packs 7 (pu64 0x1122334455667788) 0x1122334455667788 (bytes64 0x1122334455667788)
Packs-pu64_example = Packs-pu64 7 0x1122334455667788 (omega arith)

Unpacks-pu64_example : Unpacks 7 (pu64 5) 0x1122334455667788 (bytes64 0x1122334455667788)
Unpacks-pu64_example = Unpacks-pu64 7 5 0x1122334455667788 (omega arith)

Unpacks-pstring_example : Unpacks 7 (pstring []) version_9p (string_bytes version_9p)
Unpacks-pstring_example = Unpacks-pstring 7 [] version_9p (omega arith)
