-- ===== src/Stat/Wire.antt =====
-- A Stat on the wire.
use libixp.Base.{ℕ, ◌+◌, ◌-◌, ◌%◌, ◌^◌, ◌<◌, ◌≡◌, List, ◌++◌, length, length-append, take, arith}
use libixp.Msg.Reads.{
  Reads, Reads-pure, Reads-bind, Reads-requested, Reads-pu16, Reads-pu32, Reads-pu64,
}
use libixp.Msg.Fields.Reads.{Reads-pstring}
use libixp.Qid.Wire.{Reads-qid}
use libixp.Msg.{s_word, s_dword}
use libixp.Msg.Fields.{Str}
use libixp.Msg.Fields.Packing.{string_bytes, length-take, Packs-pstring}
use libixp.Msg.Fields.Unpacking.{Unpacks-pstring}
use libixp.Msg.Codec.{Codec}
use libixp.Msg.Packs.{Packs, Packs-bind, Packs-map, Packs-requested}
use libixp.Msg.Unpacks.{Unpacks, Unpacks-bind, Unpacks-map, Unpacks-requested}
use libixp.Msg.Uints.{bytes, bytes64, Packs-pu16, Packs-pu32, Packs-pu64}
use libixp.Msg.Reading.{Unpacks-pu16, Unpacks-pu32, Unpacks-pu64}
use libixp.Qid.Wire.{IsQid, qid_bytes, merge_qid, Packs-qid, Unpacks-qid}
use libixp.Stat.{Stat, stat_size, pack_unpack_stat}

abbrev pub IsShort : Str → Type 0
IsShort str = length str < 2 ^ 16

pub record IsStat (s : Stat) : Type 0 where
  pub type_fits : s.type < 2 ^ 16
  pub dev_fits : s.dev < 2 ^ 32
  pub qid_valid : IsQid s.qid
  pub mode_fits : s.mode < 2 ^ 32
  pub atime_fits : s.atime < 2 ^ 32
  pub mtime_fits : s.mtime < 2 ^ 32
  pub length_fits : s.length < 2 ^ 64
  pub name_short : IsShort s.name
  pub uid_short : IsShort s.uid
  pub gid_short : IsShort s.gid
  pub muid_short : IsShort s.muid

abbrev pub total_size : Stat → ℕ
total_size s = (stat_size s + 2 ^ 16 - 2) % 2 ^ 16

abbrev pub stat_bytes : Stat → List ℕ
stat_bytes s =
    bytes s_word (total_size s)
    ++ (bytes s_word s.type
        ++ (bytes s_dword s.dev
            ++ (qid_bytes s.qid
                ++ (bytes s_dword s.mode
                    ++ (bytes s_dword s.atime
                        ++ (bytes s_dword s.mtime
                            ++ (bytes64 s.length
                                ++ (string_bytes s.name
                                    ++ (string_bytes s.uid
                                        ++ (string_bytes s.gid ++ string_bytes s.muid))))))))))

abbrev pub merge_stat : Stat → Stat → Stat
merge_stat s old = record s { qid = merge_qid s.qid old.qid }

pub Packs-stat : (junk : ℕ) (s : Stat) → IsStat s → Packs junk (pack_unpack_stat s) s (stat_bytes s)
unfolding pack_unpack_stat
Packs-stat junk s v = Packs-bind _ _ (Packs-requested junk) (
    Packs-bind _ _ (Packs-pu16 junk (total_size s) (omega arith)) (
      Packs-bind _ _ (Packs-pu16 junk s.type v.type_fits) (
        Packs-bind _ _ (Packs-pu32 junk s.dev) (
          Packs-bind _ _ (Packs-qid junk s.qid v.qid_valid) (
            Packs-bind _ _ (Packs-pu32 junk s.mode) (
              Packs-bind _ _ (Packs-pu32 junk s.atime) (
                Packs-bind _ _ (Packs-pu32 junk s.mtime) (
                  Packs-bind _ _ (Packs-pu64 junk s.length v.length_fits) (
                    Packs-bind _ _ (Packs-pstring junk s.name) (
                      Packs-bind _ _ (Packs-pstring junk s.uid) (
                        Packs-bind _ _ (Packs-pstring junk s.gid) (
                          Packs-map _ (λ muid. record s { muid = muid })
                            (Packs-pstring junk s.muid)))))))))))))

pub Unpacks-stat :
    (junk : ℕ) (s old : Stat)
    → IsStat s
    → Unpacks junk (pack_unpack_stat old) (merge_stat s old) (stat_bytes s)
unfolding pack_unpack_stat
Unpacks-stat junk s old v = Unpacks-bind _ _ (Unpacks-requested junk) (
    Unpacks-bind _ _ (Unpacks-pu16 junk 0 (total_size s) (omega arith)) (
      Unpacks-bind _ _ (Unpacks-pu16 junk old.type s.type v.type_fits) (
        Unpacks-bind _ _ (Unpacks-pu32 junk old.dev s.dev v.dev_fits) (
          Unpacks-bind _ _ (Unpacks-qid junk s.qid old.qid v.qid_valid) (
            Unpacks-bind _ _ (Unpacks-pu32 junk old.mode s.mode v.mode_fits) (
              Unpacks-bind _ _ (Unpacks-pu32 junk old.atime s.atime v.atime_fits) (
                Unpacks-bind _ _ (Unpacks-pu32 junk old.mtime s.mtime v.mtime_fits) (
                  Unpacks-bind _ _ (Unpacks-pu64 junk old.length s.length v.length_fits) (
                    Unpacks-bind _ _ (Unpacks-pstring junk old.name s.name v.name_short) (
                      Unpacks-bind _ _ (Unpacks-pstring junk old.uid s.uid v.uid_short) (
                        Unpacks-bind _ _ (Unpacks-pstring junk old.gid s.gid v.gid_short) (
                          Unpacks-map _ (λ muid. record (merge_stat s old) { muid = muid })
                            (Unpacks-pstring junk old.muid s.muid v.muid_short)))))))))))))

abbrev pub stat_codec : Codec pack_unpack_stat
stat_codec = record {
  wire = λ junk. stat_bytes;
  IsValid = IsStat;
  merge = merge_stat;
  packs = Packs-stat;
  unpacks = λ junk. Unpacks-stat;
}

pub Reads-stat : (s : Stat) → Reads (pack_unpack_stat s)
unfolding pack_unpack_stat
Reads-stat s = Reads-requested _ (
    Reads-bind _ _ (Reads-pu16 _) (λ _. Reads-bind _ _ (Reads-pu16 _) (λ type.
      Reads-bind _ _ (Reads-pu32 _) (λ dev. Reads-bind _ _ (Reads-qid _) (λ qid.
        Reads-bind _ _ (Reads-pu32 _) (λ mode. Reads-bind _ _ (Reads-pu32 _) (λ atime.
          Reads-bind _ _ (Reads-pu32 _) (λ mtime. Reads-bind _ _ (Reads-pu64 _) (λ size.
            Reads-bind _ _ (Reads-pstring _) (λ name. Reads-bind _ _ (Reads-pstring _) (λ uid.
              Reads-bind _ _ (Reads-pstring _)
                (λ gid. Reads-bind _ _ (Reads-pstring _) (λ muid. Reads-pure _)))))))))))))

-- The size of a Stat that does not wrap around.
abbrev pub full_size : Stat → ℕ
full_size s = 49 + length s.name + length s.uid + length s.gid + length s.muid

stat_size-full : (s : Stat) → full_size s < 2 ^ 16 → stat_size s ≡ full_size s
unfolding stat_size
stat_size-full s short = omega arith

-- The bytes of a string and of what follows it.
length-string :
    (str : Str) (rest : List ℕ)
    → IsShort str
    → length (string_bytes str ++ rest) ≡ 2 + length str + length rest
length-string str rest short = omega (
  arith,
  length-append {0} (take (length str % 2 ^ 16) str) rest,
  length-take (length str % 2 ^ 16) str (omega arith),
  short,
)

pub length-stat_bytes :
    (s : Stat) → IsStat s → full_size s < 2 ^ 16 → length (stat_bytes s) ≡ stat_size s
length-stat_bytes s v short = omega (
  arith,
  stat_size-full s short,
  length-string s.name (string_bytes s.uid ++ (string_bytes s.gid ++ string_bytes s.muid))
      v.name_short,
  length-string s.uid (string_bytes s.gid ++ string_bytes s.muid) v.uid_short,
  length-string s.gid (string_bytes s.muid) v.gid_short,
  length-take (length s.muid % 2 ^ 16) s.muid (omega arith),
  v.muid_short,
  short,
)
