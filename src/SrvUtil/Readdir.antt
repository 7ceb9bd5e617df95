-- ===== src/SrvUtil/Readdir.antt =====
-- srv_readdir: a listing of a directory, one Stat for each file. What fills a Stat is a parameter.
pub mod Listing
use libixp.Base.{
  ℕ, ◌+◌, ◌-◌, ◌%◌, ◌^◌, true, false, List, [], ◌∷◌, ltb, leb, if◌then◌else◌, Option, none, some,
  take,
}
use libixp.Msg.{Mode, Msg, Error, bad_access, exception, Result, ok, err}
use libixp.Msg.Fields.{Str}
use libixp.Stat.{Stat, stat_size, pack_unpack_stat}
use libixp.Fcall.{Fio}
use libixp.Fcall.Storage.{VariantStorage, f_io, zero_stat}
use libixp.Fcall.Retrieve.{get_io}
use libixp.Util.{string_at}
use libixp.SrvUtil.{FileIdBody, FileId, LookupFn}

module _ (dostat : Stat → FileIdBody → Stat) where
  -- The loop over the files behind the first. `size` is what is left of the count, and `want` the
  -- offset of the request.
  pub readdir_loop : Stat → FileId → (size offset want : ℕ) → Msg → Result Msg
  readdir_loop stat [] size offset want m = ok m
  readdir_loop stat (file ∷ files) size offset want m =
      let stat' = dostat stat file in
      let n = stat_size stat' in
      elim (leb want offset) [
        | false ↦ readdir_loop stat' files size (offset + n) want m
        | true ↦ elim (ltb size n) [
          | true ↦ ok m
          | false ↦ elim (pack_unpack_stat stat' m) [
            | err e ↦ err e
            | ok (stat'', m') ↦ readdir_loop stat'' files (size - n) (offset + n) want m'
          ]
        ]
      ]

-- The message over `new char[size]`, with what the memory holds.
abbrev pub listing_msg : (junk : ℕ) → Str → ℕ → Msg
listing_msg junk memory size = record {
  buffer = take size memory;
  size = size;
  pos = 0;
  end = size;
  mode = Mode.pack;
  uninit = junk;
}

-- The end of srv_readdir: the size and the data of the reply. setData takes a char pointer, and so
-- what stands before the first NUL.
pub fill_reply : Msg → Option VariantStorage → Result (Option VariantStorage)
fill_reply m none = err exception
fill_reply m (some o) = elim (get_io o) [
  | err e ↦ err e
  | ok io ↦ elim (string_at m.buffer) [
    | none ↦ err bad_access
    | some str ↦ ok (some (f_io (record io { size = m.pos; contents = str })))
  ]
]

-- srv_readdir: the request asks for `count` bytes from `want` on.
pub srv_readdir :
    LookupFn
    → (dostat : Stat → FileIdBody → Stat) → (junk : ℕ) → (memory : Str) → (count want iounit : ℕ)
    → FileId
    → Option VariantStorage
    → Result (Option VariantStorage)
unfolding readdir_loop fill_reply
srv_readdir lookup dostat junk memory count want iounit aux o =
    let size = if ltb iounit count then iounit else count in
    elim (lookup aux []) [
      | none ↦ err bad_access
      | some [] ↦ err bad_access
      | some (self ∷ files) ↦
          elim (readdir_loop dostat zero_stat files size 0 want (listing_msg junk memory size)) [
            | err e ↦ err e
            | ok m ↦ fill_reply m o
          ]
    ]
