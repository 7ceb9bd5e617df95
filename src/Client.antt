-- ===== src/Client.antt =====
-- client.cc: the fids of a client, the check of a reply and the loop of _pread. The exchange of a
-- message with the server is a parameter, with a state of its own.
pub mod Fids
pub mod Reading
pub mod Ending
pub mod Session
pub mod Calls
pub mod Files
pub mod Mount
use libixp.Base.{
  ℕ, zero, suc, ◌+◌, ◌-◌, ◌%◌, ◌^◌, Bool, true, false, List, [], ◌∷◌, ◌++◌, ◌==◌, ltb,
  if◌then◌else◌, Option, none, some, length, take,
}
use libixp.Types.{min}
use libixp.Types.FType.{r_error}
use libixp.Msg.{Error, bad_access, exception, Result, ok, err}
use libixp.Msg.Fields.{Str}
use libixp.Fcall.Storage.{VariantStorage, header_of}

-- _lastfid and _freefid; a CFid in the list is its number.
pub record FidPool : Type 0 where
  pub lastfid : ℕ
  pub freefid : List ℕ

-- getFid: ++_lastfid, or the first of the free ones.
unfoldable pub get_fid : FidPool → ℕ × FidPool
get_fid p = elim p.freefid [
  | [] ↦ ((p.lastfid + 1) % 2 ^ 32, record p { lastfid = (p.lastfid + 1) % 2 ^ 32 })
  | f ∷ fs ↦ (f, record p { freefid = fs })
]

pub putfid : ℕ → FidPool → FidPool
putfid f p =
    if f == p.lastfid
    then record p { lastfid = p.lastfid - 1 }
    else record p { freefid = f ∷ p.freefid }

-- fhdrVal ^ 1.
abbrev pub flip_low_bit : ℕ → ℕ
flip_low_bit t = if t % 2 == 0 then t + 1 else t - 1

-- The tests of dofcall on what muxrpc returns. wErrorString throws, so the lines behind its calls
-- are not reached.
unfoldable pub check_reply : VariantStorage → Option VariantStorage → Result (Option VariantStorage)
check_reply request none = ok none
check_reply request (some ret) =
    if (header_of ret).type == r_error
    then err exception
    else if (header_of ret).type == flip_low_bit (header_of request).type
    then ok (some ret)
    else err exception

-- What an RRead says and holds.
pub record ReadReply : Type 0 where
  pub size : ℕ
  pub contents : Str

-- How _pread ends: what was copied to buf, and -1, the number of bytes, or an exception.
pub record Copied : Type 0 where
  pub buf : Str
  pub result : Result (Option ℕ)

-- The tests on the reply to a read of n bytes: a longer one is an error, before anything of it is
-- copied, and a shorter one ends the loop. memcpy reads as many bytes as the reply says.
abbrev pub read_reply :
    {S : Type 0} → ℕ → Str → Str → ReadReply → S → Option (Copied × S) → Option (Copied × S)
read_reply n buf buf' rread s rest =
    if ltb n rread.size
    then some (record { buf = buf; result = ok none }, s)
    else if ltb (length rread.contents) rread.size
    then some (record { buf = buf'; result = err bad_access }, s)
    else if ltb rread.size n
    then some (record { buf = buf'; result = ok (some (length buf')) }, s)
    else rest

module _ {S : Type 0} (read_at : ℕ → ℕ → S → Result (Option ReadReply) × S) where
  -- The loop of _pread. The numbers are those of the code as long as count, and the iounit where
  -- count is above it, are below 2 ^ 31, so that min<int> keeps them.
  pub pread_loop : ℕ → (iounit count offset : ℕ) → Str → S → Option (Copied × S)
  pread_loop zero iounit count offset buf s = none
  pread_loop (suc fuel) iounit count offset buf s =
      let n = min (count - length buf) iounit in
      let answer = read_at offset n s in
      if ltb (length buf) count
      then (elim answer.0 [
        | err e ↦ some (record { buf = buf; result = err e }, answer.1)
        | ok none ↦ some (record { buf = buf; result = ok none }, answer.1)
        | ok (some rread) ↦
            let buf' = buf ++ take rread.size rread.contents in
            let rest = pread_loop fuel iounit count (offset + rread.size) buf' answer.1 in
            read_reply n buf buf' rread answer.1 rest
      ])
      else some (record { buf = buf; result = ok (some (length buf)) }, s)

  pub pread : ℕ → (iounit count offset : ℕ) → S → Option (Copied × S)
  pread fuel iounit count offset s = pread_loop fuel iounit count offset [] s
