-- ===== src/Client/Calls.antt =====
-- client.cc: the calls of a client, from walk to mountfd. muxrpc is a parameter, any exchange of a
-- message for a reply.
pub mod Pool
pub mod Failing
pub mod Answers
pub mod Size
use libixp.Base.{
  ℕ, zero, suc, ◌+◌, ◌-◌, ◌%◌, ◌^◌, Bool, true, false, List, [], ◌∷◌, ◌++◌, ◌==◌, ◌||◌, ltb,
  if◌then◌else◌, Option, none, some, length, get_elem?, replicate, map,
}
use libixp.Types.{max_msg, max_welem, no_tag, no_fid, version_9p2000}
use libixp.Types.FType.{
  t_version, t_attach, t_walk, t_open, t_create, t_read, t_clunk, t_remove, t_stat,
}
use libixp.Msg.{Mode, Msg, Error, bad_access, exception, Result, ok, err}
use libixp.Msg.Fields.{Str}
use libixp.Qid.{Qid}
use libixp.Stat.{Stat, pack_unpack_stat}
use libixp.Fcall.{FHdr, FrOpen, FrWalk, FrStat}
use libixp.Fcall.Storage.{
  VariantStorage, f_version, f_attach, f_tcreate, f_twalk, f_io, f_full_header, indeterminate,
  zero_stat,
}
use libixp.Fcall.Retrieve.{get_version, get_ropen, get_rwalk, get_rstat, get_io}
use libixp.Util.{tokenize, c_str, rev_onto}
use libixp.Client.{FidPool, get_fid, putfid, check_reply, ReadReply}
use libixp.Client.Session.{Session, Call, pure, lift, ◌>>=◌, ◌>>◌}

-- A CFid that walk or open gave.
pub record CFid : Type 0 where
  pub fid : ℕ
  pub qid : Qid
  pub mode : ℕ
  pub is_open : Bool
  pub iounit : ℕ
  pub offset : ℕ

abbrev pub root_fid : ℕ
root_fid = 1

-- Fcall(FType, fid): the tag is indeterminate until sendrpc sets it.
abbrev pub request_header : (junk : ℕ) → ℕ → ℕ → FHdr
request_header junk type fid = record (indeterminate junk) { type = type; fid = fid }

-- Strings put into the first places of an array.
abbrev pub fill : List Str → List Str
fill names = names ++ replicate (max_welem - length names) []

-- The loop of walk over the names, into an array of maximum::Welem strings.
abbrev pub walk_request : (junk : ℕ) → List Str → ℕ → VariantStorage
walk_request junk names newfid = f_twalk (record {
  hdr = request_header junk t_walk root_fid;
  size = length names % 2 ^ 16;
  newfid = newfid;
  wname = fill names;
})

-- getWqid()[n - 1]: in a walk of no names this is before the array.
unfoldable pub last_qid : ℕ → List Qid → Result Qid
last_qid zero qids = err bad_access
last_qid (suc n) qids = elim (get_elem? qids n) [ none ↦ err bad_access | some q ↦ ok q ]

-- From the end of a path, which is given last character first: `while(*p == '/') *p-- = 0`. Of
-- slashes alone this leaves the string at its front.
pub trim_slashes : Str → Result Str
trim_slashes [] = err bad_access
trim_slashes (c ∷ s) = let rest = trim_slashes s in if c == b'/' then rest else ok (c ∷ s)

-- The loop back to the last slash. `name` is what the loop has passed.
pub back_to_slash : (s name : Str) → Result (Str × Str)
back_to_slash [] name = err exception
back_to_slash (c ∷ s) name =
    let rest = back_to_slash s (c ∷ name) in if c == b'/' then ok (rev_onto s [], name) else rest

-- The start of walkdir: the path of the directory, and the name behind it.
pub split_path : Str → Result (Str × Str)
unfolding trim_slashes back_to_slash
split_path [] = err exception
split_path (c ∷ s) = elim (trim_slashes (rev_onto (c ∷ s) [])) [
  | err e ↦ err e
  | ok s' ↦ back_to_slash s' []
]

-- The iounit of an opened_reply file: what the server says, unless it is 0 or above _msize - 24.
unfoldable pub open_iounit : (msize said : ℕ) → ℕ
open_iounit msize said =
    let most = (msize + 2 ^ 32 - 24) % 2 ^ 32 in if said == 0 || ltb most said then most else said

-- initfid and setMode.
abbrev pub init_fid : ℕ → FrOpen → (msize mode : ℕ) → CFid
init_fid f reply msize mode = record {
  fid = f;
  qid = reply.qid;
  mode = mode;
  is_open = true;
  iounit = open_iounit msize reply.iounit;
  offset = 0;
}

-- The message that _stat makes of the bytes of an RStat.
abbrev pub stat_msg : (junk : ℕ) → FrStat → Msg
stat_msg junk reply = record {
  buffer = reply.stat;
  size = reply.size;
  pos = 0;
  end = reply.size;
  mode = Mode.unpack;
  uninit = junk;
}

pub read_stat : (junk : ℕ) → FrStat → Result (Option Stat)
read_stat junk reply = elim (pack_unpack_stat zero_stat (stat_msg junk reply)) [
  | err e ↦ err e
  | ok (stat, m) ↦ ok (if ltb m.end m.pos then none else some stat)
]

module _ {S : Type 0} (muxrpc : VariantStorage → S → Result (Option VariantStorage) × S)
    (junk : ℕ) where
  unfoldable pub exchange : VariantStorage → Call S (Option VariantStorage)
  exchange request c =
      let answer = muxrpc request c.world in (answer.0, record c { world = answer.1 })

  unfoldable pub dofcall : VariantStorage → Call S (Option VariantStorage)
  unfolding exchange
  dofcall request = do ret ← exchange request; lift (check_reply request ret)

  unfoldable pub take_fid : Call S ℕ
  take_fid c = let taken = get_fid c.pool in (ok taken.0, record c { pool = taken.1 })

  unfoldable pub put_fid : ℕ → Call S (Unit {0})
  put_fid f c = (ok tt, record c { pool = putfid f c.pool })

  -- A call whose reply holds nothing of use: what is left of it is that there is one.
  pub succeeds : VariantStorage → Call S Bool
  unfolding dofcall
  succeeds request = do ret ← dofcall request; pure (elim ret [ none ↦ false | some reply ↦ true ])

  -- Client::clunk.
  pub clunk : ℕ → Call S (Unit {0})
  unfolding succeeds put_fid
  clunk f = do done ← succeeds (f_full_header (request_header junk t_clunk f)); put_fid f

  -- walk on a reply. The lines behind wErrorString are not reached.
  unfoldable pub walked : ℕ → ℕ → VariantStorage → Call S (Option (ℕ × Qid))
  unfolding last_qid
  walked n f reply = do
    w ← lift (get_rwalk reply)
    q ← lift (if ltb w.size n then err exception else last_qid n w.wqid)
    pure (some (f, q))

  -- Without a reply the fid goes back.
  unfoldable pub or_put_fid :
      {A : Type 0}
      → ℕ
      → Option VariantStorage
      → (VariantStorage → Call S (Option A))
      → Call S (Option A)
  unfolding put_fid
  or_put_fid f none use_reply = do put_fid f; pure none
  or_put_fid f (some reply) use_reply = use_reply reply

  unfoldable pub walk_names : List Str → Call S (Option (ℕ × Qid))
  unfolding take_fid dofcall or_put_fid walked
  walk_names names = do
    f ← take_fid
    ret ← dofcall (walk_request junk names f)
    or_put_fid f ret (walked (length names) f)

  unfoldable pub walk : Str → Call S (Option (ℕ × Qid))
  unfolding walk_names
  walk path =
      let names = tokenize path b'/' in
      if ltb max_welem (length names) then lift (err exception) else walk_names (map c_str names)
