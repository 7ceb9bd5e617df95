-- ===== src/Client/Files.antt =====
-- client.cc: open, create, stat, remove, and reads and writes of an open file.
pub mod Pool
pub mod Writing
pub mod Opening
use mathlib.Core.Option as Option
use libixp.Base.{
  ℕ, zero, suc, ◌+◌, ◌-◌, ◌%◌, ◌^◌, Bool, true, false, List, [], ◌∷◌, ◌&&◌, ltb, if◌then◌else◌,
  Option, none, some, length, drop,
}
use libixp.Types.{min}
use libixp.Types.FType.{t_open, t_create, t_read, t_write, t_remove, t_stat}
use libixp.Msg.{bad_access, Result, ok, err}
use libixp.Msg.Fields.{Str}
use libixp.Qid.{Qid}
use libixp.Stat.{Stat}
use libixp.Fcall.{FrOpen}
use libixp.Fcall.Storage.{VariantStorage, f_tcreate, f_io, f_full_header}
use libixp.Fcall.Retrieve.{get_ropen, get_rstat, get_io}
use libixp.Util.{string_at}
use libixp.Client.{ReadReply, Copied, pread}
use libixp.Client.Session.{Session, Call, pure, lift, ◌>>=◌, ◌>>◌}
use libixp.Client.Calls.{
  CFid, request_header, split_path, init_fid, read_stat, dofcall, put_fid, succeeds, clunk, walk,
}

-- A TCreate or TOpen; of a TOpen only the mode is sent.
abbrev pub create_request : (junk type fid perm : ℕ) → Str → ℕ → VariantStorage
create_request junk type fid perm name mode =
    f_tcreate (record { hdr = request_header junk type fid; perm = perm; name = name; mode = mode })

abbrev pub write_request : (junk fid offset n : ℕ) → Str → VariantStorage
write_request junk fid offset n contents = f_io (record {
  hdr = request_header junk t_write fid;
  size = n;
  offset = offset % 2 ^ 64;
  contents = contents;
})

-- What a round of _pwrite does with the size in the reply: a short write ends the loop.
abbrev pub write_reply :
    {S : Type 0}
    → (n count len size : ℕ) → S
    → Option (Result (Option ℕ) × S)
    → Option (Result (Option ℕ) × S)
write_reply n count len size s rest =
    if ltb size n
    then some (ok (some (len + size)), s)
    else if ltb (len + size) count
    then rest
    else some (ok (some (len + size)), s)

module _ {S : Type 0} (muxrpc : VariantStorage → S → Result (Option VariantStorage) × S)
    (junk : ℕ) where
  abbrev pub opened_reply : (fid mode : ℕ) → VariantStorage → Call S (Option CFid)
  opened_reply fid mode reply c =
      (do o ← lift (get_ropen reply); pure (some (init_fid fid o c.msize mode))) c

  -- What open and create have in common once there is a fid: without a reply it is clunked.
  unfoldable pub open_reply : (fid mode : ℕ) → Option VariantStorage → Call S (Option CFid)
  open_reply fid mode none = do clunk muxrpc junk fid; pure none
  open_reply fid mode (some reply) = opened_reply fid mode reply

  unfoldable pub open_fid : (fid mode : ℕ) → VariantStorage → Call S (Option CFid)
  unfolding open_reply
  open_fid fid mode request = do ret ← dofcall muxrpc junk request; open_reply fid mode ret

  -- What a call does with the fid of a walk, and its result where there is none.
  abbrev pub with_walked : {A : Type 0} → A → (ℕ → Call S A) → Option (ℕ × Qid) → Call S A
  with_walked failed use_fid none = pure failed
  with_walked failed use_fid (some (f, q)) = use_fid f

  unfoldable pub open_file : Str → ℕ → Call S (Option CFid)
  open_file path mode = do
    walked ← walk muxrpc junk path
    with_walked none (λ f. open_fid f mode (create_request junk t_open f 0 [] mode)) walked

  pub create : Str → (perm mode : ℕ) → Call S (Option CFid)
  create path perm mode = do
    (dir, name) ← lift (split_path path)
    walked ← walk muxrpc junk dir
    with_walked none (λ f. open_fid f mode (create_request junk t_create f perm name mode)) walked

  pub stat_reply : Option VariantStorage → Call S (Option Stat)
  stat_reply none = pure none
  stat_reply (some reply) = do r ← lift (get_rstat reply); lift (read_stat junk r)

  -- _stat.
  pub fstat : ℕ → Call S (Option Stat)
  unfolding stat_reply
  fstat fid = do
    ret ← dofcall muxrpc junk (f_full_header (request_header junk t_stat fid))
    stat_reply ret

  pub stat_fid : ℕ → Call S (Option Stat)
  unfolding fstat
  stat_fid f = do found ← fstat f; clunk muxrpc junk f; pure found

  pub stat : Str → Call S (Option Stat)
  stat path = do walked ← walk muxrpc junk path; with_walked none stat_fid walked

  pub remove_fid : ℕ → Call S Bool
  remove_fid f = do
    done ← succeeds muxrpc junk (f_full_header (request_header junk t_remove f))
    put_fid muxrpc junk f
    pure done

  pub remove : Str → Call S Bool
  remove path = do walked ← walk muxrpc junk path; with_walked false remove_fid walked

  -- The TRead of a round of _pread, and what is used of the reply.
  pub read_at : (fid offset n : ℕ) → Call S (Option ReadReply)
  read_at fid offset n = do
    ret ← dofcall muxrpc junk (
        f_io (record {
          hdr = request_header junk t_read fid;
          size = n;
          offset = offset % 2 ^ 64;
          contents = [];
        }))
    elim ret [
      | none ↦ pure none
      | some reply ↦ (do
        r ← lift (get_io reply)
        pure (some (record { size = r.size; contents = r.contents })))
    ]

  -- CFid::read: what _pread gives, and the file with its offset moved on.
  abbrev pub moved_on : CFid → ℕ → CFid
  moved_on f n = record f { offset = (f.offset + n) % 2 ^ 32 }

  abbrev pub read_file : CFid → Result (Option ℕ) → CFid
  read_file f (err e) = f
  read_file f (ok none) = f
  read_file f (ok (some n)) = moved_on f n

  abbrev pub read_result : CFid → Copied × Session S → (Copied × CFid) × Session S
  read_result f (copied, c) = ((copied, read_file f copied.result), c)

  pub read : ℕ → CFid → ℕ → Session S → Option ((Copied × CFid) × Session S)
  unfolding read_at
  read fuel f count c =
      Option.map (read_result f) (pread (read_at f.fid) fuel f.iounit count f.offset c)

  abbrev pub accept_write : Option VariantStorage → Call S (Option ℕ)
  accept_write none = pure none
  accept_write (some reply) = do r ← lift (get_io reply); pure (some r.size)

  -- The TWrite of a round of _pwrite, and the size in the reply.
  pub write_at : (fid offset n : ℕ) → Str → Call S (Option ℕ)
  write_at fid offset n contents = do
    ret ← dofcall muxrpc junk (write_request junk fid offset n contents)
    accept_write ret

  -- The loop of _pwrite after len bytes; `memory` is what stands from buf on. The message is given
  -- (char*)buf + len, which is a string up to the first NUL there. The counts stay below 2 ^ 31.
  pub pwrite_loop :
      ℕ
      → (fid iounit count offset len : ℕ) → Str
      → Session S
      → Option (Result (Option ℕ) × Session S)
  unfolding write_at
  pwrite_loop zero fid iounit count offset len memory c = none
  pwrite_loop (suc fuel) fid iounit count offset len memory c =
      let n = min (count - len) iounit in
      elim (string_at (drop len memory)) [
        | none ↦ some (err bad_access, c)
        | some contents ↦
            let answer = write_at fid offset n contents c in
            elim answer.0 [
              | err e ↦ some (err e, answer.1)
              | ok none ↦ some (ok none, answer.1)
              | ok (some size) ↦
                  let rest =
                    pwrite_loop fuel fid iounit count (offset + size) (len + size) memory
                      answer.1 in
                  write_reply n count len size answer.1 rest
            ]
      ]

  pub pwrite :
      ℕ → (fid iounit count offset : ℕ) → Str → Session S → Option (Result (Option ℕ) × Session S)
  unfolding pwrite_loop
  pwrite fuel fid iounit count offset memory c = pwrite_loop fuel fid iounit count offset 0 memory c

  abbrev pub write_result :
      CFid → Result (Option ℕ) × Session S → Result (Option ℕ × CFid) × Session S
  write_result f (err e, c) = (err e, c)
  write_result f (ok none, c) = (ok (none, f), c)
  write_result f (ok (some n), c) = (ok (some n, moved_on f n), c)

  -- CFid::write.
  pub write : ℕ → CFid → ℕ → Str → Session S → Option (Result (Option ℕ × CFid) × Session S)
  unfolding pwrite
  write fuel f count memory c =
      Option.map (write_result f) (pwrite fuel f.fid f.iounit count f.offset memory c)
