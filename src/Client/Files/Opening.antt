-- ===== src/Client/Files/Opening.antt =====
-- The files that open and create give, and reads of them.
use libixp.Base.{
  ℕ, ◌+◌, ◌-◌, ◌%◌, ◌^◌, ◌≤◌, ◌<◌, ◌≡◌, refl, sym, subst, arith, [], true, Option, none, some,
}
use libixp.Types.FType.{t_open}
use libixp.Msg.{Result, ok}
use libixp.Msg.Fields.{Str}
use libixp.Qid.{Qid}
use libixp.Fcall.{FrOpen}
use libixp.Fcall.Storage.{VariantStorage}
use libixp.Fcall.Retrieve.{get_ropen}
use libixp.Client.{Copied}
use libixp.Client.Ending.{pread-ends}
use libixp.Client.Session.{Session, Call, lift}
use libixp.Client.Calls.{CFid, open_iounit, init_fid, dofcall, clunk, walk}
use libixp.Client.Calls.Size.{
  Any, Gives, Gives-bind, Gives-lift, dofcall-Gives, clunk-Gives, walk-Gives,
}
use libixp.Client.Files.{
  create_request, opened_reply, open_reply, open_fid, with_walked, open_file, read_at, read,
}

open_iounit-bounds :
    (msize said : ℕ)
    → 24 < msize
    → msize < 2 ^ 32
    → (0 < open_iounit msize said) × (open_iounit msize said ≤ msize - 24)
unfolding open_iounit
open_iounit-bounds msize said room fits =
    let e : (msize + 2 ^ 32 - 24) % 2 ^ 32 ≡ msize - 24 = omega arith in rw e (ground arith)

-- A file as open leaves it, on a client with messages of msize bytes.
pub record IsOpened (msize mode : ℕ) (f : CFid) : Type 0 where
  pub marked : f.is_open ≡ true
  pub at_start : f.offset ≡ 0
  pub as_asked : f.mode ≡ mode
  pub some_unit : 0 < f.iounit
  pub unit_fits : f.iounit ≤ msize - 24

module _ {S : Type 0} (msize : ℕ) (room : 24 < msize) (fits : msize < 2 ^ 32) (mode : ℕ)
    (muxrpc : VariantStorage → S → Result (Option VariantStorage) × S) (junk : ℕ) where
  abbrev pub MayOpen : Option CFid → Type 0
  MayOpen none = Unit {0}
  MayOpen (some f) = IsOpened msize mode f

  init_fid-IsOpened : (f : ℕ) (reply : FrOpen) → IsOpened msize mode (init_fid f reply msize mode)
  init_fid-IsOpened f reply = record {
    marked = refl;
    at_start = refl;
    as_asked = refl;
    some_unit = (open_iounit-bounds msize reply.iounit room fits).0;
    unit_fits = (open_iounit-bounds msize reply.iounit room fits).1;
  }

  opened-Gives :
      (f : ℕ) (reply : VariantStorage) (c : Session S)
      → c.msize ≡ msize
      → Gives msize MayOpen (opened_reply muxrpc junk f mode reply c)
  opened-Gives f reply c e =
      Gives-bind msize Any MayOpen (lift (get_ropen reply)) _ c
        (Gives-lift msize (get_ropen reply) c e)
        (λ o c' e' _. (
          e',
          subst (λ k. IsOpened msize mode (init_fid f o k mode)) (sym e) (init_fid-IsOpened f o),
        ))

  open_reply-Gives :
      (f : ℕ) (ret : Option VariantStorage) (c : Session S)
      → c.msize ≡ msize
      → Gives msize MayOpen (open_reply muxrpc junk f mode ret c)
  unfolding open_reply
  open_reply-Gives f none c e =
      Gives-bind msize Any MayOpen (clunk muxrpc junk f) _ c (clunk-Gives msize muxrpc junk f c e)
        (λ u c' e' _. (e', tt))
  open_reply-Gives f (some reply) c e = opened-Gives f reply c e

  open_fid-Gives :
      (f : ℕ) (request : VariantStorage) (c : Session S)
      → c.msize ≡ msize
      → Gives msize MayOpen (open_fid muxrpc junk f mode request c)
  unfolding open_fid
  open_fid-Gives f request c e =
      Gives-bind msize Any MayOpen (dofcall muxrpc junk request) _ c
        (dofcall-Gives msize muxrpc junk request c e) (λ ret c' e' _. open_reply-Gives f ret c' e')

  with_walked-Gives :
      (use_fid : ℕ → Call S (Option CFid)) (w : Option (ℕ × Qid)) (c : Session S)
      → c.msize ≡ msize
      → ((f : ℕ) → Gives msize MayOpen (use_fid f c))
      → Gives msize MayOpen (with_walked muxrpc junk none use_fid w c)
  with_walked-Gives use_fid none c e h = (e, tt)
  with_walked-Gives use_fid (some (f, q)) c e h = h f

  open_file-Gives :
      (path : Str) (c : Session S)
      → c.msize ≡ msize
      → Gives msize MayOpen (open_file muxrpc junk path mode c)
  unfolding open_file
  open_file-Gives path c e =
      Gives-bind msize Any MayOpen (walk muxrpc junk path) _ c
        (walk-Gives msize muxrpc junk path c e)
        (λ w c' e' _.
          with_walked-Gives _ w c' e'
            (λ f. open_fid-Gives f (create_request junk t_open f 0 [] mode) c' e'))

read-ends :
    {S : Type 0} (muxrpc : VariantStorage → S → Result (Option VariantStorage) × S) (junk : ℕ)
    (f : CFid) (fuel count : ℕ) (c : Session S)
    → 0 < f.iounit
    → count < fuel
    → (r : (Copied × CFid) × Session S) × (read muxrpc junk fuel f count c ≡ some r)
unfolding read
read-ends muxrpc junk f fuel count c unit enough =
    let (r, e) =
      pread-ends (read_at muxrpc junk f.fid) fuel f.iounit count f.offset c unit enough in
    rw e (_, refl)

-- On a client whose messages have more than 24 bytes, the file that open returns is at its start,
-- in the mode that was asked for, and its iounit is between 1 and _msize - 24, whatever the server
-- says. So a read of it returns, on any client and whatever is answered, within count + 1 rounds.
pub open_file-read :
    {S : Type 0} (muxrpc : VariantStorage → S → Result (Option VariantStorage) × S) (junk : ℕ)
    (path : Str) (mode : ℕ) (c c' c'' : Session S) (f : CFid) (fuel count : ℕ)
    → 24 < c.msize
    → c.msize < 2 ^ 32
    → open_file muxrpc junk path mode c ≡ (ok (some f), c')
    → count < fuel
    → IsOpened c.msize mode f
      × (r : (Copied × CFid) × Session S) × (read muxrpc junk fuel f count c'' ≡ some r)
open_file-read muxrpc junk path mode c c' c'' f fuel count room fits done enough =
    let given = open_file-Gives c.msize room fits mode muxrpc junk path c refl in
    let file : IsOpened c.msize mode f =
      (subst (Gives c.msize (MayOpen c.msize room fits mode muxrpc junk)) done given).1 in
    let (r, e) = read-ends muxrpc junk f fuel count c'' file.some_unit enough in (file, r, e)
