-- ===== src/Request/Handle/Guards.antt =====
-- What holds of a request when handle hands it to the server.
pub mod Creating
pub mod Cases
use libixp.Base.{
  ℕ, ◌+◌, ◌-◌, ◌/◌, ◌%◌, ◌^◌, ◌≤◌, ◌<◌, ◌≡◌, ◌≢◌, refl, sym, ap, ◌∙◌, ◌⊎◌, inl, inr, Bool, true,
  false, Bool-cases, not, ◌&&◌, ◌||◌, List, [], ◌∷◌, ◌==◌, ltb, if◌then◌else◌, Option, none, some,
  Option-cases, ==_iff, arith,
}
use Prim.Native.Nat.{bit_or, bit_and}
use libixp.Types.Bits.{o_read, o_write, o_rdwr, o_rclose, q_dir, d_dir}
use libixp.Types.FType.{
  t_version, t_attach, t_open, t_create, t_stat, t_remove, t_clunk, t_write, t_read,
}
use libixp.Msg.{Error, exception, Result, ok, err}
use libixp.Fcall.{FHdr, FVersion, FtWstat, FAttach, FtFlush, FtCreate, Fio, FtWalk}
use libixp.Fcall.Storage.{
  VariantStorage, f_version, f_tflush, f_ropen, f_error, f_rauth, f_attach, f_tcreate, f_twalk,
  f_rwalk, f_twstat, f_rstat, f_io, f_hdr, f_full_header, header_of,
}
use libixp.Request.Reasons.{
  Reason, no_func, not_dir, is_dir, fid_open, no_read, not_for_writing, wstat_type, wstat_dev,
  wstat_qid, wstat_muid, wstat_dmdir, no_such_fid,
}
use libixp.Request.{
  Fid, Srv9, Service, s_attach, s_clunk, s_create, s_flush, s_open, s_read, s_remove, s_stat,
  s_walk, s_write, s_wstat, Req9, Conn9, Step, answer, serve, find_fid, find_tag, create_fid,
  new_fid,
}
use libixp.Request.Handle.{
  Handled, is_dir_qid, serve_if, with_fid, wstat_step, handle_wstat, handle_version, handle_attach,
  handle_flush, handle_open, handle_create, agreed_version, handle_tcreate, handle_full_header,
  for_writing, for_reading, handle_io, walk_to, handle_walk, handle, complement_set,
}

-- handle has found the fid that the request `i` names, it has the property P, and the request
-- points to it.
abbrev pub HasFid : (Fid → Type 0) → VariantStorage → Req9 → Conn9 → Type 0
HasFid P i r c =
    (f : Fid) × (r.fid ≡ some (header_of i).fid)
    × (find_fid (header_of i).fid c.fids ≡ some f)
    × P f

-- The same of a request of a type.
abbrev pub Asks : ℕ → (Fid → Type 0) → VariantStorage → Req9 → Conn9 → Type 0
Asks type P i r c = ((header_of i).type ≡ type) × HasFid P i r c

-- The mode of a fid: 255 is that of a fid that is not open, and the last two bits of another one
-- are 0 to read, 1 to write, 2 to do both.
abbrev pub CanWrite : Fid → Type 0
CanWrite f = (f.omode % 4 ≡ 1) ⊎ (f.omode % 4 ≡ 2)

abbrev pub CanRead : Fid → Type 0
CanRead f = (f.omode ≢ 255) × (f.omode ≢ 1)

-- What the server may rely on in each of its functions.
abbrev pub Checked : Service → VariantStorage → Req9 → Conn9 → Type 0
Checked s_attach i r c = Asks t_attach (λ f. f ≡ new_fid f.id) i r c
Checked s_flush i r c =
    (t : FtFlush) × (old : Req9) × (i ≡ f_tflush t)
    × (r.oldreq ≡ some t.oldtag)
    × (find_tag t.oldtag c.tags ≡ some old)
Checked s_read i r c = Asks t_read CanRead i r c
Checked s_write i r c = Asks t_write CanWrite i r c
Checked s_create i r c = Asks t_create (λ f. (f.omode ≡ 255) × (bit_and f.qid.type 0x80 ≢ 0)) i r c
Checked s_walk i r c = HasFid (λ f. f.omode ≡ 255) i r c
Checked s_clunk i r c = Asks t_clunk (λ f. Unit {0}) i r c
Checked s_open i r c = Asks t_open (λ f. Unit {0}) i r c
Checked s_remove i r c = Asks t_remove (λ f. Unit {0}) i r c
Checked s_stat i r c = Asks t_stat (λ f. Unit {0}) i r c
Checked s_wstat i r c = HasFid (λ f. Unit {0}) i r c

pub data IsGuarded (i : VariantStorage) : Result Handled → Type 0 where
  thrown : (x : Error) → IsGuarded i (err x)
  answered : (e : Option Reason) (r : Req9) (c : Conn9) → IsGuarded i (ok (answer e, r, c))
  served : (s : Service) (r : Req9) (c : Conn9) → Checked s i r c → IsGuarded i (ok (serve s, r, c))

pub for_writing-CanWrite :
    (omode : ℕ) → for_writing omode ≡ true → (omode % 4 ≡ 1) ⊎ (omode % 4 ≡ 2)
for_writing-CanWrite omode h = elim (Bool-cases (omode % 4 == o_write)) [
  | inl w ↦ inl ((==_iff (omode % 4) o_write).0 w)
  | inr n ↦ inr ((==_iff (omode % 4) o_rdwr).0 (ground arith))
]

pub for_reading-CanRead : (omode : ℕ) → for_reading omode ≡ true → (omode ≢ 255) × (omode ≢ 1)
for_reading-CanRead omode h = (ground arith, ground arith)

pub is_dir_qid_lem : (type : ℕ) → is_dir_qid type ≡ true → bit_and type 0x80 ≢ 0
is_dir_qid_lem type h e = ground arith

pub serve_if-IsGuarded :
    (i : VariantStorage) (b : Bool) (s : Service) (r : Req9) (c : Conn9)
    → Checked s i r c
    → IsGuarded i (ok (serve_if b s, r, c))
serve_if-IsGuarded i true s r c h = served s r c h
serve_if-IsGuarded i false s r c h = answered (some no_func) r c

-- A step that is served only if a test holds.
pub if-IsGuarded :
    (i : VariantStorage) (b : Bool) (x y : Result Handled)
    → (b ≡ true → IsGuarded i x)
    → (b ≡ false → IsGuarded i y)
    → IsGuarded i (if b then x else y)
if-IsGuarded i true x y h k = h refl
if-IsGuarded i false x y h k = k refl

pub with_fid-IsGuarded :
    (i : VariantStorage) (id : ℕ) (r : Req9) (c : Conn9) (k : Fid → Req9 → Result Handled)
    → ((f : Fid) → find_fid id c.fids ≡ some f → IsGuarded i (k f (record r { fid = some id })))
    → IsGuarded i (with_fid id r c k)
unfolding with_fid
with_fid-IsGuarded i id r c k h = elim (Option-cases (find_fid id c.fids)) [
  | inl missing ↦ rw (with_fid, missing) (answered (some no_such_fid) (record r { fid = none }) c)
  | inr (f, there) ↦ rw (with_fid, there) (h f there)
]

-- A request that is answered if a test fails.
pub serve_when-IsGuarded :
    (i : VariantStorage) (b has : Bool) (s : Service) (e : Reason) (r : Req9) (c : Conn9)
    → (b ≡ true → Checked s i r c)
    → IsGuarded i (ok ((if b then serve_if has s else answer (some e)), r, c))
serve_when-IsGuarded i true has s e r c h = serve_if-IsGuarded i has s r c (h refl)
serve_when-IsGuarded i false has s e r c h = answered (some e) r c

pub clunk-IsGuarded :
    (i : VariantStorage) (has : Bool) (r : Req9) (c : Conn9)
    → Checked s_clunk i r c
    → IsGuarded i (ok ((if has then serve s_clunk else answer none), r, c))
clunk-IsGuarded i true r c h = served s_clunk r c h
clunk-IsGuarded i false r c h = answered none r c
