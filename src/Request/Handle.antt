-- ===== src/Request/Handle.antt =====
-- Req9::handle: the checks of a request, up to the answer or to the call of the server's function.
pub mod Guards
pub mod Refusals
pub mod Walks
use Prim.Native.Nat.{bit_or, bit_and}
use libixp.Base.{
  ℕ, ◌+◌, ◌-◌, ◌/◌, ◌%◌, ◌^◌, Bool, true, false, not, ◌&&◌, ◌||◌, List, [], ◌∷◌, ◌==◌, ltb,
  if◌then◌else◌, Option, none, some,
}
use libixp.Types.Bits.{o_read, o_write, o_rdwr, o_rclose, q_dir, d_dir}
use libixp.Types.FType.{
  t_version, t_attach, t_open, t_create, t_stat, t_remove, t_clunk, t_write, t_read,
}
use libixp.Types.{version_9p, version_9p2000}
use libixp.Msg.{Error, bad_access, exception, Result, ok, err}
use libixp.Stat.{Stat}
use libixp.Fcall.{FHdr, FVersion, FtWstat, FAttach, FtFlush, FtCreate, Fio, FtWalk, FrOpen}
use libixp.Fcall.Storage.{
  VariantStorage, f_version, f_tflush, f_ropen, f_attach, f_tcreate, f_twalk, f_twstat, f_io,
  f_full_header,
}
use libixp.Request.Reasons.{
  Reason, fid_in_use, no_func, fid_open, no_read, no_such_fid, no_such_tag, not_dir, is_dir,
  wstat_type, wstat_dev, wstat_qid, wstat_muid, wstat_dmdir, not_for_writing, walk_from_open,
}
use libixp.Request.{
  Fid, Srv9, Service, s_attach, s_clunk, s_create, s_flush, s_open, s_read, s_remove, s_stat,
  s_walk, s_write, s_wstat, Req9, Conn9, Step, answer, serve, find_fid, find_tag, create_fid,
}

abbrev pub Handled : Type 0
Handled = Step × Req9 × Conn9

-- The bitwise complement in w bits is not 0; a narrower operand is widened to an int first.
abbrev pub complement_set : ℕ → ℕ → Bool
complement_set w x = not (2 ^ w - 1 - x == 0)

-- The DIR bit of a Qid's type.
abbrev pub is_dir_qid : ℕ → Bool
is_dir_qid type = not (bit_and type q_dir == 0)

-- A function that is set is called; one that is not set is answered for.
abbrev pub serve_if : Bool → Service → Step
serve_if has s = if has then serve s else answer (some no_func)

-- _fid = retrieveFid(...), and the answer if there is none.
unfoldable pub with_fid : ℕ → Req9 → Conn9 → (Fid → Req9 → Result Handled) → Result Handled
with_fid id r c k = elim (find_fid id c.fids) [
  | none ↦ ok (answer (some no_such_fid), record r { fid = none }, c)
  | some f ↦ k f (record r { fid = some id })
]

-- The tests on the Stat of a TWStat, in their order.
pub wstat_step : Stat → Fid → Srv9 → Step
wstat_step st f srv =
    if complement_set 32 st.type
    then answer (some wstat_type)
    else if complement_set 32 st.dev
    then answer (some wstat_dev)
    else if complement_set 32 st.qid.type
        || complement_set 32 st.qid.version
        || complement_set 64 st.qid.path
    then answer (some wstat_qid)
    else if (elim st.muid [ [] ↦ false | x ∷ xs ↦ true ])
    then answer (some wstat_muid)
    else if complement_set 32 st.mode
        && not (bit_and st.mode d_dir / 2 ^ 24 == bit_and f.qid.type q_dir)
    then answer (some wstat_dmdir)
    else serve_if srv.has_wstat s_wstat

pub handle_wstat : FtWstat → Req9 → Conn9 → Result Handled
handle_wstat w r c = with_fid w.hdr.fid r c (λ f r'. ok (wstat_step w.stat f c.srv, r', c))

-- The version that is answered: "9P", "9P2000" or "unknown".
abbrev pub same_bytes : List ℕ → List ℕ → Bool
same_bytes [] [] = true
same_bytes [] (y ∷ ys) = false
same_bytes (x ∷ xs) [] = false
same_bytes (x ∷ xs) (y ∷ ys) = x == y && same_bytes xs ys

abbrev pub version_unknown : List ℕ
version_unknown = 117 ∷ 110 ∷ 107 ∷ 110 ∷ 111 ∷ 119 ∷ 110 ∷ []

pub agreed_version : List ℕ → List ℕ
agreed_version ver =
    if same_bytes ver version_9p
    then version_9p
    else if same_bytes ver version_9p2000
    then version_9p2000
    else version_unknown

-- getOFcall().getVersion() throws if no FVersion is stored.
pub handle_version : FVersion → Req9 → Conn9 → Result Handled
handle_version v r c =
    if v.hdr.type == t_version
    then elim r.ofcall [
      | some (f_version o) ↦ ok (
        answer none,
        record r {
          ofcall =
              some (f_version (record o { version = agreed_version v.version; size = v.size }));
        },
        c,
      )
      | _ ↦ err exception
    ]
    else ok (answer (some no_func), r, c)

pub handle_attach : FAttach → Req9 → Conn9 → Result Handled
handle_attach a r c =
    if a.hdr.type == t_attach
    then elim (create_fid a.hdr.fid c) [
      | none ↦ ok (answer (some fid_in_use), record r { fid = none }, c)
      | some c' ↦ ok (serve s_attach, record r { fid = some a.hdr.fid }, c')
    ]
    else ok (answer (some no_func), r, c)

pub handle_flush : FtFlush → Req9 → Conn9 → Result Handled
handle_flush f r c = elim (find_tag f.oldtag c.tags) [
  | none ↦ ok (answer (some no_such_tag), record r { oldreq = none }, c)
  | some old ↦ ok (serve_if c.srv.has_flush s_flush, record r { oldreq = some f.oldtag }, c)
]

-- getOFcall().getRopen().setQid(...) throws if no FROpen is stored.
pub handle_open : FtCreate → Req9 → Conn9 → Result Handled
handle_open t r c = with_fid t.hdr.fid r c (λ f r'.
    if is_dir_qid f.qid.type && not (bit_or t.mode o_rclose == bit_or o_read o_rclose)
    then ok (answer (some is_dir), r', c)
    else elim r'.ofcall [
      | some (f_ropen o) ↦ ok (
        serve_if c.srv.has_open s_open,
        record r' { ofcall = some (f_ropen (record o { qid = f.qid })) },
        c,
      )
      | _ ↦ err exception
    ])

pub handle_create : FtCreate → Req9 → Conn9 → Result Handled
handle_create t r c = with_fid t.hdr.fid r c (λ f r'. ok (
  (if not (f.omode == 255)
      then answer (some fid_open)
      else if not (is_dir_qid f.qid.type)
      then answer (some not_dir)
      else serve_if c.srv.has_create s_create),
  r',
  c,
))

pub handle_tcreate : FtCreate → Req9 → Conn9 → Result Handled
handle_tcreate t r c =
    if t.hdr.type == t_open
    then handle_open t r c
    else if t.hdr.type == t_create
    then handle_create t r c
    else ok (answer (some no_func), r, c)

pub handle_full_header : FHdr → Req9 → Conn9 → Result Handled
handle_full_header h r c =
    if h.type == t_stat
    then with_fid h.fid r c (λ f r'. ok (serve_if c.srv.has_stat s_stat, r', c))
    else if h.type == t_remove
    then with_fid h.fid r c (λ f r'. ok (serve_if c.srv.has_remove s_remove, r', c))
    else if h.type == t_clunk
    then with_fid h.fid r c
        (λ f r'. ok ((if c.srv.has_clunk then serve s_clunk else answer none), r', c))
    else ok (answer (some no_func), r, c)

abbrev pub for_writing : ℕ → Bool
for_writing omode = omode % 4 == o_write || omode % 4 == o_rdwr

abbrev pub for_reading : ℕ → Bool
for_reading omode = not (omode == 255 || omode == o_write)

pub handle_io : Fio → Req9 → Conn9 → Result Handled
handle_io f r c =
    if f.hdr.type == t_write
    then with_fid f.hdr.fid r c (λ g r'. ok (
      (if for_writing g.omode
          then serve_if c.srv.has_write s_write
          else answer (some not_for_writing)),
      r',
      c,
    ))
    else if f.hdr.type == t_read
    then with_fid f.hdr.fid r c (λ g r'. ok (
      (if for_reading g.omode then serve_if c.srv.has_read s_read else answer (some no_read)),
      r',
      c,
    ))
    else ok (answer (some no_func), r, c)

-- The new fid of a walk: the fid itself, or one that is created.
unfoldable pub walk_to : FtWalk → Req9 → Conn9 → Result Handled
walk_to w r c =
    if w.hdr.fid == w.newfid
    then ok (serve_if c.srv.has_walk s_walk, record r { newfid = r.fid }, c)
    else elim (create_fid w.newfid c) [
      | none ↦ ok (answer (some fid_in_use), record r { newfid = none }, c)
      | some c' ↦ ok (serve_if c.srv.has_walk s_walk, record r { newfid = some w.newfid }, c')
    ]

unfoldable pub handle_walk : FtWalk → Req9 → Conn9 → Result Handled
unfolding walk_to
handle_walk w r c = with_fid w.hdr.fid r c (λ f r'.
    if not (f.omode == 255)
    then ok (answer (some walk_from_open), r', c)
    else if not (w.size == 0) && not (is_dir_qid f.qid.type)
    then ok (answer (some not_dir), r', c)
    else walk_to w r' c)

-- The visit of the request that came in.
unfoldable pub handle : Req9 → Conn9 → Result Handled
handle r c = elim r.ifcall [
  | f_twstat w ↦ handle_wstat w r c
  | f_version v ↦ handle_version v r c
  | f_attach a ↦ handle_attach a r c
  | f_tflush f ↦ handle_flush f r c
  | f_tcreate t ↦ handle_tcreate t r c
  | f_full_header h ↦ handle_full_header h r c
  | f_io f ↦ handle_io f r c
  | f_twalk w ↦ handle_walk w r c
  | _ ↦ ok (answer (some no_func), r, c)
]
