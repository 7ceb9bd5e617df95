-- ===== src/SrvUtil.antt =====
-- srv_util.cc and jyq_util.h: the lookup of files for a server. A FileId is the list of a file and
-- of those above it, the empty list being null; the reference counts of the list are kept by
-- srv_freefile, which does nothing. The lookup function is a parameter.
pub mod Walk
pub mod Readdir
use libixp.Base.{
  ℕ, zero, suc, ◌+◌, ◌-◌, ◌*◌, ◌%◌, ◌^◌, Bool, true, false, not, List, [], ◌∷◌, ◌||◌, ◌==◌, ltb,
  leb, if◌then◌else◌, Option, none, some, length, set, get_elem?, take,
}
use libixp.Msg.{Mode, Msg, Error, bad_access, exception, Result, ok, err}
use libixp.Msg.Fields.{Str}
use libixp.Qid.{Qid}
use libixp.Stat.{Stat, stat_size, pack_unpack_stat}
use libixp.Fcall.{FtWalk, FrWalk, Fio}
use libixp.Fcall.Storage.{VariantStorage, f_rwalk, f_twalk, f_io, zero_stat}
use libixp.Fcall.Retrieve.{get_rwalk, get_io}
use libixp.Request.Handle.{same_bytes}
use libixp.Request.Reasons.{Reason, not_found}
use libixp.Request.{Fid, Req9, Conn9}
use libixp.Request.Respond.{respond}
use libixp.Util.{string_at}

pub record Dirtab : Type 0 where
  pub name : Str
  pub qtype : ℕ
  pub type : ℕ
  pub perm : ℕ
  pub flags : ℕ

pub record FileIdBody : Type 0 where
  pub p : ℕ
  pub pending : Bool
  pub id : ℕ
  pub index : ℕ
  pub tab : Dirtab
  pub nref : ℕ
  pub volatile : Bool

abbrev pub FileId : Type 0
FileId = List FileIdBody

abbrev pub LookupFn : Type 0
LookupFn = FileId → Str → Option FileId

-- srv_clonefiles: the new node has the contents of the first, and no next.
unfoldable pub srv_clonefiles : FileId → Result FileId
srv_clonefiles [] = err bad_access
srv_clonefiles (b ∷ above) = ok (record b { nref = 1 } ∷ [])

-- computeQIDValue.
abbrev pub compute_qid_value : ℕ → ℕ → ℕ
compute_qid_value t i = t % 2 ^ 8 * 2 ^ 32 + i % 2 ^ 32

-- setType and setPath: the version of the Qid stays.
abbrev pub set_qid : FileIdBody → Qid → Qid
set_qid b q = record q { type = b.tab.qtype; path = compute_qid_value b.tab.type b.id }

abbrev pub dot : Str
dot = b'.' ∷ []

abbrev pub dot_dot : Str
dot_dot = b'.' ∷ b'.' ∷ []

-- ofcall.getRwalk().getWqid()[i] of the file that was reached.
unfoldable pub set_wqid : ℕ → FileId → Option VariantStorage → Result (Option VariantStorage)
set_wqid i file none = err exception
set_wqid i [] (some o) = err bad_access
set_wqid i (b ∷ above) (some o) = elim (get_rwalk o) [
  | err e ↦ err e
  | ok r ↦ elim (get_elem? r.wqid i) [
    | none ↦ err bad_access
    | some q ↦ ok (some (f_rwalk (record r { wqid = set r.wqid i (set_qid b q) })))
  ]
]

-- A walk up: to the file above, if there is one.
unfoldable pub up : FileId → FileId
up [] = []
up (b ∷ []) = b ∷ []
up (b ∷ c ∷ above) = c ∷ above

-- A walk down. What was looked up has no next yet.
unfoldable pub down : Str → FileId → FileId → Result FileId
down name file [] = err bad_access
down name file (t ∷ []) = ok (if same_bytes name dot then file else t ∷ file)
down name file (t ∷ u ∷ above) = err exception

-- One name; nothing if it is not found.
unfoldable pub walk_step : LookupFn → FileId → Str → Result (Option FileId)
unfolding up down
walk_step lookup file name =
    if same_bytes name dot_dot then ok (some (up file)) else (elim (lookup file name) [
      | none ↦ ok none
      | some tfile ↦ elim (down name file tfile) [ err e ↦ err e | ok file' ↦ ok (some file') ]
    ])

-- The loop over n names of an array: how many were found, where it ended, and the reply.
unfoldable pub walk_loop :
    LookupFn
    → (i n : ℕ) → FileId
    → List Str
    → Option VariantStorage
    → Result (ℕ × FileId × Option VariantStorage)
unfolding walk_step set_wqid
walk_loop lookup i zero file names o = ok (i, file, o)
walk_loop lookup i (suc n) file [] o = err bad_access
walk_loop lookup i (suc n) file (name ∷ names) o = elim (walk_step lookup file name) [
  | err e ↦ err e
  | ok none ↦ ok (i, file, o)
  | ok (some file') ↦ elim (set_wqid i file' o) [
    | err e ↦ err e
    | ok o' ↦ walk_loop lookup (suc i) n file' names o'
  ]
]

-- What srv_walkandclone comes to: the error for respond, the reply so far, and the new _aux of the fid or of the new fid.
pub record Walked : Type 0 where
  pub answer : Option Reason
  pub ofcall : Option VariantStorage
  pub fid_aux : Option FileId
  pub newfid_aux : Option FileId

-- The end of srv_walkandclone but for respond, after i of the n names.
unfoldable pub end_walk :
    FtWalk → (has_newfid : Bool) → ℕ → FileId → Option VariantStorage → Result Walked
end_walk w has_newfid i file o =
    if ltb i w.size
    then ok (record { answer = some not_found; ofcall = o; fid_aux = none; newfid_aux = none })
    else (elim o [
      | none ↦ err exception
      | some s ↦ elim (get_rwalk s) [
        | err e ↦ err e
        | ok r ↦
            let o' : Option VariantStorage = some (f_rwalk (record r { size = i })) in
            if w.hdr.fid == w.newfid
            then ok (record { answer = none; ofcall = o'; fid_aux = some file; newfid_aux = none })
            else if has_newfid
            then ok (record { answer = none; ofcall = o'; fid_aux = none; newfid_aux = some file })
            else err bad_access
      ]
    ])

-- srv_walkandclone up to respond, on the _aux of the fid.
unfoldable pub walk_and_clone :
    LookupFn → FtWalk → (has_newfid : Bool) → FileId → Option VariantStorage → Result Walked
unfolding end_walk
walk_and_clone lookup w has_newfid aux o = elim (srv_clonefiles aux) [
  | err e ↦ err e
  | ok file ↦ elim (walk_loop lookup 0 w.size file w.wname o) [
    | err e ↦ err e
    | ok (i, file', o') ↦ end_walk w has_newfid i file' o'
  ]
]

-- srv_walkandclone, on the _aux of the fid: the new _aux, and what respond leaves.
module _ (remove_fid : ℕ → List Fid → List Fid) (remove_tag : ℕ → List (ℕ × Req9) → List (ℕ × Req9))
    (deliver : VariantStorage → Conn9 → Result Conn9) where
  abbrev pub with_aux :
      Walked → Option (Result (Req9 × Conn9)) → Option (Result (Walked × Req9 × Conn9))
  with_aux out none = none
  with_aux out (some (err x)) = some (err x)
  with_aux out (some (ok (r, c))) = some (ok (out, r, c))

  abbrev pub has_some : Option ℕ → Bool
  has_some none = false
  has_some (some id) = true

  -- respond(Enofile) or respond(nullptr), if nothing was thrown before.
  abbrev pub respond_walked :
      (fuel junk : ℕ) → Req9 → Conn9 → Result Walked → Option (Result (Walked × Req9 × Conn9))
  respond_walked fuel junk r c (err x) = some (err x)
  respond_walked fuel junk r c (ok out) = with_aux out (
      respond remove_fid remove_tag deliver fuel junk out.answer (record r { ofcall = out.ofcall })
        c)

  unfoldable pub srv_walkandclone :
      (fuel junk : ℕ) → LookupFn → FileId → Req9 → Conn9 → Option (Result (Walked × Req9 × Conn9))
  srv_walkandclone fuel junk lookup aux r c = elim r.ifcall [
    | f_twalk w ↦
        respond_walked fuel junk r c (walk_and_clone lookup w (has_some r.newfid) aux r.ofcall)
    | _ ↦ some (err exception)
  ]

-- srv_verifyfile.
pub srv_verifyfile : LookupFn → FileIdBody → (above : FileId) → Bool
srv_verifyfile lookup b [] = true
srv_verifyfile lookup b (c ∷ above) =
    let found : Bool = elim (lookup (c ∷ above) b.tab.name) [
      | none ↦ false
      | some [] ↦ false
      | some (t ∷ _) ↦ not t.volatile || t.p == b.p
    ] in
    if srv_verifyfile lookup c above then found else false
