-- ===== src/Request/Respond.antt =====
-- Req9::respond: what the request and the connection become, and the reply. removeFid and
-- removeTag are declared in Conn9.h without a body, so they are parameters. So is `deliver`, what
-- pack and sendmsg do with a reply on the connection: the code compares their results and makes
-- nothing of them, so that it is the connection afterwards or an exception.
pub mod Replies
use libixp.Base.{
  ℕ, zero, suc, ◌+◌, ◌-◌, ◌%◌, ◌^◌, Bool, true, false, not, ◌&&◌, ◌||◌, List, [], ◌∷◌, ◌++◌, ◌==◌,
  ltb, if◌then◌else◌, Option, none, some, get_elem?, replicate,
}
use libixp.Types.{max_msg, max_welem, min}
use libixp.Types.FType.{r_error, r_read, t_write, t_remove, t_clunk}
use libixp.Msg.{Error, bad_access, exception, Result, ok, err}
use libixp.Qid.{Qid}
use libixp.Stat.{reset_stat}
use libixp.Fcall.{FHdr, FVersion, FAttach, FtCreate, FtWalk, FrWalk, Fio, FtFlush, FtWstat}
use libixp.Fcall.Storage.{
  VariantStorage, f_version, f_tflush, f_ropen, f_error, f_rauth, f_attach, f_tcreate, f_twalk,
  f_rwalk, f_twstat, f_rstat, f_io, f_hdr, f_full_header, header_of, new_fcall,
}
use libixp.Request.Reasons.{Reason, no_file, interrupted, text}
use libixp.Request.{Fid, Req9, Conn9, find_fid, find_tag, set_fid}

-- The error that is answered may change on the way.
abbrev pub Prepared : Type 0
Prepared = Option Reason × Req9 × Conn9

-- min<int>(size, maximum::Msg): from 2^31 on the size is a negative int.
pub int_min_msg : ℕ → ℕ
int_min_msg size = if ltb size (2 ^ 31) then min size max_msg else size

pub prepare_version : FVersion → Option Reason → Req9 → Conn9 → Result Prepared
prepare_version v (some e) r c = err exception
prepare_version v none r c = elim r.ofcall [
  | some (f_version o) ↦
      let msize = int_min_msg o.size in
      ok (
        none,
        record r {
          ifcall = f_version (record v { version = [] });
          ofcall = some (f_version (record o { size = msize }));
        },
        record c { rmsg_size = msize },
      )
  | _ ↦ err exception
]

pub prepare_tcreate : FtCreate → Option Reason → Req9 → Conn9 → Result Prepared
prepare_tcreate t (some e) r c =
    ok (some e, record r { ifcall = f_tcreate (record t { name = [] }) }, c)
prepare_tcreate t none r c = elim r.ofcall [
  | some (f_ropen o) ↦
      let iounit = (c.rmsg_size + 2 ^ 32 - 24) % 2 ^ 32 in
      elim r.fid [
        | none ↦ err bad_access
        | some id ↦ elim (find_fid id c.fids) [
          | none ↦ err bad_access
          | some f ↦ ok (
            none,
            record r {
              ifcall = f_tcreate (record t { name = [] });
              ofcall = some (f_ropen (record o { iounit = iounit }));
            },
            record c {
              fids = set_fid (record f { iounit = iounit; omode = t.mode; qid = o.qid }) c.fids;
            },
          )
        ]
      ]
  | _ ↦ err exception
]

pub prepare_io : Fio → Option Reason → Req9 → Conn9 → Result Prepared
prepare_io f e r c = ok (
  e,
  (if f.hdr.type == t_write then record r { ifcall = f_io (record f { contents = [] }) } else r),
  c,
)

pub prepare_twstat : FtWstat → Option Reason → Req9 → Conn9 → Result Prepared
prepare_twstat w e r c =
    ok (e, record r { ifcall = f_twstat (record w { stat = reset_stat w.stat }) }, c)

-- The Qid that the new fid of a complete walk gets.
pub walked_qid : FrWalk → Req9 → Conn9 → Result Qid
walked_qid o r c =
    if o.size == 0
    then (elim r.fid [
      | none ↦ err bad_access
      | some id ↦ elim (find_fid id c.fids) [ none ↦ err bad_access | some f ↦ ok f.qid ]
    ])
    else (elim (get_elem? o.wqid (o.size - 1)) [ none ↦ err bad_access | some q ↦ ok q ])

module _ (remove_fid : ℕ → List Fid → List Fid) (remove_tag : ℕ → List (ℕ × Req9) → List (ℕ × Req9))
    (deliver : VariantStorage → Conn9 → Result Conn9) where
  abbrev pub drop_fid : Option ℕ → Conn9 → Conn9
  drop_fid none c = c
  drop_fid (some id) c = record c { fids = remove_fid id c.fids }

  -- With an error the fid is removed; _fid is null when its id was in use.
  pub prepare_attach : FAttach → Option Reason → Req9 → Conn9 → Result Prepared
  prepare_attach a none r c =
      ok (none, record r { ifcall = f_attach (record a { uname = []; aname = [] }) }, c)
  prepare_attach a (some e) r c = elim r.fid [
    | none ↦ err bad_access
    | some id ↦ ok (
      some e,
      record r { ifcall = f_attach (record a { uname = []; aname = [] }) },
      record c { fids = remove_fid id c.fids },
    )
  ]

  -- The new fid of a walk that failed.
  pub undo_walk : FtWalk → Req9 → Conn9 → Conn9
  undo_walk w r c = if w.hdr.fid == w.newfid then c else drop_fid r.newfid c

  pub prepare_twalk : FtWalk → Option Reason → Req9 → Conn9 → Result Prepared
  unfolding walked_qid
  prepare_twalk w e r c =
      let r' : Req9 = record r { ifcall = f_twalk (record w { wname = replicate max_welem [] }) } in
      elim e [
        | some reason ↦ ok (some reason, r', undo_walk w r c)
        | none ↦ elim r.ofcall [
          | some (f_rwalk o) ↦
              if ltb o.size w.size
              then ok ((if o.size == 0 then some no_file else none), r', undo_walk w r c)
              else elim r.newfid [
                | none ↦ err bad_access
                | some id ↦ elim (walked_qid o r c) [
                  | err x ↦ err x
                  | ok q ↦ elim (find_fid id c.fids) [
                    | none ↦ err bad_access
                    | some f ↦
                        ok (none, r', record c { fids = set_fid (record f { qid = q }) c.fids })
                  ]
                ]
              ]
          | _ ↦ err exception
        ]
      ]

  pub prepare_full_header : FHdr → Option Reason → Req9 → Conn9 → Result Prepared
  prepare_full_header h e r c =
      ok (e, r, (if h.type == t_remove || h.type == t_clunk then drop_fid r.fid c else c))

  -- The last visit of the reply.
  abbrev pub cleared : VariantStorage → VariantStorage
  cleared (f_rstat f) = f_rstat (record f { stat = [] })
  cleared (f_io f) = f_io (if f.hdr.type == r_read then record f { contents = [] } else f)
  cleared s = s

  -- The reply: a blank structure of the next type, or an RError. Its tag and fid are what `junk`
  -- says, since reset builds the structure anew after the tag was set.
  abbrev pub reply : (junk : ℕ) → Option Reason → ℕ → Option VariantStorage
  reply junk none type = new_fcall junk ((type + 1) % 256)
  reply junk (some e) type = elim (new_fcall junk r_error) [
    | some (f_error f) ↦ some (f_error (record f { ename = text e }))
    | _ ↦ none
  ]

  -- From getOFcall().setTag(...) on, which throws if nothing is stored. If there is a Conn, the reply
  -- is packed and sent before the last visit; a broken pipe makes sendmsg throw.
  pub finish : (junk : ℕ) → Option Reason → Req9 → Conn9 → Result (Req9 × Conn9)
  finish junk e r c = elim r.ofcall [
    | none ↦ err exception
    | some o ↦ elim (reply junk e (header_of r.ifcall).type) [
      | none ↦ err exception
      | some o' ↦
          let c' : Conn9 = record c { tags = remove_tag (header_of r.ifcall).tag c.tags } in
          elim (if c.live then deliver o' c' else ok c') [
            | err x ↦ err x
            | ok c'' ↦ ok (record r { ofcall = some (cleared o') }, c'')
          ]
    ]
  ]

  abbrev pub finish_prepared : (junk : ℕ) → Result Prepared → Result (Req9 × Conn9)
  finish_prepared junk (err x) = err x
  finish_prepared junk (ok (e, r, c)) = finish junk e r c

  -- The visit of every request but a flush.
  pub prepare : Option Reason → Req9 → Conn9 → Result Prepared
  prepare e r c = elim r.ifcall [
    | f_version v ↦ prepare_version v e r c
    | f_attach a ↦ prepare_attach a e r c
    | f_tcreate t ↦ prepare_tcreate t e r c
    | f_twalk w ↦ prepare_twalk w e r c
    | f_io f ↦ prepare_io f e r c
    | f_full_header h ↦ prepare_full_header h e r c
    | f_twstat w ↦ prepare_twstat w e r c
    | _ ↦ elim e [ none ↦ err exception | some reason ↦ ok (some reason, r, c) ]
  ]

  -- respond: a flush first answers the request that it flushes, which may be a flush again. With no
  -- fuel left the calls are taken to go on for ever, as in a flush of its own tag.
  pub respond : ℕ → (junk : ℕ) → Option Reason → Req9 → Conn9 → Option (Result (Req9 × Conn9))
  respond zero junk e r c = none
  respond (suc fuel) junk e r c = elim r.ifcall [
    | f_tflush f ↦ elim (find_tag f.oldtag c.tags) [
      | none ↦ some (finish junk e (record r { oldreq = none }) c)
      | some old ↦ elim (respond fuel junk (some interrupted) old c) [
        | none ↦ none
        | some (err x) ↦ some (err x)
        | some (ok (old', c')) ↦ some (finish junk e (record r { oldreq = some f.oldtag }) c')
      ]
    ]
    | _ ↦ some (finish_prepared junk (prepare e r c))
  ]
