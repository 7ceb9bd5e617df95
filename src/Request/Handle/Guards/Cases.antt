-- ===== src/Request/Handle/Guards/Cases.antt =====
-- The guards of each kind of request.
use libixp.Base.{
  ℕ, ◌/◌, ◌^◌, ◌≡◌, refl, ◌∙◌, ◌⊎◌, inl, inr, Bool, true, false, Bool-cases, not, ◌&&◌, ◌||◌, List,
  [], ◌∷◌, ◌==◌, if◌then◌else◌, Option, none, some, Option-cases, ==_iff, arith,
}
use Prim.Native.Nat.{bit_and}
use libixp.Types.Bits.{q_dir, d_dir}
use libixp.Types.FType.{t_version, t_attach, t_stat, t_remove, t_clunk, t_write, t_read}
use libixp.Msg.{exception, ok, err}
use libixp.Fcall.{FHdr, FVersion, FtWstat, FAttach, FtFlush, Fio, FtWalk}
use libixp.Fcall.Storage.{
  VariantStorage, f_version, f_tflush, f_ropen, f_error, f_rauth, f_attach, f_tcreate, f_twalk,
  f_rwalk, f_twstat, f_rstat, f_io, f_hdr, f_full_header,
}
use libixp.Request.Reasons.{Reason, wstat_type, wstat_dev, wstat_qid, wstat_muid, wstat_dmdir}
use libixp.Request.{
  Fid, s_attach, s_flush, s_read, s_remove, s_stat, s_walk, s_write, s_wstat, Req9, Conn9, Step,
  answer, find_fid, find_tag, create_fid, new_fid,
}
use libixp.Request.Handle.{
  is_dir_qid, wstat_step, handle_wstat, handle_version, handle_attach, handle_flush, agreed_version,
  handle_full_header, for_writing, for_reading, handle_io, walk_to, handle_walk, handle,
  complement_set,
}
use libixp.Request.Handle.Guards.{
  IsGuarded, thrown, answered, served, serve_if-IsGuarded, if-IsGuarded, with_fid-IsGuarded,
  serve_when-IsGuarded, clunk-IsGuarded, for_writing-CanWrite, for_reading-CanRead,
}
use libixp.Request.Handle.Guards.Creating.{is_true, tcreate-IsGuarded}

full_header-IsGuarded :
    (h : FHdr) (r : Req9) (c : Conn9) → IsGuarded (f_full_header h) (handle_full_header h r c)
unfolding handle_full_header
full_header-IsGuarded h r c =
    if-IsGuarded _ (h.type == t_stat) _ _
      (λ h0.
        with_fid-IsGuarded _ h.fid r c _ (λ f e.
          serve_if-IsGuarded _ _ s_stat _ c ((==_iff h.type t_stat).0 h0, (f, refl, e, tt))))
      (λ _.
        if-IsGuarded _ (h.type == t_remove) _ _
          (λ h0. with_fid-IsGuarded _ h.fid r c _ (λ f e.
            serve_if-IsGuarded _ _ s_remove _ c ((==_iff h.type t_remove).0 h0, (f, refl, e, tt))))
          (λ _.
            if-IsGuarded _ (h.type == t_clunk) _ _
              (λ h0.
                with_fid-IsGuarded _ h.fid r c _
                  (λ f e. clunk-IsGuarded _ _ _ c ((==_iff h.type t_clunk).0 h0, (f, refl, e, tt))))
              (λ _. answered _ r c)))

io-IsGuarded : (f : Fio) (r : Req9) (c : Conn9) → IsGuarded (f_io f) (handle_io f r c)
unfolding handle_io
io-IsGuarded f r c =
    if-IsGuarded _ (f.hdr.type == t_write) _ _
      (λ k. with_fid-IsGuarded _ f.hdr.fid r c _ (λ g e.
        serve_when-IsGuarded _ (for_writing g.omode) _ s_write _ _ c
          (λ h. ((==_iff f.hdr.type t_write).0 k, (g, refl, e, for_writing-CanWrite g.omode h)))))
      (λ _.
        if-IsGuarded _ (f.hdr.type == t_read) _ _
          (λ k. with_fid-IsGuarded _ f.hdr.fid r c _ (λ g e.
            serve_when-IsGuarded _ (for_reading g.omode) _ s_read _ _ c
              (λ h. ((==_iff f.hdr.type t_read).0 k, (g, refl, e, for_reading-CanRead g.omode h)))))
          (λ _. answered _ r c))

-- createfid makes a fid exactly if the id is not in use.
pub create_fid-cases :
    (id : ℕ) (c : Conn9)
    → ((create_fid id c ≡ none) × ((f : Fid) × (find_fid id c.fids ≡ some f)))
      ⊎ ((create_fid id c ≡ some (record c { fids = new_fid id ∷ c.fids }))
          × (find_fid id c.fids ≡ none))
unfolding create_fid
create_fid-cases id c = elim (Option-cases (find_fid id c.fids)) [
  | inl free ↦ inr (rw (create_fid, free) refl, free)
  | inr (f, used) ↦ inl (rw (create_fid, used) refl, (f, used))
]

find_fid-new : (id : ℕ) (fs : List Fid) → find_fid id (new_fid id ∷ fs) ≡ some (new_fid id)
unfolding find_fid
find_fid-new id fs = let e : (id == id) ≡ true = ground arith in rw e refl

find_fid-other :
    (id new : ℕ) (fs : List Fid)
    → (id == new) ≡ false
    → find_fid id (new_fid new ∷ fs) ≡ find_fid id fs
unfolding find_fid
find_fid-other id new fs h = let e : (new == id) ≡ false = ground arith in rw e refl

attach-IsGuarded :
    (a : FAttach) (r : Req9) (c : Conn9) → IsGuarded (f_attach a) (handle_attach a r c)
unfolding handle_attach
attach-IsGuarded a r c =
    if-IsGuarded _ (a.hdr.type == t_attach) _ _
      (λ h. elim (create_fid-cases a.hdr.fid c) [
        | inl (used, _) ↦ rw used (answered _ _ c)
        | inr (made, free) ↦ rw made (
            served s_attach _ _ (
              (==_iff a.hdr.type t_attach).0 h,
              (new_fid a.hdr.fid, refl, find_fid-new a.hdr.fid c.fids, refl),
            ))
      ])
      (λ _. answered _ r c)

flush-IsGuarded : (f : FtFlush) (r : Req9) (c : Conn9) → IsGuarded (f_tflush f) (handle_flush f r c)
unfolding handle_flush
flush-IsGuarded f r c = elim (Option-cases (find_tag f.oldtag c.tags)) [
  | inl missing ↦ rw (handle_flush, missing) (answered _ _ c)
  | inr (old, there) ↦
      rw (handle_flush, there)
        (serve_if-IsGuarded _ c.srv.has_flush s_flush _ c (f, old, refl, refl, there))
]

walk_to-IsGuarded :
    (w : FtWalk) (f : Fid) (r : Req9) (c : Conn9)
    → find_fid w.hdr.fid c.fids ≡ some f
    → r.fid ≡ some w.hdr.fid
    → f.omode ≡ 255
    → IsGuarded (f_twalk w) (walk_to w r c)
unfolding walk_to
walk_to-IsGuarded w f r c e here closed = elim (Bool-cases (w.hdr.fid == w.newfid)) [
  | inl same ↦ rw same (serve_if-IsGuarded _ _ s_walk _ c (f, here, e, closed))
  | inr other ↦ elim (create_fid-cases w.newfid c) [
    | inl (used, _) ↦ rw (other, used) (answered _ _ c)
    | inr (made, free) ↦
        rw (other, made)
          (serve_if-IsGuarded _ c.srv.has_walk s_walk (record r { newfid = some w.newfid })
            (record c { fids = new_fid w.newfid ∷ c.fids })
            (f, here, find_fid-other w.hdr.fid w.newfid c.fids other ∙ e, closed))
  ]
]

walk-IsGuarded : (w : FtWalk) (r : Req9) (c : Conn9) → IsGuarded (f_twalk w) (handle_walk w r c)
unfolding handle_walk
walk-IsGuarded w r c = with_fid-IsGuarded _ w.hdr.fid r c _ (λ f e.
    if-IsGuarded _ (not (f.omode == 255)) _ _ (λ _. answered _ _ c)
      (λ closed.
        if-IsGuarded _ (not (w.size == 0) && not (is_dir_qid f.qid.type)) _ _ (λ _. answered _ _ c)
          (λ _.
            walk_to-IsGuarded w f (record r { fid = some w.hdr.fid }) c e refl
              ((==_iff f.omode 255).0 (is_true _ closed)))))

step_if-IsGuarded :
    (i : VariantStorage) (b : Bool) (e : Reason) (y : Step) (r : Req9) (c : Conn9)
    → IsGuarded i (ok (y, r, c))
    → IsGuarded i (ok ((if b then answer (some e) else y), r, c))
step_if-IsGuarded i true e y r c h = answered (some e) r c
step_if-IsGuarded i false e y r c h = h

wstat-IsGuarded : (w : FtWstat) (r : Req9) (c : Conn9) → IsGuarded (f_twstat w) (handle_wstat w r c)
unfolding handle_wstat wstat_step
wstat-IsGuarded w r c = with_fid-IsGuarded _ w.hdr.fid r c _ (λ f e.
    let r' : Req9 = record r { fid = some w.hdr.fid } in
    step_if-IsGuarded _ (complement_set 32 w.stat.type) wstat_type _ r' c (
      step_if-IsGuarded _ (complement_set 32 w.stat.dev) wstat_dev _ r' c (
        step_if-IsGuarded _
          (complement_set 32 w.stat.qid.type
            || complement_set 32 w.stat.qid.version
            || complement_set 64 w.stat.qid.path)
          wstat_qid _ r' c
          (step_if-IsGuarded _ (elim w.stat.muid [ [] ↦ false | x ∷ xs ↦ true ]) wstat_muid _ r' c
            (step_if-IsGuarded _
              (complement_set 32 w.stat.mode
                && not (bit_and w.stat.mode d_dir / 2 ^ 24 == bit_and f.qid.type q_dir))
              wstat_dmdir _ r' c
              (serve_if-IsGuarded _ c.srv.has_wstat s_wstat r' c (f, refl, e, tt)))))))

-- The reply that a TVersion fills in.
filled_version-IsGuarded :
    (v : FVersion) (o : Option VariantStorage) (r : Req9) (c : Conn9)
    → IsGuarded (f_version v) (elim o [
      | some (f_version o') ↦ ok (
        answer none,
        record r {
          ofcall =
              some (f_version (record o' { version = agreed_version v.version; size = v.size }));
        },
        c,
      )
      | _ ↦ err exception
    ])
filled_version-IsGuarded v none r c = thrown exception
filled_version-IsGuarded v (some (f_version o)) r c = answered none _ c
filled_version-IsGuarded v (some (f_tflush o)) r c = thrown exception
filled_version-IsGuarded v (some (f_ropen o)) r c = thrown exception
filled_version-IsGuarded v (some (f_error o)) r c = thrown exception
filled_version-IsGuarded v (some (f_rauth o)) r c = thrown exception
filled_version-IsGuarded v (some (f_attach o)) r c = thrown exception
filled_version-IsGuarded v (some (f_tcreate o)) r c = thrown exception
filled_version-IsGuarded v (some (f_twalk o)) r c = thrown exception
filled_version-IsGuarded v (some (f_rwalk o)) r c = thrown exception
filled_version-IsGuarded v (some (f_twstat o)) r c = thrown exception
filled_version-IsGuarded v (some (f_rstat o)) r c = thrown exception
filled_version-IsGuarded v (some (f_io o)) r c = thrown exception
filled_version-IsGuarded v (some (f_hdr o)) r c = thrown exception
filled_version-IsGuarded v (some (f_full_header o)) r c = thrown exception

version-IsGuarded :
    (v : FVersion) (r : Req9) (c : Conn9) → IsGuarded (f_version v) (handle_version v r c)
unfolding handle_version
version-IsGuarded v r c =
    if-IsGuarded _ (v.hdr.type == t_version) _ _ (λ _. filled_version-IsGuarded v r.ofcall r c)
      (λ _. answered _ r c)

visit-IsGuarded :
    (s : VariantStorage) (r : Req9) (c : Conn9) → IsGuarded s (handle (record r { ifcall = s }) c)
unfolding handle
visit-IsGuarded (f_version v) r c = version-IsGuarded v _ c
visit-IsGuarded (f_tflush f) r c = flush-IsGuarded f _ c
visit-IsGuarded (f_attach a) r c = attach-IsGuarded a _ c
visit-IsGuarded (f_tcreate t) r c = tcreate-IsGuarded t _ c
visit-IsGuarded (f_twalk w) r c = walk-IsGuarded w _ c
visit-IsGuarded (f_twstat w) r c = wstat-IsGuarded w _ c
visit-IsGuarded (f_io f) r c = io-IsGuarded f _ c
visit-IsGuarded (f_full_header h) r c = full_header-IsGuarded h _ c
visit-IsGuarded (f_ropen f) r c = answered _ _ c
visit-IsGuarded (f_error f) r c = answered _ _ c
visit-IsGuarded (f_rauth f) r c = answered _ _ c
visit-IsGuarded (f_rwalk f) r c = answered _ _ c
visit-IsGuarded (f_rstat f) r c = answered _ _ c
visit-IsGuarded (f_hdr f) r c = answered _ _ c

-- A function of the server is called only with a request that points to the fid it names, which
-- handle has found in the connection, and, where the structure serves several types of request,
-- only for the type that the function is for. The fid of an attach was just made. That of a write
-- is open to write, or to read and write. That of a read is open, with a mode other than OWRITE:
-- a fid opened with OWRITE and another bit, as OTRUNC, passes. That of a create is not open and is
-- a directory, and that of a walk is not open. A flush comes with the request whose tag it names.
pub handle-IsGuarded : (r : Req9) (c : Conn9) → IsGuarded r.ifcall (handle r c)
handle-IsGuarded r c = visit-IsGuarded r.ifcall r c
