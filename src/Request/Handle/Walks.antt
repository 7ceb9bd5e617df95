-- ===== src/Request/Handle/Walks.antt =====
-- What handle leaves of a walk for the server.
use libixp.Base.{
  subst, some, ◌≡◌, refl, Option-cases, Bool, true, false, if◌then◌else◌, inl, inr, not, ◌&&◌, ◌==◌,
}
use libixp.Msg.{Result, ok, err}
use libixp.Fcall.{FtWalk}
use libixp.Fcall.Storage.{f_twalk}
use libixp.Request.{Req9, Conn9, Step, find_fid, create_fid}
use libixp.Request.Handle.{Handled, is_dir_qid, with_fid, walk_to, handle_walk, handle}

-- The reply stays, and so does the request.
abbrev pub Stays : Req9 → Result Handled → Type 0
Stays r (ok (y, r', c)) = (r'.ifcall ≡ r.ifcall) × (r'.ofcall ≡ r.ofcall)
Stays r (err x) = Unit {0}

Stays-if :
    (b : Bool) (r : Req9) (x y : Result Handled)
    → Stays r x
    → Stays r y
    → Stays r (if b then x else y)
Stays-if true r x y h k = h
Stays-if false r x y h k = k

walk_to-Stays : (w : FtWalk) (r : Req9) (c : Conn9) → Stays r (walk_to w r c)
unfolding walk_to
walk_to-Stays w r c =
    Stays-if (w.hdr.fid == w.newfid) r _ _ (refl, refl)
      (elim (Option-cases (create_fid w.newfid c)) [
        | inl used ↦ rw used (refl, refl)
        | inr (c', made) ↦ rw made (refl, refl)
      ])

handle_walk-Stays : (w : FtWalk) (r : Req9) (c : Conn9) → Stays r (handle_walk w r c)
unfolding handle_walk with_fid
handle_walk-Stays w r c = elim (Option-cases (find_fid w.hdr.fid c.fids)) [
  | inl missing ↦ rw (with_fid, missing) (refl, refl)
  | inr (f, there) ↦
      rw (with_fid, there)
        (Stays-if (not (f.omode == 255)) r _ _ (refl, refl)
          (Stays-if (not (w.size == 0) && not (is_dir_qid f.qid.type)) r _ _ (refl, refl)
            (walk_to-Stays w (record r { fid = some w.hdr.fid }) c)))
]

-- handle neither fills the reply of a walk nor changes the request itself.
pub handle-walk_reply :
    (w : FtWalk) (r r' : Req9) (c c' : Conn9) (y : Step)
    → handle (record r { ifcall = f_twalk w }) c ≡ ok (y, r', c')
    → (r'.ifcall ≡ f_twalk w) × (r'.ofcall ≡ r.ofcall)
unfolding handle
handle-walk_reply w r r' c c' y e =
    subst (Stays (record r { ifcall = f_twalk w })) e
      (handle_walk-Stays w (record r { ifcall = f_twalk w }) c)
