-- ===== src/Request/Handle/Guards/Creating.antt =====
-- The guards of TOpen and TCreate.
use libixp.Base.{
  ◌≡◌, refl, sym, inl, inr, Bool, true, false, Bool-cases, not, ◌&&◌, ◌==◌, Option, none, some,
  ==_iff,
}
use Prim.Native.Nat.{bit_or}
use libixp.Types.Bits.{o_read, o_rclose}
use libixp.Types.FType.{t_open, t_create}
use libixp.Msg.{exception, ok, err}
use libixp.Fcall.{FtCreate}
use libixp.Fcall.Storage.{
  VariantStorage, f_version, f_tflush, f_ropen, f_error, f_rauth, f_attach, f_tcreate, f_twalk,
  f_rwalk, f_twstat, f_rstat, f_io, f_hdr, f_full_header,
}
use libixp.Request.{Fid, s_create, s_open, Req9, Conn9, find_fid}
use libixp.Request.Handle.{is_dir_qid, serve_if, handle_open, handle_create, handle_tcreate}
use libixp.Request.Handle.Guards.{
  IsGuarded, thrown, answered, serve_if-IsGuarded, if-IsGuarded, with_fid-IsGuarded, is_dir_qid_lem,
}

pub is_true : (b : Bool) → not b ≡ false → b ≡ true
is_true true h = refl
is_true false h = sym h

create-IsGuarded :
    (t : FtCreate) (r : Req9) (c : Conn9)
    → t.hdr.type ≡ t_create
    → IsGuarded (f_tcreate t) (handle_create t r c)
unfolding handle_create
create-IsGuarded t r c type = with_fid-IsGuarded _ t.hdr.fid r c _ (λ f e.
    elim (Bool-cases (not (f.omode == 255))) [
      | inl opened ↦ rw opened (answered _ _ c)
      | inr closed ↦ elim (Bool-cases (not (is_dir_qid f.qid.type))) [
        | inl file ↦ rw (closed, file) (answered _ _ c)
        | inr dir ↦
            rw (closed, dir)
              (serve_if-IsGuarded _ c.srv.has_create s_create _ c (
                type,
                (
                  f,
                  refl,
                  e,
                  (
                    (==_iff f.omode 255).0 (is_true _ closed),
                    is_dir_qid_lem f.qid.type (is_true _ dir),
                  ),
                ),
              ))
      ]
    ])

-- The reply that open fills in, if there is one to fill.
filled_open-IsGuarded :
    (t : FtCreate) (f : Fid) (o : Option VariantStorage) (r : Req9) (c : Conn9)
    → t.hdr.type ≡ t_open
    → find_fid t.hdr.fid c.fids ≡ some f
    → r.fid ≡ some t.hdr.fid
    → IsGuarded (f_tcreate t) (elim o [
      | some (f_ropen o') ↦ ok (
        serve_if c.srv.has_open s_open,
        record r { ofcall = some (f_ropen (record o' { qid = f.qid })) },
        c,
      )
      | _ ↦ err exception
    ])
filled_open-IsGuarded t f none r c type e h = thrown exception
filled_open-IsGuarded t f (some (f_version o)) r c type e h = thrown exception
filled_open-IsGuarded t f (some (f_tflush o)) r c type e h = thrown exception
filled_open-IsGuarded t f (some (f_ropen o)) r c type e h =
    serve_if-IsGuarded _ _ s_open _ c (type, (f, h, e, tt))
filled_open-IsGuarded t f (some (f_error o)) r c type e h = thrown exception
filled_open-IsGuarded t f (some (f_rauth o)) r c type e h = thrown exception
filled_open-IsGuarded t f (some (f_attach o)) r c type e h = thrown exception
filled_open-IsGuarded t f (some (f_tcreate o)) r c type e h = thrown exception
filled_open-IsGuarded t f (some (f_twalk o)) r c type e h = thrown exception
filled_open-IsGuarded t f (some (f_rwalk o)) r c type e h = thrown exception
filled_open-IsGuarded t f (some (f_twstat o)) r c type e h = thrown exception
filled_open-IsGuarded t f (some (f_rstat o)) r c type e h = thrown exception
filled_open-IsGuarded t f (some (f_io o)) r c type e h = thrown exception
filled_open-IsGuarded t f (some (f_hdr o)) r c type e h = thrown exception
filled_open-IsGuarded t f (some (f_full_header o)) r c type e h = thrown exception

open-IsGuarded :
    (t : FtCreate) (r : Req9) (c : Conn9)
    → t.hdr.type ≡ t_open
    → IsGuarded (f_tcreate t) (handle_open t r c)
unfolding handle_open
open-IsGuarded t r c type = with_fid-IsGuarded _ t.hdr.fid r c _ (λ f e.
    if-IsGuarded _ (is_dir_qid f.qid.type && not (bit_or t.mode o_rclose == bit_or o_read o_rclose))
      _ _ (λ _. answered _ _ c)
      (λ _. filled_open-IsGuarded t f r.ofcall (record r { fid = some t.hdr.fid }) c type e refl))

pub tcreate-IsGuarded :
    (t : FtCreate) (r : Req9) (c : Conn9) → IsGuarded (f_tcreate t) (handle_tcreate t r c)
unfolding handle_tcreate
tcreate-IsGuarded t r c =
    if-IsGuarded _ (t.hdr.type == t_open) _ _
      (λ h. open-IsGuarded t r c ((==_iff t.hdr.type t_open).0 h))
      (λ _.
        if-IsGuarded _ (t.hdr.type == t_create) _ _
          (λ h. create-IsGuarded t r c ((==_iff t.hdr.type t_create).0 h)) (λ _. answered _ r c))
