-- ===== src/Request/Handle/Refusals.antt =====
-- Requests that handle answers or throws on although the server could serve them.
use libixp.Base.{ℕ, ◌^◌, ◌<◌, ◌≡◌, refl, ap, ◌∙◌, true, some, arith}
use libixp.Msg.{Result, ok}
use libixp.Stat.{Stat}
use libixp.Fcall.{FtWstat}
use libixp.Fcall.Storage.{f_twstat}
use libixp.Request.Reasons.{wstat_type}
use libixp.Request.{Fid, Srv9, Req9, Conn9, answer, find_fid}
use libixp.Request.Handle.{Handled, with_fid, wstat_step, handle_wstat, handle, complement_set}

with_fid-found :
    (id : ℕ) (r : Req9) (c : Conn9) (k : Fid → Req9 → Result Handled) (f : Fid)
    → find_fid id c.fids ≡ some f
    → with_fid id r c k ≡ k f (record r { fid = some id })
unfolding with_fid
with_fid-found id r c k f h = rw (with_fid, h) refl

wstat_step-refused :
    (s : Stat) (f : Fid) (srv : Srv9)
    → s.type < 2 ^ 16
    → wstat_step s f srv ≡ answer (some wstat_type)
unfolding wstat_step
wstat_step-refused s f srv small =
    let e : complement_set 32 s.type ≡ true = ground arith in rw e refl

-- No TWStat reaches the server: the type in its Stat is a uint16_t, whose complement as an int is
-- never 0, and so every TWStat on a fid of the connection is answered with "wstat of type".
pub handle-wstat_refused :
    (w : FtWstat) (r : Req9) (c : Conn9) (f : Fid)
    → w.stat.type < 2 ^ 16
    → find_fid w.hdr.fid c.fids ≡ some f
    → handle (record r { ifcall = f_twstat w }) c
      ≡ ok (answer (some wstat_type), record r { ifcall = f_twstat w; fid = some w.hdr.fid }, c)
unfolding handle handle_wstat
handle-wstat_refused w r c f small there =
    with_fid-found w.hdr.fid (record r { ifcall = f_twstat w }) c
      (λ g r'. ok (wstat_step w.stat g c.srv, r', c)) f there
    ∙ ap (λ s. ok (s, record r { ifcall = f_twstat w; fid = some w.hdr.fid }, c))
        (wstat_step-refused w.stat f c.srv small)
