-- ===== src/Tests/Requests.antt =====
-- Requests on a connection with one open file.
use libixp.Base.{
  ℕ, ◌≡◌, refl, true, false, List, [], ◌∷◌, ◌++◌, none, some, arith, ◌==◌, if◌then◌else◌,
}
use libixp.Msg.{exception, Result, ok, err}
use libixp.Fcall.{FHdr, FtWstat, Fio}
use libixp.Fcall.Storage.{VariantStorage, f_twstat, f_io, f_hdr, f_full_header, zero_qid, zero_stat}
use libixp.Request.Reasons.{wstat_type, no_such_fid}
use libixp.Request.{Fid, Srv9, Req9, Conn9, answer, find_fid}
use libixp.Request.Handle.{handle}
use libixp.Request.Handle.Guards.{IsGuarded}
use libixp.Request.Handle.Guards.Cases.{handle-IsGuarded}
use libixp.Request.Handle.Refusals.{handle-wstat_refused}
use libixp.Request.Respond.{respond}
use libixp.Request.Respond.Replies.{
  NeverReturns, respond-unfilled, respond-ignores_data, respond-removed,
}

abbrev file : Fid
file = record { id = 3; qid = zero_qid; omode = 0; iounit = 100 }

abbrev srv : Srv9
srv = record {
  has_clunk = true;
  has_create = false;
  has_flush = false;
  has_open = true;
  has_read = true;
  has_remove = true;
  has_stat = true;
  has_walk = true;
  has_write = true;
  has_wstat = true;
}

abbrev conn : Conn9
conn = record { fids = file ∷ []; tags = []; srv = srv; rmsg_size = 1024; live = true; sent = [] }

abbrev hdr_of : ℕ → FHdr
hdr_of type = record { type = type; tag = 1; fid = 3 }

abbrev read_io : Fio
read_io = record { hdr = hdr_of 116; size = 10; offset = 0; contents = [] }

abbrev filled_io : ℕ → VariantStorage
filled_io b = f_io (record { hdr = hdr_of 117; size = 1; offset = 0; contents = b ∷ [] })

abbrev read_req : Req9
read_req = record { ifcall = f_io read_io; ofcall = none; fid = none; newfid = none; oldreq = none }

abbrev without_fid : ℕ → List Fid → List Fid
without_fid id [] = []
without_fid id (f ∷ fs) = let rest = without_fid id fs in if f.id == id then rest else f ∷ rest

abbrev without_tag : ℕ → List (ℕ × Req9) → List (ℕ × Req9)
without_tag tag [] = []
without_tag tag ((t, r) ∷ rs) =
    let rest = without_tag tag rs in if t == tag then rest else (t, r) ∷ rest

abbrev delivered : VariantStorage → Conn9 → Result Conn9
delivered o c = ok (record c { sent = c.sent ++ (o ∷ []) })

handle-IsGuarded_example : IsGuarded read_req.ifcall (handle read_req conn)
handle-IsGuarded_example = handle-IsGuarded read_req conn

abbrev wstat : FtWstat
wstat = record { hdr = hdr_of 126; stat = record zero_stat { type = 65535 } }

file_found : find_fid 3 (file ∷ []) ≡ some file
unfolding find_fid
file_found = refl

handle-wstat_refused_example :
    handle (record read_req { ifcall = f_twstat wstat }) conn
    ≡ ok (answer (some wstat_type), record read_req { ifcall = f_twstat wstat; fid = some 3 }, conn)
handle-wstat_refused_example =
    handle-wstat_refused wstat read_req conn file (omega arith) file_found

respond-unfilled_example :
    NeverReturns (respond without_fid without_tag delivered 3 7 (some no_such_fid) read_req conn)
respond-unfilled_example =
    respond-unfilled without_fid without_tag delivered 3 7 (some no_such_fid) read_req conn

respond-ignores_data_example :
    respond without_fid without_tag delivered 1 7 none
      (record read_req { ofcall = some (filled_io 65) })
      conn
    ≡ respond without_fid without_tag delivered 1 7 none
        (record read_req { ofcall = some (filled_io 66) })
        conn
respond-ignores_data_example =
    respond-ignores_data without_fid without_tag delivered 0 7 read_io (filled_io 65) (filled_io 66)
      read_req conn

respond-removed_example :
    respond without_fid without_tag delivered 1 7 none
      (record read_req { ifcall = f_full_header (hdr_of 122); ofcall = some (f_hdr (hdr_of 123)) })
      conn
    ≡ some (err exception)
respond-removed_example =
    respond-removed without_fid without_tag delivered 0 7 (hdr_of 122)
      (record read_req { ofcall = some (f_hdr (hdr_of 123)) }) conn
