-- ===== src/Tests/Listings.antt =====
-- A directory with two files, and walks in it.
use libixp.Base.{
  ℕ, ◌++◌, List, ◌≡◌, refl, true, false, [], ◌∷◌, none, some, arith, replicate, length,
}
use libixp.Msg.{Mode, Msg, Result, ok}
use libixp.Msg.Fields.{Str}
use libixp.Stat.{Stat}
use libixp.Fcall.{FtWalk, FrWalk}
use libixp.Fcall.Storage.{VariantStorage, f_rwalk, f_twalk, zero_qid, zero_stat}
use libixp.Request.{Fid, Srv9, Req9, Conn9, serve, s_walk, find_fid, create_fid, new_fid}
use libixp.Request.Handle.{with_fid, walk_to, handle_walk, handle}
use libixp.Request.Respond.Replies.{NeverReturns}
use libixp.SrvUtil.{FileIdBody, LookupFn, walk_and_clone, srv_walkandclone}
use libixp.SrvUtil.Walk.{put_qids, walk_and_clone-found, srv_walkandclone-unfilled}
use libixp.SrvUtil.Readdir.{readdir_loop}
use libixp.SrvUtil.Readdir.Listing.{
  behind, fitting, listing_bytes, IsEntry, packed, readdir_loop-packs,
}

abbrev file : ℕ → FileIdBody
file n = record {
  p = 0;
  pending = false;
  id = n;
  index = 0;
  tab = record { name = n ∷ []; qtype = 0; type = 0; perm = 0; flags = 0 };
  nref = 1;
  volatile = false;
}

abbrev one_below : LookupFn
one_below above name = some (file 7 ∷ [])

abbrev nothing_below : LookupFn
nothing_below above name = none

abbrev walk_of : Str → FtWalk
walk_of name = record {
  hdr = record { type = 110; tag = 0; fid = 1 };
  size = 1;
  newfid = 2;
  wname = name ∷ [];
}

abbrev blank : FrWalk
blank = record {
  hdr = record { type = 111; tag = 0; fid = 0 };
  size = 0;
  wqid = replicate 16 zero_qid;
}

walk_and_clone-found_example :
    walk_and_clone one_below (walk_of (7 ∷ [])) true (file 5 ∷ []) (some (f_rwalk blank))
    ≡ ok (record {
      answer = none;
      ofcall = some (
          f_rwalk (record blank {
            size = 1;
            wqid = put_qids 0 ((7 ∷ [], file 7) ∷ []) (replicate 16 zero_qid);
          }));
      fid_aux = none;
      newfid_aux = some (file 7 ∷ file 5 ∷ []);
    })
walk_and_clone-found_example =
    walk_and_clone-found one_below (walk_of (7 ∷ [])) (file 5) [] ((7 ∷ [], file 7) ∷ []) [] blank
      (((λ e. cc), (λ e. cc)), refl, tt) refl refl (omega arith) (omega arith)

abbrev directory : Fid
directory = record { id = 1; qid = record zero_qid { type = 0x80 }; omode = 255; iounit = 0 }

abbrev walkers : Srv9
walkers = record {
  has_clunk = false;
  has_create = false;
  has_flush = false;
  has_open = false;
  has_read = false;
  has_remove = false;
  has_stat = false;
  has_walk = true;
  has_write = false;
  has_wstat = false;
}

abbrev conn : Conn9
conn = record {
  fids = directory ∷ [];
  tags = [];
  srv = walkers;
  rmsg_size = 1024;
  live = true;
  sent = [];
}

abbrev asked : Req9
asked = record {
  ifcall = f_twalk (walk_of (7 ∷ []));
  ofcall = none;
  fid = none;
  newfid = none;
  oldreq = none;
}

abbrev served : Req9
served = record asked { fid = some 1; newfid = some 2 }

abbrev served_conn : Conn9
served_conn = record conn { fids = new_fid 2 ∷ directory ∷ [] }

handed : handle asked conn ≡ ok (serve s_walk, served, served_conn)
unfolding handle handle_walk walk_to with_fid find_fid create_fid
handed = refl

abbrev all_fids : ℕ → List Fid → List Fid
all_fids id fs = fs

abbrev all_tags : ℕ → List (ℕ × Req9) → List (ℕ × Req9)
all_tags tag ts = ts

abbrev delivered : VariantStorage → Conn9 → Result Conn9
delivered o c = ok (record c { sent = c.sent ++ (o ∷ []) })

srv_walkandclone-unfilled_example :
    NeverReturns
      (srv_walkandclone all_fids all_tags delivered 1 0 one_below (file 5 ∷ []) served served_conn)
srv_walkandclone-unfilled_example =
    srv_walkandclone-unfilled all_fids all_tags delivered 1 0 one_below (file 5 ∷ [])
      (walk_of (7 ∷ [])) asked served conn served_conn handed

abbrev describe : FileIdBody → Stat
describe f = record zero_stat { name = f.tab.name }

abbrev page : Msg
page = record {
  buffer = replicate 60 0;
  size = 60;
  pos = 0;
  end = 60;
  mode = Mode.pack;
  uninit = 3;
}

describe-IsEntry : (f : FileIdBody) → length f.tab.name ≡ 1 → IsEntry (describe f)
describe-IsEntry f e = (
  record {
    type_fits = omega arith;
    dev_fits = omega arith;
    qid_valid = record {
      type_fits = omega arith;
      version_fits = omega arith;
      path_fits = omega arith;
    };
    mode_fits = omega arith;
    atime_fits = omega arith;
    mtime_fits = omega arith;
    length_fits = omega arith;
    name_short = omega (arith, e);
    uid_short = omega arith;
    gid_short = omega arith;
    muid_short = omega arith;
  },
  omega (arith, e),
)

readdir_loop-packs_example :
    readdir_loop (λ old f. describe f) zero_stat (file 5 ∷ file 6 ∷ []) 60 0 10 page
    ≡ ok (
        packed page
          (listing_bytes (fitting 60 (behind 10 0 (describe (file 5) ∷ describe (file 6) ∷ [])))))
readdir_loop-packs_example =
    readdir_loop-packs describe zero_stat (file 5 ∷ file 6 ∷ []) 60 0 10 page
      (describe-IsEntry (file 5) refl, (describe-IsEntry (file 6) refl, tt)) (omega arith) refl
      (omega arith)
