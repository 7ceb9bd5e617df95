-- ===== src/Tests/Paths.antt =====
-- Paths, a server that lets a client walk to every file and open it, and one that refuses.
use libixp.Base.{ℕ, ◌≡◌, refl, List, [], ◌∷◌, Option, some, true, arith, length, replicate}
use libixp.Types.{max_msg}
use libixp.Msg.{bad_access, exception, Result, ok, err}
use libixp.Msg.Fields.{Str}
use libixp.Fcall.{FHdr}
use libixp.Fcall.Storage.{
  VariantStorage, f_version, f_ropen, f_rwalk, f_error, f_twalk, f_tcreate, f_attach, zero_qid,
}
use libixp.Fcall.Retrieve.{get_ropen, get_rwalk}
use libixp.Util.{tokenize, c_str}
use libixp.Util.Tokens.{path_of, tokenize-path_of}
use libixp.Client.{Copied, get_fid, check_reply}
use libixp.Client.Fids.{IsPool}
use libixp.Client.Session.{Session, ◌>>=◌}
use libixp.Client.Calls.{
  CFid, open_iounit, exchange, dofcall, take_fid, last_qid, walked, or_put_fid, walk_names, walk,
}
use libixp.Client.Calls.Pool.{Settled}
use libixp.Client.Calls.Failing.{after_exchange, walk-refused, walk-root}
use libixp.Client.Files.{open_fid, open_reply, open_file, stat, read, pwrite}
use libixp.Client.Files.Pool.{held_file, open_file-Settled, stat-Settled}
use libixp.Client.Files.Opening.{IsOpened, open_file-read}
use libixp.Client.Files.Writing.{keep_file, pwrite-keeps}
use libixp.Client.Mount.{new_client, mountfd}
use libixp.Client.Mount.Version.{mountfd-ignores_version}
use libixp.Msg.Splice.{splice}
use libixp.Stat.{Stat}

abbrev names : List (ℕ × Str)
names = (1, b'a' ∷ []) ∷ (2, b'b' ∷ b'c' ∷ []) ∷ []

-- "/a///bc/"
tokenize-path_of_example :
    tokenize (path_of b'/' names 1) b'/' ≡ (b'a' ∷ []) ∷ (b'b' ∷ b'c' ∷ []) ∷ []
tokenize-path_of_example =
    tokenize-path_of b'/' names 1
      (((cc, (omega arith, tt)), ((cc, (omega arith, (omega arith, tt))), tt)))

abbrev reply_header : ℕ → FHdr
reply_header type = record { type = type; tag = 0; fid = 0 }

abbrev answer : VariantStorage → VariantStorage
answer (f_twalk w) =
    f_rwalk (record { hdr = reply_header 111; size = w.size; wqid = replicate 16 zero_qid })
answer (f_tcreate t) = f_ropen (record { hdr = reply_header 113; qid = zero_qid; iounit = 0 })
answer (f_version v) =
    f_version (record { hdr = reply_header 101; size = 256; version = b'x' ∷ [] })
answer (f_attach a) = f_ropen (record { hdr = reply_header 105; qid = zero_qid; iounit = 0 })
answer other = f_error (record { hdr = reply_header 107; ename = [] })

abbrev obliging : VariantStorage → ℕ → Result (Option VariantStorage) × ℕ
obliging request n = (ok (some (answer request)), n)

abbrev refusing : VariantStorage → ℕ → Result (Option VariantStorage) × ℕ
refusing request n = (ok (some (f_error (record { hdr = reply_header 107; ename = [] }))), n)

abbrev mounted : Session ℕ
mounted = record (new_client 0 5) { msize = 8192 }

mounted-IsPool : IsPool (1 ∷ []) mounted.pool
mounted-IsPool = record {
  used_apart = (tt, tt);
  free_apart = tt;
  apart = (tt, tt);
  used_below = ((omega arith, omega arith), tt);
  free_below = tt;
  counted = refl;
}

abbrev path : Str
path = b'a' ∷ []

open_file-Settled_example : Settled (1 ∷ []) held_file (open_file obliging 0 path 0 mounted)
open_file-Settled_example =
    open_file-Settled obliging 0 (1 ∷ []) path 0 mounted mounted-IsPool (omega arith)

stat-Settled_example : Settled (1 ∷ []) (λ (s : Option Stat). []) (stat obliging 0 path mounted)
stat-Settled_example = stat-Settled obliging 0 (1 ∷ []) path mounted mounted-IsPool (omega arith)

few_names : length (tokenize path b'/') ≡ 1
unfolding tokenize
few_names = refl

walk-refused_example :
    walk refusing 0 path mounted ≡ (err exception, after_exchange refusing 0 mounted 5)
walk-refused_example = walk-refused refusing 0 path _ mounted 5 (omega (arith, few_names)) refl refl

walk-root_example :
    walk obliging 0 (b'/' ∷ []) mounted ≡ (err bad_access, after_exchange obliging 0 mounted 5)
walk-root_example = walk-root obliging 0 (b'/' ∷ []) _ mounted 5 (refl, tt) refl refl

mountfd-ignores_version_example :
    mountfd obliging 0 (some path) (new_client 0 5)
    ≡ (ok true, record (new_client 0 5) { mintag = 0; maxtag = 255; msize = max_msg })
mountfd-ignores_version_example =
    mountfd-ignores_version obliging 0 path _ _ 5 5 5 refl refl refl refl

abbrev opened_file : CFid
opened_file = record {
  fid = 2;
  qid = zero_qid;
  mode = 0;
  is_open = true;
  iounit = 8168;
  offset = 0;
}

abbrev after_open : Session ℕ
after_open = record mounted { pool = record { lastfid = 2; freefid = [] } }

opens : open_file obliging 0 path 0 mounted ≡ (ok (some opened_file), after_open)
unfolding open_file open_fid open_reply walk walk_names take_fid dofcall exchange or_put_fid walked
    last_qid get_fid check_reply tokenize get_ropen get_rwalk ◌>>=◌ c_str open_iounit
opens = refl

open_file-read_example :
    IsOpened 8192 0 opened_file
    × (r : (Copied × CFid) × Session ℕ) × (read obliging 0 4 opened_file 3 mounted ≡ some r)
open_file-read_example =
    open_file-read obliging 0 path 0 mounted after_open mounted opened_file 4 3 (omega arith)
      (omega arith) opens (omega arith)

abbrev three_bytes : Str
three_bytes = 1 ∷ 2 ∷ 3 ∷ []

abbrev store : Session Str
store = new_client 0 (9 ∷ 9 ∷ 9 ∷ 9 ∷ [])

pwrite-keeps_example :
    pwrite keep_file 0 4 2 2 3 1 (1 ∷ 2 ∷ 3 ∷ 0 ∷ []) store
    ≡ some (ok (some 3), record store { world = splice (9 ∷ 9 ∷ 9 ∷ 9 ∷ []) 1 three_bytes })
pwrite-keeps_example =
    pwrite-keeps 0 2 three_bytes [] (omega arith, (omega arith, (omega arith, tt))) 4 2 1 store
      (omega arith) (omega arith) (omega arith)
