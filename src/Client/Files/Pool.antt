-- ===== src/Client/Files/Pool.antt =====
-- The fids that open, create, stat and remove leave in use.
use libixp.Base.{ℕ, ◌+◌, ◌^◌, ◌<◌, List, [], ◌∷◌, ◌++◌, Option, none, some, Bool, false, arith}
use libixp.Msg.{Result, ok}
use libixp.Msg.Fields.{Str}
use libixp.Qid.{Qid}
use libixp.Stat.{Stat}
use libixp.Fcall.Storage.{VariantStorage}
use libixp.Fcall.Retrieve.{get_ropen, get_rstat}
use libixp.Client.Fids.{IsPool}
use libixp.Client.Session.{Session, Call, lift, ◌>>=◌}
use libixp.Client.Calls.{CFid, read_stat, split_path, dofcall, put_fid, succeeds, clunk, walk}
use libixp.Client.Calls.Pool.{
  Settled, Settled-bind, Settled-first, Settled-lift, dofcall-Settled, succeeds-Settled,
  put_fid-Settled, clunk-Settled, held_walk, walk-Settled,
}
use libixp.Client.Files.{
  opened_reply, open_reply, open_fid, open_file, create, with_walked, stat_reply, fstat, stat_fid,
  stat, remove_fid, remove, create_request,
}
use libixp.Types.FType.{t_open, t_create}

abbrev pub held_file : Option CFid → List ℕ
held_file none = []
held_file (some f) = f.fid ∷ []

module _ {S : Type 0} (muxrpc : VariantStorage → S → Result (Option VariantStorage) × S) (junk : ℕ)
    (used : List ℕ) where
  opened-Settled :
      (f mode : ℕ) (reply : VariantStorage) (c : Session S)
      → IsPool (f ∷ used) c.pool
      → Settled used held_file (opened_reply muxrpc junk f mode reply c)
  opened-Settled f mode reply c v =
      Settled-bind used (λ o. f ∷ []) held_file (lift (get_ropen reply)) _ c
        (Settled-lift used (f ∷ []) (get_ropen reply) c (omega arith) v) (λ o c' v'. v')

  open_reply-Settled :
      (f mode : ℕ) (ret : Option VariantStorage) (c : Session S)
      → IsPool (f ∷ used) c.pool
      → Settled used held_file (open_reply muxrpc junk f mode ret c)
  unfolding open_reply
  open_reply-Settled f mode none c v =
      Settled-bind used (λ u. []) held_file (clunk muxrpc junk f) _ c
        (clunk-Settled muxrpc junk used f c v) (λ u c' v'. v')
  open_reply-Settled f mode (some reply) c v = opened-Settled f mode reply c v

  open_fid-Settled :
      (f mode : ℕ) (request : VariantStorage) (c : Session S)
      → IsPool (f ∷ used) c.pool
      → Settled used held_file (open_fid muxrpc junk f mode request c)
  unfolding open_fid
  open_fid-Settled f mode request c v =
      Settled-bind used (λ r. f ∷ []) held_file (dofcall muxrpc junk request) _ c
        (dofcall-Settled muxrpc junk used (f ∷ []) request c (omega arith) v)
        (λ ret c' v'. open_reply-Settled f mode ret c' v')

  with_walked-Settled :
      {A : Type 0} (held : A → List ℕ) (failed : A) (use_fid : ℕ → Call S A) (w : Option (ℕ × Qid))
      (c : Session S)
      → IsPool (held_walk w ++ used) c.pool
      → (IsPool used c.pool → Settled used held (ok failed, c))
      → ((f : ℕ) → IsPool (f ∷ used) c.pool → Settled used held (use_fid f c))
      → Settled used held (with_walked muxrpc junk failed use_fid w c)
  with_walked-Settled held failed use_fid none c v h k = h v
  with_walked-Settled held failed use_fid (some (f, q)) c v h k = k f v

  -- A call that begins by a walk.
  walking-Settled :
      {A : Type 0} (held : A → List ℕ) (failed : A) (use_fid : ℕ → Call S A) (path : Str)
      (c : Session S)
      → IsPool used c.pool
      → c.pool.lastfid + 1 < 2 ^ 32
      → ((c : Session S) → IsPool used c.pool → Settled used held (ok failed, c))
      → ((f : ℕ) (c : Session S) → IsPool (f ∷ used) c.pool → Settled used held (use_fid f c))
      → Settled used held ((walk muxrpc junk path >>= with_walked muxrpc junk failed use_fid) c)
  walking-Settled held failed use_fid path c v room h k =
      Settled-bind used held_walk held (walk muxrpc junk path)
        (with_walked muxrpc junk failed use_fid) c (walk-Settled muxrpc junk used path c v room)
        (λ w c' v'. with_walked-Settled held failed use_fid w c' v' (h c') (λ f. k f c'))

  -- On a pool in which every fid from 1 to _lastfid is either in use or free, and whatever the server
  -- answers: when open returns a file, the pool is such a one with the fid of the file, which was not
  -- in use, and with those that were in use; when it returns none, with just those that were, so that
  -- the fid of the walk was given back. When it throws, it is such a one if at most one fid more, which
  -- no file has, counts as in use.
  pub open_file-Settled :
      (path : Str) (mode : ℕ) (c : Session S)
      → IsPool used c.pool
      → c.pool.lastfid + 1 < 2 ^ 32
      → Settled used held_file (open_file muxrpc junk path mode c)
  unfolding open_file
  open_file-Settled path mode c v room =
      walking-Settled held_file none _ path c v room (λ c' v'. v')
        (λ f c' v'. open_fid-Settled f mode (create_request junk t_open f 0 [] mode) c' v')

  -- The same of create.
  pub create-Settled :
      (path : Str) (perm mode : ℕ) (c : Session S)
      → IsPool used c.pool
      → c.pool.lastfid + 1 < 2 ^ 32
      → Settled used held_file (create muxrpc junk path perm mode c)
  unfolding create
  create-Settled path perm mode c v room =
      Settled-first used held_file (split_path path) _ c v (λ d.
        walking-Settled held_file none
          (λ f. open_fid muxrpc junk f mode (create_request junk t_create f perm d.1 mode)) d.0 c v
          room (λ c' v'. v')
          (λ f c' v'. open_fid-Settled f mode (create_request junk t_create f perm d.1 mode) c' v'))

  stat_reply-Settled :
      (f : ℕ) (ret : Option VariantStorage) (c : Session S)
      → IsPool (f ∷ used) c.pool
      → Settled used (λ (s : Option Stat). f ∷ []) (stat_reply muxrpc junk ret c)
  unfolding stat_reply
  stat_reply-Settled f none c v = v
  stat_reply-Settled f (some reply) c v =
      Settled-bind used (λ r. f ∷ []) (λ s. f ∷ []) (lift (get_rstat reply)) _ c
        (Settled-lift used (f ∷ []) (get_rstat reply) c (omega arith) v)
        (λ r c' v'. Settled-lift used (f ∷ []) (read_stat junk r) c' (omega arith) v')

  stat_fid-Settled :
      (f : ℕ) (c : Session S)
      → IsPool (f ∷ used) c.pool
      → Settled used (λ (s : Option Stat). []) (stat_fid muxrpc junk f c)
  unfolding stat_fid fstat
  stat_fid-Settled f c v =
      Settled-bind used (λ s. f ∷ []) (λ s. []) (fstat muxrpc junk f) _ c
        (Settled-bind used (λ s. f ∷ []) (λ s. f ∷ []) (dofcall muxrpc junk _)
          (stat_reply muxrpc junk) c (dofcall-Settled muxrpc junk used (f ∷ []) _ c (omega arith) v)
          (stat_reply-Settled f))
        (λ s c' v'.
          Settled-bind used (λ u. []) (λ s. []) (clunk muxrpc junk f) _ c'
            (clunk-Settled muxrpc junk used f c' v') (λ u c'' v''. v''))

  -- On a pool in which every fid from 1 to _lastfid is either in use or free, and whatever the server
  -- answers: when stat returns, with a Stat or without, the pool is such a one with just the fids that
  -- were in use, so that the fid of its walk was given back. When it throws, it is such a one if at
  -- most one fid more counts as in use.
  pub stat-Settled :
      (path : Str) (c : Session S)
      → IsPool used c.pool
      → c.pool.lastfid + 1 < 2 ^ 32
      → Settled used (λ (s : Option Stat). []) (stat muxrpc junk path c)
  unfolding stat
  stat-Settled path c v room =
      walking-Settled (λ s. []) none (stat_fid muxrpc junk) path c v room (λ c' v'. v')
        stat_fid-Settled

  remove_fid-Settled :
      (f : ℕ) (c : Session S)
      → IsPool (f ∷ used) c.pool
      → Settled used (λ (b : Bool). []) (remove_fid muxrpc junk f c)
  unfolding remove_fid
  remove_fid-Settled f c v =
      Settled-bind used (λ b. f ∷ []) (λ b. []) (succeeds muxrpc junk _) _ c
        (succeeds-Settled muxrpc junk used (f ∷ []) _ c (omega arith) v)
        (λ b c' v'.
          Settled-bind used (λ u. []) (λ b. []) (put_fid muxrpc junk f) _ c'
            (put_fid-Settled muxrpc junk used f c' v') (λ u c'' v''. v''))

  -- The same of remove.
  pub remove-Settled :
      (path : Str) (c : Session S)
      → IsPool used c.pool
      → c.pool.lastfid + 1 < 2 ^ 32
      → Settled used (λ (b : Bool). []) (remove muxrpc junk path c)
  unfolding remove
  remove-Settled path c v room =
      walking-Settled (λ b. []) false (remove_fid muxrpc junk) path c v room (λ c' v'. v')
        remove_fid-Settled
