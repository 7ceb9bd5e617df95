-- ===== src/Client/Calls/Pool.antt =====
-- The fids that walk takes: which of them are in use, given back or lost when a call ends.
use libixp.Base.{
  ℕ, ◌+◌, ◌^◌, ◌≤◌, ◌<◌, List, [], ◌∷◌, ◌++◌, Option, none, some, arith, length, ltb, map,
  if◌then◌else◌, Bool, Bool-cases, inl, inr,
}
use libixp.Types.{max_welem}
use libixp.Msg.{exception, Result, ok, err}
use libixp.Msg.Fields.{Str}
use libixp.Qid.{Qid}
use libixp.Fcall.Storage.{VariantStorage}
use libixp.Fcall.Retrieve.{get_rwalk}
use libixp.Util.{tokenize, c_str}
use libixp.Client.{check_reply}
use libixp.Client.Fids.{IsPool, get_fid-IsPool, putfid-IsPool}
use libixp.Client.Session.{Session, Call, lift, ◌>>=◌}
use libixp.Client.Calls.{
  exchange, dofcall, take_fid, put_fid, succeeds, clunk, last_qid, walked, or_put_fid, walk_names,
  walk, walk_request,
}

-- The fid of a walk that gave one.
abbrev pub held_walk : Option (ℕ × Qid) → List ℕ
held_walk none = []
held_walk (some (f, q)) = f ∷ []

module _ {S : Type 0} where
  -- What a call leaves of the fids. When it returns, those in use are the ones that were and those
  -- that its result holds, and every other one up to _lastfid is free; when it throws, at most one
  -- more is lost: neither in use nor free.
  abbrev pub Settled : {A : Type 0} → List ℕ → (A → List ℕ) → Result A × Session S → Type 0
  Settled used held (ok a, c) = IsPool (held a ++ used) c.pool
  Settled used held (err e, c) = (lost : List ℕ) × (length lost ≤ 1) × IsPool (lost ++ used) c.pool

  bind_cases :
      {A B : Type 0} (used : List ℕ) (held : A → List ℕ) (held' : B → List ℕ)
      (x : Result A × Session S) (f : A → Call S B)
      → Settled used held x
      → ((a : A) (c : Session S) → IsPool (held a ++ used) c.pool → Settled used held' (f a c))
      → Settled used held' (elim x.0 [ ok a ↦ f a x.1 | err e ↦ (err e, x.1) ])
  bind_cases used held held' (ok a, c) f h k = k a c h
  bind_cases used held held' (err e, c) f h k = h

  pub Settled-bind :
      {A B : Type 0} (used : List ℕ) (held : A → List ℕ) (held' : B → List ℕ) (m : Call S A)
      (f : A → Call S B) (c : Session S)
      → Settled used held (m c)
      → ((a : A) (c : Session S) → IsPool (held a ++ used) c.pool → Settled used held' (f a c))
      → Settled used held' ((m >>= f) c)
  unfolding ◌>>=◌
  Settled-bind used held held' m f c h k = bind_cases used held held' (m c) f h k

  -- A step that leaves the fids alone, while those of `mine` are held.
  pub Settled-lift :
      {A : Type 0} (used mine : List ℕ) (r : Result A) (c : Session S)
      → length mine ≤ 1
      → IsPool (mine ++ used) c.pool
      → Settled used (λ (a : A). mine) (lift r c)
  Settled-lift used mine (ok a) c few v = v
  Settled-lift used mine (err e) c few v = (mine, few, v)

  -- A value computed without the client, before anything is taken.
  pub Settled-first :
      {A B : Type 0} (used : List ℕ) (held : B → List ℕ) (r : Result A) (f : A → Call S B)
      (c : Session S)
      → IsPool used c.pool
      → ((a : A) → Settled used held (f a c))
      → Settled used held ((lift r >>= f) c)
  unfolding ◌>>=◌
  Settled-first used held (ok a) f c v k = k a
  Settled-first used held (err e) f c v k = ([], omega arith, v)

  module _ (muxrpc : VariantStorage → S → Result (Option VariantStorage) × S) (junk : ℕ)
      (used : List ℕ) where
    pub dofcall-Settled :
        (mine : List ℕ) (request : VariantStorage) (c : Session S)
        → length mine ≤ 1
        → IsPool (mine ++ used) c.pool
        → Settled used (λ (r : Option VariantStorage). mine) (dofcall muxrpc junk request c)
    unfolding dofcall exchange
    dofcall-Settled mine request c few v =
        Settled-bind used (λ r. mine) (λ r. mine) (exchange muxrpc junk request)
          (λ ret. lift (check_reply request ret)) c
          (Settled-lift used mine (muxrpc request c.world).0
            (record c { world = (muxrpc request c.world).1 }) few v)
          (λ ret c' v'. Settled-lift used mine (check_reply request ret) c' few v')

    pub succeeds-Settled :
        (mine : List ℕ) (request : VariantStorage) (c : Session S)
        → length mine ≤ 1
        → IsPool (mine ++ used) c.pool
        → Settled used (λ (b : Bool). mine) (succeeds muxrpc junk request c)
    unfolding succeeds
    succeeds-Settled mine request c few v =
        Settled-bind used (λ r. mine) (λ b. mine) (dofcall muxrpc junk request) _ c
          (dofcall-Settled mine request c few v) (λ ret c' v'. v')

    pub put_fid-Settled :
        (f : ℕ) (c : Session S)
        → IsPool (f ∷ used) c.pool
        → Settled used (λ (u : Unit {0}). []) (put_fid muxrpc junk f c)
    unfolding put_fid
    put_fid-Settled f c v = putfid-IsPool f [] used c.pool v

    pub clunk-Settled :
        (f : ℕ) (c : Session S)
        → IsPool (f ∷ used) c.pool
        → Settled used (λ (u : Unit {0}). []) (clunk muxrpc junk f c)
    unfolding clunk
    clunk-Settled f c v =
        Settled-bind used (λ b. f ∷ []) (λ u. []) (succeeds muxrpc junk _) _ c
          (succeeds-Settled (f ∷ []) _ c (omega arith) v) (λ b c' v'. put_fid-Settled f c' v')

    walked-Settled :
        (n f : ℕ) (reply : VariantStorage) (c : Session S)
        → IsPool (f ∷ used) c.pool
        → Settled used held_walk (walked muxrpc junk n f reply c)
    unfolding walked
    walked-Settled n f reply c v =
        Settled-bind used (λ w. f ∷ []) held_walk (lift (get_rwalk reply)) _ c
          (Settled-lift used (f ∷ []) (get_rwalk reply) c (omega arith) v)
          (λ w c' v'.
            Settled-bind used (λ q. f ∷ []) held_walk
              (lift (if ltb w.size n then err exception else last_qid n w.wqid)) _ c'
              (Settled-lift used (f ∷ []) _ c' (omega arith) v') (λ q c'' v''. v''))

    walk_reply-Settled :
        (n f : ℕ) (ret : Option VariantStorage) (c : Session S)
        → IsPool (f ∷ used) c.pool
        → Settled used held_walk (or_put_fid muxrpc junk f ret (walked muxrpc junk n f) c)
    unfolding or_put_fid
    walk_reply-Settled n f none c v =
        Settled-bind used (λ u. []) held_walk (put_fid muxrpc junk f) _ c (put_fid-Settled f c v)
          (λ u c' v'. v')
    walk_reply-Settled n f (some reply) c v = walked-Settled n f reply c v

    walk_names-Settled :
        (names : List Str) (c : Session S)
        → IsPool used c.pool
        → c.pool.lastfid + 1 < 2 ^ 32
        → Settled used held_walk (walk_names muxrpc junk names c)
    unfolding walk_names take_fid
    walk_names-Settled names c v room =
        Settled-bind used (λ f. f ∷ []) held_walk (take_fid muxrpc junk) _ c
          (get_fid-IsPool used c.pool v room).1
          (λ f c' v'.
            Settled-bind used (λ r. f ∷ []) held_walk
              (dofcall muxrpc junk (walk_request junk names f)) _ c'
              (dofcall-Settled (f ∷ []) _ c' (omega arith) v')
              (λ ret c'' v''. walk_reply-Settled (length names) f ret c'' v''))

    -- Whatever the server answers: when walk returns a file, its fid was not in use, and it is in
    -- use now; when it returns none, the fids in use are those that were. When it throws, one more
    -- may be in use that nobody has. Every other fid up to _lastfid is free.
    pub walk-Settled :
        (path : Str) (c : Session S)
        → IsPool used c.pool
        → c.pool.lastfid + 1 < 2 ^ 32
        → Settled used held_walk (walk muxrpc junk path c)
    unfolding walk
    walk-Settled path c v room = elim (Bool-cases (ltb max_welem (length (tokenize path b'/')))) [
      | inl long ↦ rw long ([], omega arith, v)
      | inr short ↦ rw short (walk_names-Settled (map c_str (tokenize path b'/')) c v room)
    ]
