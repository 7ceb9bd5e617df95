-- ===== src/Client/Calls/Failing.antt =====
-- Walks that end badly: one that the server refuses, and one to the root.
use libixp.Base.{
  ℕ, ◌≤◌, ◌≡◌, refl, ◌∙◌, ap, List, [], Option, some, arith, length, map, All, le→ltb_false,
}
use libixp.Types.{max_welem}
use libixp.Types.FType.{r_walk, r_error}
use libixp.Msg.{bad_access, exception, Result, ok, err}
use libixp.Msg.Fields.{Str}
use libixp.Fcall.{FrWalk}
use libixp.Fcall.Storage.{VariantStorage, f_rwalk, header_of}
use libixp.Fcall.Retrieve.{get_rwalk}
use libixp.Util.{tokenize, c_str}
use libixp.Util.Tokens.{tokenize-slashes}
use libixp.Client.{get_fid, check_reply}
use libixp.Client.Session.{Session, ◌>>=◌, then-eq, next}
use libixp.Client.Calls.Answers.{dofcall-answer}
use libixp.Client.Calls.{
  dofcall, take_fid, last_qid, walked, or_put_fid, walk_names, walk, walk_request,
}

check_reply-error :
    (request reply : VariantStorage)
    → (header_of reply).type ≡ r_error
    → check_reply request (some reply) ≡ err exception
unfolding check_reply
check_reply-error request reply e = rw e refl

module _ {S : Type 0} (muxrpc : VariantStorage → S → Result (Option VariantStorage) × S)
    (junk : ℕ) where
  -- The client after it has taken a fid and exchanged a message.
  abbrev pub after_exchange : Session S → S → Session S
  after_exchange c s = record c { pool = (get_fid c.pool).1; world = s }

  walk-short :
      (path : Str) (c : Session S)
      → length (tokenize path b'/') ≤ max_welem
      → walk muxrpc junk path c ≡ walk_names muxrpc junk (map c_str (tokenize path b'/')) c
  unfolding walk
  walk-short path c few = rw (le→ltb_false _ _ few) refl

  -- The reply of a walk, and what walk makes of it.
  walk_names-answer :
      (names : List Str) {ret : Option VariantStorage} (c : Session S) {s : S}
      → muxrpc (walk_request junk names (get_fid c.pool).0) c.world ≡ (ok ret, s)
      → walk_names muxrpc junk names c
        ≡ next
            (λ r.
              or_put_fid muxrpc junk
                (get_fid c.pool).0
                r
                (walked muxrpc junk (length names) (get_fid c.pool).0))
            (check_reply (walk_request junk names (get_fid c.pool).0) ret, after_exchange c s)
  unfolding walk_names take_fid
  walk_names-answer names c e =
      then-eq (take_fid muxrpc junk) _ c refl
      ∙ then-eq (dofcall muxrpc junk _) _ _
          (dofcall-answer muxrpc junk _ (record c { pool = (get_fid c.pool).1 }) e)

  -- The server answers a walk with an error: walk throws, and the fid that it had taken is not
  -- given back.
  pub walk-refused :
      (path : Str) (reply : VariantStorage) (c : Session S) (s : S)
      → length (tokenize path b'/') ≤ max_welem
      → muxrpc (walk_request junk (map c_str (tokenize path b'/')) (get_fid c.pool).0) c.world
        ≡ (ok (some reply), s)
      → (header_of reply).type ≡ r_error
      → walk muxrpc junk path c ≡ (err exception, after_exchange c s)
  walk-refused path reply c s few answer error =
      walk-short path c few
      ∙ walk_names-answer _ c answer
      ∙ rw (check_reply-error _ reply error) refl

  -- A walk to the root, that is to a path of slashes or an empty one: when the server answers as
  -- it should, walk reads the Qid before the first of the reply.
  pub walk-root :
      (path : Str) (reply : FrWalk) (c : Session S) (s : S)
      → All (λ b. b ≡ b'/') path
      → muxrpc (walk_request junk [] (get_fid c.pool).0) c.world ≡ (ok (some (f_rwalk reply)), s)
      → reply.hdr.type ≡ r_walk
      → walk muxrpc junk path c ≡ (err bad_access, after_exchange c s)
  unfolding or_put_fid walked get_rwalk last_qid check_reply ◌>>=◌
  walk-root path reply c s slashes answer type =
      let none_left = tokenize-slashes path slashes in
      walk-short path c (rw none_left (omega arith))
      ∙ ap (λ names. walk_names muxrpc junk (map c_str names) c) none_left
      ∙ walk_names-answer [] c answer
      ∙ rw (type, le→ltb_false reply.size 0 (omega arith)) refl
