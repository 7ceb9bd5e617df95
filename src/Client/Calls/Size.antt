-- ===== src/Client/Calls/Size.antt =====
-- The calls of a client keep the size of its messages.
use libixp.Base.{ℕ, ◌≡◌, Option, none, some, length, ltb, if◌then◌else◌, Bool-cases, inl, inr}
use libixp.Types.{max_welem}
use libixp.Msg.{exception, Result, ok, err}
use libixp.Msg.Fields.{Str}
use libixp.Fcall.Storage.{VariantStorage}
use libixp.Fcall.Retrieve.{get_rwalk}
use libixp.Util.{tokenize}
use libixp.Client.{check_reply}
use libixp.Client.Session.{Session, Call, lift, next, ◌>>=◌}
use libixp.Client.Calls.{
  last_qid, exchange, dofcall, take_fid, put_fid, succeeds, clunk, walked, or_put_fid, walk_names,
  walk,
}

abbrev pub Any : {A : Type 0} → A → Type 0
Any a = Unit {0}

module _ {S : Type 0} (msize : ℕ) where
  -- A call that keeps _msize, and whose result, where it returns, is one of Q.
  abbrev pub Gives : {A : Type 0} → (A → Type 0) → Result A × Session S → Type 0
  Gives Q (ok a, c) = (c.msize ≡ msize) × Q a
  Gives Q (err e, c) = Unit {0}

  next-Gives :
      {A B : Type 0} (P : A → Type 0) (Q : B → Type 0) (f : A → Call S B) (x : Result A × Session S)
      → Gives P x
      → ((a : A) (c : Session S) → c.msize ≡ msize → P a → Gives Q (f a c))
      → Gives Q (next f x)
  next-Gives P Q f (ok a, c) h k = k a c h.0 h.1
  next-Gives P Q f (err e, c) h k = tt

  pub Gives-bind :
      {A B : Type 0} (P : A → Type 0) (Q : B → Type 0) (m : Call S A) (f : A → Call S B)
      (c : Session S)
      → Gives P (m c)
      → ((a : A) (c : Session S) → c.msize ≡ msize → P a → Gives Q (f a c))
      → Gives Q ((m >>= f) c)
  unfolding ◌>>=◌
  Gives-bind P Q m f c h k = next-Gives P Q f (m c) h k

  pub Gives-lift :
      {A : Type 0} (r : Result A) (c : Session S) → c.msize ≡ msize → Gives Any (lift r c)
  Gives-lift (ok a) c e = (e, tt)
  Gives-lift (err x) c e = tt

  module _ (muxrpc : VariantStorage → S → Result (Option VariantStorage) × S) (junk : ℕ) where
    pub dofcall-Gives :
        (request : VariantStorage) (c : Session S)
        → c.msize ≡ msize
        → Gives Any (dofcall muxrpc junk request c)
    unfolding dofcall exchange
    dofcall-Gives request c e =
        Gives-bind Any Any (exchange muxrpc junk request) _ c
          (Gives-lift (muxrpc request c.world).0 (record c { world = (muxrpc request c.world).1 })
            e)
          (λ ret c' e' _. Gives-lift (check_reply request ret) c' e')

    succeeds-Gives :
        (request : VariantStorage) (c : Session S)
        → c.msize ≡ msize
        → Gives Any (succeeds muxrpc junk request c)
    unfolding succeeds
    succeeds-Gives request c e =
        Gives-bind Any Any (dofcall muxrpc junk request) _ c (dofcall-Gives request c e)
          (λ ret c' e' _. (e', tt))

    pub clunk-Gives : (f : ℕ) (c : Session S) → c.msize ≡ msize → Gives Any (clunk muxrpc junk f c)
    unfolding clunk put_fid
    clunk-Gives f c e =
        Gives-bind Any Any (succeeds muxrpc junk _) _ c (succeeds-Gives _ c e)
          (λ b c' e' _. (e', tt))

    walked-Gives :
        (n f : ℕ) (reply : VariantStorage) (c : Session S)
        → c.msize ≡ msize
        → Gives Any (walked muxrpc junk n f reply c)
    unfolding walked
    walked-Gives n f reply c e =
        Gives-bind Any Any (lift (get_rwalk reply)) _ c (Gives-lift (get_rwalk reply) c e)
          (λ w c' e' _.
            Gives-bind Any Any (lift (if ltb w.size n then err exception else last_qid n w.wqid)) _
              c' (Gives-lift _ c' e') (λ q c'' e'' _. (e'', tt)))

    walk_reply-Gives :
        (n f : ℕ) (ret : Option VariantStorage) (c : Session S)
        → c.msize ≡ msize
        → Gives Any (or_put_fid muxrpc junk f ret (walked muxrpc junk n f) c)
    unfolding or_put_fid put_fid
    walk_reply-Gives n f none c e =
        Gives-bind Any Any (put_fid muxrpc junk f) _ c (e, tt) (λ u c' e' _. (e', tt))
    walk_reply-Gives n f (some reply) c e = walked-Gives n f reply c e

    pub walk-Gives :
        (path : Str) (c : Session S) → c.msize ≡ msize → Gives Any (walk muxrpc junk path c)
    unfolding walk walk_names take_fid
    walk-Gives path c e = elim (Bool-cases (ltb max_welem (length (tokenize path b'/')))) [
      | inl long ↦ rw long tt
      | inr short ↦ rw short (
          Gives-bind Any Any (take_fid muxrpc junk) _ c (e, tt)
            (λ f c' e' _.
              Gives-bind Any Any (dofcall muxrpc junk _) _ c' (dofcall-Gives _ c' e')
                (λ ret c'' e'' _. walk_reply-Gives _ f ret c'' e'')))
    ]
