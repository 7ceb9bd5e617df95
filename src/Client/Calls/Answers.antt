-- ===== src/Client/Calls/Answers.antt =====
-- dofcall on a reply that comes.
use libixp.Base.{ℕ, ◌≡◌, ◌∙◌, ap, Option, some, true}
use libixp.Msg.{Result, ok}
use libixp.Fcall.Storage.{VariantStorage}
use libixp.Client.{check_reply}
use libixp.Client.Session.{Session, lift, then-eq}
use libixp.Client.Calls.{exchange, dofcall, succeeds}

module _ {S : Type 0} (muxrpc : VariantStorage → S → Result (Option VariantStorage) × S)
    (junk : ℕ) where
  pub dofcall-answer :
      (request : VariantStorage) {ret : Option VariantStorage} (c : Session S) {s : S}
      → muxrpc request c.world ≡ (ok ret, s)
      → dofcall muxrpc junk request c ≡ (check_reply request ret, record c { world = s })
  unfolding dofcall exchange
  dofcall-answer request {ret} c {s} e =
      then-eq (exchange muxrpc junk request) (λ r. lift (check_reply request r)) c
        (λ i. ((e i).0, record c { world = (e i).1 }))

  pub dofcall-reply :
      (request reply : VariantStorage) (c : Session S) {s : S}
      → muxrpc request c.world ≡ (ok (some reply), s)
      → check_reply request (some reply) ≡ ok (some reply)
      → dofcall muxrpc junk request c ≡ (ok (some reply), record c { world = s })
  dofcall-reply request reply c {s} e fine =
      dofcall-answer request c e ∙ ap (λ r. (r, record c { world = s })) fine

  pub succeeds-reply :
      (request reply : VariantStorage) (c : Session S) {s : S}
      → muxrpc request c.world ≡ (ok (some reply), s)
      → check_reply request (some reply) ≡ ok (some reply)
      → succeeds muxrpc junk request c ≡ (ok true, record c { world = s })
  unfolding succeeds
  succeeds-reply request reply c e fine =
      then-eq (dofcall muxrpc junk request) _ c (dofcall-reply request reply c e fine)
