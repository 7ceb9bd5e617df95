-- ===== src/Client/Mount/Version.antt =====
-- What mountfd makes of the answer to its version.
use libixp.Base.{ℕ, ◌≡◌, ◌∙◌, refl, Option, some, true}
use libixp.Types.{max_msg}
use libixp.Types.FType.{r_version, r_attach}
use libixp.Msg.{Result, ok}
use libixp.Msg.Fields.{Str}
use libixp.Fcall.{FVersion, FrOpen}
use libixp.Fcall.Retrieve.{get_version}
use libixp.Fcall.Storage.{VariantStorage, f_version, f_ropen}
use libixp.Client.{check_reply}
use libixp.Client.Session.{Session, ◌>>=◌, then-eq}
use libixp.Client.Calls.{succeeds}
use libixp.Client.Calls.Answers.{succeeds-reply}
use libixp.Client.Mount.{
  new_client, version_request, attach_request, accept_version, set_msize, attach, negotiate,
  mountfd,
}

module _ {S : Type 0} (muxrpc : VariantStorage → S → Result (Option VariantStorage) × S)
    (junk : ℕ) where
  -- The version that was sent is the one that is looked at.
  negotiated :
      (c : Session S)
      → negotiate muxrpc junk c ≡ (ok tt, record c { mintag = 0; maxtag = 255; msize = max_msg })
  unfolding negotiate accept_version set_msize get_version ◌>>=◌
  negotiated c = refl

  -- Whatever version and size the server answers to the TVersion, mountfd goes on with messages of
  -- 8192 bytes, and the mount succeeds when the attach does: the tests on the version look at the
  -- message that was sent.
  pub mountfd-ignores_version :
      (user : Str) (version : FVersion) (root : FrOpen) (s s' s'' : S)
      → version.hdr.type ≡ r_version
      → root.hdr.type ≡ r_attach
      → muxrpc (version_request junk) s ≡ (ok (some (f_version version)), s')
      → muxrpc (attach_request junk user) s' ≡ (ok (some (f_ropen root)), s'')
      → mountfd muxrpc junk (some user) (new_client junk s)
        ≡ (ok true, record (new_client junk s'') { mintag = 0; maxtag = 255; msize = max_msg })
  unfolding mountfd attach check_reply
  mountfd-ignores_version user version root s s' s'' vtype rtype answered attached =
      then-eq (succeeds muxrpc junk (version_request junk)) _ (new_client junk s) (
        succeeds-reply muxrpc junk (version_request junk) (f_version version) (new_client junk s)
          answered (rw vtype refl))
      ∙ then-eq (negotiate muxrpc junk) _ _ (negotiated _)
      ∙ succeeds-reply muxrpc junk (attach_request junk user) (f_ropen root) _ attached
          (rw rtype refl)
