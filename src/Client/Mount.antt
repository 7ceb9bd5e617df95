-- ===== src/Client/Mount.antt =====
-- client.cc: mountfd, on a connection that is there.
pub mod Version
use libixp.Base.{
  ℕ, ◌+◌, ◌%◌, ◌^◌, Bool, true, false, not, List, [], ◌||◌, ltb, if◌then◌else◌, Option, none, some,
}
use libixp.Types.{max_msg, no_tag, no_fid, version_9p2000}
use libixp.Types.FType.{t_version, t_attach}
use libixp.Msg.{bad_access, exception, Result, ok, err}
use libixp.Msg.Fields.{Str}
use libixp.Fcall.{FVersion}
use libixp.Fcall.Storage.{VariantStorage, f_version, f_attach, indeterminate}
use libixp.Fcall.Retrieve.{get_version}
use libixp.Request.Handle.{same_bytes}
use libixp.Client.Session.{Session, Call, pure, lift, ◌>>=◌, ◌>>◌}
use libixp.Client.Calls.{root_fid, request_header, succeeds}

-- The client as it is when the first message is sent: tags are not matched.
abbrev pub new_client : {S : Type 0} → (junk : ℕ) → S → Session S
new_client junk s = record {
  pool = record { lastfid = root_fid; freefid = [] };
  msize = junk % 2 ^ 32;
  mintag = no_tag;
  maxtag = no_tag + 1;
  world = s;
}

-- The type is set, and tag and fid are not.
abbrev pub version_request : (junk : ℕ) → VariantStorage
version_request junk = f_version (record {
  hdr = record (indeterminate junk) { type = t_version };
  size = max_msg;
  version = version_9p2000;
})

-- The test behind the exchange. It looks at the message that was sent.
pub accept_version : FVersion → Result ℕ
accept_version v =
    if not (same_bytes v.version version_9p2000) || ltb max_msg v.size
    then err exception
    else ok v.size

abbrev pub attach_request : (junk : ℕ) → Str → VariantStorage
attach_request junk user = f_attach (record {
  hdr = request_header junk t_attach root_fid;
  afid = no_fid;
  uname = user;
  aname = [];
})

module _ {S : Type 0} (muxrpc : VariantStorage → S → Result (Option VariantStorage) × S)
    (junk : ℕ) where
  pub set_msize : ℕ → Call S (Unit {0})
  set_msize size c = (ok tt, record c { mintag = 0; maxtag = 255; msize = size })

  -- The attach; getenv gives a null pointer where $USER is not set.
  pub attach : Option Str → Call S Bool
  attach none = lift (err bad_access)
  attach (some user) = succeeds muxrpc junk (attach_request junk user)

  pub negotiate : Call S (Unit {0})
  unfolding accept_version set_msize
  negotiate = do
    v ← lift (get_version (version_request junk))
    size ← lift (accept_version v)
    set_msize size

  -- mountfd: false where the source returns a null pointer.
  pub mountfd : Option Str → Call S Bool
  unfolding attach negotiate
  mountfd user = do
    answered ← succeeds muxrpc junk (version_request junk)
    if answered then (do negotiate; attach user) else pure false
