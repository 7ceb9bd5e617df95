-- ===== src/Request.antt =====
-- The data of request.cc: fids, requests and the connection of a server. The locks, the debugging
-- hook printfcall and freefid are left out.
pub mod Reasons
pub mod Handle
pub mod Respond
use libixp.Base.{ℕ, Bool, true, false, List, [], ◌∷◌, ◌++◌, ◌==◌, if◌then◌else◌, Option, none, some}
use libixp.Qid.{Qid}
use libixp.Fcall.Storage.{VariantStorage, zero_qid}
use libixp.Request.Reasons.{Reason}

-- _omode is a signed char, kept as the byte that stands for it: 255 is -1.
pub record Fid : Type 0 where
  pub id : ℕ
  pub qid : Qid
  pub omode : ℕ
  pub iounit : ℕ

-- Which of the functions of Srv9 are set.
pub record Srv9 : Type 0 where
  pub has_clunk : Bool
  pub has_create : Bool
  pub has_flush : Bool
  pub has_open : Bool
  pub has_read : Bool
  pub has_remove : Bool
  pub has_stat : Bool
  pub has_walk : Bool
  pub has_write : Bool
  pub has_wstat : Bool

-- A function of Srv9 that is called with the request.
pub data Service : Type 0 where
  s_attach s_clunk s_create s_flush s_open s_read s_remove s_stat s_walk s_write s_wstat : Service

-- The pointers to fids are their ids, and the pointer to another request is its tag.
pub record Req9 : Type 0 where
  pub ifcall : VariantStorage
  pub ofcall : Option VariantStorage
  pub fid : Option ℕ
  pub newfid : Option ℕ
  pub oldreq : Option ℕ

-- `live` tells whether there is a Conn, and `sent` is what was sent on it.
pub record Conn9 : Type 0 where
  pub fids : List Fid
  pub tags : List (ℕ × Req9)
  pub srv : Srv9
  pub rmsg_size : ℕ
  pub live : Bool
  pub sent : List VariantStorage

-- What handle ends with: an answer, or the call of a function of the server.
pub data Step : Type 0 where
  answer : Option Reason → Step
  serve : Service → Step

-- retrieveFid.
unfoldable pub find_fid : ℕ → List Fid → Option Fid
find_fid id [] = none
find_fid id (f ∷ fs) = if f.id == id then some f else find_fid id fs

-- retrieveTag.
pub find_tag : ℕ → List (ℕ × Req9) → Option Req9
find_tag tag [] = none
find_tag tag ((t, r) ∷ rs) = if t == tag then some r else find_tag tag rs

-- Fid::Fid.
abbrev pub new_fid : ℕ → Fid
new_fid id = record { id = id; qid = zero_qid; omode = 255; iounit = 0 }

-- createfid: nothing if the id is in use.
unfoldable pub create_fid : ℕ → Conn9 → Option Conn9
create_fid id c = elim (find_fid id c.fids) [
  | some f ↦ none
  | none ↦ some (record c { fids = new_fid id ∷ c.fids })
]

-- A fid of the connection is replaced by the one of the same id.
pub set_fid : Fid → List Fid → List Fid
set_fid g [] = []
set_fid g (f ∷ fs) = let rest = set_fid g fs in if f.id == g.id then g ∷ rest else f ∷ rest
