-- ===== src/Request/Respond/Replies.antt =====
-- What respond answers, and when it does not come to an answer.
use libixp.Base.{
  ℕ, zero, suc, ◌≡◌, refl, inl, inr, Bool-cases, List, ◌==◌, Option, none, some, Option-cases,
}
use libixp.Types.FType.{t_write, t_remove}
use libixp.Msg.{exception, Result, ok, err}
use libixp.Fcall.{FHdr, Fio}
use libixp.Fcall.Storage.{
  VariantStorage, f_version, f_tflush, f_ropen, f_error, f_rauth, f_attach, f_tcreate, f_twalk,
  f_rwalk, f_twstat, f_rstat, f_io, f_hdr, f_full_header, new_fcall, construct_blank_storage,
  blank_of,
}
use libixp.Request.Reasons.{Reason, interrupted}
use libixp.Request.{Fid, Req9, Conn9, find_tag}
use libixp.Request.Respond.{
  prepare_version, prepare_attach, prepare_tcreate, prepare_twalk, prepare_io, prepare_full_header,
  prepare_twstat, prepare, finish, finish_prepared, respond,
}

-- respond does not return: it throws, reads through a null pointer, or goes on for ever.
abbrev pub NeverReturns : {A : Type 0} → Option (Result A) → Type 0
NeverReturns none = Unit {0}
NeverReturns (some (err x)) = Unit {0}
NeverReturns (some (ok p)) = ⊥

module _ (remove_fid : ℕ → List Fid → List Fid) (remove_tag : ℕ → List (ℕ × Req9) → List (ℕ × Req9))
    (deliver : VariantStorage → Conn9 → Result Conn9) where
  prepared-NeverReturns :
      (junk : ℕ) (e : Option Reason) (s : VariantStorage) (r : Req9) (fid : Option ℕ) (c : Conn9)
      → NeverReturns (
          some (
            finish_prepared remove_fid remove_tag deliver junk (
              prepare remove_fid remove_tag deliver e
                (record r { ifcall = s; ofcall = none; fid = fid })
                c)))
  unfolding prepare prepare_version prepare_attach prepare_tcreate prepare_twalk prepare_io
      prepare_full_header prepare_twstat finish
  prepared-NeverReturns junk none (f_version v) r fid c = tt
  prepared-NeverReturns junk (some e) (f_version v) r fid c = tt
  prepared-NeverReturns junk none (f_attach a) r fid c = tt
  prepared-NeverReturns junk (some e) (f_attach a) r none c = tt
  prepared-NeverReturns junk (some e) (f_attach a) r (some id) c = tt
  prepared-NeverReturns junk none (f_tcreate t) r fid c = tt
  prepared-NeverReturns junk (some e) (f_tcreate t) r fid c = tt
  prepared-NeverReturns junk none (f_twalk w) r fid c = tt
  prepared-NeverReturns junk (some e) (f_twalk w) r fid c = tt
  prepared-NeverReturns junk e (f_io f) r fid c = elim (Bool-cases (f.hdr.type == t_write)) [
    | inl h ↦ rw h tt
    | inr h ↦ rw h tt
  ]
  prepared-NeverReturns junk e (f_full_header h) r fid c = tt
  prepared-NeverReturns junk e (f_twstat w) r fid c = tt
  prepared-NeverReturns junk none (f_tflush f) r fid c = tt
  prepared-NeverReturns junk (some e) (f_tflush f) r fid c = tt
  prepared-NeverReturns junk none (f_ropen f) r fid c = tt
  prepared-NeverReturns junk (some e) (f_ropen f) r fid c = tt
  prepared-NeverReturns junk none (f_error f) r fid c = tt
  prepared-NeverReturns junk (some e) (f_error f) r fid c = tt
  prepared-NeverReturns junk none (f_rauth f) r fid c = tt
  prepared-NeverReturns junk (some e) (f_rauth f) r fid c = tt
  prepared-NeverReturns junk none (f_rwalk f) r fid c = tt
  prepared-NeverReturns junk (some e) (f_rwalk f) r fid c = tt
  prepared-NeverReturns junk none (f_rstat f) r fid c = tt
  prepared-NeverReturns junk (some e) (f_rstat f) r fid c = tt
  prepared-NeverReturns junk none (f_hdr f) r fid c = tt
  prepared-NeverReturns junk (some e) (f_hdr f) r fid c = tt

  -- A flush of a request that is answered, or not.
  flush-NeverReturns :
      (junk tag : ℕ) (e : Option Reason) (r : Req9) (o : Option (Result (Req9 × Conn9)))
      → NeverReturns (elim o [
        | none ↦ none
        | some (err x) ↦ some (err x)
        | some (ok (old', c')) ↦ some (
            finish remove_fid remove_tag deliver junk e
              (record r { ofcall = none; oldreq = some tag })
              c')
      ])
  unfolding finish
  flush-NeverReturns junk tag e r none = tt
  flush-NeverReturns junk tag e r (some (err x)) = tt
  flush-NeverReturns junk tag e r (some (ok (old', c'))) = tt

  visit-NeverReturns :
      (fuel junk : ℕ) (e : Option Reason) (s : VariantStorage) (r : Req9) (c : Conn9)
      → NeverReturns (
          respond remove_fid remove_tag deliver
            (suc fuel)
            junk
            e
            (record r { ifcall = s; ofcall = none })
            c)
  unfolding respond finish
  visit-NeverReturns fuel junk e (f_version f) r c =
      prepared-NeverReturns junk e (f_version f) r r.fid c
  visit-NeverReturns fuel junk e (f_ropen f) r c =
      prepared-NeverReturns junk e (f_ropen f) r r.fid c
  visit-NeverReturns fuel junk e (f_error f) r c =
      prepared-NeverReturns junk e (f_error f) r r.fid c
  visit-NeverReturns fuel junk e (f_rauth f) r c =
      prepared-NeverReturns junk e (f_rauth f) r r.fid c
  visit-NeverReturns fuel junk e (f_attach f) r c =
      prepared-NeverReturns junk e (f_attach f) r r.fid c
  visit-NeverReturns fuel junk e (f_tcreate f) r c =
      prepared-NeverReturns junk e (f_tcreate f) r r.fid c
  visit-NeverReturns fuel junk e (f_twalk f) r c =
      prepared-NeverReturns junk e (f_twalk f) r r.fid c
  visit-NeverReturns fuel junk e (f_rwalk f) r c =
      prepared-NeverReturns junk e (f_rwalk f) r r.fid c
  visit-NeverReturns fuel junk e (f_twstat f) r c =
      prepared-NeverReturns junk e (f_twstat f) r r.fid c
  visit-NeverReturns fuel junk e (f_rstat f) r c =
      prepared-NeverReturns junk e (f_rstat f) r r.fid c
  visit-NeverReturns fuel junk e (f_io f) r c = prepared-NeverReturns junk e (f_io f) r r.fid c
  visit-NeverReturns fuel junk e (f_hdr f) r c = prepared-NeverReturns junk e (f_hdr f) r r.fid c
  visit-NeverReturns fuel junk e (f_full_header f) r c =
      prepared-NeverReturns junk e (f_full_header f) r r.fid c
  visit-NeverReturns fuel junk e (f_tflush f) r c = elim (Option-cases (find_tag f.oldtag c.tags)) [
    | inl missing ↦ rw (respond, missing) tt
    | inr (old, there) ↦
        rw (respond, there)
          (flush-NeverReturns junk f.oldtag e (record r { ifcall = f_tflush f })
            (respond remove_fid remove_tag deliver fuel junk (some interrupted) old c))
  ]

  -- A request whose reply was never filled is not answered, be it with an error or not: respond
  -- does not return, since it sets the tag of a reply that is not there.
  pub respond-unfilled :
      (fuel junk : ℕ) (e : Option Reason) (r : Req9) (c : Conn9)
      → NeverReturns
          (respond remove_fid remove_tag deliver fuel junk e (record r { ofcall = none }) c)
  unfolding respond
  respond-unfilled zero junk e r c = tt
  respond-unfilled (suc fuel) junk e r c = visit-NeverReturns fuel junk e r.ifcall r c

  -- The data that the server put into the reply of a TRead, or the count of a TWrite, do not
  -- matter: whatever the reply was filled with, the same message is sent.
  pub respond-ignores_data :
      (fuel junk : ℕ) (f : Fio) (o o' : VariantStorage) (r : Req9) (c : Conn9)
      → respond remove_fid remove_tag deliver
          (suc fuel)
          junk
          none
          (record r { ifcall = f_io f; ofcall = some o })
          c
        ≡ respond remove_fid remove_tag deliver
            (suc fuel)
            junk
            none
            (record r { ifcall = f_io f; ofcall = some o' })
            c
  unfolding respond prepare prepare_io finish
  respond-ignores_data fuel junk f o o' r c = elim (Bool-cases (f.hdr.type == t_write)) [
    | inl h ↦ rw h refl
    | inr h ↦ rw h refl
  ]

  -- A TRemove that the server carried out is not answered: respond throws, as there is no structure
  -- for an RRemove.
  pub respond-removed :
      (fuel junk : ℕ) (h : FHdr) (r : Req9) (c : Conn9)
      → respond remove_fid remove_tag deliver
          (suc fuel)
          junk
          none
          (record r { ifcall = f_full_header (record h { type = t_remove }) })
          c
        ≡ some (err exception)
  unfolding respond prepare prepare_full_header finish new_fcall construct_blank_storage blank_of
  respond-removed fuel junk h r c = elim (Option-cases r.ofcall) [
    | inl missing ↦ rw missing refl
    | inr (o, there) ↦ rw there refl
  ]
