-- ===== src/Fcall/Storage/Safety.antt =====
-- Fcall::packUnpack in Mode::Unpack on any bytes.
use libixp.Base.{
  ℕ, ◌+◌, ◌%◌, ◌^◌, ◌≤◌, ◌<◌, ◌≡◌, ◌≢◌, refl, ◌∙◌, ◌⊎◌, inl, inr, Option, none, some, Option-cases,
  arith, length, get_elem?,
}
use libixp.Types.{max_welem}
use libixp.Types.FType.{t_walk}
use libixp.Msg.{Mode, Msg, exception, ok, err, pure, throw, bind-ok, bind-err}
use libixp.Msg.Packs.{IsWithin}
use libixp.Msg.Reads.{Reads, Reads-bind, Reads-pure}
use libixp.Msg.Steps.{packing-no}
use libixp.Fcall.{FHdr}
use libixp.Fcall.Headers.{hdr-known}
use libixp.Fcall.Reads.{
  Reads-hdr, Reads-full_header, Reads-version, Reads-attach, Reads-rauth, Reads-ropen, Reads-tflush,
  Reads-error, Reads-rwalk, Reads-tcreate, Reads-io, Reads-rstat, Reads-twstat,
}
use libixp.Fcall.Storage.{
  VariantStorage, f_version, f_tflush, f_ropen, f_error, f_rauth, f_attach, f_tcreate, f_twalk,
  f_rwalk, f_twstat, f_rstat, f_io, f_hdr, f_full_header, blank_of, or_throw, visit_pack_unpack,
  pack_unpack_fcall, storage_for, blank_for_message, construct_blank_storage, get_pos, set_pos,
  tmp_header, indeterminate,
}

-- A structure whose loops stay within their arrays: those of pstrings do not.
abbrev IsRoomy : VariantStorage → Type 0
IsRoomy (f_twalk f) = ⊥
IsRoomy (f_rwalk f) = max_welem ≤ length f.wqid
IsRoomy (f_version f) = Unit {0}
IsRoomy _ = Unit {0}

Reads-visit : (s : VariantStorage) → IsRoomy s → Reads (visit_pack_unpack s)
unfolding visit_pack_unpack
Reads-visit (f_version f) r = Reads-bind _ _ (Reads-version f) (λ f'. Reads-pure _)
Reads-visit (f_tflush f) r = Reads-bind _ _ (Reads-tflush f) (λ f'. Reads-pure _)
Reads-visit (f_ropen f) r = Reads-bind _ _ (Reads-ropen f) (λ f'. Reads-pure _)
Reads-visit (f_error f) r = Reads-bind _ _ (Reads-error f) (λ f'. Reads-pure _)
Reads-visit (f_rauth f) r = Reads-bind _ _ (Reads-rauth f) (λ f'. Reads-pure _)
Reads-visit (f_attach f) r = Reads-bind _ _ (Reads-attach f) (λ f'. Reads-pure _)
Reads-visit (f_tcreate f) r = Reads-bind _ _ (Reads-tcreate f) (λ f'. Reads-pure _)
Reads-visit (f_twalk f) r = absurd r
Reads-visit (f_rwalk f) r = Reads-bind _ _ (Reads-rwalk f r) (λ f'. Reads-pure _)
Reads-visit (f_twstat f) r = Reads-bind _ _ (Reads-twstat f) (λ f'. Reads-pure _)
Reads-visit (f_rstat f) r = Reads-bind _ _ (Reads-rstat f) (λ f'. Reads-pure _)
Reads-visit (f_io f) r = Reads-bind _ _ (Reads-io f) (λ f'. Reads-pure _)
Reads-visit (f_hdr h) r = Reads-bind _ _ (Reads-hdr h) (λ h'. Reads-pure _)
Reads-visit (f_full_header h) r = Reads-bind _ _ (Reads-full_header h) (λ h'. Reads-pure _)

IsRoomyIfAny : Option VariantStorage → Type 0
IsRoomyIfAny none = Unit {0}
IsRoomyIfAny (some s) = IsRoomy s

IsRoomyIfAny-some : (s : VariantStorage) → IsRoomyIfAny (some s) → IsRoomy s
unfolding IsRoomyIfAny
IsRoomyIfAny-some s r = r

blank-IsRoomy : (type : ℕ) (h : FHdr) → type ≢ t_walk → IsRoomyIfAny (blank_of type h)
unfolding blank_of IsRoomyIfAny
blank-IsRoomy type h walk = ground arith

-- Which types have a structure does not depend on the header that goes into it.
pub blank_of-none : (type : ℕ) (h h' : FHdr) → blank_of type h ≡ none → blank_of type h' ≡ none
unfolding blank_of
blank_of-none type h h' e = ground arith

-- The structure that is read, when the byte at the position says its type.
pub fcall-known :
    (m : Msg) (type : ℕ)
    → IsWithin m
    → m.mode ≡ Mode.unpack
    → m.pos + 1 ≤ m.end
    → type < 2 ^ 8
    → get_elem? m.buffer m.pos ≡ some (type % 256)
    → type ≢ t_walk
    → (((h : FHdr) → blank_of type h ≡ none)
        × (pack_unpack_fcall (record { storage = none }) m ≡ err exception))
      ⊎ (((h : FHdr) → blank_of type h ≢ none)
          × ((s : VariantStorage) × (q : ℕ) × (pack_unpack_fcall (record { storage = none }) m
                ≡ ok (record { storage = some s }, record m { pos = q }))))
unfolding pack_unpack_fcall storage_for blank_for_message construct_blank_storage get_pos tmp_header
    set_pos pure throw
fcall-known m type w p room small at walk =
    let (tag, q, e) = hdr-known m type (indeterminate m.uninit) w p room small at in
    let hdr : FHdr = record (indeterminate m.uninit) { type = type; tag = tag } in
    let start : blank_for_message m ≡ or_throw (blank_of type hdr) m =
      bind-ok get_pos _ m refl
      ∙ bind-ok tmp_header _ m refl
      ∙ bind-ok _ _ m e
      ∙ bind-ok (set_pos m.pos) _ _ refl in
    elim (Option-cases (blank_of type hdr)) [
      | inl missing ↦ inl (
        λ h. blank_of-none type hdr h missing,
        bind-ok _ _ m (packing-no m p) ∙ bind-err _ _ m (start ∙ rw missing refl),
      )
      | inr (s, some_s) ↦
          let roomy : IsRoomy s =
            IsRoomyIfAny-some s (rw some_s at (blank-IsRoomy type hdr walk)) in
          let (s', q', e') = (Reads-visit s roomy).run m w p in
          inr (
            λ h no. cc (some_s, blank_of-none type h hdr no),
            (
              s',
              q',
              bind-ok _ _ m (packing-no m p)
                  ∙ bind-ok _ _ m (start ∙ rw some_s refl)
                  ∙ bind-ok _ _ m e',
            ),
          )
    ]
