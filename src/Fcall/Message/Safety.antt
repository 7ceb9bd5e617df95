-- ===== src/Fcall/Message/Safety.antt =====
-- Msg::unpack on any bytes: it keeps to the buffer, whatever they are.
use libixp.Base.{
  ℕ, ◌%◌, ◌^◌, ◌≤◌, ◌<◌, ◌≡◌, ◌≢◌, refl, ◌∙◌, ◌⊎◌, inl, inr, none, some, arith, length, get_elem?,
  ltb, if◌then◌else◌,
}
use libixp.Types.FType.{t_walk}
use libixp.Msg.{Mode, Msg, terminated, ok, err, pure, bind-ok, bind-err}
use libixp.Fcall.{FHdr}
use libixp.Fcall.Storage.{VariantStorage, blank_of, get_pos, set_pos}
use libixp.Fcall.Storage.Safety.{fcall-known}
use libixp.Fcall.Message.{unpack_msg, set_mode, get_end, pfcall-ok, pfcall-terminated}
use libixp.Fcall.Message.RoundTrip.{blank_fcall}

-- Of a message whose type is not TWalk, unpack reads nothing outside of its buffer and changes
-- nothing in it, whatever the bytes are. If there is no structure for the type, the exception of
-- constructBlankStorage leaves the noexcept packUnpack and ends the program; if there is one,
-- unpack returns, with a structure, the new position and a size that is not above _end.
pub unpack-safe :
    (m : Msg) (type : ℕ)
    → m.end ≤ length m.buffer
    → 5 ≤ m.end
    → type < 2 ^ 8
    → get_elem? m.buffer 4 ≡ some type
    → type ≢ t_walk
    → (((h : FHdr) → blank_of type h ≡ none) × (unpack_msg blank_fcall m ≡ err terminated))
      ⊎ (((h : FHdr) → blank_of type h ≢ none)
          × ((n : ℕ) × (s : VariantStorage) × (q : ℕ) × (unpack_msg blank_fcall m
                ≡ ok ((n, record { storage = some s }), record m { pos = q; mode = Mode.unpack }))
              × (n ≤ m.end)))
unfolding unpack_msg set_mode set_pos get_pos get_end pure
unpack-safe m type w room small at walk =
    let e8 : type % 2 ^ 8 ≡ type = omega arith in
    elim (fcall-known (record m { pos = 4; mode = Mode.unpack }) type w refl room small (rw e8 at)
      walk) [
        | inl (unknown, e) ↦ inl (
          unknown,
          bind-ok (set_pos 4) _ m refl
              ∙ bind-ok (set_mode Mode.unpack) _ _ refl
              ∙ bind-err _ _ _ (pfcall-terminated _ _ e),
        )
        | inr (known, (s, q, e)) ↦
            let e' : unpack_msg blank_fcall m
                ≡ ok (
                  (if ltb m.end q then 0 else q, record { storage = some s }),
                  record m { pos = q; mode = Mode.unpack },
                ) =
              bind-ok (set_pos 4) _ m refl
              ∙ bind-ok (set_mode Mode.unpack) _ _ refl
              ∙ bind-ok _ _ _ (pfcall-ok _ _ _ _ e)
              ∙ bind-ok get_pos _ _ refl
              ∙ bind-ok get_end _ _ refl in
            inr (known, (_, s, q, e', ground arith))
      ]
