-- ===== src/Tests/Safety.antt =====
-- Messages of bytes that no writer made.
use libixp.Base.{ℕ, ◌≤◌, ◌≡◌, ◌≢◌, refl, ◌⊎◌, none, some, [], ◌∷◌, arith, replicate}
use libixp.Types.{max_welem}
use libixp.Msg.{Mode, Msg, bad_access, terminated, ok, err}
use libixp.Msg.Fields.{pstrings}
use libixp.Msg.Fields.Names.{pstrings-overrun}
use libixp.Fcall.{FHdr}
use libixp.Fcall.Storage.{VariantStorage, blank_of}
use libixp.Fcall.Message.{unpack_msg}
use libixp.Fcall.Message.RoundTrip.{blank_fcall}
use libixp.Fcall.Message.Safety.{unpack-safe}

-- An RError whose string is said to be longer than the message.
abbrev cut_off : Msg
cut_off = record {
  buffer = 9 ∷ 0 ∷ 0 ∷ 0 ∷ 107 ∷ 1 ∷ 0 ∷ 255 ∷ 255 ∷ [];
  size = 9;
  pos = 0;
  end = 9;
  mode = Mode.unpack;
  uninit = 0;
}

unpack-safe_example :
    (((h : FHdr) → blank_of 107 h ≡ none) × (unpack_msg blank_fcall cut_off ≡ err terminated))
    ⊎ (((h : FHdr) → blank_of 107 h ≢ none)
        × ((n : ℕ) × (s : VariantStorage) × (q : ℕ) × (unpack_msg blank_fcall cut_off
              ≡ ok (
                (n, record { storage = some s }),
                record cut_off { pos = q; mode = Mode.unpack },
              ))
            × (n ≤ 9)))
unpack-safe_example =
    unpack-safe cut_off 107 (omega arith) (omega arith) (omega arith) refl (λ e. omega (arith, e))

-- The two names "usr" and "me" of a walk_message, at the position.
abbrev walk_message : Msg
walk_message = record {
  buffer = 2 ∷ 0 ∷ 3 ∷ 0 ∷ 117 ∷ 115 ∷ 114 ∷ 2 ∷ 0 ∷ 109 ∷ 101 ∷ [];
  size = 11;
  pos = 0;
  end = 11;
  mode = Mode.unpack;
  uninit = 0;
}

pstrings-overrun_example : pstrings max_welem 0 (replicate 16 []) walk_message ≡ err bad_access
pstrings-overrun_example =
    pstrings-overrun walk_message 0 0 117 115 [] [] (114 ∷ []) (replicate 14 []) (omega arith)
      (omega arith) refl (omega arith) (omega arith) (omega arith) (omega arith) (omega arith)
      (omega arith) (refl, (refl, (refl, (refl, (refl, (refl, (refl, tt)))))))
