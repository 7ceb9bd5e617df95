-- ===== src/SrvUtil/Readdir/Listing.antt =====
-- What srv_readdir packs: whole Stats, from the offset on, as many as there is room for.
use libixp.Base.{
  ℕ, ◌+◌, ◌-◌, ◌^◌, ◌≤◌, ◌<◌, ◌≡◌, refl, ap, ◌∙◌, List, [], ◌∷◌, ◌++◌, ltb, leb, if◌then◌else◌,
  arith, length, length-append, All, lt-cases, inl, inr, lt→ltb, le→ltb_false, le→leb, lt→leb_false,
}
use libixp.Msg.{Mode, Msg, ok}
use libixp.Msg.Packs.{IsWithin}
use libixp.Msg.Splice.{splice, length-splice, splice-append}
use libixp.Stat.{Stat, stat_size, pack_unpack_stat}
use libixp.Stat.Wire.{IsStat, full_size, stat_bytes, length-stat_bytes, Packs-stat}
use libixp.SrvUtil.{FileIdBody, FileId}
use libixp.SrvUtil.Readdir.{readdir_loop}

-- The entries of a directory whose offset is not below the one that is wanted.
abbrev pub behind : (want offset : ℕ) → List Stat → List Stat
behind want offset [] = []
behind want offset (s ∷ ss) =
    if leb want offset then s ∷ ss else behind want (offset + stat_size s) ss

-- The first entries, as many as the room is enough for.
abbrev pub fitting : ℕ → List Stat → List Stat
fitting size [] = []
fitting size (s ∷ ss) = if ltb size (stat_size s) then [] else s ∷ fitting (size - stat_size s) ss

abbrev pub listing_bytes : List Stat → List ℕ
listing_bytes [] = []
listing_bytes (s ∷ ss) = stat_bytes s ++ listing_bytes ss

-- A message that the bytes were packed into.
abbrev pub packed : Msg → List ℕ → Msg
packed m bs = record m { pos = m.pos + length bs; buffer = splice m.buffer m.pos bs }

packed-IsWithin : (m : Msg) (bs : List ℕ) → IsWithin m → IsWithin (packed m bs)
packed-IsWithin m bs within = omega (arith, length-splice m.buffer m.pos bs, within)

packed-packed : (m : Msg) (xs ys : List ℕ) → packed (packed m xs) ys ≡ packed m (xs ++ ys)
packed-packed m xs ys =
    let at : m.pos + length xs + length ys ≡ m.pos + length (xs ++ ys) =
      omega (arith, length-append {0} xs ys) in
    rw (at, splice-append m.buffer m.pos (m.pos + length xs) xs ys refl) refl

-- An entry that its size describes.
abbrev pub IsEntry : Stat → Type 0
IsEntry s = IsStat s × (full_size s < 2 ^ 16)

module _ (describe : FileIdBody → Stat) where
  abbrev pub described : FileId → List Stat
  described [] = []
  described (file ∷ files) = describe file ∷ described files

  pack-stat :
      (s : Stat) (m : Msg)
      → IsEntry s
      → IsWithin m
      → m.mode ≡ Mode.pack
      → m.pos + stat_size s ≤ m.end
      → pack_unpack_stat s m ≡ ok (s, packed m (stat_bytes s))
  pack-stat s m (v, short) within packing fits =
      let len = length-stat_bytes s v short in
      let (b, e, w) = (Packs-stat m.uninit s v).run m within packing refl in
      e
      ∙ ap (λ k. ok (s, record m { pos = m.pos + length (stat_bytes s); buffer = k }))
          (w.spliced (omega (arith, len, fits)))

  -- Once the offset is reached, Stats are packed as long as they fit.
  pack_phase :
      (stat : Stat) (files : FileId) (size offset want : ℕ) (m : Msg)
      → All IsEntry (described files)
      → IsWithin m
      → m.mode ≡ Mode.pack
      → m.pos + size ≤ m.end
      → want ≤ offset
      → readdir_loop (λ old file. describe file) stat files size offset want m
        ≡ ok (packed m (listing_bytes (fitting size (described files))))
  unfolding readdir_loop splice
  pack_phase stat [] size offset want m v within packing room reached =
      let e : m.pos + 0 ≡ m.pos = omega arith in rw e refl
  pack_phase stat (file ∷ files) size offset want m (entry, v) within packing room reached =
      let s = describe file in
      let len = length-stat_bytes s entry.0 entry.1 in
      elim (lt-cases size (stat_size s)) [
        | inl full ↦
            let e : m.pos + 0 ≡ m.pos = omega arith in
            rw (le→leb want offset reached, readdir_loop) (rw (lt→ltb _ _ full) (rw e refl))
        | inr fits ↦
            rw (le→leb want offset reached, readdir_loop)
              (rw
                (
                  le→ltb_false _ _ fits,
                  pack-stat s m entry within packing (omega (arith, room, fits)),
                )
                (pack_phase s files (size - stat_size s) (offset + stat_size s) want
                    (packed m (stat_bytes s)) v (packed-IsWithin m (stat_bytes s) within) packing
                    (omega (arith, room, fits, len)) (omega (arith, reached))
                  ∙ ap ok (
                      packed-packed m (stat_bytes s)
                        (listing_bytes (fitting (size - stat_size s) (described files))))))
      ]

  -- The loop of srv_readdir, on files whose Stats are well-formed and a message with room for the
  -- count: what is packed are whole Stats, in the order of the files, from the first whose offset
  -- is not below the one that is wanted, as many as fit in the count one after the other.
  pub readdir_loop-packs :
      (stat : Stat) (files : FileId) (size offset want : ℕ) (m : Msg)
      → All IsEntry (described files)
      → IsWithin m
      → m.mode ≡ Mode.pack
      → m.pos + size ≤ m.end
      → readdir_loop (λ old file. describe file) stat files size offset want m
        ≡ ok (packed m (listing_bytes (fitting size (behind want offset (described files)))))
  unfolding readdir_loop splice
  readdir_loop-packs stat [] size offset want m v within packing room =
      let e : m.pos + 0 ≡ m.pos = omega arith in rw e refl
  readdir_loop-packs stat (file ∷ files) size offset want m v within packing room =
      elim (lt-cases offset want) [
        | inl before ↦
            rw (lt→leb_false want offset before, readdir_loop)
              (readdir_loop-packs (describe file) files size (offset + stat_size (describe file))
                want m v.1 within packing room)
        | inr reached ↦
            rw (le→leb want offset reached)
              (pack_phase stat (file ∷ files) size offset want m v within packing room reached)
      ]
