-- ===== src/Rpc/Dispatch.antt =====
-- dispatchandqlock: the reply goes to the Rpc that waits under its tag.
use libixp.Base.{
  ℕ, ◌-◌, ◌≤◌, ◌<◌, ◌≡◌, ◌≢◌, refl, ◌∙◌, List, ◌∷◌, ◌++◌, arith, get_elem?, get_elem?-some_lt, none,
  some, le→ltb_false, lt→leb_false, lt→ltb, le→leb, lt-cases, inl, inr,
}
use libixp.Msg.{exception, ok, err}
use libixp.Fcall.Storage.{Fcall}
use libixp.Rpc.{Client, put, dequeue, dispatch, unlinked}
use libixp.Rpc.Queue.{IsRing, dequeue-IsRing, previous-IsRing}
use libixp.Rpc.Slots.{put_self, put_other, Slot-cases}
use libixp.Rpc.Tags.{IsClient}

-- The tag is that of a slot with r in it.
pub dispatch-held :
    (i r : ℕ) (f : Fcall) (c : Client)
    → IsClient c
    → get_elem? c.wait i ≡ some (some r)
    → (p : ℕ) → c.previous r ≡ some p
    → dispatch (c.tag r) f c ≡ dequeue r (record c { reply = put c.reply r (some f) })
unfolding dispatch
dispatch-held i r f c v held p back =
    let above : c.mintag ≤ c.tag r = omega (arith, v.tagged i r held) in
    let here : c.tag r - c.mintag ≡ i = omega (arith, v.tagged i r held) in
    let lt = get_elem?-some_lt c.wait i held in
    let below : c.tag r - c.mintag < c.mwait = omega (arith, here, lt, v.slots) in
    let held' : get_elem? c.wait (c.tag r - c.mintag) ≡ some (some r) = rw here held in
    rw (le→ltb_false _ _ above, lt→leb_false _ _ below, held', back) refl

dispatch-again :
    (i r : ℕ) (f : Fcall) (c : Client)
    → IsClient c
    → get_elem? c.wait i ≡ some (some r)
    → c.previous r ≡ none
    → dispatch (c.tag r) f c ≡ err exception
unfolding dispatch
dispatch-again i r f c v held back =
    let above : c.mintag ≤ c.tag r = omega (arith, v.tagged i r held) in
    let here : c.tag r - c.mintag ≡ i = omega (arith, v.tagged i r held) in
    let lt = get_elem?-some_lt c.wait i held in
    let below : c.tag r - c.mintag < c.mwait = omega (arith, here, lt, v.slots) in
    let held' : get_elem? c.wait (c.tag r - c.mintag) ≡ some (some r) = rw here held in
    rw (le→ltb_false _ _ above, lt→leb_false _ _ below, held', back) refl

-- A reply with the tag of a sleeper is given to that Rpc and to no other. The Rpc leaves the ring
-- of sleepers, where the others keep their order, and keeps its slot until puttag. A second reply
-- with its tag is refused.
pub dispatch-replies :
    (i r : ℕ) (f : Fcall) (c : Client) (xs ys : List ℕ)
    → IsClient c
    → IsRing c (xs ++ r ∷ ys)
    → get_elem? c.wait i ≡ some (some r)
    → (c' : Client) × (dispatch (c.tag r) f c ≡ ok c')
      × (c'.reply r ≡ some f)
      × ((r' : ℕ) → r' ≢ r → c'.reply r' ≡ c.reply r')
      × (c'.wait ≡ c.wait)
      × IsRing c' (xs ++ ys)
      × ((f' : Fcall) → dispatch (c'.tag r) f' c' ≡ err exception)
unfolding unlinked
dispatch-replies i r f c xs ys v ring held =
    let replied : Client = record c { reply = put c.reply r (some f) } in
    let ring' : IsRing replied (xs ++ r ∷ ys) = record {
      linked = ring.linked;
      head_apart = ring.head_apart;
      apart = ring.apart;
    } in
    let (p, back) = previous-IsRing r c xs ys ring in
    let (q, n, e, less, forth, none_back) = dequeue-IsRing r replied xs ys ring' in
    (
      unlinked r q n replied,
      dispatch-held i r f c v held p back ∙ e,
      put_self c.reply r (some f),
      λ r' ne. put_other c.reply r r' (some f) ne,
      refl,
      less,
      λ f'.
          dispatch-again i r f' (unlinked r q n replied)
            (record { slots = v.slots; counted = v.counted; first = v.first; tagged = v.tagged })
            held none_back,
    )

-- A reply with a tag that no waiting Rpc has is refused, and nothing outside of the slots is read.
pub dispatch-unknown :
    (tag : ℕ) (f : Fcall) (c : Client)
    → IsClient c
    → ((i r : ℕ) → get_elem? c.wait i ≡ some (some r) → c.tag r ≢ tag)
    → dispatch tag f c ≡ err exception
unfolding dispatch
dispatch-unknown tag f c v unknown = elim (lt-cases tag c.mintag) [
  | inl below ↦ rw (lt→ltb _ _ below) refl
  | inr above ↦ elim (lt-cases (tag - c.mintag) c.mwait) [
    | inr beyond ↦ rw (le→ltb_false _ _ above, le→leb _ _ beyond) refl
    | inl within ↦ elim (Slot-cases c.wait (tag - c.mintag) (omega (arith, within, v.slots))) [
      | inl null ↦ rw (le→ltb_false _ _ above, lt→leb_false _ _ within, null) refl
      | inr (r, held) ↦
          absurd (
            unknown (tag - c.mintag) r held
              (omega (arith, v.tagged (tag - c.mintag) r held, above)))
    ]
  ]
]
