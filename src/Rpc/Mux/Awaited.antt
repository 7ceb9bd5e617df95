-- ===== src/Rpc/Mux/Awaited.antt =====
-- Replies that are awaited, and slots, from the start of a call to its end.
use libixp.Base.{
  ℕ, ◌≡◌, ◌≢◌, refl, ◌∙◌, sym, ap, subst, List, [], ◌∷◌, IsApart, All, Option, none, some, arith,
  get_elem?, get_elem?-set_self, get_elem?-set_ne, get_elem?-some_lt, set, eq-cases, inl, inr,
}
use libixp.Msg.{ok}
use libixp.Fcall.Storage.{Fcall, header_of}
use libixp.Rpc.{Client, put, puttag}
use libixp.Rpc.Slots.{put_other}
use libixp.Rpc.Tags.{IsClient, IsIdle, Got, freed, puttag-frees}
use libixp.Rpc.Mux.{Mux, then-ok, change, change-ok, new_rpc, get_reply, wait_turn, take_reply}
use libixp.Rpc.Mux.Arrivals.{Reply, stored, callers, IsAwaited}

-- Awaited replies are for others than a new Rpc, and are awaited once it has its tag too.
pub awaited-IsApart :
    (r : ℕ) (c : Client) (zs : List ℕ) (ss : List Reply)
    → IsIdle c r
    → All (IsAwaited c zs) ss
    → IsApart r (callers ss)
awaited-IsApart r c zs [] idle h = tt
awaited-IsApart r c zs ((s, f) ∷ ss) idle ((_, (slot, held, _)), h) =
    ((λ same. idle slot (rw (← same) held)), awaited-IsApart r c zs ss idle h)

pub IsAwaited-new :
    (r : ℕ) (c : Client) (zs : List ℕ) (ss : List Reply)
    → IsApart r (callers ss)
    → All (IsAwaited c zs) ss
    → All (IsAwaited (new_rpc r c) zs) ss
IsAwaited-new r c zs [] apart h = tt
IsAwaited-new r c zs ((s, f) ∷ ss) (differ, apart) ((sleeps, (slot, held, e)), h) = (
  (sleeps, (slot, held, e ∙ sym (put_other c.tag r s 0 differ))),
  IsAwaited-new r c zs ss apart h,
)

pub IsAwaited-sent :
    (r tag : ℕ) (c c' : Client) (zs : List ℕ) (ss : List Reply)
    → IsClient c
    → Got r c c' tag
    → All (IsAwaited c zs) ss
    → All (IsAwaited c' (r ∷ zs)) ss
IsAwaited-sent r tag c c' zs [] v g h = tt
IsAwaited-sent r tag c c' zs ((s, f) ∷ ss) v g ((sleeps, (slot, held, e)), h) =
    let held' = g.others slot s held in
    let there : (header_of f).tag ≡ c'.tag s = omega (
      arith,
      e,
      v.tagged slot s held,
      g.valid.tagged slot s held',
      g.slot_tag,
      g.own_tag,
      g.valid.tagged g.slot r g.now_held,
    ) in
    ((inr sleeps, (slot, held', there)), IsAwaited-sent r tag c c' zs ss v g h)

-- take_reply, of a reply that is there.
pub take_reply-there :
    {N : Type 0} (r slot : ℕ) (f : Fcall) (x : Mux N)
    → IsClient x.client
    → get_elem? x.client.wait slot ≡ some (some r)
    → x.client.reply r ≡ some f
    → take_reply r x ≡ some (ok (some f), record x { client = freed slot x.client })
unfolding take_reply
take_reply-there r slot f x v held e =
    then-ok (get_reply r) _ x (ap (λ p. some (ok p, x)) e)
    ∙ then-ok (change (puttag r)) _ x
        (change-ok (puttag r) x (freed slot x.client) (puttag-frees r slot x.client v held).0)

pub wait_turn-free :
    {N : Type 0} (r : ℕ) (x : Mux N) → x.muxer ≡ none → wait_turn r x ≡ some (ok tt, x)
unfolding wait_turn
wait_turn-free r x e =
    subst (λ m. wait_turn r (record x { muxer = m }) ≡ some (ok tt, record x { muxer = m })) (sym e)
      refl

-- r in no slot once its own is freed.
pub freed-IsIdle :
    (r slot : ℕ) (c : Client)
    → IsClient c
    → get_elem? c.wait slot ≡ some (some r)
    → IsIdle (freed slot c) r
freed-IsIdle r slot c v held i e = elim (eq-cases slot i) [
  | inl same ↦
      let null = get_elem?-set_self c.wait slot none (get_elem?-some_lt c.wait slot held) in
      let e' : get_elem? (set c.wait slot none) slot ≡ some (some r) =
        ap (get_elem? (set c.wait slot none)) same ∙ e in
      cc
  | inr differ ↦
      let e' : get_elem? c.wait i ≡ some (some r) =
        sym (get_elem?-set_ne c.wait slot i none differ) ∙ e in
      differ (omega (arith, v.tagged i r e', v.tagged slot r held))
]

-- The slots of others when that of r is freed.
pub freed-still :
    (r tag : ℕ) (c sent c' : Client)
    → (g : Got r c sent tag) → IsIdle c r
    → c'.wait ≡ sent.wait
    → (j q : ℕ) → get_elem? c.wait j ≡ some (some q)
    → get_elem? (freed g.slot c').wait j ≡ some (some q)
freed-still r tag c sent c' g idle same j q h =
    let there : get_elem? sent.wait j ≡ some (some q) = g.others j q h in
    let differ : g.slot ≢ j = λ s.
      let mine : some (some r) ≡ some (some q) =
        sym g.now_held ∙ ap (get_elem? sent.wait) s ∙ there in
      let equal : q ≡ r = cc in idle j (h ∙ ap (λ t. some (some t)) equal) in
    get_elem?-set_ne c'.wait g.slot j none differ ∙ rw same there

-- Replies of others when r gets its own.
pub replied-on :
    (r : ℕ) (v : Option Fcall) (reply : ℕ → Option Fcall) (ss : List Reply)
    → IsApart r (callers ss)
    → All (λ s. reply s.0 ≡ some (stored s.1)) ss
    → All (λ s. put reply r v s.0 ≡ some (stored s.1)) ss
replied-on r v reply [] apart h = tt
replied-on r v reply ((s, f) ∷ ss) (differ, apart) (e, h) =
    (put_other reply r s v differ ∙ e, replied-on r v reply ss apart h)
