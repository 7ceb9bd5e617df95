-- ===== src/Rpc/Mux/Serving.antt =====
-- The part of muxrpc behind the sending.
use libixp.Base.{
  ◌-◌, ℕ, suc, ◌+◌, ◌≤◌, ◌≡◌, ◌≢◌, refl, ◌∙◌, sym, ap, subst, Bool, true, List, ◌++◌, IsApart, All,
  Option, none, some, length, arith, get_elem?,
}
use libixp.Msg.{Result, ok}
use libixp.Fcall.Storage.{Fcall, VariantStorage, header_of}
use libixp.Rpc.{Client, put, unlinked}
use libixp.Rpc.Queue.{IsRing}
use libixp.Rpc.Slots.{put_self}
use libixp.Rpc.Tags.{IsClient, freed}
use libixp.Rpc.Mux.{
  Mux, then-ok, get_reply, set_muxer, electmuxer, wait_turn, take_reply, mux_loop, after_send,
  read_replies,
}
use libixp.Rpc.Mux.Electing.{first_awake, electmuxer-ring}
use libixp.Rpc.Mux.Arrivals.{
  Reply, stored, callers, IsIn, IsIn-split, IsIn-without, length-without, IsAwaited, AllDistinct,
  Arrive, mux_loop-answers, mux_loop-round,
}
use libixp.Rpc.Mux.Awaited.{take_reply-there, wait_turn-free, replied-on}

module _ {N : Type 0} (transmit : VariantStorage → N → Option (Result (Bool × N)))
    (receive : N → Option (Result (Option Fcall × N))) where
  -- The loop ends when the reply is there.
  pub mux_loop-done :
      (fuel r : ℕ) (f : Fcall) (x : Mux N)
      → x.client.reply r ≡ some f
      → mux_loop transmit receive (suc fuel) r x ≡ some (ok tt, x)
  unfolding mux_loop
  mux_loop-done fuel r f x e = rw (e, mux_loop) refl

  -- The loop, when the reply comes behind those to others.
  pub mux_loop-served :
      (ss : List Reply) (fuel r slot : ℕ) (f : VariantStorage) (x : Mux N) (k n : N) (zs : List ℕ)
      → IsClient x.client
      → IsRing x.client zs
      → IsIn r zs
      → get_elem? x.client.wait slot ≡ some (some r)
      → x.client.reply r ≡ none
      → IsApart r (callers ss)
      → All (IsAwaited x.client zs) ss
      → AllDistinct ss
      → Arrive transmit receive x.net ss k
      → receive k ≡ some (ok (some (stored f), n))
      → (header_of f).tag ≡ x.client.tag r
      → length ss + 2 ≤ fuel
      → (c : Client) × (sleepers : List ℕ) × (mux_loop transmit receive fuel r x
          ≡ some (ok tt, record x { client = c; net = n }))
        × IsClient c
        × IsRing c sleepers
        × (length sleepers ≤ length zs)
        × ((q : ℕ) → q ≢ r → IsApart q (callers ss) → IsIn q zs → IsIn q sleepers)
        × (c.wait ≡ x.client.wait)
        × (c.reply r ≡ some (stored f))
        × All (λ s. c.reply s.0 ≡ some (stored s.1)) ss
  unfolding unlinked
  mux_loop-served ss fuel r slot f x k n zs v ring here held empty apart awaited distinct arrive got
        tag enough =
      let left = fuel - length ss - 2 in
      let rounds : length ss + suc (suc left) ≡ fuel = omega (arith, enough) in
      let (c, loops, a) =
        mux_loop-answers transmit receive ss (suc (suc left)) r x k zs v ring apart empty awaited
          distinct arrive in
      let (xs, ys, e) = IsIn-split r a.sleepers (a.sleep_on r apart here) in
      let (p, q, (round, less)) =
        mux_loop-round transmit receive (suc left) r r slot f (record x { client = c; net = k }) n
          xs ys a.valid (subst (IsRing c) e a.ring) (rw a.same_wait held)
          (a.unreplied r apart ∙ empty) got (rw a.same_tag tag) in
      let reply = put c.reply r (some (stored f)) in
      let c' : Client = unlinked r p q (record c { reply = reply }) in
      (
        c',
        xs ++ ys,
        ap (λ t. mux_loop transmit receive t r x) (sym rounds)
            ∙ loops
            ∙ round
            ∙ mux_loop-done left r (stored f) (record x { client = c'; net = n })
                (put_self c.reply r (some (stored f))),
        record {
          slots = a.valid.slots;
          counted = a.valid.counted;
          first = a.valid.first;
          tagged = a.valid.tagged;
        },
        less,
        omega (arith, a.fewer, length-without r xs ys, ap (λ l. length l) e),
        λ t ne b h. IsIn-without t r xs ys ne (subst (IsIn t) e (a.sleep_on t b h)),
        a.same_wait,
        put_self c.reply r (some (stored f)),
        replied-on r (some (stored f)) c.reply ss apart a.replied,
      )

  -- The part of muxrpc behind the sending, when nobody else reads.
  pub after_send-served :
      (ss : List Reply) (fuel r slot : ℕ) (f : VariantStorage) (x : Mux N) (k n : N) (zs : List ℕ)
      → IsClient x.client
      → IsRing x.client zs
      → IsIn r zs
      → get_elem? x.client.wait slot ≡ some (some r)
      → x.client.reply r ≡ none
      → x.muxer ≡ none
      → IsApart r (callers ss)
      → All (IsAwaited x.client zs) ss
      → AllDistinct ss
      → Arrive transmit receive x.net ss k
      → receive k ≡ some (ok (some (stored f), n))
      → (header_of f).tag ≡ x.client.tag r
      → length ss + 2 ≤ fuel
      → length zs + 1 ≤ fuel
      → (c : Client) × (sleepers : List ℕ) × (after_send transmit receive fuel r true x
          ≡ some (
            ok (some (stored f)),
            record x { client = freed slot c; muxer = first_awake x.async sleepers; net = n },
          ))
        × IsClient c
        × IsRing c sleepers
        × ((q : ℕ) → q ≢ r → IsApart q (callers ss) → IsIn q zs → IsIn q sleepers)
        × (c.wait ≡ x.client.wait)
        × All (λ s. c.reply s.0 ≡ some (stored s.1)) ss
  unfolding read_replies
  after_send-served ss fuel r slot f x k n zs v ring here held empty free apart awaited distinct
        arrive got tag enough enough' =
      let reading : Mux N = record x { muxer = some r } in
      let (c, sleepers, loop, v', ring', fewer, sleep_on, same, mine, replied) =
        mux_loop-served ss fuel r slot f reading k n zs v ring here held empty apart awaited
          distinct arrive got tag enough in
      let done : Mux N = record reading { client = c; net = n } in
      let left : Mux N = record done { muxer = first_awake x.async sleepers } in
      let reads : read_replies transmit receive fuel r none x ≡ some (ok tt, left) =
        then-ok (set_muxer (some r)) _ x {a = tt} {y = reading} refl
        ∙ then-ok (mux_loop transmit receive fuel r) (λ _. electmuxer fuel) reading loop
        ∙ electmuxer-ring fuel done sleepers ring' (omega (arith, fewer, enough')) in
      (
        c,
        sleepers,
        then-ok (wait_turn r) _ x (wait_turn-free r x free)
            ∙ then-ok (get_reply r) _ x (ap (λ p. some (ok p, x)) empty)
            ∙ then-ok (read_replies transmit receive fuel r none) (λ _. take_reply r) x reads
            ∙ take_reply-there r slot (stored f) left v' (rw same held) mine,
        v',
        ring',
        sleep_on,
        same,
        replied,
      )
