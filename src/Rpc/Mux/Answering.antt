-- ===== src/Rpc/Mux/Answering.antt =====
-- muxrpc against a connection that answers: the reply comes back, and the slots, the ring and the
-- reader are left in order.
use libixp.Base.{
  ℕ, ◌+◌, ◌≤◌, ◌≡◌, ◌≢◌, refl, ◌∙◌, sym, ap, Bool, true, List, ◌∷◌, IsApart, All, Option, none,
  some, length, arith, get_elem?, inl, inr,
}
use libixp.Msg.{Result, ok}
use libixp.Fcall.Storage.{Fcall, VariantStorage, header_of}
use libixp.Fcall.Retrieve.{with_tag}
use libixp.Rpc.{Client, gettag, linked}
use libixp.Rpc.Queue.{IsRing}
use libixp.Rpc.Slots.{put_self}
use libixp.Rpc.Tags.{IsClient, IsIdle, freed, puttag-frees}
use libixp.Rpc.Mux.{Mux, then-ok, change, new_rpc, after_send, sendrpc, muxrpc}
use libixp.Rpc.Mux.Electing.{first_awake}
use libixp.Rpc.Mux.Arrivals.{
  same-IsRing, Reply, stored, callers, IsIn, IsAwaited, AllDistinct, Arrive,
}
use libixp.Rpc.Mux.Sending.{new_rpc-IsClient, new_rpc-IsRing, sendrpc-sent}
use libixp.Rpc.Mux.Awaited.{
  awaited-IsApart, IsAwaited-new, IsAwaited-sent, freed-IsIdle, freed-still,
}
use libixp.Rpc.Mux.Serving.{after_send-served}

-- What a call by r leaves of the Client c, after the replies ss to others arrived: r has no slot any
-- more, the other calls keep theirs, each reply is with its Rpc, and of the sleepers zs those
-- that were not answered still sleep.
pub record Served (r : ℕ) (ss : List Reply) (zs : List ℕ) (c c' : Client) : Type 0 where
  pub valid : IsClient c'
  pub sleepers : List ℕ
  pub ring : IsRing c' sleepers
  pub sleep_on : (q : ℕ) → q ≢ r → IsApart q (callers ss) → IsIn q zs → IsIn q sleepers
  pub idle : IsIdle c' r
  pub still : (j q : ℕ) → get_elem? c.wait j ≡ some (some q) → get_elem? c'.wait j ≡ some (some q)
  pub replied : All (λ s. c'.reply s.0 ≡ some (stored s.1)) ss

module _ {N : Type 0} (transmit : VariantStorage → N → Option (Result (Bool × N)))
    (receive : N → Option (Result (Option Fcall × N))) where
  -- A call whose tag and whose message go out, on a connection where the replies to other calls come
  -- first, in any order, and then its own: muxrpc returns its reply, each of the others is with
  -- the call that waits for it, no other call loses its slot or its place among the sleepers, the
  -- tag is free again, and the reading goes to the first sleeper that is not asynchronous.
  pub muxrpc-serves :
      (ss : List Reply) (fuel r tag : ℕ) (tx f : VariantStorage) (x : Mux N) (sent : Client)
      (n1 k n2 : N) (zs : List ℕ)
      → IsClient x.client
      → IsRing x.client zs
      → IsIdle x.client r
      → r ≢ x.client.sleep
      → IsApart r zs
      → x.muxer ≡ none
      → gettag r (new_rpc r x.client) ≡ ok (some tag, sent)
      → transmit (with_tag tag tx) x.net ≡ some (ok (true, n1))
      → All (IsAwaited x.client zs) ss
      → AllDistinct ss
      → Arrive transmit receive n1 ss k
      → receive k ≡ some (ok (some (stored f), n2))
      → (header_of f).tag ≡ tag
      → length ss + 2 ≤ fuel
      → length zs + 2 ≤ fuel
      → (c : Client) × (served : Served r ss zs x.client c) × (muxrpc transmit receive fuel r tx x
          ≡ some (
            ok (some (stored f)),
            record x { client = c; muxer = first_awake x.async served.sleepers; net = n2 },
          ))
  unfolding muxrpc linked
  muxrpc-serves ss fuel r tag tx f x sent n1 k n2 zs v ring idle new apart free given went awaited
        distinct arrive got own enough enough' =
      let begun : Mux N = record x { client = new_rpc r x.client } in
      let v0 = new_rpc-IsClient r x.client v idle in
      let (first, p, e, g, ring1) =
        sendrpc-sent transmit receive r tag tx begun sent n1 zs v0
          (new_rpc-IsRing r x.client zs ring new apart) idle new apart given went in
      let c1 : Client = linked r first p sent in
      let v1 : IsClient c1 = record {
        slots = g.valid.slots;
        counted = g.valid.counted;
        first = g.valid.first;
        tagged = g.valid.tagged;
      } in
      let away = awaited-IsApart r x.client zs ss idle awaited in
      let empty : c1.reply r ≡ none = ap (λ h. h r) g.kept.3 ∙ put_self x.client.reply r none in
      let awaited0 : All (IsAwaited (new_rpc r x.client) zs) ss =
        IsAwaited-new r x.client zs ss away awaited in
      let (c, sleepers, e', v', ring', sleep_on, same, replied) =
        after_send-served transmit receive ss fuel r g.slot f
          (record begun { client = c1; net = n1 }) k n2 (r ∷ zs) v1 ring1 (inl refl) g.now_held
          empty free away (IsAwaited-sent r tag (new_rpc r x.client) sent zs ss v0 g awaited0)
          distinct arrive got (own ∙ sym g.own_tag) enough (omega (arith, enough')) in
      let held : get_elem? c.wait g.slot ≡ some (some r) = rw same g.now_held in
      (
        freed g.slot c,
        record {
          valid = (puttag-frees r g.slot c v' held).1;
          sleepers = sleepers;
          ring = same-IsRing c (freed g.slot c) sleepers refl refl refl ring';
          sleep_on = λ q ne b h. sleep_on q ne b (inr h);
          idle = freed-IsIdle r g.slot c v' held;
          still = freed-still r tag (new_rpc r x.client) sent c g idle same;
          replied = replied;
        },
        then-ok (change (λ d. ok (new_rpc r d))) _ x {a = tt} {y = begun} refl
            ∙ then-ok (sendrpc transmit receive r tx) (after_send transmit receive fuel r) begun e
            ∙ e',
      )
