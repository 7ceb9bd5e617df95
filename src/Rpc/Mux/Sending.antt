-- ===== src/Rpc/Mux/Sending.antt =====
-- A new Rpc, and sendrpc when the message is sent.
use libixp.Base.{
  ℕ, ◌≡◌, ◌≢◌, refl, ◌∙◌, sym, Bool, true, List, [], ◌∷◌, IsApart, All, Option, none, some,
}
use libixp.Msg.{Result, ok}
use libixp.Fcall.Storage.{Fcall, VariantStorage}
use libixp.Fcall.Retrieve.{with_tag}
use libixp.Rpc.{Client, put, gettag, enqueue, linked}
use libixp.Rpc.Queue.{IsRing, Linked-frame, enqueue-IsRing}
use libixp.Rpc.Slots.{put_other}
use libixp.Rpc.Tags.{IsClient, IsIdle, Got, gettag-Got}
use libixp.Rpc.Mux.{Mux, then-ok, change, change-ok, new_rpc, own_tag, send, sendrpc}
use libixp.Rpc.Mux.Arrivals.{same-IsRing}

-- A new Rpc that is neither in a slot nor in the ring changes neither.
pub new_rpc-IsClient : (r : ℕ) (c : Client) → IsClient c → IsIdle c r → IsClient (new_rpc r c)
new_rpc-IsClient r c v idle = record {
  slots = v.slots;
  counted = v.counted;
  first = v.first;
  tagged = λ i q e. put_other c.tag r q 0 (λ same. idle i (rw (← same) e)) ∙ v.tagged i q e;
}

put-All :
    {A : Type 0} (f : ℕ → A) (r : ℕ) (v : A) (xs : List ℕ)
    → IsApart r xs
    → All (λ x. put f r v x ≡ f x) xs
put-All f r v [] h = tt
put-All f r v (x ∷ xs) (p, h) = (put_other f r x v p, put-All f r v xs h)

pub new_rpc-IsRing :
    (r : ℕ) (c : Client) (xs : List ℕ)
    → IsRing c xs
    → r ≢ c.sleep
    → IsApart r xs
    → IsRing (new_rpc r c) xs
new_rpc-IsRing r c xs v new apart = record {
  linked =
      Linked-frame c.next (put c.next r none) c.previous (put c.previous r none) c.sleep xs c.sleep
        (put_other c.next r c.sleep none (λ e. new (sym e)))
        (put_other c.previous r c.sleep none (λ e. new (sym e))) (put-All c.next r none xs apart)
        (put-All c.previous r none xs apart) v.linked;
  head_apart = v.head_apart;
  apart = v.apart;
}

module _ {N : Type 0} (transmit : VariantStorage → N → Option (Result (Bool × N)))
    (receive : N → Option (Result (Option Fcall × N))) where
  -- sendrpc, when the message is sent: r holds the slot of its tag and is the first of the ring.
  pub sendrpc-sent :
      (r tag : ℕ) (tx : VariantStorage) (x : Mux N) (c : Client) (n : N) (xs : List ℕ)
      → IsClient x.client
      → IsRing x.client xs
      → IsIdle x.client r
      → r ≢ x.client.sleep
      → IsApart r xs
      → gettag r x.client ≡ ok (some tag, c)
      → transmit (with_tag tag tx) x.net ≡ some (ok (true, n))
      → (first : ℕ) × (p : ℕ) × (sendrpc transmit receive r tx x
          ≡ some (ok true, record x { client = linked r first p c; net = n }))
        × Got r x.client c tag
        × IsRing (linked r first p c) (r ∷ xs)
  unfolding sendrpc
  sendrpc-sent r tag tx x c n xs v ring idle new apart e sent =
      let g = gettag-Got r tag x.client c v idle e in
      let (same_next, same_previous, same_sleep, _) = g.kept in
      let ring' = same-IsRing x.client c xs same_next same_previous same_sleep ring in
      let (first, p, e', ring'') = enqueue-IsRing r c xs ring' (λ s. new (s ∙ same_sleep)) apart in
      (
        first,
        p,
        then-ok (own_tag r) _ x (rw (e, own_tag) refl)
            ∙ then-ok (change (enqueue r)) _ (record x { client = c })
                (change-ok (enqueue r) (record x { client = c }) (linked r first p c) e')
            ∙ then-ok (send transmit receive (with_tag tag tx)) _
                (record x { client = linked r first p c }) {a = true}
                {y = record x { client = linked r first p c; net = n }} (rw (send, sent) refl),
        g,
        ring'',
      )
