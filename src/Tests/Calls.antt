-- ===== src/Tests/Calls.antt =====
-- A client with one call under way and a free slot.
use libixp.Base.{
  ℕ, zero, suc, ◌≡◌, ◌≢◌, refl, inl, inr, [], ◌∷◌, none, some, ◌==◌, if◌then◌else◌, arith,
  get_elem?,
}
use libixp.Msg.{exception, ok, err}
use libixp.Fcall.Storage.{Fcall}
use libixp.Fcall.Message.RoundTrip.{blank_fcall}
use libixp.Rpc.{Client, gettag, puttag, enqueue, dequeue, dispatch, linked, unlinked}
use libixp.Rpc.Tags.{IsClient, IsIdle, Got, freed, gettag-gives, puttag-frees, gettag-puttag}
use libixp.Rpc.Queue.{IsRing, enqueue-IsRing, dequeue-IsRing}
use libixp.Rpc.Dispatch.{dispatch-replies}

-- Rpc 7 waits in slot 0; the head of the ring is node 9.
abbrev pub client : Client
client = record {
  wait = some 7 ∷ none ∷ [];
  nwait = 1;
  mwait = 2;
  freetag = 1;
  mintag = 0;
  maxtag = 255;
  tag = λ r. 0;
  reply = λ r. none;
  next = λ r. if r == 9 then some 7 else some 9;
  previous = λ r. if r == 9 then some 7 else some 9;
  sleep = 9;
}

held_only : (i r : ℕ) → get_elem? client.wait i ≡ some (some r) → (i ≡ 0) × (r ≡ 7)
held_only zero r e = (refl, cc)
held_only (suc zero) r e = cc
held_only (suc (suc i)) r e = cc

pub client-IsClient : IsClient client
client-IsClient = record {
  slots = refl;
  counted = refl;
  first = inr (omega arith);
  tagged = λ i r e. omega (arith, (held_only i r e).0);
}

pub client-IsIdle : IsIdle client 8
client-IsIdle i e = omega (arith, (held_only i 8 e).1)

pub client-IsRing : IsRing client (7 ∷ [])
client-IsRing = record {
  linked = (refl, refl, (refl, refl));
  head_apart = (λ e. omega (arith, e), tt);
  apart = (tt, tt);
}

gettag-gives_example :
    (tag : ℕ) × (c' : Client) × (gettag 8 client ≡ ok (some tag, c')) × Got 8 client c' tag
gettag-gives_example = gettag-gives 8 client client-IsClient client-IsIdle (inl (omega arith))

puttag_7 : puttag 7 client ≡ ok (freed 0 client)
puttag_7 = (puttag-frees 7 0 client client-IsClient refl).0

dequeue-IsRing_example :
    (p : ℕ) × (n : ℕ) × (dequeue 7 client ≡ ok (unlinked 7 p n client))
    × IsRing (unlinked 7 p n client) []
    × ((unlinked 7 p n client).next 7 ≡ none)
    × ((unlinked 7 p n client).previous 7 ≡ none)
dequeue-IsRing_example = dequeue-IsRing 7 client [] [] client-IsRing

dispatch-replies_example :
    (c' : Client) × (dispatch 0 blank_fcall client ≡ ok c')
    × (c'.reply 7 ≡ some blank_fcall)
    × ((r' : ℕ) → r' ≢ 7 → c'.reply r' ≡ none)
    × (c'.wait ≡ client.wait)
    × IsRing c' []
    × ((f' : Fcall) → dispatch (c'.tag 7) f' c' ≡ err exception)
dispatch-replies_example =
    dispatch-replies 0 7 blank_fcall client [] [] client-IsClient client-IsRing refl

gettag-puttag_example :
    (c'' : Client) × (gettag 8 (freed 0 client) ≡ ok (some 0, c''))
    × (get_elem? c''.wait 0 ≡ some (some 8))
gettag-puttag_example = gettag-puttag 7 8 0 client (freed 0 client) client-IsClient refl puttag_7

enqueue-IsRing_example :
    (first : ℕ) × (p : ℕ) × (enqueue 8 client ≡ ok (linked 8 first p client))
    × IsRing (linked 8 first p client) (8 ∷ 7 ∷ [])
enqueue-IsRing_example =
    enqueue-IsRing 8 client (7 ∷ []) client-IsRing (λ e. omega (arith, e))
      (λ e. omega (arith, e), tt)
