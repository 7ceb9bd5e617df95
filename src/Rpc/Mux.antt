-- ===== src/Rpc/Mux.antt =====
-- rpc.cc: sendrpc, electmuxer and muxrpc, as run by the thread that reads the replies for all. What
-- sends a message and what receives one are parameters, with the state of the connection.
pub mod Electing
pub mod Arrivals
pub mod Sending
pub mod Awaited
pub mod Serving
pub mod Answering
use libixp.Base.{
  ◌≡◌, refl, ap, ℕ, zero, suc, ◌%◌, ◌^◌, Bool, true, false, not, ◌==◌, ◌&&◌, if◌then◌else◌, Option,
  none, some,
}
use libixp.Msg.{Error, bad_access, exception, Result, ok, err}
use libixp.Fcall.Storage.{Fcall, VariantStorage, header_of}
use libixp.Fcall.Retrieve.{with_tag}
use libixp.Rpc.{Client, put, gettag, puttag, enqueue, dequeue, dispatch}

-- A Client, which of its Rpcs are asynchronous, the one that reads replies, and the connection.
pub record Mux (N : Type 0) : Type 0 where
  pub client : Client
  pub async : ℕ → Bool
  pub muxer : Option ℕ
  pub net : N

-- What a thread does to it: none where the thread would wait for another, or has no fuel left.
abbrev pub Step : Type 0 → Type 0 → Type 0
Step N A = Mux N → Option (Result A × Mux N)

abbrev pub pure : {N A : Type 0} → A → Step N A
pure a x = some (ok a, x)

abbrev pub throw : {N A : Type 0} → Step N A
throw x = some (err exception, x)

abbrev pub after :
    {N A B : Type 0} → (A → Step N B) → Option (Result A × Mux N) → Option (Result B × Mux N)
after f none = none
after f (some (err e, x)) = some (err e, x)
after f (some (ok a, x)) = f a x

infixl 5 ◌>>=◌ ◌>>◌
unfoldable pub ◌>>=◌ : {N A B : Type 0} → Step N A → (A → Step N B) → Step N B
◌>>=◌ m f x = after f (m x)

abbrev pub ◌>>◌ : {N B : Type 0} → Step N (Unit {0}) → Step N B → Step N B
m >> k = m >>= λ _. k

pub then-ok :
    {N A B : Type 0} (m : Step N A) (f : A → Step N B) (x : Mux N) {a : A} {y : Mux N}
    → m x ≡ some (ok a, y)
    → (m >>= f) x ≡ f a y
unfolding ◌>>=◌
then-ok m f x e = ap (after f) e

-- A function on the Client.
abbrev pub change : {N : Type 0} → (Client → Result Client) → Step N (Unit {0})
change op x = elim (op x.client) [
  | err e ↦ some (err e, x)
  | ok c ↦ some (ok tt, record x { client = c })
]

pub change-ok :
    {N : Type 0} (op : Client → Result Client) (x : Mux N) (c : Client)
    → op x.client ≡ ok c
    → change op x ≡ some (ok tt, record x { client = c })
change-ok op x c e = rw (e, change) refl

abbrev pub own_tag : {N : Type 0} → ℕ → Step N ℕ
own_tag r x = elim (gettag r x.client) [
  | err e ↦ some (err e, x)
  | ok (none, c) ↦ none
  | ok (some tag, c) ↦ some (ok tag, record x { client = c })
]

abbrev pub get_reply : {N : Type 0} → ℕ → Step N (Option Fcall)
get_reply r x = some (ok (x.client.reply r), x)

abbrev pub set_muxer : {N : Type 0} → Option ℕ → Step N (Unit {0})
set_muxer r x = some (ok tt, record x { muxer = r })

-- std::make_shared<BareRpc>.
abbrev pub new_rpc : ℕ → Client → Client
new_rpc r c = record c {
  tag = put c.tag r 0;
  reply = put c.reply r none;
  next = put c.next r none;
  previous = put c.previous r none;
}

-- The loop of electmuxer: the first sleeper that is not asynchronous reads from now on.
unfoldable pub elect : {N : Type 0} → ℕ → Option ℕ → Step N (Unit {0})
elect zero at x = none
elect (suc fuel) none x = some (err bad_access, x)
elect (suc fuel) (some n) x =
    let rest = elect fuel (x.client.next n) x in
    if n == x.client.sleep
    then set_muxer none x
    else if not (x.async n)
    then set_muxer (some n) x
    else rest

unfoldable pub electmuxer : {N : Type 0} → ℕ → Step N (Unit {0})
unfolding elect
electmuxer fuel x = elect fuel (x.client.next x.client.sleep) x

-- The wait of muxrpc: until nobody else reads, or the reply is there.
unfoldable pub wait_turn : {N : Type 0} → ℕ → Step N (Unit {0})
wait_turn r x =
    let turn : Option (Result (Unit {0}) × Mux _) = some (ok tt, x) in
    elim x.muxer [
      | none ↦ turn
      | some m ↦ elim (x.client.reply r) [ some p ↦ turn | none ↦ if m == r then turn else none ]
    ]

-- f->getTag(), and dispatchandqlock.
unfoldable pub deliver : {N : Type 0} → Fcall → Step N (Unit {0})
deliver f = elim f.storage [ none ↦ throw | some s ↦ change (dispatch (header_of s).tag f) ]

-- The end of muxrpc.
unfoldable pub take_reply : {N : Type 0} → ℕ → Step N (Option Fcall)
take_reply r = do
  p ← get_reply r
  change (puttag r)
  elim p [ none ↦ throw | some f ↦ pure (some f) ]

module _ {N : Type 0} (transmit : VariantStorage → N → Option (Result (Bool × N)))
    (receive : N → Option (Result (Option Fcall × N))) where
  -- pack and sendmsg.
  abbrev pub send : VariantStorage → Step N Bool
  send tx x = elim (transmit tx x.net) [
    | none ↦ none
    | some (err e) ↦ some (err e, x)
    | some (ok (sent, n)) ↦ some (ok sent, record x { net = n })
  ]

  -- muxrecv.
  abbrev pub recv : Step N (Option Fcall)
  recv x = elim (receive x.net) [
    | none ↦ none
    | some (err e) ↦ some (err e, x)
    | some (ok (f, n)) ↦ some (ok f, record x { net = n })
  ]

  -- The end of sendrpc.
  abbrev pub or_withdraw : ℕ → Bool → Step N Bool
  or_withdraw r true = pure true
  or_withdraw r false = do change (dequeue r); change (puttag r); pure false

  unfoldable pub sendrpc : ℕ → VariantStorage → Step N Bool
  sendrpc r tx = do
    tag ← own_tag r
    change (enqueue r)
    sent ← send (with_tag tag tx)
    or_withdraw r sent

  -- The loop of muxrpc, up to the reply or the end of the stream.
  unfoldable pub mux_loop : ℕ → ℕ → Step N (Unit {0})
  unfolding deliver
  mux_loop zero r x = none
  mux_loop (suc fuel) r x = elim (x.client.reply r) [
    | some p ↦ some (ok tt, x)
    | none ↦
        after (λ p. elim p [ none ↦ change (dequeue r) | some f ↦ deliver f >> mux_loop fuel r ])
          (recv x)
  ]

  -- The part of muxrpc that reads.
  unfoldable pub read_replies : ℕ → ℕ → Option Fcall → Step N (Unit {0})
  unfolding mux_loop electmuxer
  read_replies fuel r (some p) = pure tt
  read_replies fuel r none = do set_muxer (some r); mux_loop fuel r; electmuxer fuel

  abbrev pub after_send : ℕ → ℕ → Bool → Step N (Option Fcall)
  after_send fuel r false = pure none
  after_send fuel r true = do wait_turn r; p ← get_reply r; read_replies fuel r p; take_reply r

  unfoldable pub muxrpc : ℕ → ℕ → VariantStorage → Step N (Option Fcall)
  unfolding sendrpc
  muxrpc fuel r tx = do change (λ c. ok (new_rpc r c)); sent ← sendrpc r tx; after_send fuel r sent
