-- ===== src/Rpc/Mux/Arrivals.antt =====
-- The loop of muxrpc: the replies to other calls go to their sleepers, in whatever order they
-- arrive.
use libixp.Base.{
  ℕ, suc, ◌+◌, ◌≤◌, ◌≡◌, ◌≢◌, refl, ◌∙◌, sym, ap, Bool, List, [], ◌∷◌, ◌++◌, ◌⊎◌, IsApart, All,
  Option, none, some, length, arith, get_elem?, inl, inr, map, subst,
}
use libixp.Msg.{Result, ok}
use libixp.Fcall.Storage.{Fcall, VariantStorage, header_of}
use libixp.Rpc.{Client, put, dispatch, unlinked}
use libixp.Rpc.Queue.{IsRing, dequeue-IsRing, previous-IsRing}
use libixp.Rpc.Slots.{put_self, put_other}
use libixp.Rpc.Tags.{IsClient}
use libixp.Rpc.Dispatch.{dispatch-held}
use libixp.Rpc.Mux.{Mux, then-ok, change-ok, recv, deliver, mux_loop}

-- A ring is a matter of its links and its head.
pub same-IsRing :
    (c c' : Client) (xs : List ℕ)
    → c'.next ≡ c.next
    → c'.previous ≡ c.previous
    → c'.sleep ≡ c.sleep
    → IsRing c xs
    → IsRing c' xs
same-IsRing c c' xs n p s v = record {
  linked = rw (n, p, s) v.linked;
  head_apart = rw s v.head_apart;
  apart = v.apart;
}

-- r is one of xs.
abbrev pub IsIn : ℕ → List ℕ → Type 0
IsIn r [] = ⊥
IsIn r (x ∷ xs) = (x ≡ r) ⊎ IsIn r xs

pub IsIn-split :
    (r : ℕ) (zs : List ℕ) → IsIn r zs → (xs : List ℕ) × (ys : List ℕ) × (zs ≡ xs ++ r ∷ ys)
IsIn-split r [] h = absurd h
IsIn-split r (x ∷ xs) (inl e) = ([], xs, ap (λ y. y ∷ xs) e)
IsIn-split r (x ∷ xs) (inr h) =
    let (front, back, e) = IsIn-split r xs h in (x ∷ front, back, ap (◌∷◌ x) e)

pub IsIn-without : (q r : ℕ) (xs ys : List ℕ) → q ≢ r → IsIn q (xs ++ r ∷ ys) → IsIn q (xs ++ ys)
IsIn-without q r [] ys ne (inl e) = absurd (ne (sym e))
IsIn-without q r [] ys ne (inr h) = h
IsIn-without q r (x ∷ xs) ys ne (inl e) = inl e
IsIn-without q r (x ∷ xs) ys ne (inr h) = inr (IsIn-without q r xs ys ne h)

pub length-without : (r : ℕ) (xs ys : List ℕ) → length (xs ++ ys) ≤ length (xs ++ r ∷ ys)
length-without r [] ys = omega arith
length-without r (x ∷ xs) ys = omega (arith, length-without r xs ys)

-- A reply, and the Rpc that it is for.
abbrev pub Reply : Type 0
Reply = ℕ × VariantStorage

abbrev pub stored : VariantStorage → Fcall
stored f = record { storage = some f }

abbrev pub callers : List Reply → List ℕ
callers = map (λ s. s.0)

-- The Rpc of a reply sleeps, in a slot whose tag is that of the reply.
abbrev pub IsAwaited : Client → List ℕ → Reply → Type 0
IsAwaited c zs (s, f) =
    IsIn s zs
    × ((slot : ℕ) × (get_elem? c.wait slot ≡ some (some s)) × ((header_of f).tag ≡ c.tag s))

-- The replies are for different Rpcs.
abbrev pub AllDistinct : List Reply → Type 0
AllDistinct [] = Unit {0}
AllDistinct (s ∷ ss) = IsApart s.0 (callers ss) × AllDistinct ss

-- Replies stay awaited when another arrived.
await-on :
    (s : ℕ) (c c' : Client) (xs ys : List ℕ) (ss : List Reply)
    → c'.wait ≡ c.wait
    → c'.tag ≡ c.tag
    → IsApart s (callers ss)
    → All (IsAwaited c (xs ++ s ∷ ys)) ss
    → All (IsAwaited c' (xs ++ ys)) ss
await-on s c c' xs ys [] w t apart h = tt
await-on s c c' xs ys ((q, f) ∷ ss) w t (differ, apart) ((sleeps, (slot, held, tag)), h) = (
  (IsIn-without q s xs ys differ sleeps, (slot, rw w held, rw t tag)),
  await-on s c c' xs ys ss w t apart h,
)

module _ {N : Type 0} (transmit : VariantStorage → N → Option (Result (Bool × N)))
    (receive : N → Option (Result (Option Fcall × N))) where
  -- A round of the loop, for whichever sleeper the reply is.
  pub mux_loop-round :
      (fuel r s slot : ℕ) (f : VariantStorage) (x : Mux N) (n : N) (xs ys : List ℕ)
      → IsClient x.client
      → IsRing x.client (xs ++ s ∷ ys)
      → get_elem? x.client.wait slot ≡ some (some s)
      → x.client.reply r ≡ none
      → receive x.net ≡ some (ok (some (record { storage = some f }), n))
      → (header_of f).tag ≡ x.client.tag s
      → (p : ℕ) × (q : ℕ) × (let c = unlinked s p q (record x.client {
        reply = put x.client.reply s (some (record { storage = some f }));
      }) in
          (mux_loop transmit receive (suc fuel) r x
            ≡ mux_loop transmit receive fuel r (record x { client = c; net = n }))
          × IsRing c (xs ++ ys))
  unfolding mux_loop deliver
  mux_loop-round fuel r s slot f x n xs ys v ring held empty got tag =
      let fcall : Fcall = record { storage = some f } in
      let replied : Client = record x.client { reply = put x.client.reply s (some fcall) } in
      let ring' = same-IsRing x.client replied (xs ++ s ∷ ys) refl refl refl ring in
      let (p, back) = previous-IsRing s x.client xs ys ring in
      let (q, m, e, less, _, _) = dequeue-IsRing s replied xs ys ring' in
      let given : dispatch (header_of f).tag fcall x.client ≡ ok (unlinked s q m replied) =
        rw tag (dispatch-held slot s fcall x.client v held p back ∙ e) in
      let delivered =
        then-ok (deliver fcall) (λ _. mux_loop transmit receive fuel r) (record x { net = n })
          (change-ok (dispatch (header_of f).tag fcall) (record x { net = n })
            (unlinked s q m replied) given) in
      (q, m, (rw (empty, mux_loop) (rw (recv, got) delivered), less))

  -- The replies are what is received next, and n' is the connection after them.
  abbrev pub Arrive : N → List Reply → N → Type 0
  Arrive n [] n' = n ≡ n'
  Arrive n ((s, f) ∷ ss) n' =
      (k : N) × (receive n ≡ some (ok (some (stored f), k))) × Arrive k ss n'

  -- A Client after the replies ss arrived: each Rpc has its own, no other has one, and of the
  -- sleepers zs those that were not answered still sleep.
  pub record Answered (ss : List Reply) (zs : List ℕ) (c c' : Client) : Type 0 where
    pub valid : IsClient c'
    pub sleepers : List ℕ
    pub ring : IsRing c' sleepers
    pub fewer : length sleepers ≤ length zs
    pub sleep_on : (q : ℕ) → IsApart q (callers ss) → IsIn q zs → IsIn q sleepers
    pub same_wait : c'.wait ≡ c.wait
    pub same_tag : c'.tag ≡ c.tag
    pub same_mintag : c'.mintag ≡ c.mintag
    pub replied : All (λ s. c'.reply s.0 ≡ some (stored s.1)) ss
    pub unreplied : (q : ℕ) → IsApart q (callers ss) → c'.reply q ≡ c.reply q

  pub mux_loop-answers :
      (ss : List Reply) (fuel r : ℕ) (x : Mux N) (n : N) (zs : List ℕ)
      → IsClient x.client
      → IsRing x.client zs
      → IsApart r (callers ss)
      → x.client.reply r ≡ none
      → All (IsAwaited x.client zs) ss
      → AllDistinct ss
      → Arrive x.net ss n
      → (c : Client) × (mux_loop transmit receive (length ss + fuel) r x
          ≡ mux_loop transmit receive fuel r (record x { client = c; net = n }))
        × Answered ss zs x.client c
  unfolding unlinked
  mux_loop-answers [] fuel r x n zs v ring apart empty awaited distinct arrive =
      let e : 0 + fuel ≡ fuel = omega arith in
      (
        x.client,
        rw e (ap (λ k. mux_loop transmit receive fuel r (record x { net = k })) arrive),
        record {
          valid = v;
          sleepers = zs;
          ring = ring;
          fewer = omega arith;
          sleep_on = λ q a h. h;
          same_wait = refl;
          same_tag = refl;
          same_mintag = refl;
          replied = tt;
          unreplied = λ q a. refl;
        },
      )
  mux_loop-answers ((s, f) ∷ ss) fuel r x n zs v ring apart empty (sleeps, awaited)
        (differ, distinct) (k, got, arrive) =
      let (slot, held, tag) = sleeps.1 in
      let (xs, ys, e) = IsIn-split s zs sleeps.0 in
      let (p, q, (round, less)) =
        mux_loop-round (length ss + fuel) r s slot f x k xs ys v (subst (IsRing x.client) e ring)
          held empty got tag in
      let c1 : Client =
        unlinked s p q (record x.client { reply = put x.client.reply s (some (stored f)) }) in
      let v1 : IsClient c1 = record {
        slots = v.slots;
        counted = v.counted;
        first = v.first;
        tagged = v.tagged;
      } in
      let (c, loops, a) =
        mux_loop-answers ss fuel r (record x { client = c1; net = k }) n (xs ++ ys) v1 less apart.1
          (put_other x.client.reply s r (some (stored f)) (λ h. apart.0 (sym h)) ∙ empty)
          (await-on s x.client c1 xs ys ss refl refl differ
            (subst (λ l. All (IsAwaited x.client l) ss) e awaited))
          distinct arrive in
      let rounds : length ((s, f) ∷ ss) + fuel ≡ suc (length ss + fuel) = omega arith in
      (
        c,
        rw rounds (round ∙ loops),
        record {
          valid = a.valid;
          sleepers = a.sleepers;
          ring = a.ring;
          fewer = omega (arith, a.fewer, length-without s xs ys, ap (λ l. length l) e);
          sleep_on = λ t b h.
              a.sleep_on t b.1 (IsIn-without t s xs ys (λ h'. b.0 (sym h')) (subst (IsIn t) e h));
          same_wait = a.same_wait;
          same_tag = a.same_tag;
          same_mintag = a.same_mintag;
          replied = (a.unreplied s differ ∙ put_self x.client.reply s (some (stored f)), a.replied);
          unreplied = λ t b.
              a.unreplied t b.1 ∙ put_other x.client.reply s t (some (stored f)) (λ h. b.0 (sym h));
        },
      )
