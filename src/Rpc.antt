-- ===== src/Rpc.antt =====
-- rpc.cc: the calls of a Client that wait for their replies, each in the slot of its tag and in the
-- ring of sleepers. An Rpc is the number of its node; the locks are left out, so that a function
-- is what happens while the lock is held.
pub mod Slots
pub mod Tags
pub mod Queue
pub mod Dispatch
pub mod Mux
pub mod Wire
use libixp.Base.{
  ℕ, zero, suc, ◌+◌, ◌-◌, ◌*◌, Bool, true, false, List, [], ◌∷◌, ◌++◌, length, get_elem?, set,
  replicate, ltb, leb, ◌==◌, ◌&&◌, ◌||◌, if◌then◌else◌, Option, none, some,
}
use libixp.Msg.{Error, bad_access, exception, Result, ok, err}
use libixp.Fcall.Storage.{Fcall}

-- wait, _nwait, _mwait, _freetag, _mintag and _maxtag, and of every Rpc its tag, its reply and its
-- links. `sleep` is the node that heads the ring.
pub record Client : Type 0 where
  pub wait : List (Option ℕ)
  pub nwait : ℕ
  pub mwait : ℕ
  pub freetag : ℕ
  pub mintag : ℕ
  pub maxtag : ℕ
  pub tag : ℕ → ℕ
  pub reply : ℕ → Option Fcall
  pub next : ℕ → Option ℕ
  pub previous : ℕ → Option ℕ
  pub sleep : ℕ

-- A field of one node is set.
abbrev pub put {ℓ} : {A : Type ℓ} → (ℕ → A) → ℕ → A → ℕ → A
put f r v x = if x == r then v else f x

-- The outcome of a search for a null slot.
pub data Search : Type 0 where
  at : ℕ → Search
  nowhere outside : Search

-- wait[i] for the n places from i on, up to the first that is null.
unfoldable pub search : List (Option ℕ) → ℕ → ℕ → Search
search wait i zero = nowhere
search wait i (suc n) = elim (get_elem? wait i) [
  | none ↦ outside
  | some none ↦ at i
  | some (some r) ↦ search wait (suc i) n
]

-- The lambda Found: the tag of the slot, which is r's now.
unfoldable pub found : ℕ → ℕ → Client → ℕ × Client
found r i c = (
  i + c.mintag,
  record c { nwait = suc c.nwait; wait = set c.wait i (some r); tag = put c.tag r (i + c.mintag) },
)

-- The slots double in number, and the first new one is free.
pub grow : Client → Client
grow c =
    let mw = if c.mwait == 0 then 1 else c.mwait * 2 in
    record c { wait = c.wait ++ replicate (mw - length c.wait) none; freetag = c.mwait; mwait = mw }

-- The three looks for a free slot: at _freetag, from there on, and from the first on.
unfoldable pub take_tag : ℕ → Client → Result (Option ℕ × Client)
take_tag r c = elim (search c.wait c.freetag 1) [
  | outside ↦ err bad_access
  | at i ↦ ok (some (found r i c).0, (found r i c).1)
  | nowhere ↦ elim (search c.wait c.freetag (c.mwait - c.freetag)) [
    | outside ↦ err bad_access
    | at i ↦ ok (some (found r i c).0, (found r i c).1)
    | nowhere ↦ elim (search c.wait 0 c.freetag) [
      | outside ↦ err bad_access
      | at i ↦ ok (some (found r i c).0, (found r i c).1)
      | nowhere ↦ err exception
    ]
  ]
]

-- gettag, up to where it would wait for a tag: then it gives none. It is called again when
-- puttag has notified it.
unfoldable pub gettag : ℕ → Client → Result (Option ℕ × Client)
gettag r c =
    if c.nwait == c.mwait
    then (if ltb c.mwait (c.maxtag - c.mintag) then take_tag r (grow c) else ok (none, c))
    else take_tag r c

abbrev pub holds : Option (Option ℕ) → ℕ → Result Bool
holds none r = err bad_access
holds (some none) r = ok false
holds (some (some r')) r = ok (r' == r)

-- puttag: r's slot is null again, and is the one that is tried first.
pub puttag : ℕ → Client → Result Client
puttag r c =
    if ltb (c.tag r) c.mintag
    then err bad_access
    else (let i = c.tag r - c.mintag in
        elim (holds (get_elem? c.wait i) r) [
          | err e ↦ err e
          | ok false ↦ err exception
          | ok true ↦ ok (record c { wait = set c.wait i none; nwait = c.nwait - 1; freetag = i })
        ])

-- The links of first and of r lead back, and those of p and r forward.
abbrev pub previous_linked : ℕ → ℕ → Client → ℕ → Option ℕ
previous_linked r first c = put (put c.previous r (some c.sleep)) first (some r)

pub linked : ℕ → ℕ → ℕ → Client → Client
linked r first p c = record c {
  next = put (put c.next r (some first)) p (some r);
  previous = previous_linked r first c;
}

-- enqueue: r stands behind the head of the ring. The links are followed after each is set.
pub enqueue : ℕ → Client → Result Client
enqueue r c = elim (c.next c.sleep) [
  | none ↦ err bad_access
  | some first ↦ elim (previous_linked r first c r) [
    | none ↦ err bad_access
    | some p ↦ ok (linked r first p c)
  ]
]

-- The neighbours p and n of r are linked to each other, and r to nothing.
pub unlinked : ℕ → ℕ → ℕ → Client → Client
unlinked r p n c = record c {
  next = put (put c.next p (c.next r)) r none;
  previous = put (put c.previous n (c.previous r)) r none;
}

pub dequeue : ℕ → Client → Result Client
dequeue r c = elim (c.next r) [
  | none ↦ err bad_access
  | some n ↦ elim (put c.previous n (c.previous r) r) [
    | none ↦ err bad_access
    | some p ↦ ok (unlinked r p n c)
  ]
]

-- dispatchandqlock: a reply with the given tag goes to the Rpc that waits in its slot.
pub dispatch : ℕ → Fcall → Client → Result Client
dispatch tag f c =
    if ltb tag c.mintag || leb c.mwait (tag - c.mintag)
    then err exception
    else elim (get_elem? c.wait (tag - c.mintag)) [
      | none ↦ err bad_access
      | some none ↦ err exception
      | some (some r) ↦ elim (c.previous r) [
        | none ↦ err exception
        | some p ↦ dequeue r (record c { reply = put c.reply r (some f) })
      ]
    ]
