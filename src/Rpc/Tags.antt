-- ===== src/Rpc/Tags.antt =====
-- gettag and puttag: every waiting Rpc has a tag of its own, and one is found if one is free.
use libixp.Base.{
  ℕ, suc, ◌+◌, ◌-◌, ◌*◌, ◌≤◌, ◌<◌, ◌≡◌, ◌≢◌, refl, sym, ap, ◌∙◌, ◌⊎◌, inl, inr, List, arith, length,
  length-append, get_elem?, get_elem?-set_self, get_elem?-set_ne, get_elem?-some_lt,
  get_elem?-append_left, length-replicate, eq-cases, set, length-set, replicate, Option, none, some,
  ◌==◌, if◌then◌else◌, true, false, lt→ltb, le→ltb_false, ==_iff, lt-cases, subst,
}
use libixp.Msg.{ok}
use libixp.Rpc.{Client, at, search, found, grow, take_tag, gettag, puttag}
use libixp.Rpc.Slots.{
  put_self, put_other, used, used-set-some, used-set-none, used-grown, used-le, get_elem?-grown,
  search-around, search-first,
}

-- The invariant of the slots.
pub record IsClient (c : Client) : Type 0 where
  pub slots : length c.wait ≡ c.mwait
  pub counted : c.nwait ≡ used c.wait
  pub first : (c.mwait ≡ 0) ⊎ (c.freetag < c.mwait)
  pub tagged : (i r : ℕ) → get_elem? c.wait i ≡ some (some r) → c.tag r ≡ i + c.mintag

-- r waits in no slot.
abbrev pub IsIdle : Client → ℕ → Type 0
IsIdle c r = (i : ℕ) → get_elem? c.wait i ≢ some (some r)

found-IsClient :
    (r i : ℕ) (c : Client)
    → IsClient c
    → IsIdle c r
    → i < length c.wait
    → get_elem? c.wait i ≡ some none
    → IsClient (found r i c).1
unfolding found
found-IsClient r i c v idle lt free = record {
  slots = length-set c.wait i (some r) ∙ v.slots;
  counted = ap suc v.counted ∙ sym (used-set-some c.wait i r free);
  first = v.first;
  tagged = λ j r' e. elim (eq-cases i j) [
    | inl same ↦
        let e' : some (some r) ≡ some (some r') =
          sym (get_elem?-set_self c.wait i (some r) lt)
          ∙ ap (get_elem? (set c.wait i (some r))) same
          ∙ e in
        let mine : r ≡ r' = cc in rw (← mine, ← same) (put_self c.tag r (i + c.mintag))
    | inr differ ↦
        let e' : get_elem? c.wait j ≡ some (some r') =
          sym (get_elem?-set_ne c.wait i j (some r) differ) ∙ e in
        put_other c.tag r r' (i + c.mintag) (λ mine. idle j (rw (← mine) e')) ∙ v.tagged j r' e'
  ];
}

-- What gettag gives r: a slot that was free, and no other slot is touched.
pub record Got (r : ℕ) (c c' : Client) (tag : ℕ) : Type 0 where
  pub slot : ℕ
  pub slot_tag : tag ≡ slot + c.mintag
  pub own_tag : c'.tag r ≡ tag
  pub was_free : (s : Option ℕ) → get_elem? c.wait slot ≡ some s → s ≡ none
  pub now_held : get_elem? c'.wait slot ≡ some (some r)
  pub others :
      (j r' : ℕ) → get_elem? c.wait j ≡ some (some r') → get_elem? c'.wait j ≡ some (some r')
  pub kept :
      (c'.next ≡ c.next) × (c'.previous ≡ c.previous) × (c'.sleep ≡ c.sleep) × (c'.reply ≡ c.reply)
  pub valid : IsClient c'

found-Got :
    (r i : ℕ) (c : Client)
    → IsClient c
    → IsIdle c r
    → get_elem? c.wait i ≡ some none
    → Got r c (found r i c).1 (found r i c).0
unfolding found
found-Got r i c v idle free =
    let lt = get_elem?-some_lt c.wait i free in
    record {
      slot = i;
      slot_tag = refl;
      own_tag = put_self c.tag r (i + c.mintag);
      was_free = λ s e. cc;
      now_held = get_elem?-set_self c.wait i (some r) lt;
      others = λ j r' e.
          get_elem?-set_ne c.wait i j (some r) (λ same.
            let e' : get_elem? c.wait j ≡ some none = sym (ap (get_elem? c.wait) same) ∙ free in cc)
          ∙ e;
      kept = (refl, refl, refl, refl);
      valid = found-IsClient r i c v idle lt free;
    }

take_tag-Got :
    (r : ℕ) (c : Client)
    → IsClient c
    → IsIdle c r
    → c.freetag < c.mwait
    → c.nwait < c.mwait
    → (tag : ℕ) × (c' : Client) × (take_tag r c ≡ ok (some tag, c')) × Got r c c' tag
unfolding take_tag
take_tag-Got r c v idle here free =
    elim (search-first c.wait c.freetag (omega (arith, v.slots, here))) [
      | inl (s, e) ↦ (_, _, rw (s, take_tag) refl, found-Got r c.freetag c v idle e)
      | inr s ↦
          elim (search-around c.wait c.freetag c.mwait v.slots here
            (omega (arith, v.counted, free))) [
              | inl (j, s', e) ↦ (_, _, rw (s, s', take_tag) refl, found-Got r j c v idle e)
              | inr (s', (j, s'', e)) ↦
                  (_, _, rw (s, s', s'', take_tag) refl, found-Got r j c v idle e)
            ]
    ]

grow-IsClient : (c : Client) → IsClient c → IsClient (grow c)
unfolding grow
grow-IsClient c v =
    let mw = if c.mwait == 0 then 1 else c.mwait * 2 in
    let more : c.mwait < mw = ground arith in
    let new : List (Option ℕ) = replicate (mw - length c.wait) none in
    let len : length new ≡ mw - length c.wait = length-replicate (mw - length c.wait) none in
    record {
      slots = omega (arith, length-append {0} c.wait new, len, more, v.slots);
      counted = v.counted ∙ sym (used-grown c.wait (mw - length c.wait));
      first = inr more;
      tagged = λ i r e. v.tagged i r (get_elem?-grown c.wait (mw - length c.wait) i r e);
    }

grow-IsIdle : (c : Client) (r : ℕ) → IsIdle c r → IsIdle (grow c) r
unfolding grow
grow-IsIdle c r idle i e = idle i (get_elem?-grown c.wait _ i r e)

grow-Got : (r : ℕ) (c c' : Client) (tag : ℕ) → Got r (grow c) c' tag → Got r c c' tag
unfolding grow
grow-Got r c c' tag g = record {
  slot = g.slot;
  slot_tag = g.slot_tag;
  own_tag = g.own_tag;
  was_free = λ s e. g.was_free s (get_elem?-append_left c.wait _ g.slot s e);
  now_held = g.now_held;
  others = λ j r' e. g.others j r' (get_elem?-append_left c.wait _ j (some r') e);
  kept = g.kept;
  valid = g.valid;
}

grow-free :
    (c : Client)
    → IsClient c
    → c.nwait ≡ c.mwait
    → ((grow c).freetag < (grow c).mwait) × ((grow c).nwait < (grow c).mwait)
unfolding grow
grow-free c v full = (ground arith, ground arith)

-- gettag gives an Rpc that is not waiting yet a tag, if a slot is free or the slots may still grow:
-- the slot was free, it holds the Rpc now, the others hold what they held, the tag is the slot's,
-- and the slots are well-formed again. It never falls out of its loop without a tag.
pub gettag-gives :
    (r : ℕ) (c : Client)
    → IsClient c
    → IsIdle c r
    → (c.nwait < c.mwait) ⊎ (c.mwait < c.maxtag - c.mintag)
    → (tag : ℕ) × (c' : Client) × (gettag r c ≡ ok (some tag, c')) × Got r c c' tag
unfolding gettag
gettag-gives r c v idle room = elim (eq-cases c.nwait c.mwait) [
  | inl full ↦
      let (here, free) = grow-free c v full in
      let (tag, c', e, g) =
        take_tag-Got r (grow c) (grow-IsClient c v) (grow-IsIdle c r idle) here free in
      let full' : (c.nwait == c.mwait) ≡ true = (==_iff c.nwait c.mwait).1 full in
      let grows : c.mwait < c.maxtag - c.mintag = elim room [
        | inl lt ↦ absurd (omega (arith, lt, full))
        | inr lt ↦ lt
      ] in
      (tag, c', rw (full', lt→ltb _ _ grows) e, grow-Got r c c' tag g)
  | inr differ ↦
      let free : c.nwait < c.mwait = omega (arith, v.slots, v.counted, used-le c.wait, differ) in
      let here : c.freetag < c.mwait = elim v.first [
        | inl zero' ↦ absurd (omega (arith, zero', free))
        | inr lt ↦ lt
      ] in
      let (tag, c', e, g) = take_tag-Got r c v idle here free in
      let differ' : (c.nwait == c.mwait) ≡ false = ground arith in (tag, c', rw differ' e, g)
]

-- gettag waits, and changes nothing, exactly when every slot is taken and their number has reached
-- that of the tags.
pub gettag-waits :
    (r : ℕ) (c : Client)
    → c.nwait ≡ c.mwait
    → c.maxtag - c.mintag ≤ c.mwait
    → gettag r c ≡ ok (none, c)
unfolding gettag
gettag-waits r c full most = rw ((==_iff c.nwait c.mwait).1 full, le→ltb_false _ _ most) refl

-- A tag that gettag gave is as gettag-gives says.
pub gettag-Got :
    (r tag : ℕ) (c c' : Client)
    → IsClient c
    → IsIdle c r
    → gettag r c ≡ ok (some tag, c')
    → Got r c c' tag
gettag-Got r tag c c' v idle e =
    let given : (c.nwait < c.mwait) ⊎ (c.mwait < c.maxtag - c.mintag) → Got r c c' tag = λ room.
      let (tag', c'', e', g) = gettag-gives r c v idle room in
      let same_tag : tag' ≡ tag = cc in
      let same : c'' ≡ c' = cc in
      subst (λ t. Got r c c' t) same_tag (subst (λ d. Got r c d tag') same g) in
    elim (lt-cases c.nwait c.mwait) [
      | inl free ↦ given (inl free)
      | inr full ↦ elim (lt-cases c.mwait (c.maxtag - c.mintag)) [
        | inl more ↦ given (inr more)
        | inr most ↦
            let waits =
              gettag-waits r c (omega (arith, full, used-le c.wait, v.counted, v.slots)) most in
            cc
      ]
    ]

-- Two waiting Rpcs that have the same tag are the same Rpc.
pub tags-Distinct :
    (c : Client) (i j r r' : ℕ)
    → IsClient c
    → get_elem? c.wait i ≡ some (some r)
    → get_elem? c.wait j ≡ some (some r')
    → c.tag r ≡ c.tag r'
    → r ≡ r'
tags-Distinct c i j r r' v e e' same =
    let ij : i ≡ j = omega (arith, v.tagged i r e, v.tagged j r' e', same) in
    let e'' : get_elem? c.wait j ≡ some (some r) = sym (ap (get_elem? c.wait) ij) ∙ e in cc

-- What puttag leaves.
abbrev pub freed : ℕ → Client → Client
freed i c = record c { wait = set c.wait i none; nwait = c.nwait - 1; freetag = i }

freed-IsClient :
    (i r : ℕ) (c : Client) → IsClient c → get_elem? c.wait i ≡ some (some r) → IsClient (freed i c)
freed-IsClient i r c v held =
    let lt = get_elem?-some_lt c.wait i held in
    record {
      slots = length-set c.wait i none ∙ v.slots;
      counted = omega (arith, used-set-none c.wait i r held, v.counted);
      first = inr (omega (arith, lt, v.slots));
      tagged = λ j r' e. elim (eq-cases i j) [
        | inl same ↦
            let e' : some none ≡ some (some r') =
              sym (get_elem?-set_self c.wait i none lt)
              ∙ ap (get_elem? (set c.wait i none)) same
              ∙ e in
            cc
        | inr differ ↦ v.tagged j r' (sym (get_elem?-set_ne c.wait i j none differ) ∙ e)
      ];
    }

-- puttag of an Rpc that waits in a slot frees that slot, which is the one to be tried first, and
-- the slots stay well-formed.
pub puttag-frees :
    (r i : ℕ) (c : Client)
    → IsClient c
    → get_elem? c.wait i ≡ some (some r)
    → (puttag r c ≡ ok (freed i c)) × IsClient (freed i c)
unfolding puttag
puttag-frees r i c v held =
    let above : c.mintag ≤ c.tag r = omega (arith, v.tagged i r held) in
    let here : c.tag r - c.mintag ≡ i = omega (arith, v.tagged i r held) in
    let same : (r == r) ≡ true = ground arith in
    let held' : get_elem? c.wait (c.tag r - c.mintag) ≡ some (some r) = rw here held in
    (
      rw (le→ltb_false _ _ above, held', same) (ap (λ k. ok (freed k c)) here),
      freed-IsClient i r c v held,
    )

-- In a well-formed client the tag that puttag took from a call is the next that gettag gives, and
-- the slot then holds the call that asked.
pub gettag-puttag :
    (r r' i : ℕ) (c c' : Client)
    → IsClient c
    → get_elem? c.wait i ≡ some (some r)
    → puttag r c ≡ ok c'
    → (c'' : Client) × (gettag r' c' ≡ ok (some (c.tag r), c''))
      × (get_elem? c''.wait i ≡ some (some r'))
unfolding gettag take_tag found search
gettag-puttag r r' i c c' v held e =
    let (e', w) = puttag-frees r i c v held in
    let same : freed i c ≡ c' = cc in
    let lt = get_elem?-some_lt c.wait i held in
    let null = get_elem?-set_self c.wait i none lt in
    let some_used = used-set-none c.wait i r held in
    let differ : (c.nwait - 1 == c.mwait) ≡ false =
      let le = used-le c.wait in
      let n : c.nwait - 1 ≢ c.mwait = λ eq. omega (arith, v.counted, v.slots, some_used, le, eq) in
      ground arith in
    let s : search (set c.wait i none) i 1 ≡ at i = rw (search, null) refl in
    rw (← same) (
      (found r' i (freed i c)).1,
      rw (differ, take_tag, s)
          (ap (λ k. ok (some k, (found r' i (freed i c)).1)) (sym (v.tagged i r held))),
      get_elem?-set_self (set c.wait i none) i (some r')
          (omega (arith, lt, length-set c.wait i none)),
    )
