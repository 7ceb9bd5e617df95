-- ===== src/Rpc/Queue.antt =====
-- enqueue and dequeue: the links of the sleepers are a ring, which stands for a list.
use libixp.Base.{
  IsApart, AllApart, IsApart-left, IsApart-here, IsApart-right, IsApart-without, IsApart-behind,
  AllApart-without, ℕ, ◌≡◌, ◌≢◌, refl, sym, ◌∙◌, List, [], ◌∷◌, ◌++◌, All, Option, none, some,
}
use libixp.Msg.{ok}
use libixp.Rpc.Slots.{put_self, put_other}
use libixp.Rpc.{Client, put, enqueue, dequeue, linked, unlinked, previous_linked}

-- From a the links lead through xs to b, and back.
abbrev pub Linked : (ℕ → Option ℕ) → (ℕ → Option ℕ) → ℕ → List ℕ → ℕ → Type 0
Linked next previous a [] b = (next a ≡ some b) × (previous b ≡ some a)
Linked next previous a (x ∷ xs) b =
    (next a ≡ some x) × (previous x ≡ some a) × Linked next previous x xs b

-- The sleepers are xs, in the order of the links from the head.
pub record IsRing (c : Client) (xs : List ℕ) : Type 0 where
  pub linked : Linked c.next c.previous c.sleep xs c.sleep
  pub head_apart : IsApart c.sleep xs
  pub apart : AllApart xs

put_twice :
    {A : Type 0} (f : ℕ → A) (q r x : ℕ) (v w : A) → x ≢ q → x ≢ r → put (put f q v) r w x ≡ f x
put_twice f q r x v w h k = put_other (put f q v) r x w k ∙ put_other f q x v h

put_first : {A : Type 0} (f : ℕ → A) (q r : ℕ) (v w : A) → q ≢ r → put (put f q v) r w q ≡ v
put_first f q r v w h = put_other (put f q v) r q w h ∙ put_self f q v

-- Links that are changed elsewhere.
pub Linked-frame :
    (n n' p p' : ℕ → Option ℕ) (a : ℕ) (xs : List ℕ) (b : ℕ)
    → n' a ≡ n a
    → p' b ≡ p b
    → All (λ x. n' x ≡ n x) xs
    → All (λ x. p' x ≡ p x) xs
    → Linked n p a xs b
    → Linked n' p' a xs b
Linked-frame n n' p p' a [] b ea eb ns ps (h, k) = (ea ∙ h, eb ∙ k)
Linked-frame n n' p p' a (x ∷ xs) b ea eb (en, ns) (ep, ps) (h, k, l) =
    (ea ∙ h, ep ∙ k, Linked-frame n n' p p' x xs b en eb ns ps l)

-- What holds of the nodes apart from two others holds of all of a list.
pub unless :
    {A : Type 0} (f : ℕ → A) (q r : ℕ) (v w : A) (xs : List ℕ)
    → IsApart q xs
    → IsApart r xs
    → All (λ x. put (put f q v) r w x ≡ f x) xs
unless f q r v w [] h k = tt
unless f q r v w (x ∷ xs) (p, h) (p', k) =
    (put_other (put f q v) r x w p' ∙ put_other f q x v p, unless f q r v w xs h k)

enqueue_at :
    (r first p : ℕ) (c : Client)
    → c.next c.sleep ≡ some first
    → previous_linked r first c r ≡ some p
    → enqueue r c ≡ ok (linked r first p c)
unfolding enqueue
enqueue_at r first p c h k = rw (enqueue, h, k) refl

dequeue_at :
    (r p n : ℕ) (c : Client)
    → c.next r ≡ some n
    → put c.previous n (c.previous r) r ≡ some p
    → dequeue r c ≡ ok (unlinked r p n c)
unfolding dequeue
dequeue_at r p n c h k = rw (dequeue, h, k) refl

-- enqueue of a call that is not in the ring does not fail, and the ring then holds it first and
-- the others behind it in their order.
pub enqueue-IsRing :
    (r : ℕ) (c : Client) (xs : List ℕ)
    → IsRing c xs
    → r ≢ c.sleep
    → IsApart r xs
    → (first : ℕ) × (p : ℕ) × (enqueue r c ≡ ok (linked r first p c))
      × IsRing (linked r first p c) (r ∷ xs)
unfolding linked
enqueue-IsRing r c [] v new apart =
    let previous = put (put c.previous r (some c.sleep)) c.sleep (some r) in
    let next = put (put c.next r (some c.sleep)) c.sleep (some r) in
    let back : previous r ≡ some c.sleep =
      put_first c.previous r c.sleep (some c.sleep) (some r) new in
    (
      c.sleep,
      c.sleep,
      enqueue_at r c.sleep c.sleep c v.linked.0 back,
      record {
        linked = (
          put_self (put c.next r (some c.sleep)) c.sleep (some r),
          back,
          (
            put_first c.next r c.sleep (some c.sleep) (some r) new,
            put_self (put c.previous r (some c.sleep)) c.sleep (some r),
          ),
        );
        head_apart = (new, tt);
        apart = (tt, tt);
      },
    )
enqueue-IsRing r c (x ∷ xs) v new (x_r, apart) =
    let previous = put (put c.previous r (some c.sleep)) x (some r) in
    let next = put (put c.next r (some x)) c.sleep (some r) in
    let (x_head, xs_head) = v.head_apart in
    let (x_apart, xs_apart) = v.apart in
    let (h, k, l) = v.linked in
    let back : previous r ≡ some c.sleep =
      put_first c.previous r x (some c.sleep) (some r) (λ e. x_r (sym e)) in
    (
      x,
      c.sleep,
      enqueue_at r x c.sleep c h back,
      record {
        linked = (
          put_self (put c.next r (some x)) c.sleep (some r),
          back,
          (
            put_first c.next r c.sleep (some x) (some r) new,
            put_self (put c.previous r (some c.sleep)) x (some r),
            Linked-frame c.next next c.previous previous x xs c.sleep
                (put_twice c.next r c.sleep x (some x) (some r) x_r x_head)
                (put_twice c.previous r x c.sleep (some c.sleep) (some r) (λ e. new (sym e))
                  (λ e. x_head (sym e)))
                (unless c.next r c.sleep (some x) (some r) xs apart xs_head)
                (unless c.previous r x (some c.sleep) (some r) xs apart x_apart) l,
          ),
        );
        head_apart = (new, (x_head, xs_head));
        apart = ((x_r, apart), (x_apart, xs_apart));
      },
    )

-- The neighbours of r in the list, and the links around it once they are linked to each other.
record Bypass (n p : ℕ → Option ℕ) (a : ℕ) (xs : List ℕ) (r : ℕ) (ys : List ℕ) (b : ℕ)
    : Type 0 where
  before : ℕ
  after : ℕ
  is_before : p r ≡ some before
  is_after : n r ≡ some after
  in_front : (q : ℕ) → q ≢ a → IsApart q xs → q ≢ before
  behind : (q : ℕ) → q ≢ b → IsApart q ys → q ≢ after
  linked : Linked (put (put n before (n r)) r none) (put (put p after (p r)) r none) a (xs ++ ys) b

bypass :
    (n p : ℕ → Option ℕ) (a : ℕ) (xs : List ℕ) (r : ℕ) (ys : List ℕ) (b : ℕ)
    → Linked n p a (xs ++ r ∷ ys) b
    → IsApart a (xs ++ r ∷ ys)
    → IsApart b (xs ++ r ∷ ys)
    → AllApart (xs ++ r ∷ ys)
    → Bypass n p a xs r ys b
bypass n p a [] r [] b (h, k, (h', k')) (ra, _) (rb, _) d = record {
  before = a;
  after = b;
  is_before = k;
  is_after = h';
  in_front = λ q ne _. ne;
  behind = λ q ne _. ne;
  linked = (
    put_first n a r (n r) none (λ e. ra (sym e)) ∙ h',
    put_first p b r (p r) none (λ e. rb (sym e)) ∙ k,
  );
}
bypass n p a [] r (y ∷ ys) b (h, k, (h', k', l)) (ra, (ya, ysa)) (rb, (yb, ysb))
      ((yr, ysr), (ysy, d)) =
    record {
      before = a;
      after = y;
      is_before = k;
      is_after = h';
      in_front = λ q ne _. ne;
      behind = λ q ne apart e. apart.0 (sym e);
      linked = (
        put_first n a r (n r) none (λ e. ra (sym e)) ∙ h',
        put_first p y r (p r) none yr ∙ k,
        Linked-frame n (put (put n a (n r)) r none) p (put (put p y (p r)) r none) y ys b
            (put_twice n a r y (n r) none ya yr)
            (put_twice p y r b (p r) none (λ e. yb (sym e)) (λ e. rb (sym e)))
            (unless n a r (n r) none ys ysa ysr) (unless p y r (p r) none ys ysy ysr) l,
      );
    }
bypass n p a (x ∷ xs) r ys b (h, k, l) (xa, aa) (xb, ab) (xx, d) =
    let rest = bypass n p x xs r ys b l xx ab d in
    record {
      before = rest.before;
      after = rest.after;
      is_before = rest.is_before;
      is_after = rest.is_after;
      in_front = λ q ne apart. rest.in_front q (λ e. apart.0 (sym e)) apart.1;
      behind = rest.behind;
      linked = (
        put_twice n rest.before r a (n r) none
              (rest.in_front a (λ e. xa (sym e)) (IsApart-left a r xs ys aa))
              (λ e. IsApart-here a r xs ys aa (sym e))
            ∙ h,
        put_twice p rest.after r x (p r) none (rest.behind x xb (IsApart-right x r xs ys xx))
              (λ e. IsApart-here x r xs ys xx (sym e))
            ∙ k,
        rest.linked,
      );
    }

-- dequeue does not fail on a sleeper: it takes it out of the list, leaves the others in their order,
-- and the node has no links any more.
pub dequeue-IsRing :
    (r : ℕ) (c : Client) (xs ys : List ℕ)
    → IsRing c (xs ++ r ∷ ys)
    → (p : ℕ) × (n : ℕ) × (dequeue r c ≡ ok (unlinked r p n c))
      × IsRing (unlinked r p n c) (xs ++ ys)
      × ((unlinked r p n c).next r ≡ none)
      × ((unlinked r p n c).previous r ≡ none)
unfolding unlinked
dequeue-IsRing r c xs ys v =
    let b =
      bypass c.next c.previous c.sleep xs r ys c.sleep v.linked v.head_apart v.head_apart v.apart in
    let r_head : r ≢ c.sleep = IsApart-here c.sleep r xs ys v.head_apart in
    let back : put c.previous b.after (c.previous r) r ≡ some b.before =
      put_other c.previous b.after r (c.previous r)
        (b.behind r r_head (IsApart-behind r xs ys v.apart))
      ∙ b.is_before in
    (
      b.before,
      b.after,
      dequeue_at r b.before b.after c b.is_after back,
      record {
        linked = b.linked;
        head_apart = IsApart-without c.sleep r xs ys v.head_apart;
        apart = AllApart-without r xs ys v.apart;
      },
      put_self (put c.next b.before (c.next r)) r none,
      put_self (put c.previous b.after (c.previous r)) r none,
    )

-- A sleeper has a link back.
pub previous-IsRing :
    (r : ℕ) (c : Client) (xs ys : List ℕ)
    → IsRing c (xs ++ r ∷ ys)
    → (p : ℕ) × (c.previous r ≡ some p)
previous-IsRing r c xs ys v =
    let b =
      bypass c.next c.previous c.sleep xs r ys c.sleep v.linked v.head_apart v.head_apart v.apart in
    (b.before, b.is_before)
