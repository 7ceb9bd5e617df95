-- ===== src/SrvUtil/Walk.antt =====
-- srv_walkandclone: what it finds, and what it cannot.
use libixp.Base.{
  ℕ, zero, suc, ◌+◌, ◌≤◌, ◌≡◌, ◌≢◌, refl, sym, subst, ◌∙◌, Bool, true, false, List, [], ◌∷◌, ◌++◌,
  ◌==◌, Option, none, some, arith, length, length-set, get_elem?, get_elem?-lt, set, Bool-cases,
  ◌⊎◌, inl, inr, le→ltb_false,
}
use libixp.Msg.{Error, exception, Result, ok, err}
use libixp.Msg.Fields.{Str}
use libixp.Qid.{Qid}
use libixp.Fcall.{FtWalk, FrWalk}
use libixp.Fcall.Storage.{VariantStorage, f_rwalk, f_twalk}
use libixp.Fcall.Retrieve.{get_rwalk}
use libixp.Request.{Fid, Req9, Conn9, serve, s_walk}
use libixp.Request.Handle.{same_bytes, handle}
use libixp.Request.Handle.Walks.{handle-walk_reply}
use libixp.Request.Respond.{respond}
use libixp.Request.Respond.Replies.{NeverReturns, respond-unfilled}
use libixp.SrvUtil.{
  FileIdBody, FileId, LookupFn, srv_clonefiles, set_qid, dot, dot_dot, set_wqid, down, walk_step,
  walk_loop, Walked, end_walk, walk_and_clone, with_aux, has_some, respond_walked, srv_walkandclone,
}

same_bytes-eq : (a b : Str) → same_bytes a b ≡ true → a ≡ b
same_bytes-eq [] [] h = refl
same_bytes-eq [] (y ∷ b) h = cc
same_bytes-eq (x ∷ a) [] h = cc
same_bytes-eq (x ∷ a) (y ∷ b) h = ground (arith, same_bytes-eq a b)

different : (a b : Str) → a ≢ b → same_bytes a b ≡ false
different a b ne = elim (Bool-cases (same_bytes a b)) [
  | inl same ↦ absurd (ne (same_bytes-eq a b same))
  | inr other ↦ other
]

-- A name that leads down.
abbrev pub IsPlain : Str → Type 0
IsPlain name = (name ≢ dot) × (name ≢ dot_dot)

-- The lookup finds these names, one below the other, as new files.
abbrev pub Finds : LookupFn → FileId → List (Str × FileIdBody) → Type 0
Finds lookup file [] = Unit {0}
Finds lookup file ((name, b) ∷ found) =
    IsPlain name × (lookup file name ≡ some (b ∷ [])) × Finds lookup (b ∷ file) found

abbrev pub names_of : List (Str × FileIdBody) → List Str
names_of [] = []
names_of ((name, b) ∷ found) = name ∷ names_of found

-- The file at the end of the path, with those above it.
abbrev pub reached : List (Str × FileIdBody) → FileId → FileId
reached [] file = file
reached ((name, b) ∷ found) file = reached found (b ∷ file)

-- The Qids of the files on the path, from place i on.
abbrev pub put_qids : ℕ → List (Str × FileIdBody) → List Qid → List Qid
put_qids i [] qids = qids
put_qids i ((name, b) ∷ found) qids =
    put_qids (suc i) found
      (elim (get_elem? qids i) [ none ↦ qids | some q ↦ set qids i (set_qid b q) ])

step-found :
    (lookup : LookupFn) (file : FileId) (name : Str) (b : FileIdBody)
    → IsPlain name
    → lookup file name ≡ some (b ∷ [])
    → walk_step lookup file name ≡ ok (some (b ∷ file))
unfolding walk_step down
step-found lookup file name b (ne, ne') e =
    rw (different name dot_dot ne', e) (rw (different name dot ne) refl)

set_wqid-here :
    (i : ℕ) (b : FileIdBody) (above : FileId) (r : FrWalk) (q : Qid)
    → get_elem? r.wqid i ≡ some q
    → set_wqid i (b ∷ above) (some (f_rwalk r))
      ≡ ok (some (f_rwalk (record r { wqid = set r.wqid i (set_qid b q) })))
unfolding set_wqid get_rwalk
set_wqid-here i b above r q e = rw (e, set_wqid) refl

-- A name that is found: one round of the loop.
loop-step :
    (lookup : LookupFn) (i n : ℕ) (file file' : FileId) (name : Str) (names : List Str)
    (o : Option VariantStorage) {o' : Option VariantStorage}
    → walk_step lookup file name ≡ ok (some file')
    → set_wqid i file' o ≡ ok o'
    → walk_loop lookup i (suc n) file (name ∷ names) o ≡ walk_loop lookup (suc i) n file' names o'
unfolding walk_loop
loop-step lookup i n file file' name names o e k = rw (e, walk_loop) (rw k refl)

loop-found :
    (lookup : LookupFn) (i : ℕ) (file : FileId) (found : List (Str × FileIdBody)) (rest : List Str)
    (r : FrWalk)
    → Finds lookup file found
    → i + length found ≤ length r.wqid
    → walk_loop lookup i (length found) file (names_of found ++ rest) (some (f_rwalk r))
      ≡ ok (
        i + length found,
        reached found file,
        some (f_rwalk (record r { wqid = put_qids i found r.wqid })),
      )
unfolding walk_loop
loop-found lookup i file [] rest r h fits = let e : i + 0 ≡ i = omega arith in rw e refl
loop-found lookup i file ((name, b) ∷ found) rest r (plain, e, h) fits =
    let (q, here) = get_elem?-lt r.wqid i (omega arith) in
    let r' : FrWalk = record r { wqid = set r.wqid i (set_qid b q) } in
    loop-step lookup i (length found) file (b ∷ file) name (names_of found ++ rest)
      (some (f_rwalk r)) (step-found lookup file name b plain e) (set_wqid-here i b file r q here)
    ∙ loop-found lookup (suc i) (b ∷ file) found rest r' h
        (omega (arith, length-set r.wqid i (set_qid b q)))
    ∙ (let num : suc i + length found ≡ i + suc (length found) = omega arith in rw (here, num) refl)

loop-all :
    (lookup : LookupFn) (file : FileId) (found : List (Str × FileIdBody)) (rest : List Str)
    (r : FrWalk)
    → Finds lookup file found
    → length found ≤ length r.wqid
    → walk_loop lookup 0 (length found) file (names_of found ++ rest) (some (f_rwalk r))
      ≡ ok (
        length found,
        reached found file,
        some (f_rwalk (record r { wqid = put_qids 0 found r.wqid })),
      )
loop-all lookup file found rest r h fits =
    let num : 0 + length found ≡ length found = omega arith in
    loop-found lookup 0 file found rest r h (omega arith) ∙ rw num refl

-- The end of a walk of which every name was found.
end_walk_complete :
    (w : FtWalk) (i : ℕ) (file : FileId) (r : FrWalk)
    → w.size ≡ i
    → w.hdr.fid ≢ w.newfid
    → end_walk w true i file (some (f_rwalk r))
      ≡ ok (record {
        answer = none;
        ofcall = some (f_rwalk (record r { size = i }));
        fid_aux = none;
        newfid_aux = some file;
      })
unfolding end_walk get_rwalk
end_walk_complete w i file r size other =
    let apart : (w.hdr.fid == w.newfid) ≡ false = ground arith in
    rw (le→ltb_false i w.size (omega (arith, size)), end_walk) (rw apart refl)

-- What srv_walkandclone comes to before respond, on a reply that holds an RWalk with room for the
-- names already, and for a walk from one fid to another that handle has made. When the lookup finds
-- each of the names below the one before, each leading down, the reply holds the Qids of the files
-- in their order and their number, and the new fid is at the last of them. The files above it are
-- those that were found, down from the file of the fid: what was above that is gone.
pub walk_and_clone-found :
    (lookup : LookupFn) (w : FtWalk) (b : FileIdBody) (above : FileId)
    (found : List (Str × FileIdBody)) (rest : List Str) (r : FrWalk)
    → Finds lookup (record b { nref = 1 } ∷ []) found
    → w.wname ≡ names_of found ++ rest
    → w.size ≡ length found
    → length found ≤ length r.wqid
    → w.hdr.fid ≢ w.newfid
    → walk_and_clone lookup w true (b ∷ above) (some (f_rwalk r))
      ≡ ok (record {
        answer = none;
        ofcall = some (f_rwalk (record r { size = length found; wqid = put_qids 0 found r.wqid }));
        fid_aux = none;
        newfid_aux = some (reached found (record b { nref = 1 } ∷ []));
      })
unfolding walk_and_clone srv_clonefiles
walk_and_clone-found lookup w b above found rest r h names size fits other =
    let file : FileId = record b { nref = 1 } ∷ [] in
    rw (size, names, walk_and_clone)
      (rw (loop-all lookup file found rest r h fits) (
        end_walk_complete w (length found) (reached found file)
          (record r { wqid = put_qids 0 found r.wqid }) size other))

loop-unfilled :
    (lookup : LookupFn) (n : ℕ) (file : FileId) (names : List Str)
    → ((x : Error) × (walk_loop lookup 0 n file names none ≡ err x))
      ⊎ (walk_loop lookup 0 n file names none ≡ ok (0, file, none))
unfolding walk_loop set_wqid
loop-unfilled lookup zero file names = inr refl
loop-unfilled lookup (suc n) file [] = inl (_, refl)
loop-unfilled lookup (suc n) file (name ∷ names) = go (walk_step lookup file name) refl
  where
    go :
        (s : Result (Option FileId))
        → walk_step lookup file name ≡ s
        → ((x : Error) × (walk_loop lookup 0 (suc n) file (name ∷ names) none ≡ err x))
          ⊎ (walk_loop lookup 0 (suc n) file (name ∷ names) none ≡ ok (0, file, none))
    go (err x) e = inl (x, rw (e, walk_loop) refl)
    go (ok none) e = inr (rw (e, walk_loop) refl)
    go (ok (some f)) e = inl (exception, rw (e, walk_loop) refl)

end_walk-unfilled :
    (w : FtWalk) (has_newfid : Bool) (i : ℕ) (file : FileId) (out : Walked)
    → end_walk w has_newfid i file none ≡ ok out
    → out.ofcall ≡ none
unfolding end_walk
end_walk-unfilled w has_newfid i file out e = ground arith

-- On an empty reply, what comes to respond is an empty reply.
walk_and_clone-unfilled :
    (lookup : LookupFn) (w : FtWalk) (has_newfid : Bool) (aux : FileId) (out : Walked)
    → walk_and_clone lookup w has_newfid aux none ≡ ok out
    → out.ofcall ≡ none
unfolding walk_and_clone srv_clonefiles
walk_and_clone-unfilled lookup w has_newfid [] out e = cc
walk_and_clone-unfilled lookup w has_newfid (b ∷ above) out e =
    elim (loop-unfilled lookup w.size (record b { nref = 1 } ∷ []) w.wname) [
      | inl (x, broken) ↦ cc (rw (broken, walk_and_clone) at e)
      | inr first ↦
          end_walk-unfilled w has_newfid 0 (record b { nref = 1 } ∷ []) out
            (rw (first, walk_and_clone) at e)
    ]

module _ (remove_fid : ℕ → List Fid → List Fid) (remove_tag : ℕ → List (ℕ × Req9) → List (ℕ × Req9))
    (deliver : VariantStorage → Conn9 → Result Conn9) where
  with_aux-NeverReturns :
      (out : Walked) (x : Option (Result (Req9 × Conn9)))
      → NeverReturns x
      → NeverReturns (with_aux remove_fid remove_tag deliver out x)
  with_aux-NeverReturns out none h = tt
  with_aux-NeverReturns out (some (err x)) h = tt
  with_aux-NeverReturns out (some (ok p)) h = absurd h

  -- What respond makes of an empty reply.
  respond_walked-unfilled :
      (fuel junk : ℕ) (r : Req9) (c : Conn9) (out : Walked)
      → out.ofcall ≡ none
      → NeverReturns (respond_walked remove_fid remove_tag deliver fuel junk r c (ok out))
  respond_walked-unfilled fuel junk r c out e = with_aux-NeverReturns out _ (
      subst
        (λ o.
          NeverReturns (
            respond remove_fid remove_tag deliver fuel junk out.answer (record r { ofcall = o }) c))
        (sym e) (respond-unfilled remove_fid remove_tag deliver fuel junk out.answer r c))

  -- A TWalk with an empty reply that handle hands to srv_walkandclone is never answered: handle does
  -- not fill the reply, and whatever the lookup finds, srv_walkandclone throws or reads through a
  -- null pointer, be it where it sets a Qid of the reply or in respond.
  pub srv_walkandclone-unfilled :
      (fuel junk : ℕ) (lookup : LookupFn) (aux : FileId) (w : FtWalk) (r r' : Req9) (c c' : Conn9)
      → handle (record r { ifcall = f_twalk w; ofcall = none }) c ≡ ok (serve s_walk, r', c')
      → NeverReturns (srv_walkandclone remove_fid remove_tag deliver fuel junk lookup aux r' c')
  unfolding srv_walkandclone
  srv_walkandclone-unfilled fuel junk lookup aux w r r' c c' handed =
      let (request, reply) =
        handle-walk_reply w (record r { ofcall = none }) r' c c' (serve s_walk) handed in
      rw (request, srv_walkandclone)
        (rw reply (
          go (walk_and_clone lookup w (has_some remove_fid remove_tag deliver r'.newfid) aux none)
            refl))
    where
      go :
          (x : Result Walked)
          → walk_and_clone lookup w (has_some remove_fid remove_tag deliver r'.newfid) aux none ≡ x
          → NeverReturns (respond_walked remove_fid remove_tag deliver fuel junk r' c' x)
      go (err x) e = tt
      go (ok out) e =
          respond_walked-unfilled fuel junk r' c' out (walk_and_clone-unfilled lookup w _ aux out e)
