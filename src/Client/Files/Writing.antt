-- ===== src/Client/Files/Writing.antt =====
-- _pwrite against a server that keeps a file.
use libixp.Base.{
  ℕ, zero, suc, ◌+◌, ◌-◌, ◌%◌, ◌^◌, ◌≤◌, ◌<◌, ◌≡◌, ◌≢◌, refl, sym, ap, ◌∙◌, arith, [], ◌∷◌, ◌++◌,
  false, Option, none, some, length, take, drop, drop-add, All, ◌==◌, inl, inr, lt-cases, lt→ltb,
  le→ltb_false,
}
use libixp.Types.{min}
use libixp.Types.FType.{t_write, r_write}
use libixp.Msg.{Result, ok}
use libixp.Msg.Fields.{Str}
use libixp.Msg.Fields.Packing.{length-take}
use libixp.Msg.Splice.{splice, splice-append}
use libixp.Fcall.{Fio}
use libixp.Fcall.Storage.{VariantStorage, f_io}
use libixp.Fcall.Retrieve.{get_io}
use libixp.Util.{string_at}
use libixp.Client.{check_reply}
use libixp.Client.Session.{Session, ◌>>=◌, then-eq}
use libixp.Client.Calls.{request_header, dofcall}
use libixp.Client.Calls.Answers.{dofcall-reply}
use libixp.Client.Files.{write_request, write_reply, accept_write, write_at, pwrite_loop, pwrite}

-- The server keeps a file of a fixed length. A message of size n carries the first n bytes of its
-- data, and the reply says that all were written. (A message whose data is shorter than its size carries,
-- behind the data, what the buffer held before; such a message is not sent to this server.)
abbrev pub written : Fio → VariantStorage
written w = f_io (record w { hdr = record w.hdr { type = r_write }; contents = [] })

abbrev pub keep_file : VariantStorage → Str → Result (Option VariantStorage) × Str
keep_file (f_io w) file = (ok (some (written w)), splice file w.offset (take w.size w.contents))
keep_file other file = (ok none, file)

abbrev pub IsText : Str → Type 0
IsText = All (λ b. b ≢ 0)

string_at-text : (text rest : Str) → IsText text → string_at (text ++ 0 ∷ rest) ≡ some text
unfolding string_at
string_at-text [] rest h = refl
string_at-text (c ∷ text) rest (ne, h) =
    let no : (c == 0) ≡ false = ground arith in rw (no, string_at-text text rest h) refl

drop-append : (n : ℕ) (xs ys : Str) → n ≤ length xs → drop n (xs ++ ys) ≡ drop n xs ++ ys
drop-append zero xs ys h = refl
drop-append (suc n) [] ys h = absurd (omega (arith, h))
drop-append (suc n) (x ∷ xs) ys h = drop-append n xs ys (omega arith)

drop-IsText : (n : ℕ) (xs : Str) → IsText xs → IsText (drop n xs)
drop-IsText zero xs h = h
drop-IsText (suc n) [] h = tt
drop-IsText (suc n) (x ∷ xs) h = drop-IsText n xs h.1

length-drop : (n : ℕ) (xs : Str) → length (drop n xs) ≡ length xs - n
length-drop zero xs = omega arith
length-drop (suc n) [] = omega arith
length-drop (suc n) (x ∷ xs) = omega (arith, length-drop n xs)

take-drop : (n : ℕ) (xs : Str) → take n xs ++ drop n xs ≡ xs
take-drop zero xs = refl
take-drop (suc n) [] = refl
take-drop (suc n) (x ∷ xs) = ap (◌∷◌ x) (take-drop n xs)

take-more : (n : ℕ) (xs : Str) → length xs ≤ n → take n xs ≡ xs
take-more zero [] h = refl
take-more zero (x ∷ xs) h = absurd (omega (arith, h))
take-more (suc n) [] h = refl
take-more (suc n) (x ∷ xs) h = ap (◌∷◌ x) (take-more n xs (omega arith))

joined :
    (file : Str) (offset n : ℕ) (xs : Str)
    → n ≤ length xs
    → splice (splice file offset (take n xs)) (offset + n) (drop n xs) ≡ splice file offset xs
joined file offset n xs le =
    splice-append file offset (offset + n) (take n xs) (drop n xs)
      (ap (λ k. offset + k) (sym (length-take n xs le)))
    ∙ ap (splice file offset) (take-drop n xs)

module _ (junk fid : ℕ) where
  -- A round, on the server above.
  write_at-kept :
      (offset n : ℕ) (contents : Str) (c : Session Str)
      → offset < 2 ^ 64
      → write_at keep_file junk fid offset n contents c
        ≡ (ok (some n), record c { world = splice c.world offset (take n contents) })
  unfolding write_at get_io check_reply ◌>>=◌
  write_at-kept offset n contents c small =
      let e : offset % 2 ^ 64 ≡ offset = omega arith in
      let request = write_request junk fid offset n contents in
      let reply : Fio = record {
        hdr = record (request_header junk t_write fid) { type = r_write };
        size = n;
        offset = offset % 2 ^ 64;
        contents = [];
      } in
      then-eq (dofcall keep_file junk request) (accept_write keep_file junk) c
        (dofcall-reply keep_file junk request (f_io reply) c refl refl)
      ∙ rw e refl

  -- A round that goes on.
  pwrite-round :
      (fuel iounit count offset len : ℕ) (memory contents : Str) {size : ℕ} (c : Session Str)
      {c' : Session Str}
      → string_at (drop len memory) ≡ some contents
      → write_at keep_file junk fid offset (min (count - len) iounit) contents c
        ≡ (ok (some size), c')
      → pwrite_loop keep_file junk (suc fuel) fid iounit count offset len memory c
        ≡ write_reply (min (count - len) iounit) count len size c' (
            pwrite_loop keep_file junk fuel fid iounit count (offset + size) (len + size) memory c')
  unfolding pwrite_loop
  pwrite-round fuel iounit count offset len memory contents {size} c {c'} points wrote =
      rw (points, pwrite_loop)
        (rw wrote (
          ap
            (λ (d : Session Str). write_reply (min (count - len) iounit) count len size d (
              pwrite_loop keep_file junk fuel fid iounit count (offset + size) (len + size) memory
                d))
            (ap (λ (r : Result (Option ℕ) × Session Str). r.1) wrote)))

  module _ (text rest : Str) (plain : IsText text) where
    -- From len bytes on, the text is what the pointer points to.
    at_pointer :
        (len : ℕ)
        → len ≤ length text
        → string_at (drop len (text ++ 0 ∷ rest)) ≡ some (drop len text)
    at_pointer len le =
        ap string_at (drop-append len text (0 ∷ rest) le)
        ∙ string_at-text (drop len text) rest (drop-IsText len text plain)

    pwrite_loop-kept :
        (fuel iounit offset len : ℕ) (c : Session Str)
        → 0 < iounit
        → len ≤ length text
        → offset + (length text - len) < 2 ^ 64
        → length text - len < fuel
        → pwrite_loop keep_file junk fuel fid iounit (length text) offset len (text ++ 0 ∷ rest) c
          ≡ some
              (ok (some (length text)), record c { world = splice c.world offset (drop len text) })
    unfolding pwrite_loop
    pwrite_loop-kept zero iounit offset len c unit le small enough = absurd (omega (arith, enough))
    pwrite_loop-kept (suc fuel) iounit offset len c unit le small enough =
        let left = length text - len in
        let n = min left iounit in
        let le_n : n ≤ left = ground arith in
        let total = length-drop len text in
        let wrote = write_at-kept offset n (drop len text) c (omega (arith, small)) in
        pwrite-round fuel iounit (length text) offset len (text ++ 0 ∷ rest) (drop len text) c
          (at_pointer len le) wrote
        ∙ elim (lt-cases (len + n) (length text)) [
          | inl more ↦
              let some_left : 0 < n = ground arith in
              rw (le→ltb_false n n (omega arith), lt→ltb _ _ more)
                (pwrite_loop-kept fuel iounit (offset + n) (len + n)
                    (record c { world = splice c.world offset (take n (drop len text)) }) unit
                    (omega (arith, more)) (omega (arith, small, le_n))
                    (omega (arith, some_left, enough, more))
                  ∙ ap (λ file. some (ok (some (length text)), record c { world = file }))
                      (ap (splice (splice c.world offset (take n (drop len text))) (offset + n))
                          (drop-add len n text)
                        ∙ joined c.world offset n (drop len text) (omega (arith, total, le_n))))
          | inr last ↦
              let all : len + n ≡ length text = omega (arith, last, le_n, le) in
              let whole : take n (drop len text) ≡ drop len text =
                take-more n (drop len text) (omega (arith, all, total)) in
              rw (le→ltb_false n n (omega arith), le→ltb_false _ _ last)
                (λ i.
                  some (ok (some (all i)), record c { world = splice c.world offset (whole i) }))
        ]

    -- A text without NULs, with a NUL behind it, and a server that writes what it is told and says
    -- so: pwrite writes the whole text at the offset, in as many rounds as the iounit makes
    -- necessary, and returns its length. The loop ends, within as many rounds as there are bytes
    -- and one more, if the iounit is not 0.
    pub pwrite-keeps :
        (fuel iounit offset : ℕ) (c : Session Str)
        → 0 < iounit
        → offset + length text < 2 ^ 64
        → length text < fuel
        → pwrite keep_file junk fuel fid iounit (length text) offset (text ++ 0 ∷ rest) c
          ≡ some (ok (some (length text)), record c { world = splice c.world offset text })
    unfolding pwrite
    pwrite-keeps fuel iounit offset c unit small enough =
        pwrite_loop-kept fuel iounit offset 0 c unit (omega arith) (omega (arith, small))
          (omega (arith, enough))
