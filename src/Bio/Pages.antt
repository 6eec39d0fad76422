-- ===== src/Bio/Pages.antt =====
-- swap.c: the bytes of a bio on their way between its pages and the worker's buffer.
use scsiswap.Base.{
  ℕ, zero, suc, ◌+◌, ◌<◌, ◌≤◌, ◌≡◌, refl, sym, ap, ◌∙◌, arith, true, false, Option, none, some, leb,
  ltb, List, [], ◌∷◌, ◌++◌, Bytes, length, take, drop, slice, overwrite, append-nil, append_assoc,
  length-append, length-take, length-drop, lt→ltb, drop-append,
}
use mathlib.Core.Path.{ap₂}
use scsiswap.Bio.{
  copies_page, place_behind, page_from_buf, page_to_buf, Segment, Bio, fill_segments,
  gather_segments, buf_fill_bio, bio_fill_buf,
}

-- The bytes of the segments, in order.
abbrev pub bytes_of : List Segment → Bytes
bytes_of [] = []
bytes_of (s ∷ segments) = s.content ++ bytes_of segments

-- Every page has an address.
abbrev pub AreMapped : List Segment → Type 0
AreMapped [] = Unit
AreMapped (s ∷ segments) = (s.has_address ≡ true) × AreMapped segments

overwrite_front :
    (rest xs : Bytes) → length xs ≤ length rest → overwrite rest 0 xs ≡ xs ++ drop (length xs) rest
unfolding overwrite drop
overwrite_front [] [] h = refl
overwrite_front [] (x ∷ xs) h = absurd (omega arith)
overwrite_front (r ∷ rest) [] h = refl
overwrite_front (r ∷ rest) (x ∷ xs) h = ap (λ t. x ∷ t) (overwrite_front rest xs (omega arith))

overwrite_behind :
    (done rest xs : Bytes)
    → length xs ≤ length rest
    → overwrite (done ++ rest) (length done) xs ≡ done ++ (xs ++ drop (length xs) rest)
unfolding overwrite
overwrite_behind [] rest xs h = overwrite_front rest xs h
overwrite_behind (d ∷ done) rest xs h = ap (λ t. d ∷ t) (overwrite_behind done rest xs h)

take_then_drop : (n : ℕ) (xs : Bytes) → take n xs ++ drop n xs ≡ xs
unfolding take drop
take_then_drop zero xs = refl
take_then_drop (suc n) [] = refl
take_then_drop (suc n) (x ∷ xs) = ap (λ t. x ∷ t) (take_then_drop n xs)

-- A page that is copied ends inside the buffer, and what a buffer gives up to it.
module _ (done rest : Bytes) (s : Segment) (mapped : s.has_address ≡ true)
    (fits : length s.content ≤ length rest) (some_left : 0 < length rest) where
  inside : ltb (length done) (length (done ++ rest)) ≡ true
  inside = lt→ltb _ _ (omega (arith, length-append done rest, some_left))

  room : leb (length done + length s.content) (length (done ++ rest)) ≡ true
  room = ground (arith, length-append done rest, fits)

  page_taken :
      page_to_buf (done ++ rest) (length done) s
      ≡ some ((done ++ s.content) ++ drop (length s.content) rest)
  unfolding page_to_buf copies_page
  page_taken =
      rw
        (
          inside,
          mapped,
          room,
          overwrite_behind done rest s.content fits,
          append_assoc done s.content (drop (length s.content) rest),
        )
        refl

  page_given :
      page_from_buf (done ++ rest) (length done) s
      ≡ some (record s { content = take (length s.content) rest })
  unfolding page_from_buf copies_page slice
  page_given = rw (inside, mapped, room, drop-append done rest) refl

  place_next : place_behind (done ++ rest) (length done) s ≡ length done + length s.content
  unfolding place_behind
  place_next = rw inside refl

-- Behind the end of the buffer nothing is copied.
module _ (done : Bytes) (s : Segment) where
  outside : ltb (length done) (length (done ++ [])) ≡ false
  outside = ground (arith, length-append done [])

  page_not_taken : page_to_buf (done ++ []) (length done) s ≡ some (done ++ [])
  unfolding page_to_buf copies_page
  page_not_taken = rw outside refl

  page_not_given : page_from_buf (done ++ []) (length done) s ≡ some s
  unfolding page_from_buf copies_page
  page_not_given = rw outside refl

  place_stays : place_behind (done ++ []) (length done) s ≡ length done
  unfolding place_behind
  place_stays = rw outside refl

-- The pages behind a page.
abbrev gather_on : ℕ → List Segment → Option Bytes → Option Bytes
gather_on pos segments none = none
gather_on pos segments (some buf) = gather_segments buf pos segments

gather_next :
    (buf : Bytes) (pos : ℕ) (s : Segment) (segments : List Segment)
    → gather_segments buf pos (s ∷ segments)
      ≡ gather_on (place_behind buf pos s) segments (page_to_buf buf pos s)
unfolding gather_segments
gather_next buf pos s segments = by_page (page_to_buf buf pos s)
  where
    by_page :
        (o : Option Bytes)
        → (let r : Option Bytes = elim o [
          | none ↦ none
          | some b ↦ gather_segments b (place_behind buf pos s) segments
        ] in
            r)
          ≡ gather_on (place_behind buf pos s) segments o
    by_page none = refl
    by_page (some b) = refl

gather_step :
    (done rest : Bytes) (s : Segment) (segments : List Segment)
    → s.has_address ≡ true
    → length s.content ≤ length rest
    → 0 < length rest
    → gather_segments (done ++ rest) (length done) (s ∷ segments)
      ≡ gather_segments
          ((done ++ s.content) ++ drop (length s.content) rest)
          (length (done ++ s.content))
          segments
gather_step done rest s segments mapped fits some_left =
    gather_next (done ++ rest) (length done) s segments
    ∙ ap₂ (λ pos o. gather_on pos segments o)
        (place_next done rest s mapped fits some_left ∙ sym (length-append done s.content))
        (page_taken done rest s mapped fits some_left)

no_bytes : (xs : Bytes) → length xs ≡ 0 → xs ≡ []
no_bytes [] h = refl
no_bytes (x ∷ xs) h = absurd (omega arith)

-- A buffer that is full takes nothing more.
gather_full :
    (done : Bytes) (s : Segment) (segments : List Segment)
    → gather_segments (done ++ []) (length done) (s ∷ segments)
      ≡ gather_segments (done ++ []) (length done) segments
gather_full done s segments =
    gather_next (done ++ []) (length done) s segments
    ∙ ap₂ (λ pos o. gather_on pos segments o) (place_stays done s) (page_not_taken done s)

gather_none : (done : Bytes) → gather_segments (done ++ []) (length done) [] ≡ some (done ++ [])
unfolding gather_segments
gather_none done = refl

gather_lem :
    (segments : List Segment) (done rest : Bytes)
    → AreMapped segments
    → length (bytes_of segments) ≡ length rest
    → gather_segments (done ++ rest) (length done) segments ≡ some (done ++ bytes_of segments)
gather_lem [] done [] mapped total = gather_none done
gather_lem [] done (r ∷ rest) mapped total = absurd (omega arith)
gather_lem (s ∷ segments) done [] mapped total =
    gather_full done s segments
    ∙ (gather_lem segments done [] mapped.1 (omega (arith, split))
        ∙ ap (λ c. some (done ++ (c ++ bytes_of segments)))
            (sym (no_bytes s.content (omega (arith, split)))))
  where
    split : length s.content + length (bytes_of segments) ≡ 0
    split = sym (length-append s.content (bytes_of segments)) ∙ total
gather_lem (s ∷ segments) done (r ∷ rest) mapped total =
    gather_step done (r ∷ rest) s segments mapped.0 (omega (arith, split)) (omega arith)
    ∙ (gather_lem segments (done ++ s.content) (drop (length s.content) (r ∷ rest)) mapped.1
          (omega (arith, split, length-drop (length s.content) (r ∷ rest)))
        ∙ ap some (append_assoc done s.content (bytes_of segments)))
  where
    split : length s.content + length (bytes_of segments) ≡ length (r ∷ rest)
    split = sym (length-append s.content (bytes_of segments)) ∙ total

-- `bio_fill_buf` does not run past the worker's buffer, and fills it with the bytes of the bio's
-- pages, in order: every page has an address, and the buffer has the length of all of them.
pub bio_fill_buf_lem :
    (bio : Bio) (fresh : Bytes)
    → AreMapped bio.segments
    → length (bytes_of bio.segments) ≡ length fresh
    → bio_fill_buf bio fresh ≡ some (bytes_of bio.segments)
unfolding bio_fill_buf
bio_fill_buf_lem bio fresh mapped total = gather_lem bio.segments [] fresh mapped total

take_nothing : (n : ℕ) → ◌≡◌ {A = Bytes} (take n []) []
unfolding take
take_nothing zero = refl
take_nothing (suc n) = refl

again : (done rest : Bytes) (n : ℕ) → (done ++ take n rest) ++ drop n rest ≡ done ++ rest
again done rest n =
    append_assoc done (take n rest) (drop n rest) ∙ ap (λ t. done ++ t) (take_then_drop n rest)

-- A page and those behind it.
abbrev prepend : Option Segment → Option (List Segment) → Option (List Segment)
prepend none rest = none
prepend (some s) none = none
prepend (some s) (some rest) = some (s ∷ rest)

fill_next :
    (buf : Bytes) (pos : ℕ) (s : Segment) (segments : List Segment)
    → fill_segments buf pos (s ∷ segments)
      ≡ prepend (page_from_buf buf pos s) (fill_segments buf (place_behind buf pos s) segments)
unfolding fill_segments
fill_next buf pos s segments =
    by_page (page_from_buf buf pos s) (fill_segments buf (place_behind buf pos s) segments)
  where
    by_page :
        (o : Option Segment) (p : Option (List Segment))
        → (let r : Option (List Segment) = elim o [
          | none ↦ none
          | some s' ↦ elim p [ none ↦ none | some rest ↦ some (s' ∷ rest) ]
        ] in
            r)
          ≡ prepend o p
    by_page none p = refl
    by_page (some s') none = refl
    by_page (some s') (some rest) = refl

-- The page filled, and the pages behind it.
fill_step :
    (done rest : Bytes) (s : Segment) (segments : List Segment)
    → s.has_address ≡ true
    → length s.content ≤ length rest
    → (s' : Segment) × (s'.content ≡ take (length s.content) rest)
      × (fill_segments (done ++ rest) (length done) (s ∷ segments)
          ≡ prepend (some s') (
              fill_segments
                ((done ++ take (length s.content) rest) ++ drop (length s.content) rest)
                (length (done ++ take (length s.content) rest))
                segments))
fill_step done [] s segments mapped fits =
    let empty = no_bytes s.content (omega arith) in
    let nothing : take (length s.content) [] ≡ [] = take_nothing (length s.content) in
    (
      s,
      empty ∙ sym nothing,
      fill_next (done ++ []) (length done) s segments
          ∙ ap₂ prepend (page_not_given done s) (
              ap₂ (λ b pos. fill_segments b pos segments) (sym (again done [] (length s.content)))
                (place_stays done s
                  ∙ ap length (sym (ap (λ t. done ++ t) nothing ∙ append-nil done)))),
    )
fill_step done (r ∷ rest) s segments mapped fits = (
  record s { content = take (length s.content) (r ∷ rest) },
  refl,
  fill_next (done ++ r ∷ rest) (length done) s segments
      ∙ ap₂ prepend (page_given done (r ∷ rest) s mapped fits (omega arith)) (
          ap₂ (λ b pos. fill_segments b pos segments)
            (sym (again done (r ∷ rest) (length s.content)))
            (place_next done (r ∷ rest) s mapped fits (omega arith)
              ∙ omega (
                arith,
                length-append done (take (length s.content) (r ∷ rest)),
                length-take (length s.content) (r ∷ rest),
                fits,
              ))),
)

fill_lem :
    (segments : List Segment) (done rest : Bytes)
    → AreMapped segments
    → length (bytes_of segments) ≡ length rest
    → (filled : List Segment) × (fill_segments (done ++ rest) (length done) segments ≡ some filled)
      × (bytes_of filled ≡ rest)
unfolding fill_segments
fill_lem [] done [] mapped total = ([], refl, refl)
fill_lem [] done (r ∷ rest) mapped total = absurd (omega arith)
fill_lem (s ∷ segments) done rest mapped total =
    let (s', content, step) = fill_step done rest s segments mapped.0 (omega (arith, split)) in
    let (filled, run, same) =
      fill_lem segments (done ++ take (length s.content) rest) (drop (length s.content) rest)
        mapped.1 (omega (arith, split, length-drop (length s.content) rest)) in
    (
      s' ∷ filled,
      step ∙ ap (prepend (some s')) run,
      ap₂ ◌++◌ content same ∙ take_then_drop (length s.content) rest,
    )
  where
    split : length s.content + length (bytes_of segments) ≡ length rest
    split = sym (length-append s.content (bytes_of segments)) ∙ total

-- `buf_fill_bio` does not run past the worker's buffer, and leaves it in the pages of the bio, in
-- order: every page has an address, and the buffer has the length of all of them.
pub buf_fill_bio_lem :
    (bio : Bio) (buf : Bytes)
    → AreMapped bio.segments
    → length (bytes_of bio.segments) ≡ length buf
    → (filled : Bio) × (buf_fill_bio bio buf ≡ some filled) × (bytes_of filled.segments ≡ buf)
unfolding buf_fill_bio
buf_fill_bio_lem bio buf mapped total =
    let (filled, run, same) = fill_lem bio.segments [] buf mapped total in
    (record bio { segments = filled }, by_fill (fill_segments buf 0 bio.segments) filled run, same)
  where
    by_fill :
        (o : Option (List Segment)) (filled : List Segment)
        → o ≡ some filled
        → (let r : Option Bio = elim o [
          | none ↦ none
          | some segments ↦ some (record bio { segments = segments })
        ] in
            r)
          ≡ some (record bio { segments = filled })
    by_fill none filled e = cc
    by_fill (some segments) filled e =
        let same : segments ≡ filled = cc in ap (λ x. some (record bio { segments = x })) same
