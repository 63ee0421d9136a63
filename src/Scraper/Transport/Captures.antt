-- ===== src/Scraper/Transport/Captures.antt =====
-- What a fetch of scraper/transport.py makes of a response that is not encoded.
use mathlib.Core.List.{append-nil, append_assoc}
use homez.Prelude.{
  ℕ, zero, suc, ◌+◌, ◌-◌, ◌≤◌, ◌<◌, ◌≡◌, ◌⊎◌, inl, inr, refl, ap, ◌∙◌, true, false, String, List,
  [], ◌∷◌, ◌++◌, Option, none, some, Bool-cases, length, leb, ltb, ◌==◌, if◌then◌else◌, arith,
  aware,
}
use homez.Scraper.Transport.{
  max_page_bytes, FetchRequest, Fetched, captured, plain, make_page, make_captured, bytes, Outside,
  Answer,
}
use homez.Scraper.Transport.Body.{
  Progress, Round, more, ended, refused, decoder_of, lowers_to, or_identity, read_limit,
  within_body, extend_body, take_chunk, after_read, round, loop,
}
use homez.Scraper.Transport.Fetch.{
  Setting, capture, finish_body, conclude_loop, read_body, take_answer, send_request, fetch,
}

-- A response whose stream is the bytes left: a read of at most n of them gives some, if any are
-- left.
abbrev pub ReadsOn : {D : Type 0} → Outside (List ℕ) D → Type 0
ReadsOn o =
    (n : ℕ) (s : List ℕ)
    → 1 ≤ n
    → (chunk : List ℕ) × (rest : List ℕ) × (o.read n s ≡ (bytes chunk, rest))
      × (chunk ++ rest ≡ s)
      × (length chunk ≤ n)
      × (chunk ≡ [] → s ≡ [])

-- what a fetch should make of the bytes of a page
abbrev pub fetched_of : ℕ → ℕ → List ℕ → Fetched
fetched_of capture_id now content =
    if length content == 0
    then plain "capture parser input empty"
    else if ltb 2000000 (length content)
    then plain "capture transfer exceeds 2 MB"
    else captured (record {
      page = record { capture_id = capture_id; fetched_at = aware now; body = content };
      transferred_bytes = length content;
    })

length-append : (xs ys : List ℕ) → length (xs ++ ys) ≡ length xs + length ys
length-append [] ys = omega arith
length-append (x ∷ xs) ys = ground (arith, length-append xs ys)

module _ {D : Type 0} where
  -- the loop with `body` read and `s` left
  abbrev state : List ℕ → List ℕ → ℕ → Progress (List ℕ) D
  state s body i = record {
    stream = s;
    decoder = none;
    body = body;
    transferred = length body;
    readings = i;
  }

  -- What the loop makes of the bytes left.
  abbrev Looped : List ℕ → Option (Round (List ℕ) D) → Type 0
  Looped content r =
      ((rest : List ℕ) × (i : ℕ) × (r ≡ some (ended (state rest content i)))
        × (length content ≤ 2000000))
      ⊎ ((r ≡ some (refused "capture transfer exceeds 2 MB")) × (2000000 < length content))

module _ {D : Type 0} (o : Outside (List ℕ) D) (reads : ReadsOn o) (deadline : ℕ)
    (in_time : (i : ℕ) → o.monotonic i < deadline) where
  -- What a round makes of a chunk.
  abbrev Rounded : List ℕ → List ℕ → ℕ → Round (List ℕ) D → Type 0
  Rounded s body i r =
      ((rest : List ℕ) × (r ≡ ended (state rest body (i + 2))) × (s ≡ []))
      ⊎ (((chunk : List ℕ) × (rest : List ℕ) × (r ≡ more (state rest (body ++ chunk) (i + 2)))
            × (chunk ++ rest ≡ s)
            × (1 ≤ length chunk)
            × (length body + length chunk ≤ 2000000))
          ⊎ ((r ≡ refused "capture transfer exceeds 2 MB") × (2000000 < length body + length s)))

  within_body_more :
      (rest body chunk : List ℕ) (i : ℕ)
      → length body + length chunk ≤ 2000000
      → within_body o (record {
        stream = rest;
        decoder = none;
        body = body ++ chunk;
        transferred = length body + length chunk;
        readings = i;
      })
        ≡ more (state rest (body ++ chunk) i)
  within_body_more rest body chunk i few =
      let size : length (body ++ chunk) ≡ length body + length chunk = length-append body chunk in
      let short : ltb max_page_bytes (length (body ++ chunk)) ≡ false = ground arith in
      rw (short, size) refl

  take_chunk-Rounded :
      (s body chunk rest : List ℕ) (i : ℕ)
      → chunk ++ rest ≡ s
      → (chunk ≡ [] → s ≡ [])
      → Rounded s body i (take_chunk o (state rest body (i + 2)) chunk)
  unfolding take_chunk extend_body
  take_chunk-Rounded s body [] rest i parts last = inl (rest, refl, last refl)
  take_chunk-Rounded s body (b ∷ chunk) rest i parts last =
      elim (Bool-cases (ltb max_page_bytes (length body + length (b ∷ chunk)))) [
        | inl much ↦
            rw much (inr (inr (refl, ground (arith, length-append (b ∷ chunk) rest, parts))))
        | inr few ↦ rw few (
            inr (
              inl (
                b ∷ chunk,
                rest,
                within_body_more rest body (b ∷ chunk) (i + 2) (ground arith),
                parts,
                omega arith,
                ground arith,
              )))
      ]

  after_read-Rounded :
      (s body chunk rest : List ℕ) (i : ℕ)
      → chunk ++ rest ≡ s
      → length chunk ≤ read_limit o (state s body i)
      → (chunk ≡ [] → s ≡ [])
      → Rounded s body i (after_read o deadline (state s body i) (bytes chunk, rest))
  unfolding after_read
  after_read-Rounded s body chunk rest i parts short last =
      let soon : leb deadline (o.monotonic (i + 1)) ≡ false = ground (arith, in_time (i + 1)) in
      let kept : ltb (read_limit o (state s body i)) (length chunk) ≡ false = ground arith in
      rw (soon, kept) (take_chunk-Rounded s body chunk rest i parts last)

  round-Rounded : (s body : List ℕ) (i : ℕ) → Rounded s body i (round o deadline (state s body i))
  unfolding round
  round-Rounded s body i =
      let soon : leb deadline (o.monotonic i) ≡ false = ground (arith, in_time i) in
      let (chunk, rest, read, parts, short, last) =
        reads (read_limit o (state s body i)) s (omega arith) in
      rw (soon, read) (after_read-Rounded s body chunk rest i parts short last)

  loop-ended :
      (fuel : ℕ) (p q : Progress (List ℕ) D)
      → round o deadline p ≡ ended q
      → loop o (suc fuel) deadline p ≡ some (ended q)
  unfolding loop
  loop-ended fuel p q e = rw (loop, e) refl

  loop-more :
      (fuel : ℕ) (p q : Progress (List ℕ) D)
      → round o deadline p ≡ more q
      → loop o (suc fuel) deadline p ≡ loop o fuel deadline q
  unfolding loop
  loop-more fuel p q e = rw (loop, e) refl

  loop-refused :
      (fuel : ℕ) (p : Progress (List ℕ) D) (message : String)
      → round o deadline p ≡ refused message
      → loop o (suc fuel) deadline p ≡ some (refused message)
  unfolding loop
  loop-refused fuel p message e = rw (loop, e) refl

  loop-Looped :
      (fuel i : ℕ) (s body : List ℕ)
      → 2000000 - length body < fuel
      → length body ≤ 2000000
      → Looped (body ++ s) (loop o fuel deadline (state s body i))
  loop-Looped zero i s body enough few = absurd (omega arith)
  loop-Looped (suc fuel) i s body enough few = elim (round-Rounded s body i) [
    | inl (rest, e, all) ↦
        (let whole : body ++ s ≡ body = ap (λ l. body ++ l) all ∙ append-nil body in
          rw (loop-ended fuel _ _ e, whole) (inl (rest, i + 2, refl, few)))
    | inr (inl (chunk, rest, e, parts, grown, kept)) ↦
        (let whole : (body ++ chunk) ++ rest ≡ body ++ s =
            append_assoc body chunk rest ∙ ap (λ l. body ++ l) parts in
          rw (loop-more fuel _ _ e, ← whole)
            (loop-Looped fuel (i + 2) rest (body ++ chunk)
              (ground (arith, length-append body chunk))
              (ground (arith, length-append body chunk))))
    | inr (inr (e, long)) ↦ inr (loop-refused fuel _ _ e, ground (arith, length-append body s))
  ]

module _ {D : Type 0} (o : Outside (List ℕ) D) (w : Setting (List ℕ)) (now : ℕ) where
  -- What is made of the bytes that the loop read.
  finish_body-fetched_of :
      (content rest : List ℕ) (i : ℕ)
      → w.clock ≡ aware now
      → length content ≤ 2000000
      → finish_body o w (state rest content i) ≡ fetched_of w.capture_id now content
  unfolding finish_body capture make_page make_captured
  finish_body-fetched_of [] rest i zoned few = refl
  finish_body-fetched_of (b ∷ bs) rest i zoned few =
      let kept : leb (length (b ∷ bs)) max_page_bytes ≡ true = ground arith in
      let short : ltb 2000000 (length (b ∷ bs)) ≡ false = ground arith in
      let filled : (length (b ∷ bs) == 0) ≡ false = ground arith in
      rw (zoned, kept, short, filled) refl

  conclude_loop-fetched_of :
      (content : List ℕ) (r : Option (Round (List ℕ) D))
      → w.clock ≡ aware now
      → Looped content r
      → conclude_loop o w r ≡ some (fetched_of w.capture_id now content)
  unfolding conclude_loop
  conclude_loop-fetched_of content r zoned (inl (rest, i, e, few)) =
      rw e (ap some (finish_body-fetched_of content rest i zoned few))
  conclude_loop-fetched_of content r zoned (inr (e, long)) =
      let much : ltb 2000000 (length content) ≡ true = ground arith in
      let filled : (length content == 0) ≡ false = ground arith in rw (e, much, filled) refl

-- Take a response whose reads give the bytes of its content in any pieces, none larger than asked
-- for, and a clock that stays before the deadline. If the URL is one of a listing, the connection
-- is made, the status is 200 and the content is not encoded, then the fetch captures the whole
-- content, under the id drawn and the time read, and counts its bytes as transferred, if it has 1
-- to 2,000,000 bytes; it fails as empty if there is no content, and as too large if there is more.
pub fetch-fetched_of :
    {D : Type 0} (o : Outside (List ℕ) D) (w : Setting (List ℕ)) (request : FetchRequest)
    (url : String) (answer : Answer (List ℕ)) (now : ℕ)
    → ReadsOn o
    → ((i : ℕ) → o.monotonic i < o.monotonic 0 + w.timeout)
    → w.clock ≡ aware now
    → w.validate request.source request.canonical_url ≡ some url
    → w.connect
        (record { source = request.source; canonical_url = url; route_id = request.route_id })
      ≡ some answer
    → answer.status ≡ 200
    → lowers_to (or_identity answer.content_encoding) "identity" ≡ true
    → fetch o w request ≡ some (fetched_of w.capture_id now answer.stream)
unfolding fetch send_request take_answer read_body decoder_of
fetch-fetched_of o w request url answer now reads in_time zoned valid connected good plain_body =
    let found : (answer.status == 200) ≡ true = ground arith in
    rw (valid, connected, found, plain_body)
      (conclude_loop-fetched_of o w now answer.stream _ zoned (
        loop-Looped o reads (o.monotonic 0 + w.timeout) in_time (suc max_page_bytes) 1 answer.stream
          [] (omega arith) (omega arith)))
