-- ===== src/Scraper/Transport/Ends.antt =====
-- That a fetch of scraper/transport.py ends, and within its bounds.
use homez.Scraper.Transport.Rounds.{Bounded, LoopOk, discard-ends, loop-LoopOk}
use homez.Prelude.{
  ℕ, suc, ◌≤◌, ◌≡◌, refl, true, List, [], ◌∷◌, Option, none, some, Result, ok, err, le→leb, if_both,
  Datetime, aware, naive, ◌>>=◌, is_some, String, subst, length, ◌==◌, arith,
}
use homez.Scraper.DenialPolicy.{make_evidence}
use homez.Scraper.Transport.{
  max_page_bytes, FetchRequest, Fetched, captured, failed, TransportError, make_page, make_captured,
  make_error, plain, transport_failed, Outside, Answer,
}
use homez.Scraper.Transport.Body.{Progress, Round, more, ended, refused, decoder_of}
use homez.Scraper.Transport.Fetch.{
  Setting, capture, is_incomplete, or_failed, finish_body, conclude_loop, read_body, reject,
  conclude_discard, take_answer, send_request, fetch,
}

-- A page has 1 to 2,000,000 bytes, and no more bytes than that were transferred for it or for an
-- error.
abbrev pub InBounds : Fetched → Type 0
InBounds (captured c) =
    (1 ≤ length c.page.body) × (length c.page.body ≤ 2000000) × (c.transferred_bytes ≤ 2000000)
InBounds (failed e) = e.transferred_bytes ≤ 2000000

abbrev pub Returns : Option Fetched → Type 0
Returns none = ⊥
Returns (some f) = InBounds f

make_error-few :
    (status delay : Option ℕ) (transferred : ℕ) (e : TransportError)
    → make_error "capture response rejected" status delay transferred ≡ ok e
    → e.transferred_bytes ≤ 2000000
unfolding make_error make_evidence
make_error-few status delay transferred e made = ground arith

module _ {S D : Type 0} (o : Outside S D) (w : Setting S) where
  capture-InBounds :
      (body : List ℕ) (transferred : ℕ)
      → 1 ≤ length body
      → length body ≤ max_page_bytes
      → transferred ≤ max_page_bytes
      → InBounds (capture o w body transferred)
  unfolding capture make_page make_captured
  capture-InBounds body transferred nonempty few least = go w.clock
    where
      go :
          (clock : Datetime)
          → InBounds (
              or_failed (
                make_page (record { capture_id = w.capture_id; fetched_at = clock; body = body })
                >>= λ page.
                    make_captured (record { page = page; transferred_bytes = transferred })))
      go (aware t) =
          rw (le→leb _ _ few, le→leb _ _ least, InBounds, or_failed) (nonempty, few, least)
      go (naive t) = rw (le→leb _ _ few, InBounds, or_failed) (omega arith)

  finish_body-InBounds : (p : Progress S D) → Bounded o p → InBounds (finish_body o w p)
  unfolding finish_body
  finish_body-InBounds p h =
      if_both InBounds (is_incomplete o w p.decoder) _ _ (λ bad. omega arith)
        λ good. of_body p.body refl
    where
      of_body :
          (body : List ℕ)
          → body ≡ p.body
          → InBounds (elim body [
            | [] ↦ plain "capture parser input empty"
            | b ∷ bs ↦ capture o w p.body p.transferred
          ])
      of_body [] e = omega arith
      of_body (b ∷ bs) e =
          capture-InBounds p.body p.transferred (subst (λ l. 1 ≤ length l) e (omega arith)) h.1 h.0

  conclude_loop-Returns : (r : Option (Round S D)) → LoopOk o r → Returns (conclude_loop o w r)
  unfolding conclude_loop
  conclude_loop-Returns none h = h
  conclude_loop-Returns (some (more q)) h = h
  conclude_loop-Returns (some (ended q)) h = finish_body-InBounds q h
  conclude_loop-Returns (some (refused message)) h = omega arith

  read_body-Returns :
      (deadline : ℕ) (answer : Answer S) (decoder : Option (Option D))
      → Returns (read_body o w deadline answer decoder)
  unfolding read_body
  read_body-Returns deadline answer none = omega arith
  read_body-Returns deadline answer (some decoder) =
      conclude_loop-Returns _
        (loop-LoopOk o (suc max_page_bytes) deadline _ (omega arith) (omega arith))

  reject-InBounds : (answer : Answer S) (transferred : ℕ) → InBounds (reject o w answer transferred)
  unfolding reject
  reject-InBounds answer transferred =
      of_error _ λ e made. make_error-few (some answer.status) _ transferred e made
    where
      of_error :
          (r : Result TransportError)
          → ((e : TransportError) → r ≡ ok e → e.transferred_bytes ≤ 2000000)
          → InBounds (elim r [ ok e ↦ failed e | err e ↦ transport_failed ])
      of_error (err e) few = omega arith
      of_error (ok e) few = few e refl

  conclude_discard-Returns :
      (answer : Answer S) (r : Option (Option ℕ))
      → is_some r ≡ true
      → Returns (conclude_discard o w answer r)
  unfolding conclude_discard
  conclude_discard-Returns answer none h = absurd (ground arith)
  conclude_discard-Returns answer (some none) h = omega arith
  conclude_discard-Returns answer (some (some transferred)) h = reject-InBounds answer transferred

  take_answer-Returns :
      (deadline : ℕ) (answer : Option (Answer S)) → Returns (take_answer o w deadline answer)
  unfolding take_answer
  take_answer-Returns deadline none = omega arith
  take_answer-Returns deadline (some answer) =
      if_both Returns (answer.status == 200) _ _
        (λ good. read_body-Returns deadline answer (decoder_of o answer.content_encoding))
        λ bad.
          conclude_discard-Returns answer _
            (discard-ends o (suc max_page_bytes) deadline 1 0 answer.stream (omega arith))

  send_request-Returns :
      (request : FetchRequest) (url : Option String) → Returns (send_request o w request url)
  unfolding send_request
  send_request-Returns request none = omega arith
  send_request-Returns request (some url) = take_answer-Returns _ _

-- A fetch returns, whatever the response, the clock and the decompressor do: the rounds of its
-- loops suffice. Either it captured a page of 1 to 2,000,000 bytes, or it failed; and in both cases
-- it counts at most 2,000,000 bytes as transferred.
pub fetch-InBounds :
    {S D : Type 0} (o : Outside S D) (w : Setting S) (request : FetchRequest)
    → (f : Fetched) × (fetch o w request ≡ some f) × InBounds f
unfolding fetch
fetch-InBounds o w request = of_Returns _ (send_request-Returns o w request _)
  where
    of_Returns : (r : Option Fetched) → Returns r → (f : Fetched) × (r ≡ some f) × InBounds f
    of_Returns none h = absurd h
    of_Returns (some f) h = (f, refl, h)
