-- ===== src/Scraper/Transport/Denied.antt =====
-- That a denial of the portal reaches the denial policy through scraper/transport.py.
use homez.Prelude.{
  ℕ, zero, suc, ◌+◌, ◌-◌, ◌≤◌, ◌<◌, ◌≡◌, ◌⊎◌, inl, inr, refl, min, false, not, ◌&&◌, String, List,
  [], ◌∷◌, Option, some, ok, ap, Bool-cases, length, leb, ltb, le→leb, ◌==◌, arith,
}
use homez.Scraper.DenialPolicy.{
  RouteClass, ResponseClassification, portal_denial, make_evidence, is_denial, classify_response,
}
use homez.Scraper.Transport.{
  max_page_bytes, chunk_bytes, FetchRequest, Fetched, failed, TransportError, make_error,
  evidence_of, bytes, Outside, Answer,
}
use homez.Scraper.Transport.Body.{discard}
use homez.Scraper.Transport.Fetch.{
  Setting, reject, conclude_discard, take_answer, send_request, fetch,
}
use homez.Scraper.Transport.RetryAfter.{retry_after}

-- No read raises, or gives something else than bytes or more than was asked for.
abbrev pub ReadsWithin : {S D : Type 0} → Outside S D → Type 0
ReadsWithin {S} o =
    (n : ℕ) (s : S)
    → (chunk : List ℕ) × (rest : S) × (o.read n s ≡ (bytes chunk, rest)) × (length chunk ≤ n)

abbrev Few : Option (Option ℕ) → Type 0
Few r = (t : ℕ) × (r ≡ some (some t)) × (t ≤ 2000000)

module _ {S D : Type 0} (o : Outside S D) (reads : ReadsWithin o) where
  discard-Few :
      (fuel deadline i transferred : ℕ) (s : S)
      → max_page_bytes - transferred < fuel
      → transferred ≤ max_page_bytes
      → Few (discard o fuel deadline i transferred s)
  unfolding discard
  discard-Few zero deadline i transferred s enough few = absurd (omega arith)
  discard-Few (suc fuel) deadline i transferred s enough few =
      elim (Bool-cases (ltb transferred max_page_bytes && not (leb deadline (o.monotonic i)))) [
        | inr stops ↦ rw (Few, discard, stops) (transferred, refl, few)
        | inl goes ↦
            (let (chunk, rest, e, short) =
                reads (min chunk_bytes (max_page_bytes - transferred)) s in
              rw (Few, discard, goes, e)
                (go (λ t r. discard-Few fuel deadline (i + 1) t r) chunk
                  (o.read (min chunk_bytes (max_page_bytes - transferred)) s).1 short))
      ]
    where
      go :
          ((t : ℕ) (r : S)
            → max_page_bytes - t < fuel
            → t ≤ max_page_bytes
            → Few (discard o fuel deadline (i + 1) t r))
          → (chunk : List ℕ) (rest : S)
          → length chunk ≤ min chunk_bytes (max_page_bytes - transferred)
          → Few (elim chunk [
            | [] ↦ some (some transferred)
            | b ∷ bs ↦ discard o fuel deadline (i + 1) (transferred + length (b ∷ bs)) rest
          ])
      go again [] rest short = (transferred, refl, few)
      go again (b ∷ bs) rest short =
          again (transferred + length (b ∷ bs)) rest (omega arith) (omega arith)

-- what the error of a fetch is classified as
abbrev pub ClassifiedAs : RouteClass → Option Fetched → ResponseClassification → Type 0
ClassifiedAs route r c =
    (e : TransportError) × (r ≡ some (failed e)) × (classify_response route e.evidence ≡ c)

-- the statuses of a denial
abbrev pub IsDenied : ℕ → Type 0
IsDenied status = (status ≡ 403) ⊎ (status ≡ 429)

-- the error of a rejected response
abbrev rejected : ℕ → Option ℕ → ℕ → TransportError
rejected status delay transferred = record {
  message = "capture response rejected";
  evidence = evidence_of (some status) delay;
  transferred_bytes = transferred;
}

make_error-rejected :
    (status : ℕ) (delay : Option ℕ) (transferred : ℕ)
    → 100 ≤ status
    → status ≤ 599
    → transferred ≤ 2000000
    → make_error "capture response rejected" (some status) delay transferred
      ≡ ok (rejected status delay transferred)
unfolding make_error make_evidence
make_error-rejected status delay transferred from to few =
    rw (le→leb _ _ few, le→leb _ _ from, le→leb _ _ to) refl

classify_response-denied :
    (route : RouteClass) (status : ℕ) (delay : Option ℕ)
    → IsDenied status
    → classify_response route (evidence_of (some status) delay) ≡ portal_denial
unfolding classify_response is_denial
classify_response-denied route status delay (inl forbidden) = rw forbidden refl
classify_response-denied route status delay (inr limited) = rw limited refl

module _ {S D : Type 0} (o : Outside S D) (w : Setting S) (answer : Answer S) where
  reject-rejected :
      (transferred : ℕ)
      → 100 ≤ answer.status
      → answer.status ≤ 599
      → transferred ≤ 2000000
      → reject o w answer transferred
        ≡ failed (
            rejected answer.status (retry_after w.parsedate w.clock answer.retry_after) transferred)
  unfolding reject
  reject-rejected transferred from to few =
      rw
        (
          reject,
          make_error-rejected answer.status (retry_after w.parsedate w.clock answer.retry_after)
              transferred from to few,
        )
        refl

  take_answer-denied :
      (deadline : ℕ) (route : RouteClass)
      → ReadsWithin o
      → IsDenied answer.status
      → ClassifiedAs route (take_answer o w deadline (some answer)) portal_denial
  unfolding take_answer conclude_discard
  take_answer-denied deadline route reads denied =
      let bad : (answer.status == 200) ≡ false = ground arith in
      let (t, e, few) =
        discard-Few o reads (suc max_page_bytes) deadline 1 0 answer.stream (omega arith)
          (omega arith) in
      rw (bad, e)
        (
          _,
          ap some (reject-rejected t (ground arith) (ground arith) few),
          classify_response-denied route answer.status _ denied,
        )

-- If a portal answers the request for a listing with status 403 or 429, and no read of its body
-- raises or gives more than was asked for, then the fetch fails with evidence that the denial policy
-- classifies as a denial by the portal, by either route and whenever the deadline passes.
pub fetch-denied :
    {S D : Type 0} (o : Outside S D) (w : Setting S) (request : FetchRequest) (url : String)
    (answer : Answer S) (route : RouteClass)
    → ReadsWithin o
    → w.validate request.source request.canonical_url ≡ some url
    → w.connect
        (record { source = request.source; canonical_url = url; route_id = request.route_id })
      ≡ some answer
    → IsDenied answer.status
    → ClassifiedAs route (fetch o w request) portal_denial
unfolding fetch send_request
fetch-denied o w request url answer route reads valid connected denied =
    rw (valid, connected)
      (take_answer-denied o w answer (o.monotonic 0 + w.timeout) route reads denied)
