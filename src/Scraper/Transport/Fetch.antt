-- ===== src/Scraper/Transport/Fetch.antt =====
-- scraper/transport.py: `BoundedPageTransport` and its `fetch`.
use homez.Prelude.{
  ℕ, suc, ◌+◌, Bool, true, false, ◌&&◌, String, List, [], ◌∷◌, Option, none, some, Result, ok, err,
  value_error, ◌>>=◌, leb, ◌==◌, if◌then◌else◌, Datetime,
}
use homez.ScrapeQueue.Contracts.{Portal}
use homez.Scraper.Transport.{
  max_page_bytes, FetchRequest, CapturedPage, Fetched, captured, failed, make_page, make_captured,
  make_error, plain, transport_failed, Outside, Answer,
}
use homez.Scraper.Transport.Body.{Progress, Round, more, ended, refused, decoder_of, loop, discard}
use homez.Scraper.Transport.RetryAfter.{retry_after}

-- the check of the constructor on the timeout, in microseconds
unfoldable pub make_timeout : ℕ → Result ℕ
make_timeout timeout = if leb 1 timeout && leb timeout 10000000 then ok timeout else err value_error

-- what a fetch is given: the clock, the date parser, `validate_listing_url`, the connector, and the
-- id that `uuid4` draws
pub record Setting (S : Type 0) : Type 0 where
  pub timeout : ℕ
  pub clock : Datetime
  pub parsedate : String → Option Datetime
  pub validate : Portal → String → Option String
  pub connect : FetchRequest → Option (Answer S)
  pub capture_id : ℕ

abbrev pub or_failed : Result CapturedPage → Fetched
or_failed (ok c) = captured c
or_failed (err e) = transport_failed

module _ {S D : Type 0} (o : Outside S D) (w : Setting S) where
  abbrev pub is_incomplete : Option D → Bool
  is_incomplete none = false
  is_incomplete (some d) = if o.eof d then false else true

  unfoldable pub capture : List ℕ → ℕ → Fetched
  capture body transferred = or_failed (
      make_page (record { capture_id = w.capture_id; fetched_at = w.clock; body = body })
      >>= λ page. make_captured (record { page = page; transferred_bytes = transferred }))

  -- after the loop
  unfoldable pub finish_body : Progress S D → Fetched
  finish_body p =
      if is_incomplete p.decoder
      then plain "capture compressed stream incomplete"
      else elim p.body [
        | [] ↦ plain "capture parser input empty"
        | b ∷ bs ↦ capture p.body p.transferred
      ]

  unfoldable pub conclude_loop : Option (Round S D) → Option Fetched
  conclude_loop none = none
  conclude_loop (some (more p)) = none
  conclude_loop (some (ended p)) = some (finish_body p)
  conclude_loop (some (refused message)) = some (plain message)

  -- an answer with status 200
  unfoldable pub read_body : ℕ → Answer S → Option (Option D) → Option Fetched
  read_body deadline answer none = some (plain "capture encoding unsupported")
  read_body deadline answer (some decoder) = conclude_loop (
      loop o (suc max_page_bytes) deadline (record {
        stream = answer.stream;
        decoder = decoder;
        body = [];
        transferred = 0;
        readings = 1;
      }))

  -- the error of an answer with another status
  unfoldable pub reject : Answer S → ℕ → Fetched
  reject answer transferred =
      elim (make_error "capture response rejected" (some answer.status)
        (retry_after w.parsedate w.clock answer.retry_after) transferred) [
          | ok e ↦ failed e
          | err e ↦ transport_failed
        ]

  unfoldable pub conclude_discard : Answer S → Option (Option ℕ) → Option Fetched
  conclude_discard answer none = none
  conclude_discard answer (some none) = some transport_failed
  conclude_discard answer (some (some transferred)) = some (reject answer transferred)

  unfoldable pub take_answer : ℕ → Option (Answer S) → Option Fetched
  take_answer deadline none = some transport_failed
  take_answer deadline (some answer) =
      if answer.status == 200
      then read_body deadline answer (decoder_of o answer.content_encoding)
      else conclude_discard answer (discard o (suc max_page_bytes) deadline 1 0 answer.stream)

  -- the request for a canonical URL, where the listing URL has one
  unfoldable pub send_request : FetchRequest → Option String → Option Fetched
  send_request request none = some transport_failed
  send_request request (some canonical) = take_answer (o.monotonic 0 + w.timeout) (
      w.connect (record {
        source = request.source;
        canonical_url = canonical;
        route_id = request.route_id;
      }))

  -- `fetch`; nothing if the rounds do not suffice
  unfoldable pub fetch : FetchRequest → Option Fetched
  fetch request = send_request request (w.validate request.source request.canonical_url)
