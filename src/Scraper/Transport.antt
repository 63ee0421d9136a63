-- ===== src/Scraper/Transport.antt =====
-- scraper/transport.py and scraper/contracts.py: the bounded capture of a page.
-- What lies outside is an argument: the response (its `read`), the monotonic clock, whose i-th
-- reading may be anything, and the decompressor of zlib. So are `validate_listing_url`, which gives
-- nothing where it raises, and `uuid4`. A closed response is not modelled, as nothing reads it.
pub mod RetryAfter
pub mod Body
pub mod Fetch
pub mod Rounds
pub mod Ends
pub mod Captures
pub mod Denied
mod Tests
use homez.Prelude.{
  ℕ, ◌+◌, ◌-◌, Bool, false, ◌&&◌, ◌||◌, String, List, ◌∷◌, ◌++◌, Option, none, is_some, Result, ok,
  value_error, ◌>>=◌, ◌>>◌, guard, length, leb, ◌==◌, if◌then◌else◌, Datetime, require_aware,
}
use homez.ScrapeQueue.Contracts.{Portal}
use homez.Scraper.DenialPolicy.{ResponseEvidence, make_evidence}

-- MAX_PAGE_BYTES
abbrev pub max_page_bytes : ℕ
max_page_bytes = 2000000

-- CHUNK_BYTES
abbrev pub chunk_bytes : ℕ
chunk_bytes = 65536

pub record FetchRequest : Type 0 where
  pub source : Portal
  pub canonical_url : String
  pub route_id : Option String

pub record PageInput : Type 0 where
  pub capture_id : ℕ
  pub fetched_at : Datetime
  pub body : List ℕ

pub record CapturedPage : Type 0 where
  pub page : PageInput
  pub transferred_bytes : ℕ

-- BoundedTransportError
pub record TransportError : Type 0 where
  pub message : String
  pub evidence : ResponseEvidence
  pub transferred_bytes : ℕ

pub data Fetched : Type 0 where
  captured : CapturedPage → Fetched
  failed : TransportError → Fetched

-- `PageInput(…)`
unfoldable pub make_page : PageInput → Result PageInput
make_page p = do
  guard (leb (length p.body) max_page_bytes) value_error
  now ← require_aware p.fetched_at
  ok p

-- `CapturedPage(…)`
unfoldable pub make_captured : CapturedPage → Result CapturedPage
make_captured c = do guard (leb c.transferred_bytes max_page_bytes) value_error; ok c

abbrev pub evidence_of : Option ℕ → Option ℕ → ResponseEvidence
evidence_of status delay = record {
  status_code = status;
  failure = none;
  portal_responded = is_some status;
  retry_after_seconds = delay;
  challenge = false;
}

-- `BoundedTransportError(…)`
unfoldable pub make_error : String → Option ℕ → Option ℕ → ℕ → Result TransportError
make_error message status delay transferred = do
  guard (leb transferred max_page_bytes) value_error
  evidence ← make_evidence (evidence_of status delay)
  ok (record { message = message; evidence = evidence; transferred_bytes = transferred })

-- `BoundedTransportError(message)`
abbrev pub plain : String → Fetched
plain message =
    failed (record { message = message; evidence = evidence_of none none; transferred_bytes = 0 })

-- any other exception
abbrev pub transport_failed : Fetched
transport_failed = plain "capture transport failed"

-- what one `read` gives: an exception, something else than bytes, or bytes
pub data Read : Type 0 where
  raised other : Read
  bytes : List ℕ → Read

-- the response, the clock and the decompressor; `decompress` gives nothing where it raises
pub record Outside (S : Type 0) (D : Type 0) : Type 1 where
  pub read : ℕ → S → Read × S
  pub monotonic : ℕ → ℕ
  pub gzip_decoder : D
  pub deflate_decoder : D
  pub decompress : D → List ℕ → ℕ → Option (List ℕ × D)
  pub has_unused_data : D → Bool
  pub has_unconsumed_tail : D → Bool
  pub eof : D → Bool

-- what a response says before its body
pub record Answer (S : Type 0) : Type 0 where
  pub status : ℕ
  pub retry_after : Option String
  pub content_encoding : Option String
  pub stream : S
