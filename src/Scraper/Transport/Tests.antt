-- ===== src/Scraper/Transport/Tests.antt =====
-- Responses for scraper/transport.py, their fetches, and the theorems applied to them.
use homez.Prelude.{
  ℕ, ◌+◌, ◌*◌, ◌≡◌, refl, false, String, List, [], ◌∷◌, Option, none, some, length, if◌then◌else◌,
  str_eq, ltb, inr, arith, aware, ◌==◌,
}
use homez.Prelude.Chars.{count_chars, all_chars}
use homez.ScrapeQueue.Contracts.{gratka}
use homez.Scraper.DenialPolicy.{
  ResponseClassification, direct, portal_denial, make_evidence, is_denial, pre_response_failure,
  is_infrastructure, by_status, classify_response,
}
use homez.Scraper.Transport.{
  FetchRequest, Fetched, captured, failed, plain, make_page, make_captured, make_error, Read,
  raised, bytes, Outside, Answer, evidence_of, transport_failed,
}
use homez.Scraper.Transport.Body.{
  decoder_of, lowers_to, take_decoded, extend_body, take_chunk, after_read, round, loop, discard,
}
use homez.Scraper.Transport.Fetch.{
  Setting, capture, finish_body, conclude_loop, read_body, reject, conclude_discard, take_answer,
  send_request, fetch,
}
use homez.Scraper.Transport.RetryAfter.{
  strip_start, strip_end, read_digits, until_date, delay_of, retry_after,
}
use homez.Scraper.Transport.Ends.{InBounds, fetch-InBounds}
use homez.Scraper.Transport.Denied.{ReadsWithin, ClassifiedAs, fetch-denied}
use homez.Scraper.Transport.Captures.{ReadsOn, fetched_of, fetch-fetched_of}

program : Unit {0}
unfolding is_denial pre_response_failure is_infrastructure by_status classify_response count_chars
    all_chars make_evidence make_page make_captured make_error decoder_of lowers_to take_decoded
    extend_body take_chunk after_read round loop discard capture finish_body conclude_loop read_body
    reject conclude_discard take_answer send_request fetch strip_start strip_end read_digits
    until_date delay_of retry_after
program = tt

-- a stream that gives a byte at a time
abbrev one_byte : ℕ → List ℕ → Read × List ℕ
one_byte n [] = (bytes [], [])
one_byte n (b ∷ s) = (bytes (b ∷ []), s)

-- a decompressor that doubles each byte; its state is whether a byte 0 ended the stream
abbrev doubled : List ℕ → List ℕ
doubled [] = []
doubled (b ∷ s) = b ∷ b ∷ doubled s

abbrev outside : (ℕ → ℕ) → Outside (List ℕ) ℕ
outside clock = record {
  read = one_byte;
  monotonic = clock;
  gzip_decoder = 0;
  deflate_decoder = 0;
  decompress = λ d chunk most. some (doubled chunk, d + length chunk);
  has_unused_data = λ d. ltb 3 d;
  has_unconsumed_tail = λ d. false;
  eof = λ d. d == 3;
}

abbrev answer : ℕ → Option String → Option String → Answer (List ℕ)
answer status delay encoding = record {
  status = status;
  retry_after = delay;
  content_encoding = encoding;
  stream = 60 ∷ 33 ∷ 62 ∷ [];
}

abbrev setting : Answer (List ℕ) → Setting (List ℕ)
setting a = record {
  timeout = 10000000;
  clock = aware 5000;
  parsedate =
      λ text. if str_eq text "Thu, 01 Jan 1970 01:30:00 GMT" then some (aware 5400) else none;
  validate = λ portal url. some url;
  connect = λ request. some a;
  capture_id = 7;
}

abbrev request : FetchRequest
request = record {
  source = gratka;
  canonical_url = "https://gratka.pl/nieruchomosci/x/ob/1";
  route_id = none;
}

captures_plain :
    fetch (outside (λ i. i)) (setting (answer 200 none (some "Identity"))) request
    ≡ some (fetched_of 7 5000 (60 ∷ 33 ∷ 62 ∷ []))
unfolding program
captures_plain = refl

captures_gzip :
    fetch (outside (λ i. i)) (setting (answer 200 none (some "GZIP"))) request
    ≡ some (
        captured (record {
          page = record {
            capture_id = 7;
            fetched_at = aware 5000;
            body = 60 ∷ 60 ∷ 33 ∷ 33 ∷ 62 ∷ 62 ∷ [];
          };
          transferred_bytes = 3;
        }))
unfolding program
captures_gzip = refl

-- the deadline passes at the fourth reading
stops_late :
    fetch (outside (λ i. i * 3000000)) (setting (answer 200 none none)) request
    ≡ some (plain "capture deadline exceeded")
unfolding program
stops_late = refl

rejects :
    fetch (outside (λ i. i)) (setting (answer 429 (some " 120 ") none)) request
    ≡ some (
        failed (record {
          message = "capture response rejected";
          evidence = evidence_of (some 429) (some 120);
          transferred_bytes = 3;
        }))
unfolding program
rejects = refl

refuses_unknown_status :
    fetch (outside (λ i. i)) (setting (answer 700 none none)) request ≡ some transport_failed
unfolding program
refuses_unknown_status = refl

reads_date :
    retry_after
      (setting (answer 503 none none)).parsedate
      (aware 5000)
      (some "Thu, 01 Jan 1970 01:30:00 GMT")
    ≡ some 400
unfolding program
reads_date = refl

-- a read that raises: the status that came before it is lost
abbrev broken : Outside (List ℕ) ℕ
broken = record (outside (λ i. 5)) { read = λ n s. (raised, s) }

loses_denial :
    (fetch broken (setting (answer 429 none none)) request ≡ some transport_failed)
    × (classify_response direct (evidence_of none none) ≡ ResponseClassification.transport_failure)
unfolding program
loses_denial = (refl, refl)

one_byte-ReadsOn : ReadsOn (outside (λ i. 5))
one_byte-ReadsOn n [] h = ([], [], refl, refl, omega arith, λ e. refl)
one_byte-ReadsOn n (b ∷ s) h = (b ∷ [], s, refl, refl, omega arith, λ e. absurd (ground arith))

fetch-InBounds_example :
    (f : Fetched) × (fetch (outside (λ i. i)) (setting (answer 200 none (some "gzip"))) request
      ≡ some f)
    × InBounds f
fetch-InBounds_example =
    fetch-InBounds (outside (λ i. i)) (setting (answer 200 none (some "gzip"))) request

fetch-fetched_of_example :
    fetch (outside (λ i. 5)) (setting (answer 200 none none)) request
    ≡ some (fetched_of 7 5000 (60 ∷ 33 ∷ 62 ∷ []))
unfolding program
fetch-fetched_of_example =
    fetch-fetched_of (outside (λ i. 5)) (setting (answer 200 none none)) request
      "https://gratka.pl/nieruchomosci/x/ob/1" (answer 200 none none) 5000 one_byte-ReadsOn
      (λ i. omega arith) refl refl refl refl refl

-- a stream that has ended
abbrev ended_stream : Outside (List ℕ) ℕ
ended_stream = record (outside (λ i. 5)) { read = λ n s. (bytes [], s) }

ended_stream-ReadsWithin : ReadsWithin ended_stream
ended_stream-ReadsWithin n s = ([], s, refl, omega arith)

fetch-denied_example :
    ClassifiedAs direct (fetch ended_stream (setting (answer 429 none none)) request) portal_denial
fetch-denied_example =
    fetch-denied ended_stream (setting (answer 429 none none)) request
      "https://gratka.pl/nieruchomosci/x/ob/1" (answer 429 none none) direct
      ended_stream-ReadsWithin refl refl (inr refl)
