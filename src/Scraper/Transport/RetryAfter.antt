-- ===== src/Scraper/Transport/RetryAfter.antt =====
-- scraper/transport.py: `BoundedPageTransport._retry_after`, the delay that a header asks for.
-- Times are whole seconds. `parsedate_to_datetime` is an argument, which gives nothing where it
-- raises.
use Prim.Native.Char.{code}
use homez.Prelude.{
  ℕ, ◌+◌, ◌-◌, ◌*◌, Bool, true, false, not, ◌&&◌, ◌||◌, String, Option, none, some, leb, ltb, ◌==◌,
  if◌then◌else◌, Datetime, aware,
}
use homez.Prelude.Chars.{count_chars, all_chars}

-- what `str.strip` takes away
abbrev pub is_space : ℕ → Bool
is_space c =
    (leb 9 c && leb c 13)
    || (leb 28 c && leb c 32)
    || (c == 133)
    || (c == 160)
    || (c == 5760)
    || (leb 8192 c && leb c 8202)
    || (c == 8232)
    || (c == 8233)
    || (c == 8239)
    || (c == 8287)
    || (c == 12288)

unfoldable pub strip_start : String → String
strip_start String.[] = String.[]
strip_start (String.◌∷◌ c s) =
    let rest = strip_start s in if is_space (code c) then rest else String.◌∷◌ c s

abbrev pub is_empty : String → Bool
is_empty String.[] = true
is_empty (String.◌∷◌ c s) = false

unfoldable pub strip_end : String → String
strip_end String.[] = String.[]
strip_end (String.◌∷◌ c s) =
    let rest = strip_end s in
    if is_space (code c) && is_empty rest then String.[] else String.◌∷◌ c rest

-- `[0-9]`
abbrev pub is_digit : ℕ → Bool
is_digit c = leb b'0' c && leb c b'9'

-- `int(value)` of digits, read on from `acc`
unfoldable pub read_digits : ℕ → String → ℕ
read_digits acc String.[] = acc
read_digits acc (String.◌∷◌ c s) = read_digits (acc * 10 + (code c - b'0')) s

-- the time from `clock` to `retry_at`; a negative one, and one between a time with and one without
-- a zone, is none
unfoldable pub until_date : Option Datetime → Datetime → Option ℕ
until_date (some (aware at)) (aware now) = if leb now at then some (at - now) else none
until_date _ _ = none

abbrev pub within_year : Option ℕ → Option ℕ
within_year none = none
within_year (some seconds) = if leb seconds 31536000 then some seconds else none

unfoldable pub delay_of : (String → Option Datetime) → Datetime → String → Option ℕ
unfolding all_chars read_digits until_date
delay_of parsedate clock value = within_year (
    if not (is_empty value) && all_chars is_digit value
    then some (read_digits 0 value)
    else until_date (parsedate value) clock)

-- `_retry_after`
unfoldable pub retry_after : (String → Option Datetime) → Datetime → Option String → Option ℕ
retry_after parsedate clock none = none
retry_after parsedate clock (some raw) =
    if ltb 80 (count_chars raw)
    then none
    else delay_of parsedate clock (strip_end (strip_start raw))
