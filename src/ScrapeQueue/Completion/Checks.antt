-- ===== src/ScrapeQueue/Completion/Checks.antt =====
-- scrape_queue/repository.py: what `complete` asks of an outcome before its transaction.
-- The lengths of the JSON texts and the SHA-256 of the outcome's are arguments.
use Prim.Native.Char.{code}
use homez.Prelude.{
  ℕ, zero, suc, Bool, true, false, not, ◌&&◌, ◌||◌, String, List, [], ◌∷◌, ◌++◌, Option, none, some,
  is_some, Result, ok, value_error, ◌>>=◌, ◌>>◌, guard, length, leb, ◌==◌, str_eq, if◌then◌else◌,
  Datetime, require_aware,
}
use homez.Prelude.Chars.{count_chars, fullmatch, is_hex, is_word_or_dash}
use homez.ScrapeQueue.Contracts.{
  TaskClass, live, artifact_recovery, network_recovery, discovery_capture, is_discovery,
  ScrapeLease,
}
use homez.ScrapeQueue.Captures.{CaptureOutcome}
use homez.Parsers.Fields.{
  FieldValue, FieldState, value_state, Candidate, ResolvedField, declared_fields, resolve_fields,
}

pub record Encoding : Type 0 where
  pub json_length : FieldValue → ℕ
  pub encoded_length : CaptureOutcome → ℕ
  pub result_hash : CaptureOutcome → String

-- `result.fields or resolve_fields(result.candidates)`
abbrev pub used_fields : List ResolvedField → List Candidate → Result (List ResolvedField)
used_fields [] candidates = resolve_fields candidates
used_fields (f ∷ fs) candidates = ok (f ∷ fs)

abbrev pub is_capturing : TaskClass → Bool
is_capturing live = true
is_capturing network_recovery = true
is_capturing discovery_capture = true
is_capturing artifact_recovery = false

-- `tuple(field.name for field in fields) == names`
abbrev pub has_names : List String → List ResolvedField → Bool
has_names [] [] = true
has_names [] (f ∷ fs) = false
has_names (n ∷ ns) [] = false
has_names (n ∷ ns) (f ∷ fs) = str_eq f.name n && has_names ns fs

abbrev pub is_value_state : FieldState → Bool
is_value_state value_state = true
is_value_state _ = false

-- the test in `any(…)` over the fields, negated
abbrev pub is_sound : ResolvedField → Bool
is_sound f =
    if is_value_state f.state
    then is_some f.selected_origin
    else not (is_some f.value) && not (is_some f.selected_origin)

abbrev pub all_sound : List ResolvedField → Bool
all_sound [] = true
all_sound (f ∷ fs) = is_sound f && all_sound fs

-- `[a-z_]`
abbrev pub is_lower : ℕ → Bool
is_lower c = (leb b'a' c && leb c b'z') || (c == b'_')

abbrev pub all_lower : List String → Bool
all_lower [] = true
all_lower (n ∷ ns) = fullmatch is_lower 1 50 n && all_lower ns

-- a text that matches one test for each character
unfoldable pub matches : List (ℕ → Bool) → String → Bool
matches [] String.[] = true
matches [] (String.◌∷◌ c s) = false
matches (p ∷ ps) String.[] = false
matches (p ∷ ps) (String.◌∷◌ c s) = p (code c) && matches ps s

abbrev pub times : ℕ → (ℕ → Bool) → List (ℕ → Bool)
times zero p = []
times (suc n) p = p ∷ times n p

abbrev pub is_dash : ℕ → Bool
is_dash c = c == b'-'

-- `[0-9a-f]{8}-[0-9a-f]{4}-[1-5][0-9a-f]{3}-[89ab][0-9a-f]{3}-[0-9a-f]{12}`
abbrev pub uuid_pattern : List (ℕ → Bool)
uuid_pattern =
    times 8 is_hex
    ++ (is_dash
        ∷ (times 4 is_hex
            ++ (is_dash
                ∷ (λ c. leb b'1' c && leb c b'5')
                ∷ (times 3 is_hex
                    ++ (is_dash
                        ∷ (λ c. (c == b'8') || (c == b'9') || (c == b'a') || (c == b'b'))
                        ∷ (times 3 is_hex ++ (is_dash ∷ times 12 is_hex)))))))

unfoldable pub is_artifact : Option String → Bool
is_artifact none = true
is_artifact (some id) = matches uuid_pattern id

-- the test of "invalid production capture", negated
unfoldable pub is_valid_capture : ScrapeLease → CaptureOutcome → List ResolvedField → ℕ → ℕ → Bool
is_valid_capture lease o fields fetched now =
    is_capturing lease.task_class
    && leb 1 o.size_bytes
    && leb o.size_bytes 2000000
    && fullmatch is_hex 64 64 o.content_hash
    && (o.capture_id == o.result.capture_id)
    && str_eq o.result.release_hash lease.release_hash
    && leb fetched now
    && leb (length o.result.candidates) 64
    && leb (length o.result.missing_fields) 32
    && (length fields == length declared_fields)
    && has_names declared_fields fields
    && all_sound fields
    && fullmatch is_word_or_dash 1 80 o.result.variant
    && all_lower o.result.missing_fields
    && is_artifact o.artifact_id

unfoldable pub is_valid_candidate : Encoding → ScrapeLease → Candidate → Bool
is_valid_candidate x lease c =
    str_eq c.release_hash lease.release_hash
    && leb (count_chars c.name) 80
    && leb (count_chars c.origin) 80
    && leb (count_chars c.locator) 200
    && leb (x.json_length c.value) 25000

abbrev pub all_valid : Encoding → ScrapeLease → List Candidate → Bool
all_valid x lease [] = true
all_valid x lease (c ∷ cs) = is_valid_candidate x lease c && all_valid x lease cs

-- the time of the fetch, the time supplied and the fields, if the outcome is valid
pub record Checked : Type 0 where
  pub now : ℕ
  pub fetched : ℕ
  pub fields : List ResolvedField

unfoldable pub check_outcome : Encoding → ScrapeLease → CaptureOutcome → Datetime → Result Checked
check_outcome x lease o supplied = do
  now ← require_aware supplied
  fetched ← require_aware o.fetched_at
  fields ← used_fields o.result.fields o.result.candidates
  guard (is_valid_capture lease o fields fetched now) value_error
  guard (all_valid x lease o.result.candidates) value_error
  guard (leb (x.encoded_length o) 120000) value_error
  guard (not (is_discovery lease.task_class) || is_some o.artifact_id) value_error
  ok (record { now = now; fetched = fetched; fields = fields })
