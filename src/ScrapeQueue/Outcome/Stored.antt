-- ===== src/ScrapeQueue/Outcome/Stored.antt =====
-- The rows of candidates and fields that `complete` stores, as `outcome` reads them back.
use homez.Prelude.{
  ℕ, suc, ◌≡◌, refl, ap, Bool, true, false, not, ◌&&◌, List, [], ◌∷◌, ◌++◌, String, ok, arith,
  Bool-cases, inl, inr, All, IsSorted, order_by-IsSorted, find, length, ◌==◌, str_eq, eq_iff,
  Option-cases,
}
use homez.Prelude.Appended.{where_rows-++, where_rows-none, where_rows-All_hold}
use homez.Parsers.Fields.{Candidate, ResolvedField, declared_fields}
use homez.ScrapeQueue.Contracts.{ScrapeLease}
use homez.ScrapeQueue.Captures.{Captured, CandidateRow, FieldRow}
use homez.ScrapeQueue.Completion.Checks.{
  Encoding, is_value_state, is_sound, all_sound, has_names, all_valid, is_valid_candidate,
}
use homez.ScrapeQueue.Completion.{candidate_rows, field_row, field_rows}
use homez.ScrapeQueue.Outcome.{
  candidates_of, earlier_position, field_of, fields_named, stored_fields, result_candidates,
  result_fields,
}

-- Candidates.

candidate_rows-IsSorted :
    (id n : ℕ) (cs : List Candidate) → IsSorted earlier_position (candidate_rows id n cs)
candidate_rows-IsSorted id n [] = tt
candidate_rows-IsSorted id n (c ∷ []) = tt
candidate_rows-IsSorted id n (c ∷ d ∷ cs) =
    (ground arith, candidate_rows-IsSorted id (suc n) (d ∷ cs))

candidate_rows-All :
    (id n : ℕ) (cs : List Candidate)
    → All (λ (c : CandidateRow). (c.result_id == id) ≡ true) (candidate_rows id n cs)
candidate_rows-All id n [] = tt
candidate_rows-All id n (c ∷ cs) = (ground arith, candidate_rows-All id (suc n) cs)

valid-release_hash :
    (x : Encoding) (lease : ScrapeLease) (c : Candidate)
    → is_valid_candidate x lease c ≡ true
    → c.release_hash ≡ lease.release_hash
unfolding is_valid_candidate
valid-release_hash x lease c h = ground (arith, eq_iff c.release_hash lease.release_hash)

candidates_of-candidate_rows :
    (x : Encoding) (lease : ScrapeLease) (id n : ℕ) (cs : List Candidate)
    → all_valid x lease cs ≡ true
    → candidates_of lease.release_hash (candidate_rows id n cs) ≡ cs
candidates_of-candidate_rows x lease id n [] h = refl
candidates_of-candidate_rows x lease id n (c ∷ cs) h =
    let first : is_valid_candidate x lease c ≡ true = ground arith in
    let rest : all_valid x lease cs ≡ true = ground arith in
    rw
      (
        candidates_of-candidate_rows x lease id (suc n) cs rest,
        ← valid-release_hash x lease c first,
      )
      refl

-- The candidates of a result of which there was no row before.
pub result_candidates-stored :
    (x : Encoding) (lease : ScrapeLease) (id : ℕ) (old : List CandidateRow) (cs : List Candidate)
    (tables : Captured)
    → tables.candidates ≡ old ++ candidate_rows id 0 cs
    → All (λ (c : CandidateRow). (c.result_id == id) ≡ false) old
    → all_valid x lease cs ≡ true
    → candidates_of lease.release_hash (result_candidates tables id) ≡ cs
result_candidates-stored x lease id old cs tables made fresh valid =
    rw
      (
        made,
        where_rows-++ (λ (c : CandidateRow). c.result_id == id) old (candidate_rows id 0 cs),
        where_rows-none (λ (c : CandidateRow). c.result_id == id) old fresh,
        where_rows-All_hold (λ (c : CandidateRow). c.result_id == id) (candidate_rows id 0 cs)
            (candidate_rows-All id 0 cs),
        order_by-IsSorted earlier_position (candidate_rows id 0 cs)
            (candidate_rows-IsSorted id 0 cs),
      )
      (candidates_of-candidate_rows x lease id 0 cs valid)

-- Fields.

field_rows-All :
    (id : ℕ) (fs : List ResolvedField)
    → All (λ (f : FieldRow). (f.result_id == id) ≡ true) (field_rows id fs)
field_rows-All id [] = tt
field_rows-All id (f ∷ fs) = (ground arith, field_rows-All id fs)

length-field_rows : (id : ℕ) (fs : List ResolvedField) → length (field_rows id fs) ≡ length fs
length-field_rows id [] = refl
length-field_rows id (f ∷ fs) = ap suc (length-field_rows id fs)

abbrev lacks : String → List String → Bool
lacks name [] = true
lacks name (n ∷ ns) = not (str_eq name n) && lacks name ns

abbrev are_distinct : List String → Bool
are_distinct [] = true
are_distinct (n ∷ ns) = lacks n ns && are_distinct ns

-- The row of a sound field tells the field.
field_of-field_row :
    (id : ℕ) (name : String) (f : ResolvedField)
    → is_sound f ≡ true
    → f.name ≡ name
    → field_of name (field_row id f) ≡ f
field_of-field_row id name f sound named = elim (Bool-cases (is_value_state f.state)) [
  | inl value ↦ rw (value, ← named) refl
  | inr other ↦ elim (Option-cases f.value) [
    | inl empty ↦ rw (other, ← named, ← empty) refl
    | inr (v, there) ↦ absurd (ground arith)
  ]
]

-- A row of another name is not looked up.
fields_named-skip :
    (n : String) (row : FieldRow) (rows : List FieldRow) (names : List String)
    → row.name ≡ n
    → lacks n names ≡ true
    → fields_named (row ∷ rows) names ≡ fields_named rows names
unfolding fields_named find
fields_named-skip n row rows [] named h = refl
fields_named-skip n row rows (m ∷ ms) named h =
    let miss : str_eq n m ≡ false = ground arith in
    let rest : lacks n ms ≡ true = ground arith in
    rw (named, miss) (rw (fields_named-skip n row rows ms named rest) refl)

fields_named-field_rows :
    (id : ℕ) (names : List String) (fs : List ResolvedField)
    → has_names names fs ≡ true
    → all_sound fs ≡ true
    → are_distinct names ≡ true
    → fields_named (field_rows id fs) names ≡ ok fs
unfolding fields_named find
fields_named-field_rows id [] [] named sound apart = refl
fields_named-field_rows id [] (f ∷ fs) named sound apart = absurd (ground arith)
fields_named-field_rows id (n ∷ ns) [] named sound apart = absurd (ground arith)
fields_named-field_rows id (n ∷ ns) (f ∷ fs) named sound apart =
    let hit : str_eq f.name n ≡ true = ground arith in
    let rest : has_names ns fs ≡ true = ground arith in
    let one : is_sound f ≡ true = ground arith in
    let others : all_sound fs ≡ true = ground arith in
    let new : lacks n ns ≡ true = ground arith in
    let apart' : are_distinct ns ≡ true = ground arith in
    let same : f.name ≡ n = (eq_iff f.name n).0 hit in
    rw
      (
        hit,
        field_of-field_row id n f one same,
        fields_named-skip n (field_row id f) (field_rows id fs) ns same new,
        fields_named-field_rows id ns fs rest others apart',
      )
      refl

has_names-length :
    (names : List String) (fs : List ResolvedField)
    → has_names names fs ≡ true
    → length fs ≡ length names
has_names-length [] [] h = refl
has_names-length [] (f ∷ fs) h = absurd (ground arith)
has_names-length (n ∷ ns) [] h = absurd (ground arith)
has_names-length (n ∷ ns) (f ∷ fs) h = ap suc (has_names-length ns fs (ground arith))

declared_fields_distinct : are_distinct declared_fields ≡ true
declared_fields_distinct = refl

-- The fields of a result of which there was no row before.
pub result_fields-stored :
    (id : ℕ) (old : List FieldRow) (fs : List ResolvedField) (tables : Captured)
    (candidates : List Candidate)
    → tables.fields ≡ old ++ field_rows id fs
    → All (λ (f : FieldRow). (f.result_id == id) ≡ false) old
    → has_names declared_fields fs ≡ true
    → all_sound fs ≡ true
    → stored_fields (result_fields tables id) candidates ≡ ok fs
result_fields-stored id old fs tables candidates made fresh named sound =
    let rows : result_fields tables id ≡ field_rows id fs =
      rw
        (
          made,
          where_rows-++ (λ (f : FieldRow). f.result_id == id) old (field_rows id fs),
          where_rows-none (λ (f : FieldRow). f.result_id == id) old fresh,
          where_rows-All_hold (λ (f : FieldRow). f.result_id == id) (field_rows id fs)
              (field_rows-All id fs),
        )
        refl in
    let many : (length (field_rows id fs) == length declared_fields) ≡ true =
      rw (length-field_rows id fs, has_names-length declared_fields fs named) refl in
    rw (rows, many)
      (fields_named-field_rows id declared_fields fs named sound declared_fields_distinct)
