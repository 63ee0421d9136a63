-- ===== src/Scraper/Transport/Body.antt =====
-- scraper/transport.py: the loops of `fetch` and `_discard_bounded`, which read a response.
use Prim.Native.Char.{code}
use homez.Prelude.{
  ℕ, zero, suc, ◌+◌, ◌-◌, min, Bool, true, false, not, ◌&&◌, ◌||◌, String, List, [], ◌∷◌, ◌++◌,
  Option, none, some, length, leb, ltb, ◌==◌, if◌then◌else◌,
}
use homez.Scraper.Transport.{max_page_bytes, chunk_bytes, Read, raised, other, bytes, Outside}

-- the variables of the loop; `readings` counts those of the clock
pub record Progress (S : Type 0) (D : Type 0) : Type 0 where
  pub stream : S
  pub decoder : Option D
  pub body : List ℕ
  pub transferred : ℕ
  pub readings : ℕ

-- what one round of the loop comes to
pub data Round (S : Type 0) (D : Type 0) : Type 0 where
  more ended : Progress S D → Round S D
  refused : String → Round S D

abbrev pub lower_code : ℕ → ℕ
lower_code c = if leb b'A' c && leb c b'Z' then c + 32 else c

-- `text.lower() == word`, for a word whose letters no other character lowers to
unfoldable pub lowers_to : String → String → Bool
lowers_to String.[] String.[] = true
lowers_to String.[] (String.◌∷◌ d w) = false
lowers_to (String.◌∷◌ c s) String.[] = false
lowers_to (String.◌∷◌ c s) (String.◌∷◌ d w) = (lower_code (code c) == code d) && lowers_to s w

abbrev pub or_identity : Option String → String
or_identity none = "identity"
or_identity (some String.[]) = "identity"
or_identity (some (String.◌∷◌ c s)) = String.◌∷◌ c s

module _ {S D : Type 0} (o : Outside S D) where
  -- the decoder of an encoding, if the encoding is supported
  unfoldable pub decoder_of : Option String → Option (Option D)
  decoder_of header =
      let encoding = or_identity header in
      if lowers_to encoding "identity"
      then some none
      else if lowers_to encoding "gzip"
      then some (some o.gzip_decoder)
      else if lowers_to encoding "deflate"
      then some (some o.deflate_decoder)
      else none

  abbrev pub read_limit : Progress S D → ℕ
  read_limit p = min chunk_bytes (max_page_bytes - p.transferred + 1)

  -- the check at the end of a round
  abbrev pub within_body : Progress S D → Round S D
  within_body p =
      if ltb max_page_bytes (length p.body)
      then refused "capture parser input exceeds 2 MB"
      else more p

  -- `decoder.decompress` and the checks on what it left
  unfoldable pub take_decoded : Progress S D → Option (List ℕ × D) → Round S D
  take_decoded p none = refused "capture transport failed"
  take_decoded p (some (out, d)) =
      if o.has_unused_data d || o.has_unconsumed_tail d
      then refused "capture compressed stream invalid"
      else within_body (record p { decoder = some d; body = p.body ++ out })

  unfoldable pub extend_body : Progress S D → List ℕ → Option D → Round S D
  extend_body p chunk none = within_body (record p { body = p.body ++ chunk })
  extend_body p chunk (some d) =
      take_decoded p (o.decompress d chunk (max_page_bytes - length p.body + 1))

  -- the round from the chunk on
  unfoldable pub take_chunk : Progress S D → List ℕ → Round S D
  take_chunk p [] = ended p
  take_chunk p (b ∷ chunk) =
      if ltb max_page_bytes (p.transferred + length (b ∷ chunk))
      then refused "capture transfer exceeds 2 MB"
      else extend_body (record p { transferred = p.transferred + length (b ∷ chunk) }) (b ∷ chunk)
          p.decoder

  unfoldable pub after_read : ℕ → Progress S D → Read × S → Round S D
  after_read deadline p (raised, s) = refused "capture transport failed"
  after_read deadline p (other, s) =
      if leb deadline (o.monotonic (p.readings + 1))
      then refused "capture deadline exceeded"
      else refused "capture stream contract invalid"
  after_read deadline p (bytes chunk, s) =
      if leb deadline (o.monotonic (p.readings + 1))
      then refused "capture deadline exceeded"
      else if ltb (read_limit p) (length chunk)
      then refused "capture stream contract invalid"
      else take_chunk (record p { stream = s; readings = p.readings + 2 }) chunk

  unfoldable pub round : ℕ → Progress S D → Round S D
  round deadline p =
      if leb deadline (o.monotonic p.readings)
      then refused "capture deadline exceeded"
      else after_read deadline p (o.read (read_limit p) p.stream)

  -- `while True`; nothing if the rounds do not suffice
  unfoldable pub loop : ℕ → ℕ → Progress S D → Option (Round S D)
  loop zero deadline p = none
  loop (suc fuel) deadline p = elim (round deadline p) [
    | more q ↦ loop fuel deadline q
    | ended q ↦ some (ended q)
    | refused message ↦ some (refused message)
  ]

  -- `_discard_bounded`; nothing if the rounds do not suffice, and `some none` if a read raises
  unfoldable pub discard : ℕ → ℕ → ℕ → ℕ → S → Option (Option ℕ)
  discard zero deadline i transferred s = none
  discard (suc fuel) deadline i transferred s =
      elim (ltb transferred max_page_bytes && not (leb deadline (o.monotonic i))) [
        | false ↦ some (some transferred)
        | true ↦
            (let (out, t) = o.read (min chunk_bytes (max_page_bytes - transferred)) s in
              elim out [
                | raised ↦ some none
                | other ↦ some (some transferred)
                | bytes chunk ↦ elim chunk [
                  | [] ↦ some (some transferred)
                  | b ∷ bs ↦ discard fuel deadline (i + 1) (transferred + length (b ∷ bs)) t
                ]
              ])
      ]
