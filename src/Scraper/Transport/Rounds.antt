-- ===== src/Scraper/Transport/Rounds.antt =====
-- That the loops of scraper/transport.py end, and what their rounds keep.
use homez.Prelude.{
  ℕ, zero, suc, ◌+◌, ◌-◌, ◌≤◌, ◌<◌, ◌≡◌, refl, min, true, not, ◌&&◌, ◌||◌, List, [], ◌∷◌, Option,
  none, some, Bool-cases, if_both, is_some, String, ◌⊎◌, inl, inr, subst, length, leb, ltb, arith,
}
use homez.Scraper.Transport.{max_page_bytes, chunk_bytes, Read, raised, other, bytes, Outside}
use homez.Scraper.Transport.Body.{
  Progress, Round, more, ended, refused, read_limit, within_body, take_decoded, extend_body,
  take_chunk, after_read, round, loop, discard,
}

Round-cases :
    {S D : Type 0} (r : Round S D)
    → ((q : Progress S D) × (r ≡ more q))
      ⊎ (((q : Progress S D) × (r ≡ ended q)) ⊎ ((message : String) × (r ≡ refused message)))
Round-cases (more q) = inl (q, refl)
Round-cases (ended q) = inr (inl (q, refl))
Round-cases (refused message) = inr (inr (message, refl))

Read-cases :
    (r : Read)
    → (r ≡ raised)
      ⊎ ((r ≡ other) ⊎ ((r ≡ bytes []) ⊎ ((b : ℕ) × (chunk : List ℕ) × (r ≡ bytes (b ∷ chunk)))))
Read-cases raised = inl refl
Read-cases other = inr (inl refl)
Read-cases (bytes []) = inr (inr (inl refl))
Read-cases (bytes (b ∷ chunk)) = inr (inr (inr (b, chunk, refl)))

module _ {S D : Type 0} (o : Outside S D) where
  abbrev pub Bounded : Progress S D → Type 0
  Bounded p = (p.transferred ≤ max_page_bytes) × (length p.body ≤ max_page_bytes)

  abbrev RoundOk : ℕ → Round S D → Type 0
  RoundOk before (more q) = (before < q.transferred) × Bounded q
  RoundOk before (ended q) = Bounded q
  RoundOk before (refused message) = Unit

  within_body-RoundOk :
      (before : ℕ) (p : Progress S D)
      → before < p.transferred
      → p.transferred ≤ max_page_bytes
      → RoundOk before (within_body o p)
  within_body-RoundOk before p grown few =
      if_both (RoundOk before) (ltb max_page_bytes (length p.body)) _ _ (λ long. tt)
        λ short. (grown, (few, ground arith))

  take_decoded-RoundOk :
      (before : ℕ) (p : Progress S D) (output : Option (List ℕ × D))
      → before < p.transferred
      → p.transferred ≤ max_page_bytes
      → RoundOk before (take_decoded o p output)
  unfolding take_decoded
  take_decoded-RoundOk before p none grown few = tt
  take_decoded-RoundOk before p (some (out, d)) grown few =
      if_both (RoundOk before) (o.has_unused_data d || o.has_unconsumed_tail d) _ _ (λ bad. tt)
        λ good. within_body-RoundOk before _ grown few

  extend_body-RoundOk :
      (before : ℕ) (p : Progress S D) (chunk : List ℕ) (decoder : Option D)
      → before < p.transferred
      → p.transferred ≤ max_page_bytes
      → RoundOk before (extend_body o p chunk decoder)
  unfolding extend_body
  extend_body-RoundOk before p chunk none grown few = within_body-RoundOk before _ grown few
  extend_body-RoundOk before p chunk (some d) grown few = take_decoded-RoundOk before p _ grown few

  take_chunk-RoundOk :
      (p : Progress S D) (chunk : List ℕ) → Bounded p → RoundOk p.transferred (take_chunk o p chunk)
  unfolding take_chunk
  take_chunk-RoundOk p [] h = h
  take_chunk-RoundOk p (b ∷ chunk) h =
      if_both (RoundOk p.transferred) (ltb max_page_bytes (p.transferred + length (b ∷ chunk))) _ _
        (λ much. tt)
        λ few.
          extend_body-RoundOk p.transferred _ (b ∷ chunk) p.decoder (omega arith) (ground arith)

  after_read-RoundOk :
      (deadline : ℕ) (p : Progress S D) (r : Read) (s : S)
      → Bounded p
      → RoundOk p.transferred (after_read o deadline p (r, s))
  unfolding after_read
  after_read-RoundOk deadline p raised s h = tt
  after_read-RoundOk deadline p other s h =
      if_both (RoundOk p.transferred) (leb deadline (o.monotonic (p.readings + 1))) _ _ (λ late. tt)
        λ early. tt
  after_read-RoundOk deadline p (bytes chunk) s h =
      if_both (RoundOk p.transferred) (leb deadline (o.monotonic (p.readings + 1))) _ _ (λ late. tt)
        λ early.
          if_both (RoundOk p.transferred) (ltb (read_limit o p) (length chunk)) _ _ (λ long. tt)
            λ short. take_chunk-RoundOk _ chunk h

  -- A round that goes on has transferred more, and stays within the bounds.
  round-RoundOk :
      (deadline : ℕ) (p : Progress S D) → Bounded p → RoundOk p.transferred (round o deadline p)
  unfolding round
  round-RoundOk deadline p h =
      if_both (RoundOk p.transferred) (leb deadline (o.monotonic p.readings)) _ _ (λ late. tt)
        λ early. after_read-RoundOk deadline p _ _ h

  abbrev pub LoopOk : Option (Round S D) → Type 0
  LoopOk none = ⊥
  LoopOk (some (more q)) = ⊥
  LoopOk (some (ended q)) = Bounded q
  LoopOk (some (refused message)) = Unit

  -- As many rounds as bytes are left, and one more, suffice.
  pub loop-LoopOk :
      (fuel deadline : ℕ) (p : Progress S D)
      → max_page_bytes - p.transferred < fuel
      → Bounded p
      → LoopOk (loop o fuel deadline p)
  unfolding loop
  loop-LoopOk zero deadline p enough h = absurd (omega arith)
  loop-LoopOk (suc fuel) deadline p enough h =
      let step : RoundOk p.transferred (round o deadline p) = round-RoundOk deadline p h in
      elim (Round-cases (round o deadline p)) [
        | inl (q, e) ↦
            (let kept = subst (RoundOk p.transferred) e step in
              rw (e, LoopOk) (loop-LoopOk fuel deadline q (omega arith) kept.1))
        | inr (inl (q, e)) ↦ rw (e, LoopOk) (subst (RoundOk p.transferred) e step)
        | inr (inr (message, e)) ↦ rw (e, LoopOk) tt
      ]

  pub discard-ends :
      (fuel deadline i transferred : ℕ) (s : S)
      → max_page_bytes - transferred < fuel
      → is_some (discard o fuel deadline i transferred s) ≡ true
  unfolding discard
  discard-ends zero deadline i transferred s enough = absurd (omega arith)
  discard-ends (suc fuel) deadline i transferred s enough =
      elim (Bool-cases (ltb transferred max_page_bytes && not (leb deadline (o.monotonic i)))) [
        | inr stops ↦ rw (stops, is_some) refl
        | inl goes ↦
            rw (goes, is_some)
              (elim (Read-cases (o.read (min chunk_bytes (max_page_bytes - transferred)) s).0) [
                | inl e ↦ rw (e, is_some) refl
                | inr (inl e) ↦ rw (e, is_some) refl
                | inr (inr (inl e)) ↦ rw (e, is_some) refl
                | inr (inr (inr (b, chunk, e))) ↦
                    rw (e, is_some) (discard-ends fuel deadline (i + 1) _ _ (ground arith))
              ])
      ]
