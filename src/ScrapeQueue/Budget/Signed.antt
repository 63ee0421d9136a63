-- ===== src/ScrapeQueue/Budget/Signed.antt =====
-- The integers of scrape_queue/budget.py: `allocated_bytes` may fall below zero.
use homez.Prelude.{ℕ, ◌+◌, ◌-◌, ◌≤◌, ◌≡◌, Bool, true, leb, max, if◌then◌else◌, arith}

pub data ℤ : Type 0 where
  pos negsuc : ℕ → ℤ

-- `a + n`
unfoldable pub plus : ℤ → ℕ → ℤ
plus (pos a) n = pos (a + n)
plus (negsuc a) n = if leb (a + 1) n then pos (n - (a + 1)) else negsuc (a - n)

-- `a - n`
unfoldable pub minus : ℤ → ℕ → ℤ
minus (pos a) n = if leb n a then pos (a - n) else negsuc (n - a - 1)
minus (negsuc a) n = negsuc (a + n)

-- `a <= n`
abbrev pub fits : ℤ → ℕ → Bool
fits (pos a) n = leb a n
fits (negsuc a) n = true

-- `max(a, n)`
abbrev pub at_least : ℤ → ℕ → ℤ
at_least (pos a) n = pos (max a n)
at_least (negsuc a) n = pos n

pub at_least-fits :
    (a : ℤ) (n most : ℕ) → fits a most ≡ true → n ≤ most → fits (at_least a n) most ≡ true
at_least-fits (pos a) n most h small = ground arith
at_least-fits (negsuc a) n most h small = ground arith
