-- ===== src/Integration/Redact.antt =====
-- redact.py: masking of digit runs. A text is the list of its code points, and what `\d` matches
-- is a parameter: the digits of every script, which the module does not enumerate.
pub mod Masked
use onesti_lock.Base.{ℕ, Bool, true, false, List, [], ◌∷◌, ◌++◌, leb, if◌then◌else◌, length}
use onesti_lock.Integration.PinRules.{pin_length_sane_min}

-- "****"
abbrev pub mask : List ℕ
mask = b'*' ∷ b'*' ∷ b'*' ∷ b'*' ∷ []

module _ (is_digit : ℕ → Bool) where
  -- A run of digits as the pattern `\d{4,}` replaces it.
  abbrev pub masked : List ℕ → List ℕ
  masked run = if leb pin_length_sane_min (length run) then mask else run

  -- The scan from the left, with the run of digits that it is in. The pattern is greedy, so a run
  -- is replaced whole.
  unfoldable pub scan : List ℕ → List ℕ → List ℕ
  scan run [] = masked run
  scan run (c ∷ cs) =
      let longer = scan (run ++ c ∷ []) cs in
      let flushed = masked run ++ c ∷ scan [] cs in if is_digit c then longer else flushed

  unfoldable pub redact_digits : List ℕ → List ℕ
  unfolding scan
  redact_digits text = scan [] text
