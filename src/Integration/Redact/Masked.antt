-- ===== src/Integration/Redact/Masked.antt =====
-- What is left after masking.
use mathlib.Core.List.{append_assoc, append-nil}
use onesti_lock.Base.{
  ℕ, suc, ◌+◌, ◌≤◌, ◌<◌, Bool, true, false, List, [], ◌∷◌, ◌++◌, ◌≡◌, ◌≢◌, refl, sym, ap, ◌∙◌,
  arith, ltb, leb, ◌&&◌, if◌then◌else◌, length, length-append, Bool-cases, inl, inr,
}
use onesti_lock.Ble.Commands.{all_digits}
use onesti_lock.Integration.PinRules.{Capabilities, is_valid_pin}
use onesti_lock.Integration.PinRules.Limits.{is_valid_pin_shape}
use onesti_lock.Integration.Redact.{mask, masked, scan, redact_digits}

-- What the proofs need of `\d`: it matches the ASCII digits and does not match the mask.
pub record MatchesDigits (is_digit : ℕ → Bool) : Type 0 where
  pub ascii : (c : ℕ) → b'0' ≤ c → c ≤ b'9' → is_digit c ≡ true
  pub star : is_digit b'*' ≡ false

module _ (is_digit : ℕ → Bool) where
  -- No run of digits is longer than three, where n digits stand before the text.
  unfoldable pub short_runs : ℕ → List ℕ → Bool
  short_runs n [] = true
  short_runs n (c ∷ cs) =
      let longer = short_runs (suc n) cs in
      let fresh = short_runs 0 cs in if is_digit c then ltb n 3 && longer else fresh

  abbrev all_match : List ℕ → Bool
  all_match [] = true
  all_match (c ∷ cs) = is_digit c && all_match cs

  short_runs-append_run :
      (run ys : List ℕ) (n : ℕ)
      → all_match run ≡ true
      → n + length run ≤ 3
      → short_runs n (run ++ ys) ≡ short_runs (n + length run) ys
  short_runs-append_run [] ys n d h = let e : n ≡ n + 0 = omega arith in ap (λ k. short_runs k ys) e
  short_runs-append_run (c ∷ cs) ys n d h =
      let e : suc n + length cs ≡ n + suc (length cs) = omega arith in
      step
      ∙ short_runs-append_run cs ys (suc n) (ground arith) (omega arith)
      ∙ ap (λ k. short_runs k ys) e
    where
      step : short_runs n (c ∷ (cs ++ ys)) ≡ short_runs (suc n) (cs ++ ys)
      step = unfold short_runs in ground arith

  short_runs-mask :
      (ys : List ℕ) (n : ℕ) → is_digit b'*' ≡ false → short_runs n (mask ++ ys) ≡ short_runs 0 ys
  unfolding short_runs
  short_runs-mask ys n star = rw star

  -- Behind a run that is over, its length does not matter.
  short_runs-masked :
      (run : List ℕ) (ys : List ℕ)
      → is_digit b'*' ≡ false
      → all_match run ≡ true
      → ((n : ℕ) → short_runs n ys ≡ true)
      → short_runs 0 (masked is_digit run ++ ys) ≡ true
  short_runs-masked run ys star d rest = elim (Bool-cases (leb 4 (length run))) [
    | inl long ↦ rw long (short_runs-mask ys 0 star ∙ rest 0)
    | inr short ↦ rw short (short_runs-append_run run ys 0 d (ground arith) ∙ rest (0 + length run))
  ]

  all_match-append :
      (run : List ℕ) (c : ℕ)
      → all_match run ≡ true
      → is_digit c ≡ true
      → all_match (run ++ c ∷ []) ≡ true
  all_match-append [] c d e = rw e
  all_match-append (b ∷ bs) c d e =
      ground (arith, λ (h : all_match bs ≡ true). all_match-append bs c h e)

  short_runs_plain :
      (c : ℕ) (ys : List ℕ)
      → is_digit c ≡ false
      → short_runs 0 ys ≡ true
      → (n : ℕ) → short_runs n (c ∷ ys) ≡ true
  unfolding short_runs
  short_runs_plain c ys plain h n = rw plain h

  scan-short_runs :
      (text run : List ℕ)
      → is_digit b'*' ≡ false
      → all_match run ≡ true
      → short_runs 0 (scan is_digit run text) ≡ true
  unfolding scan
  scan-short_runs [] run star d =
      ap (short_runs 0) (sym (append-nil (masked is_digit run)))
      ∙ short_runs-masked run [] star d (λ n. unfold short_runs in refl)
  scan-short_runs (c ∷ cs) run star d = elim (Bool-cases (is_digit c)) [
    | inl digit ↦
        rw digit (scan-short_runs cs (run ++ c ∷ []) star (all_match-append run c d digit))
    | inr plain ↦ rw plain (
        short_runs-masked run (c ∷ scan is_digit [] cs) star d
          (short_runs_plain c (scan is_digit [] cs) plain (scan-short_runs cs [] star refl)))
  ]

  -- The tail of a text with short runs has short runs, with some digits before it.
  short_runs-suffix :
      (pre ys : List ℕ) (n : ℕ)
      → short_runs n (pre ++ ys) ≡ true
      → (m : ℕ) × (short_runs m ys ≡ true)
  short_runs-suffix [] ys n h = (n, h)
  short_runs-suffix (c ∷ cs) ys n h = elim (Bool-cases (is_digit c)) [
    | inl digit ↦ short_runs-suffix cs ys (suc n) (unfold short_runs in ground arith)
    | inr plain ↦ short_runs-suffix cs ys 0 (unfold short_runs in ground arith)
  ]

  -- A run of more than three digits is not short, whatever follows it.
  long_run :
      (code ys : List ℕ) (n : ℕ)
      → all_match code ≡ true
      → 0 < length code
      → 4 ≤ n + length code
      → short_runs n (code ++ ys) ≡ false
  unfolding short_runs
  long_run [] ys n d some_digit h = absurd (omega arith)
  long_run (c ∷ []) ys n d some_digit h = ground arith
  long_run (c ∷ c' ∷ cs) ys n d some_digit h =
      let later : short_runs (suc n) ((c' ∷ cs) ++ ys) ≡ false =
        long_run (c' ∷ cs) ys (suc n) (ground arith) (omega arith) (omega arith) in
      ground arith

  -- A text with short runs is left as it is.
  scan_short :
      (text run : List ℕ)
      → length run ≤ 3
      → short_runs (length run) text ≡ true
      → scan is_digit run text ≡ run ++ text
  unfolding scan short_runs
  scan_short [] run h s = ground (arith, append-nil run)
  scan_short (c ∷ cs) run h s = elim (Bool-cases (is_digit c)) [
    | inl digit ↦
        let longer : length (run ++ c ∷ []) ≡ suc (length run) =
          omega (arith, length-append run (c ∷ [])) in
        rw digit (
          scan_short cs (run ++ c ∷ []) (ground arith) (rw longer (ground arith))
          ∙ append_assoc run (c ∷ []) cs)
    | inr plain ↦ rw plain (ground (arith, scan_short cs [] (omega arith) (ground arith)))
  ]

all_digits-all_match :
    (is_digit : ℕ → Bool) (code : List ℕ)
    → MatchesDigits is_digit
    → all_digits code ≡ true
    → all_match is_digit code ≡ true
unfolding all_digits
all_digits-all_match is_digit [] m d = refl
all_digits-all_match is_digit (c ∷ cs) m d =
    ground (arith, m.ascii c, λ (h : all_digits cs ≡ true). all_digits-all_match is_digit cs m h)

-- No code that a lock takes stands anywhere in a masked text, whatever the text was.
pub redact_digits-hides_pin :
    (is_digit : ℕ → Bool) (text code : List ℕ) (caps : Capabilities) (pre post : List ℕ)
    → MatchesDigits is_digit
    → is_valid_pin code caps ≡ true
    → redact_digits is_digit text ≢ pre ++ (code ++ post)
unfolding redact_digits
redact_digits-hides_pin is_digit text code caps pre post m valid e =
    let (long, short, digits) = is_valid_pin_shape code caps valid in
    let masked_short : short_runs is_digit 0 (pre ++ (code ++ post)) ≡ true =
      ap (short_runs is_digit 0) (sym e) ∙ scan-short_runs is_digit text [] m.star refl in
    let (n, there) = short_runs-suffix is_digit pre (code ++ post) 0 masked_short in
    cc (
      there,
      long_run is_digit code post n (all_digits-all_match is_digit code m digits) (omega arith)
          (omega arith),
    )

-- A text with no run of more than three digits is left as it is, so masking twice is masking once.
pub redact_digits_short :
    (is_digit : ℕ → Bool) (text : List ℕ)
    → short_runs is_digit 0 text ≡ true
    → redact_digits is_digit text ≡ text
unfolding redact_digits
redact_digits_short is_digit text h = scan_short is_digit text [] (omega arith) h

pub redact_digits_idem :
    (is_digit : ℕ → Bool) (text : List ℕ)
    → MatchesDigits is_digit
    → redact_digits is_digit (redact_digits is_digit text) ≡ redact_digits is_digit text
redact_digits_idem is_digit text m =
    redact_digits_short is_digit (redact_digits is_digit text)
      (unfold redact_digits in scan-short_runs is_digit text [] m.star refl)
