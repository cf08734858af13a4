-- ===== src/Query/Window.antt =====
-- What a range query is to give: the retained rows of a history whose timestamps are in the range.
use esp_tsdb.Prelude.{
  ℕ, zero, suc, ◌+◌, ◌≤◌, ◌<◌, ◌≡◌, ◌⊎◌, inl, inr, arith, refl, ◌∙◌, ltb, leb, ◌&&◌, if◌then◌else◌,
  Bool, List, [], ◌∷◌,
}
use esp_tsdb.Write.{Values}
use esp_tsdb.Ring.{Row, History}

-- The value that a caller gets for parameter `p` of a row.
abbrev pub value_of : (num_params : ℕ) → Row → ℕ → ℕ
value_of num_params row p = if ltb p num_params then row.vals p else 0

-- The record that a query gives for a row.
abbrev pub answer : (num_params : ℕ) → (ℕ → ℕ) → Row → ℕ × Values
answer num_params indices row = (row.ts, λ i. value_of num_params row (indices i))

abbrev pub in_range : ℕ → ℕ → ℕ → Bool
in_range start_time end_time ts = leb start_time ts && leb ts end_time

-- The answers for the `n` rows from number `i` on, those in range only, in their order.
unfoldable pub window :
    (start_time end_time num_params : ℕ) → (ℕ → ℕ) → History → (i n : ℕ) → List (ℕ × Values)
window s e np idx hist i zero = []
window s e np idx hist i (suc n) =
    let rest = window s e np idx hist (i + 1) n in
    if in_range s e (hist i).ts then answer np idx (hist i) ∷ rest else rest

module _ (s e np : ℕ) (idx : ℕ → ℕ) (hist : History) where
  abbrev win : ℕ → ℕ → List (ℕ × Values)
  win = window s e np idx hist

  pub window-in :
      (i n : ℕ)
      → s ≤ (hist i).ts
      → (hist i).ts ≤ e
      → win i (suc n) ≡ answer np idx (hist i) ∷ win (i + 1) n
  unfolding window
  window-in i n lo hi = ground arith

  pub window-out : (i n : ℕ) → ((hist i).ts < s) ⊎ (e < (hist i).ts) → win i (suc n) ≡ win (i + 1) n
  unfolding window
  window-out i n out = ground arith

  -- Past the end of the range there is nothing.
  pub window-beyond : (i n : ℕ) → ((j : ℕ) → i ≤ j → j < i + n → e < (hist j).ts) → win i n ≡ []
  unfolding window
  window-beyond i zero later = refl
  window-beyond i (suc n) later =
      window-out i n (inr (later i (omega arith) (omega arith)))
      ∙ window-beyond (i + 1) n (λ j lo hi. later j (omega arith) (omega arith))

  -- Rows before the range can be passed over.
  pub window-skip :
      (k i n : ℕ) → ((j : ℕ) → i ≤ j → j < i + k → (hist j).ts < s) → win i (k + n) ≡ win (i + k) n
  window-skip zero i n early =
      let a : 0 + n ≡ n = omega arith in let b : i + 0 ≡ i = omega arith in rw (a, b) refl
  window-skip (suc k) i n early =
      let a : suc k + n ≡ suc (k + n) = omega arith in
      let b : i + suc k ≡ i + 1 + k = omega arith in
      rw (a, b)
        (window-out i (k + n) (inl (early i (omega arith) (omega arith)))
          ∙ window-skip k (i + 1) n (λ j lo hi. early j (omega arith) (omega arith)))
