-- ===== src/Index/Search.antt =====
-- The search of the sparse index finds the last entry at or before a timestamp.
use esp_tsdb.Prelude.{
  ℕ, zero, suc, ◌+◌, ◌-◌, ◌/◌, ◌≤◌, ◌<◌, ◌≡◌, ◌≢◌, ◌⊎◌, inl, inr, arith, refl, ◌∙◌, true, false,
  ltb, ◌==◌, Bool-cases, some, ltb→lt,
}
use esp_tsdb.Format.{Header, esp_ok}
use esp_tsdb.Storage.{File}
use esp_tsdb.Index.{
  Entry, read_entry, go_left, exact, go_right, turn, search_loop, find_block_for_timestamp,
}

-- What the index of a file holds: `n` entries, the used ones first and in the order of their
-- timestamps, the others 0.
pub record IsIndex (f : File) (h : Header) (entries : ℕ → Entry) : Type 0 where
  pub reads : (i : ℕ) → i < h.index_entries → read_entry f h i ≡ some (entries i)
  pub ordered :
      (i j : ℕ)
      → i < j
      → j < h.index_entries
      → (entries j).0 ≢ 0
      → ((entries i).0 ≢ 0) × ((entries i).0 < (entries j).0)

-- An entry that is not used, or later than `t`.
abbrev pub IsLater : ℕ → Entry → Type 0
IsLater t e = (e.0 ≡ 0) ⊎ (t < e.0)

-- `block` is that of the last used entry at or before `t`, or 0 when there is none.
abbrev pub IsBest : (n t : ℕ) → (ℕ → Entry) → (block : ℕ) → Type 0
IsBest n t entries block =
    ((block ≡ 0) × ((j : ℕ) → j < n → IsLater t (entries j)))
    ⊎ ((i : ℕ) × (i < n)
        × ((entries i).0 ≢ 0)
        × ((entries i).0 ≤ t)
        × (block ≡ (entries i).1)
        × ((j : ℕ) → i < j → j < n → IsLater t (entries j)))

split_le : (i j : ℕ) → i ≤ j → (i ≡ j) ⊎ (i < j)
split_le i j le = ground arith

zero-cases : (n : ℕ) → (n ≡ 0) ⊎ (n ≢ 0)
zero-cases n = ground arith

turn-cases :
    (e t : ℕ)
    → ((turn e t ≡ go_left) × ((e ≡ 0) ⊎ (t < e)))
      ⊎ ((turn e t ≡ exact) × (e ≢ 0) × (e ≡ t))
      ⊎ ((turn e t ≡ go_right) × (e ≢ 0) × (e < t))
unfolding turn
turn-cases e t = ground arith

module _ (f : File) (h : Header) (t left right_next best : ℕ) where
  abbrev middle : ℕ
  middle = (left + (right_next - 1)) / 2

  search_end :
      (fuel : ℕ)
      → ltb left right_next ≡ false
      → search_loop (suc fuel) f h t left right_next best ≡ some best
  unfolding search_loop
  search_end fuel e = simp (e, search_loop) refl

  search_left :
      (fuel : ℕ) (e : Entry)
      → ltb left right_next ≡ true
      → read_entry f h middle ≡ some e
      → turn e.0 t ≡ go_left
      → search_loop (suc fuel) f h t left right_next best ≡ search_loop fuel f h t left middle best
  unfolding search_loop
  search_left fuel e lt r g = simp (lt, search_loop, r, g) refl

  search_exact :
      (fuel : ℕ) (e : Entry)
      → ltb left right_next ≡ true
      → read_entry f h middle ≡ some e
      → turn e.0 t ≡ exact
      → search_loop (suc fuel) f h t left right_next best ≡ some e.1
  unfolding search_loop
  search_exact fuel e lt r g = simp (lt, search_loop, r, g) refl

  search_right :
      (fuel : ℕ) (e : Entry)
      → ltb left right_next ≡ true
      → read_entry f h middle ≡ some e
      → turn e.0 t ≡ go_right
      → search_loop (suc fuel) f h t left right_next best
        ≡ search_loop fuel f h t (middle + 1) right_next e.1
  unfolding search_loop
  search_right fuel e lt r g = simp (lt, search_loop, r, g) refl

find_in_range :
    (f : File) (h : Header) (t block : ℕ)
    → 0 < h.index_entries
    → 0 < h.records_per_block
    → h.oldest_timestamp ≤ t
    → t ≤ h.newest_timestamp
    → search_loop (h.index_entries + 1) f h t 0 h.index_entries 0 ≡ some block
    → find_block_for_timestamp f h t ≡ (esp_ok, block)
unfolding find_block_for_timestamp
find_in_range f h t block some_entry rpb lo hi e =
    let a : (h.index_entries == 0) ≡ false = ground arith in
    let b : (h.records_per_block == 0) ≡ false = ground arith in
    let c : ltb t h.oldest_timestamp ≡ false = ground arith in
    let d : ltb h.newest_timestamp t ≡ false = ground arith in
    simp (a, b, c, d, find_block_for_timestamp, e) refl

module _ (f : File) (h : Header) (entries : ℕ → Entry) (t : ℕ) (v : IsIndex f h entries) where
  -- The candidate: the entry before `left`, if there is one.
  abbrev Candidate : (left best : ℕ) → Type 0
  Candidate left best =
      ((left ≡ 0) × (best ≡ 0))
      ⊎ ((i : ℕ) × (left ≡ i + 1)
          × ((entries i).0 ≢ 0)
          × ((entries i).0 ≤ t)
          × (best ≡ (entries i).1))

  IsLater-from :
      (i j : ℕ) → i ≤ j → j < h.index_entries → IsLater t (entries i) → IsLater t (entries j)
  IsLater-from i j le lt l = elim (split_le i j le) [
    | inl e ↦ rw (← e) l
    | inr less ↦ elim (zero-cases (entries j).0) [
      | inl z ↦ inl z
      | inr nz ↦ inr (
          let (u, a) = v.ordered i j less lt nz in
          elim l [ inl z ↦ absurd (u z) | inr b ↦ omega (arith, a, b) ])
    ]
  ]

  -- What follows an entry at `t` is later.
  IsLater-after :
      (i j : ℕ) → i < j → j < h.index_entries → (entries i).0 ≡ t → IsLater t (entries j)
  IsLater-after i j less lt e = elim (zero-cases (entries j).0) [
    | inl z ↦ inl z
    | inr nz ↦ inr (omega (arith, (v.ordered i j less lt nz).1, e))
  ]

  IsBest-of :
      (left best : ℕ)
      → left ≤ h.index_entries
      → Candidate left best
      → ((j : ℕ) → left ≤ j → j < h.index_entries → IsLater t (entries j))
      → IsBest h.index_entries t entries best
  IsBest-of left best le (inl (z, b)) later = inl (b, λ j lt. later j (omega arith) lt)
  IsBest-of left best le (inr (i, e, u, b, c)) later =
      inr (i, omega arith, u, b, c, λ j a lt. later j (omega arith) lt)

  pub search_loop-IsBest :
      (fuel left right_next best : ℕ)
      → right_next < left + fuel
      → left ≤ right_next
      → right_next ≤ h.index_entries
      → Candidate left best
      → ((j : ℕ) → right_next ≤ j → j < h.index_entries → IsLater t (entries j))
      → (block : ℕ) × (search_loop fuel f h t left right_next best ≡ some block)
        × IsBest h.index_entries t entries block
  search_loop-IsBest zero left r best fu le top c later = absurd (omega arith)
  search_loop-IsBest (suc fuel) left r best fu le top c later = elim (Bool-cases (ltb left r)) [
    | inr e ↦ (
      best,
      search_end f h t left r best fuel e,
      IsBest-of left best (omega arith) c (λ j a lt. later j (ground arith) lt),
    )
    | inl e ↦
        let lt : left < r = ltb→lt left r e in
        let m = middle f h t left r best in
        let rd = v.reads m (omega arith) in
        elim (turn-cases (entries m).0 t) [
          | inl (g, l) ↦
              let (b, eq, ok) =
                search_loop-IsBest fuel left m best (omega arith) (omega arith) (omega arith) c
                  (λ j a k. IsLater-from m j a k l) in
              (b, search_left f h t left r best fuel (entries m) e rd g ∙ eq, ok)
          | inr (inl (g, u, eq)) ↦ (
            (entries m).1,
            search_exact f h t left r best fuel (entries m) e rd g,
            inr (m, omega arith, u, omega (arith, eq), refl, λ j a k. IsLater-after m j a k eq),
          )
          | inr (inr (g, u, less)) ↦
              let (b, eq, ok) =
                search_loop-IsBest fuel (m + 1) r (entries m).1 (omega arith) (omega arith) top
                  (inr (m, refl, u, omega (arith, less), refl)) later in
              (b, search_right f h t left r best fuel (entries m) e rd g ∙ eq, ok)
        ]
  ]

  -- tsdb_find_block_for_timestamp of a timestamp within the database's own range ends with ESP_OK
  -- and the block of the last index entry at or before it, or block 0 when all are later. This is
  -- for an index whose entries can be read, the used ones first and in the order of their
  -- timestamps.
  pub find_block_for_timestamp-IsBest :
      0 < h.index_entries
      → 0 < h.records_per_block
      → h.oldest_timestamp ≤ t
      → t ≤ h.newest_timestamp
      → (block : ℕ) × (find_block_for_timestamp f h t ≡ (esp_ok, block))
        × IsBest h.index_entries t entries block
  find_block_for_timestamp-IsBest some_entry rpb lo hi =
      let (b, eq, ok) =
        search_loop-IsBest (h.index_entries + 1) 0 h.index_entries 0 (omega arith) (omega arith)
          (omega arith) (inl (refl, refl)) (λ j a lt. absurd (omega arith)) in
      (b, find_in_range f h t b some_entry rpb lo hi eq, ok)
