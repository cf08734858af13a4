-- ===== src/Ring/Cells.antt =====
-- The bytes of one record's cells in a block, and which stores leave them alone.
use esp_tsdb.Prelude.{
  ℕ, zero, suc, ◌+◌, ◌*◌, ◌≤◌, ◌<◌, ◌≡◌, ◌≢◌, ◌⊎◌, inl, inr, arith, refl, ◌∙◌, sym, ◌^◌,
}
use mathlib.Core.Path.{subst}
use native.Mathlib.Decide.{ℕ_discrete}
use esp_tsdb.Bytes.{Mem, get16, get32, put16, put32, le16, le32}
use esp_tsdb.Bytes.Laws.{Apart, blit_outside, get16-put16, get32-put32}
use esp_tsdb.Format.{
  Header, param_pos, ts_pos, block_ts, set_block_ts, set_block_param, set_block_count,
}
use esp_tsdb.Write.{Values, put_params, fill_block}

pub get16-same : (m m' : Mem) (q : ℕ) → m q ≡ m' q → m (q + 1) ≡ m' (q + 1) → get16 m q ≡ get16 m' q
unfolding get16
get16-same m m' q a b = omega arith

pub get32-same :
    (m m' : Mem) (q : ℕ) → ((i : ℕ) → i < 4 → m (q + i) ≡ m' (q + i)) → get32 m q ≡ get32 m' q
unfolding get32
get32-same m m' q h =
    let z : m q ≡ m' q =
      subst (λ k. m k ≡ m' k) (let e : q + 0 ≡ q = omega arith in e) (h 0 (omega arith)) in
    omega (arith, z, h 1 (omega arith), h 2 (omega arith), h 3 (omega arith))

-- Byte `x` of a block is in the tag, in the timestamp, or in a column of record `r`.
pub data Cell (rpb np r x : ℕ) : Type 0 where
  in_tag : x < 4 → Cell rpb np r x
  in_ts : 8 + r * 4 ≤ x → x < 8 + r * 4 + 4 → Cell rpb np r x
  in_param : (p : ℕ) → p < np → param_pos rpb p r ≤ x → x < param_pos rpb p r + 2 → Cell rpb np r x

below_row : (rpb p p' : ℕ) → p < p' → p * rpb + rpb ≤ p' * rpb
below_row rpb p p' h = grind arith

order : (p p' : ℕ) → (p < p') ⊎ (p ≡ p') ⊎ (p' < p)
order p p' = omega arith

-- Columns of different records do not meet.
pub param-Apart :
    (rpb p r p' r' : ℕ)
    → r < rpb
    → r' < rpb
    → r ≢ r'
    → Apart (param_pos rpb p r) 2 (param_pos rpb p' r') 2
unfolding param_pos
param-Apart rpb p r p' r' h h' ne = elim (order p p') [
  | inl a ↦ omega (arith, below_row rpb p p' a)
  | inr (inl e) ↦ rw e (omega arith)
  | inr (inr b) ↦ omega (arith, below_row rpb p' p b)
]

-- Nor do two columns of one record.
pub param-Apart_same :
    (rpb p r p' : ℕ) → r < rpb → p ≢ p' → Apart (param_pos rpb p r) 2 (param_pos rpb p' r) 2
unfolding param_pos
param-Apart_same rpb p r p' h ne = elim (order p p') [
  | inl a ↦ omega (arith, below_row rpb p p' a)
  | inr (inl e) ↦ absurd (ne e)
  | inr (inr b) ↦ omega (arith, below_row rpb p' p b)
]

pub param_inside :
    (rpb np p r : ℕ)
    → r < rpb
    → p < np
    → 8 + rpb * 4 + np * rpb * 2 ≤ 1024
    → param_pos rpb p r + 2 ≤ 1024
unfolding param_pos
param_inside rpb np p r h k fits = grind arith

pub param_above : (rpb p r : ℕ) → 8 + rpb * 4 ≤ param_pos rpb p r
unfolding param_pos
param_above rpb p r = omega arith

put_params-outside :
    (n i rpb off x : ℕ) (v : Values) (raw : Mem)
    → ((p : ℕ) → i ≤ p → p < i + n → Apart (param_pos rpb p off) 2 x 1)
    → put_params n i rpb off v raw x ≡ raw x
unfolding put_params set_block_param put16
put_params-outside zero i rpb off x v raw h = refl
put_params-outside (suc n) i rpb off x v raw h =
    put_params-outside n (i + 1) rpb off x v (set_block_param raw rpb i off (v i))
      (λ p lo hi. h p (omega arith) (omega arith))
    ∙ blit_outside raw (le16 (v i)) (param_pos rpb i off) 2 x (h i (omega arith) (omega arith))

put_params-get16 :
    (n i rpb off q : ℕ) (v : Values) (raw : Mem)
    → ((p : ℕ) → i ≤ p → p < i + n → Apart (param_pos rpb p off) 2 q 2)
    → get16 (put_params n i rpb off v raw) q ≡ get16 raw q
unfolding get16
put_params-get16 n i rpb off q v raw h = omega (
  arith,
  put_params-outside n i rpb off q v raw (λ p lo hi. omega (arith, h p lo hi)),
  put_params-outside n i rpb off (q + 1) v raw (λ p lo hi. omega (arith, h p lo hi)),
)

-- The loop over the columns leaves each with its value.
put_params-inside :
    (n i rpb off p : ℕ) (v : Values) (raw : Mem)
    → off < rpb
    → i ≤ p
    → p < i + n
    → v p < 2 ^ 16
    → get16 (put_params n i rpb off v raw) (param_pos rpb p off) ≡ v p
unfolding put_params set_block_param
put_params-inside zero i rpb off p v raw h lo hi small = absurd (omega arith)
put_params-inside (suc n) i rpb off p v raw h lo hi small = elim (ℕ_discrete p i) [
  | no ne ↦
      put_params-inside n (i + 1) rpb off p v (set_block_param raw rpb i off (v i)) h (omega arith)
        (omega arith) small
  | yes e ↦
      put_params-get16 n (i + 1) rpb off (param_pos rpb p off) v
        (set_block_param raw rpb i off (v i))
        (λ k a b. param-Apart_same rpb k off p h (omega arith))
      ∙ rw e (get16-put16 raw (param_pos rpb i off) (v i) (rw (← e) small))
]

module _ (h : Header) (off ts : ℕ) (v : Values) (raw : Mem) (lt : off < h.records_per_block) where
  abbrev columns : Mem
  columns = put_params h.num_params 0 h.records_per_block off v (set_block_ts raw off ts)

  -- The count takes two bytes.
  fill_count : (x : ℕ) → Apart 4 2 x 1 → fill_block h off ts v raw x ≡ columns x
  unfolding fill_block set_block_count put16
  fill_count x a = ground (arith, blit_outside columns (le16 (off + 1)) 4 2 x a)

  -- Filling record `off` leaves the cells of every other record of the block alone.
  pub fill_block-Cell :
      (r x : ℕ)
      → r < h.records_per_block
      → r ≢ off
      → Cell h.records_per_block h.num_params r x
      → fill_block h off ts v raw x ≡ raw x
  unfolding set_block_ts put32
  fill_block-Cell r x small ne c =
      fill_count x (count c)
      ∙ put_params-outside h.num_params 0 h.records_per_block off x v (set_block_ts raw off ts)
          (λ p lo hi. column p c)
      ∙ blit_outside raw (le32 ts) (ts_pos off) 4 x (stamp c)
    where
      above : (p k : ℕ) → 8 + h.records_per_block * 4 ≤ param_pos h.records_per_block p k
      above p k = param_above h.records_per_block p k

      count : Cell h.records_per_block h.num_params r x → Apart 4 2 x 1
      count (in_tag a) = omega arith
      count (in_ts a b) = omega arith
      count (in_param p k a b) = omega (arith, above p r)

      stamp : Cell h.records_per_block h.num_params r x → Apart (ts_pos off) 4 x 1
      stamp (in_tag a) = omega arith
      stamp (in_ts a b) = omega arith
      stamp (in_param p k a b) = omega (arith, above p r)

      column :
          (p : ℕ)
          → Cell h.records_per_block h.num_params r x
          → Apart (param_pos h.records_per_block p off) 2 x 1
      column p (in_tag a) = omega (arith, above p off)
      column p (in_ts a b) = omega (arith, above p off)
      column p (in_param j k a b) =
          omega (arith, param-Apart h.records_per_block p off j r lt small (λ e. ne (sym e)))

  pub fill_block-tag : (x : ℕ) → x < 4 → fill_block h off ts v raw x ≡ raw x
  unfolding set_block_ts put32
  fill_block-tag x small =
      fill_count x (omega arith)
      ∙ put_params-outside h.num_params 0 h.records_per_block off x v (set_block_ts raw off ts)
          (λ p lo hi. omega (arith, param_above h.records_per_block p off))
      ∙ blit_outside raw (le32 ts) (ts_pos off) 4 x (omega arith)

  pub fill_block-ts : ts < 2 ^ 32 → block_ts (fill_block h off ts v raw) off ≡ ts
  unfolding block_ts set_block_ts
  fill_block-ts small =
      get32-same (fill_block h off ts v raw) (put32 raw (ts_pos off) ts) (ts_pos off) (λ i k.
        fill_count (ts_pos off + i) (omega arith)
        ∙ put_params-outside h.num_params 0 h.records_per_block off (ts_pos off + i) v
            (set_block_ts raw off ts)
            (λ p lo hi. omega (arith, param_above h.records_per_block p off)))
      ∙ get32-put32 raw (ts_pos off) ts small

  pub fill_block-param :
      (p : ℕ)
      → p < h.num_params
      → v p < 2 ^ 16
      → get16 (fill_block h off ts v raw) (param_pos h.records_per_block p off) ≡ v p
  fill_block-param p k small =
      get16-same (fill_block h off ts v raw) columns (param_pos h.records_per_block p off)
        (fill_count _ (omega (arith, param_above h.records_per_block p off)))
        (fill_count _ (omega (arith, param_above h.records_per_block p off)))
      ∙ put_params-inside h.num_params 0 h.records_per_block off p v (set_block_ts raw off ts) lt
          (omega arith) (omega arith) small
