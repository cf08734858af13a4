-- ===== src/Query/Rounds.antt =====
-- The steps of tsdb_query_next: the cursor, the columns, and one round of its loop.
use native.Mathlib.Nat.{mod-add-mod, mod-lt}
use esp_tsdb.Prelude.{
  ℕ, suc, ◌+◌, ◌/◌, ◌%◌, ◌≤◌, ◌<◌, ◌≡◌, ◌≢◌, ◌⊎◌, arith, refl, ◌∙◌, ltb, if◌then◌else◌, Bool, true,
  false, some, ◌==◌, List, [], ◌∷◌, ◌&&◌,
}
use esp_tsdb.Bytes.{Mem, from_offset, get16}
use esp_tsdb.Format.{Header, add32, block_ts, block_param}
use esp_tsdb.Storage.{File}
use esp_tsdb.Handle.{Handle}
use esp_tsdb.Write.{Values, read_block}
use esp_tsdb.Ring.{Row, Holds, available, block_start}
use esp_tsdb.Query.{
  Query, place, load_current, advance, column, Verdict, skip, beyond, hit, verdict, found, ended,
  next_loop, query_next, drain, slot_at, first_slot,
}

-- The query's cursor is on the `k`-th record from the oldest on.
pub record At (db : Handle) (q : Query) (k : ℕ) : Type 0 where
  pub header : q.header ≡ db.header
  pub scanned : q.records_scanned ≡ k
  pub total : q.end_record_idx ≡ available db.header
  pub slot : q.current_record_idx ≡ slot_at db.header (first_slot db.header) k
  pub block : q.current_block_num ≡ q.current_record_idx / db.header.records_per_block
  pub offset : q.offset_in_block ≡ q.current_record_idx % db.header.records_per_block
  pub buffer :
      q.block_loaded ≡ true
      → q.block_buffer ≡ from_offset db.file.bytes (block_start db.header q.current_block_num)

-- The walk changes neither the range nor the parameters.
pub record SameAsk (q q' : Query) : Type 0 where
  pub start : q'.start_time ≡ q.start_time
  pub end_ : q'.end_time ≡ q.end_time
  pub indices : q'.param_indices ≡ q.param_indices

pub if_true {ℓ} : {A : Type ℓ} (b : Bool) (x y : A) → b ≡ true → (if b then x else y) ≡ x
if_true true x y e = refl
if_true false x y e = cc

pub if_false {ℓ} : {A : Type ℓ} (b : Bool) (x y : A) → b ≡ false → (if b then x else y) ≡ y
if_false true x y e = cc
if_false false x y e = refl

pub load_loaded : (db : Handle) (q : Query) → q.block_loaded ≡ true → load_current db q ≡ some q
unfolding load_current
load_loaded db q e = if_true q.block_loaded _ _ e

pub load_read :
    (db : Handle) (q : Query) (m : Mem)
    → q.block_loaded ≡ false
    → read_block db q.current_block_num ≡ some m
    → load_current db q ≡ some (record q { block_buffer = m; block_loaded = true })
unfolding load_current
load_read db q m e r = if_false q.block_loaded _ _ e ∙ (rw r refl)

pub column_base :
    (db : Handle) (q : Query) (p : ℕ)
    → ltb p q.header.num_params ≡ true
    → column db q p ≡ block_param q.block_buffer q.header.records_per_block p q.offset_in_block
unfolding column
column_base db q p e = if_true (ltb p q.header.num_params) _ _ e

pub column_none :
    (db : Handle) (q : Query) (p : ℕ)
    → ltb p q.header.num_params ≡ false
    → db.extra_param_count ≡ 0
    → column db q p ≡ 0
unfolding column
column_none db q p e none_extra = rw (e, none_extra, column) refl

pub get16-shift : (m : Mem) (o q : ℕ) → get16 (from_offset m o) q ≡ get16 m (o + q)
unfolding get16
get16-shift m o q = let a : o + (q + 1) ≡ o + q + 1 = omega arith in rw a refl

pub block_param-Holds :
    (h : Header) (f : File) (s p : ℕ) (row : Row)
    → Holds h f s row
    → p < h.num_params
    → block_param
        (from_offset f.bytes (block_start h (s / h.records_per_block)))
        h.records_per_block
        p
        (s % h.records_per_block)
      ≡ row.vals p
unfolding block_param
block_param-Holds h f s p row v lt = get16-shift f.bytes _ _ ∙ v.columns p lt

pub div_pos : (n d : ℕ) → 0 < d → (if d == 0 then 0 else n / d) ≡ n / d
div_pos n d pos = ground arith

pub mod_pos : (n d : ℕ) → 0 < d → (if d == 0 then 0 else n % d) ≡ n % d
mod_pos n d pos = ground arith

pub both : (a b : Bool) → (a && b) ≡ true → (a ≡ true) × (b ≡ true)
both a b e = ground arith

pub next_wrapped :
    (first k m : ℕ)
    → first < m
    → k < m
    → m ≤ 2147483648
    → add32 (add32 first k % m) 1 % m ≡ add32 first (k + 1) % m
next_wrapped first k m lt lk small =
    let lm : add32 first k % m < m = mod-lt (add32 first k) (omega arith) in
    let a : add32 (add32 first k % m) 1 ≡ add32 first k % m + 1 = omega arith in
    let b : add32 first k + 1 ≡ add32 first (k + 1) = omega arith in rw (a, mod-add-mod, b) refl

pub advance-SameAsk : (q : Query) → SameAsk q (advance q)
unfolding advance place
advance-SameAsk q = record { start = refl; end_ = refl; indices = refl }

pub SameAsk-trans : {q r t : Query} → SameAsk q r → SameAsk r t → SameAsk q t
SameAsk-trans a b = record {
  start = b.start ∙ a.start;
  end_ = b.end_ ∙ a.end_;
  indices = b.indices ∙ a.indices;
}

-- The rounds of the loop of tsdb_query_next.
module _ (n : ℕ) (db : Handle) (q q' : Query) (load : load_current db q ≡ some q') where
  abbrev pub met : Verdict
  met = verdict (block_ts q'.block_buffer q'.offset_in_block) q.start_time q.end_time

  pub next_skip : met ≡ skip → next_loop (suc n) db q ≡ next_loop n db (advance q')
  unfolding next_loop
  next_skip e = rw (load, e, next_loop) refl

  pub next_beyond : met ≡ beyond → next_loop (suc n) db q ≡ (ended, advance q')
  unfolding next_loop
  next_beyond e = rw (load, e, next_loop) refl

  pub next_hit :
      met ≡ hit
      → next_loop (suc n) db q ≡ (
        found
            (block_ts q'.block_buffer q'.offset_in_block)
            (λ i. column db q' (q'.param_indices i)),
        advance q',
      )
  unfolding next_loop
  next_hit e = rw (load, e, next_loop) refl

pub verdict-cases :
    (t start_time end_time : ℕ)
    → t ≢ 0
    → ((verdict t start_time end_time ≡ beyond) × (end_time < t))
      ⊎ ((verdict t start_time end_time ≡ skip) × (t < start_time) × (t ≤ end_time))
      ⊎ ((verdict t start_time end_time ≡ hit) × (start_time ≤ t) × (t ≤ end_time))
unfolding verdict
verdict-cases t start_time end_time ne = ground arith

pub drain_stop :
    (fuel : ℕ) (db : Handle) (q q' : Query)
    → query_next db q ≡ (ended, q')
    → drain (suc fuel) db q ≡ some []
unfolding drain
drain_stop fuel db q q' e = rw (e, drain) refl

pub drain_more :
    (fuel : ℕ) (db : Handle) (q q' : Query) (ts : ℕ) (vals : Values) (rest : List (ℕ × Values))
    → query_next db q ≡ (found ts vals, q')
    → drain fuel db q' ≡ some rest
    → drain (suc fuel) db q ≡ some ((ts, vals) ∷ rest)
unfolding drain
drain_more fuel db q q' ts vals rest e r = simp (e, drain, r) refl
