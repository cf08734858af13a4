-- ===== src/Ring/Append.antt =====
-- One more record: the slot arithmetic of a write, with and without an eviction.
use native.Mathlib.Nat.{mod-eq_of_lt, mod-add-mod, mod-lt}
use native.Mathlib.Decide.{ℕ_discrete}
use esp_tsdb.Prelude.{
  ℕ, ◌+◌, ◌-◌, ◌%◌, ◌≤◌, ◌<◌, ◌≡◌, ◌≢◌, ◌⊎◌, inl, inr, arith, refl, ◌∙◌, ap, if◌then◌else◌, false,
  Bool-cases,
}
use esp_tsdb.Format.{Header, u32, add32}
use esp_tsdb.Storage.{File}
use esp_tsdb.Write.{record_idx, is_eviction, evict, count_record}
use esp_tsdb.Ring.{Row, History, append, Holds, Rep, available, slot_of}
use esp_tsdb.Ring.Keep.{Holds-cong, linear}

-- Fewer than `m` steps round the ring do not come back to the same slot.
pub mod_ne : (i j m : ℕ) → i < j → j < i + m → i % m ≢ j % m
mod_ne i j m lt near e = grind arith

append_self : (hist : History) (n i : ℕ) (row : Row) → i ≡ n → append hist n row i ≡ row
append_self hist n i row e = ground arith

append_ne : (hist : History) (n i : ℕ) (row : Row) → i ≢ n → append hist n row i ≡ hist i
append_ne hist n i row ne = ground arith

pub record_idx-slot_of : (h : Header) → record_idx h ≡ slot_of h h.total_records
unfolding record_idx slot_of
record_idx-slot_of h = refl

-- After a record that evicts nothing all records are still there.
grown :
    (h : Header) (ts : ℕ)
    → h.total_records + 1 < u32
    → (h.max_records ≡ 0) ⊎ (h.total_records < h.max_records)
    → available (count_record h (record_idx h) ts) ≡ h.total_records + 1
unfolding available count_record
grown h ts lt grows = ground arith

evicted :
    (h : Header) (ts : ℕ)
    → h.total_records + 1 < u32
    → 0 < h.max_records
    → h.max_records ≤ h.total_records
    → (available h ≡ h.max_records)
      × (available (count_record (evict h) (record_idx h) ts) ≡ h.max_records)
unfolding available count_record evict
evicted h ts lt pos le = ground arith

pub slot_ne_growing :
    (h : Header) (i : ℕ)
    → (h.max_records ≡ 0) ⊎ (h.total_records < h.max_records)
    → i < h.total_records
    → slot_of h i ≢ slot_of h h.total_records
unfolding slot_of
slot_ne_growing h i grows lt = ground (
  arith,
  mod-eq_of_lt {n = i} {m = h.max_records},
  mod-eq_of_lt {n = h.total_records} {m = h.max_records},
)

slot_ne_evicting :
    (h : Header) (i : ℕ)
    → 0 < h.max_records
    → i < h.total_records
    → h.total_records < i + h.max_records
    → slot_of h i ≢ slot_of h h.total_records
unfolding slot_of
slot_ne_evicting h i pos lt near = ground (arith, mod_ne i h.total_records h.max_records lt near)

-- The oldest slot moves on by one.
oldest_step :
    (o t m : ℕ) → 0 < m → m ≤ t → m < u32 → o ≡ (t - m) % m → add32 o 1 % m ≡ (t + 1 - m) % m
oldest_step o t m pos le small e =
    let lt : o < m = rw e (mod-lt (t - m) pos) in
    let a : add32 o 1 ≡ (t - m) % m + 1 = omega arith in
    rw (a, mod-add-mod) (ap (λ k. k % m) (let b : t - m + 1 ≡ t + 1 - m = omega arith in b))

-- The header after a stored record, before the timestamps are refreshed.
abbrev pub next_header : Header → ℕ → Header
next_header h ts = count_record (if is_eviction h then evict h else h) (record_idx h) ts

module _ (h : Header) (f f' : File) (hist : History) (row : Row) (ts : ℕ) (v : Rep h f hist)
    (keeps : (s : ℕ) (r : Row) → s ≢ record_idx h → Holds h f s r → Holds h f' s r)
    (new : Holds h f' (record_idx h) row) (no_wrap : h.total_records + 1 < u32)
    (max_small : h.max_records < u32) where
  growing :
      (h.max_records ≡ 0) ⊎ (h.total_records < h.max_records)
      → is_eviction h ≡ false
      → Rep (count_record h (record_idx h) ts) f' (append hist h.total_records row)
  unfolding count_record record_idx slot_of
  growing grows e = record {
    geometry = record {
      rpb_pos = v.geometry.rpb_pos;
      rpb_small = v.geometry.rpb_small;
      columns_fit = v.geometry.columns_fit;
      header_below = v.geometry.header_below;
    };
    oldest = rw (grown h ts no_wrap grows) (grind (arith, v.oldest, (linear h 0 grows).0));
    rows = λ i lo hi. elim (ℕ_discrete i h.total_records) [
      | yes e ↦
          rw (append_self hist h.total_records i row e, e, ← record_idx-slot_of h)
            (Holds-cong h (count_record h (record_idx h) ts) f' (record_idx h) row refl refl refl
              new)
      | no ne ↦ rw (append_ne hist h.total_records i row ne) (
          Holds-cong h (count_record h (record_idx h) ts) f' (slot_of h i) (hist i) refl refl refl (
            keeps (slot_of h i) (hist i)
              (rw (record_idx-slot_of h) (slot_ne_growing h i grows (omega arith)))
              (v.rows i (omega (arith, (linear h 0 grows).0)) (omega arith))))
    ];
  }

  evicting :
      0 < h.max_records
      → h.max_records ≤ h.total_records
      → Rep (count_record (evict h) (record_idx h) ts) f' (append hist h.total_records row)
  unfolding count_record evict record_idx slot_of
  evicting pos le = record {
    geometry = record {
      rpb_pos = v.geometry.rpb_pos;
      rpb_small = v.geometry.rpb_small;
      columns_fit = v.geometry.columns_fit;
      header_below = v.geometry.header_below;
    };
    oldest =
        rw
          (
            (evicted h ts no_wrap pos le).1,
            (let t : add32 h.total_records 1 ≡ h.total_records + 1 = omega arith in t),
          )
          (oldest_step h.oldest_record_idx h.total_records h.max_records pos le max_small (
            v.oldest
            ∙ ap (λ a. (h.total_records - a) % h.max_records) (evicted h ts no_wrap pos le).0));
    rows = λ i lo hi. elim (ℕ_discrete i h.total_records) [
      | yes e ↦
          rw (append_self hist h.total_records i row e, e, ← record_idx-slot_of h)
            (Holds-cong h h' f' (record_idx h) row refl refl refl new)
      | no ne ↦ rw (append_ne hist h.total_records i row ne) (
          Holds-cong h h' f' (slot_of h i) (hist i) refl refl refl (
            keeps (slot_of h i) (hist i)
              (rw (record_idx-slot_of h) (
                slot_ne_evicting h i pos (omega arith)
                  (omega (arith, evicted h ts no_wrap pos le))))
              (v.rows i (omega (arith, evicted h ts no_wrap pos le)) (omega arith))))
    ];
  }
    where
      h' : Header
      h' = count_record (evict h) (record_idx h) ts

  -- Whether the record evicts another or not, the ring then holds the newest records of the longer
  -- history.
  pub Rep-next_header : Rep (next_header h ts) f' (append hist h.total_records row)
  Rep-next_header = elim (Bool-cases (is_eviction h)) [
    | inl e ↦
        rw e (evicting (unfold is_eviction in ground arith) (unfold is_eviction in ground arith))
    | inr e ↦ rw e (growing (unfold is_eviction in ground arith) e)
  ]
