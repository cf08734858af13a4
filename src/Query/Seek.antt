-- ===== src/Query/Seek.antt =====
-- tsdb_seek_start is a lower bound: the first retained record at or after the start time.
use native.Mathlib.Nat.{mod-add-mod, mod-lt}
use esp_tsdb.Prelude.{
  ℕ, zero, suc, ◌+◌, ◌-◌, ◌/◌, ◌%◌, ◌≤◌, ◌<◌, ◌≡◌, ◌≢◌, inl, inr, arith, refl, ◌∙◌, ltb, Bool-cases,
  if◌then◌else◌, true, false, some, ltb→lt, ◌==◌, ==_iff,
}
use esp_tsdb.Bytes.{Mem, from_offset, get32}
use esp_tsdb.Format.{Header, u32, add32, block_ts}
use esp_tsdb.Storage.{File}
use esp_tsdb.Handle.{Handle}
use esp_tsdb.Ring.{Row, History, Holds, Rep, available, slot_of, block_start}
use esp_tsdb.Ring.Frame.{read_block-Holds}
use esp_tsdb.Query.{
  before, reached, classify_probe, probe, seek_loop, seek_start, slot_at, first_slot,
  available_records,
}

-- The number of the oldest retained record.
abbrev pub oldest_number : Header → ℕ
oldest_number h = h.total_records - available h

-- A database of retained records with timestamps that are not 0 and do not descend.
pub record Series (db : Handle) (hist : History) : Type 0 where
  pub rep : Rep db.header db.file hist
  pub small : db.header.max_records ≤ 2147483648
  pub counts : db.header.total_records < u32
  pub nonzero :
      (i : ℕ) → oldest_number db.header ≤ i → i < db.header.total_records → (hist i).ts ≢ 0
  pub ascending :
      (i j : ℕ)
      → oldest_number db.header ≤ i
      → i ≤ j
      → j < db.header.total_records
      → (hist i).ts ≤ (hist j).ts

pub available_lem : (h : Header) → available_records h ≡ available h
unfolding available_records available
available_lem h = refl

pub available-le : (h : Header) → available h ≤ h.total_records
unfolding available
available-le h = ground arith

pub available-le-max : (h : Header) → h.max_records ≢ 0 → available h ≤ h.max_records
unfolding available
available-le-max h ne = ground arith

pub available-unlimited : (h : Header) → h.max_records ≡ 0 → available h ≡ h.total_records
unfolding available
available-unlimited h e = ground arith

wrapped : (o n m k : ℕ) → 0 < m → m ≤ 2147483648 → k ≤ m → o ≡ n % m → add32 o k % m ≡ (n + k) % m
wrapped o n m k pos small le e =
    let lt : o < m = rw e (mod-lt n pos) in
    let a : add32 o k ≡ n % m + k = omega arith in rw (a, mod-add-mod) refl

-- The cursor's slots are those of the records, the oldest first.
pub slot_at-Rep :
    (h : Header) (f : File) (hist : History) (k : ℕ)
    → Rep h f hist
    → h.max_records ≤ 2147483648
    → k ≤ available h
    → slot_at h (first_slot h) k ≡ slot_of h (oldest_number h + k)
unfolding slot_at first_slot slot_of
slot_at-Rep h f hist k v small le = elim (Bool-cases (h.max_records == 0)) [
  | inl e ↦ rw e (
      let z = (==_iff h.max_records 0).0 e in
      omega (arith, available-unlimited h z, available-le h))
  | inr e ↦ rw e (
      let nz : h.max_records ≢ 0 = ground arith in
      wrapped h.oldest_record_idx (oldest_number h) h.max_records k (omega arith) small
        (omega (arith, available-le-max h nz)) v.oldest)
]

-- The block and the cell of a retained record.
pub retained-Rep :
    (h : Header) (f : File) (hist : History) (k : ℕ)
    → Rep h f hist
    → h.max_records ≤ 2147483648
    → k < available h
    → Holds h f (slot_at h (first_slot h) k) (hist (oldest_number h + k))
retained-Rep h f hist k v small lt =
    rw (slot_at-Rep h f hist k v small (omega arith))
      (v.rows (oldest_number h + k) (omega (arith, available-le h)) (omega (arith, available-le h)))

pub retained :
    (db : Handle) (hist : History) (k : ℕ)
    → Series db hist
    → k < available db.header
    → Holds db.header db.file
        (slot_at db.header (first_slot db.header) k)
        (hist (oldest_number db.header + k))
retained db hist k v lt = retained-Rep db.header db.file hist k v.rep v.small lt

pub get32-shift : (m : Mem) (o q : ℕ) → get32 (from_offset m o) q ≡ get32 m (o + q)
unfolding get32
get32-shift m o q =
    let a : o + (q + 1) ≡ o + q + 1 = omega arith in
    let b : o + (q + 2) ≡ o + q + 2 = omega arith in
    let c : o + (q + 3) ≡ o + q + 3 = omega arith in rw (a, b, c) refl

pub block_ts-Holds :
    (h : Header) (f : File) (s : ℕ) (row : Row)
    → Holds h f s row
    → block_ts
        (from_offset f.bytes (block_start h (s / h.records_per_block)))
        (s % h.records_per_block)
      ≡ row.ts
unfolding block_ts
block_ts-Holds h f s row v = get32-shift f.bytes _ _ ∙ v.stamped

classify_probe_lem :
    (t start_time : ℕ)
    → t ≢ 0
    → classify_probe t start_time ≡ (if ltb t start_time then before else reached)
unfolding classify_probe
classify_probe_lem t start_time ne = ground arith

-- A probe finds out how the record's timestamp lies to the start time.
probe-Holds :
    (db : Handle) (s : ℕ) (row : Row) (start_time : ℕ)
    → Holds db.header db.file s row
    → row.ts ≢ 0
    → probe db db.header start_time s ≡ (if ltb row.ts start_time then before else reached)
unfolding probe
probe-Holds db s row start_time held ne =
    rw (read_block-Holds db s row held, probe, block_ts-Holds db.header db.file s row held)
      (classify_probe_lem row.ts start_time ne)

probe-retained :
    (db : Handle) (hist : History) (k start_time : ℕ)
    → Series db hist
    → k < available db.header
    → probe db db.header start_time (slot_at db.header (first_slot db.header) k)
      ≡ (if ltb (hist (oldest_number db.header + k)).ts start_time then before else reached)
probe-retained db hist k start_time v lt =
    probe-Holds db _ (hist (oldest_number db.header + k)) start_time (retained db hist k v lt)
      (v.nonzero _ (omega arith) (omega (arith, available-le db.header)))

-- The moves of the search.
seek_before :
    (fuel : ℕ) (db : Handle) (h : Header) (s first lo hi : ℕ)
    → ltb lo hi ≡ true
    → probe db h s (slot_at h first (lo + (hi - lo) / 2)) ≡ before
    → seek_loop (suc fuel) db h s first lo hi
      ≡ seek_loop fuel db h s first (lo + (hi - lo) / 2 + 1) hi
unfolding seek_loop
seek_before fuel db h s first lo hi e p = rw (e, p, seek_loop) refl

seek_reached :
    (fuel : ℕ) (db : Handle) (h : Header) (s first lo hi : ℕ)
    → ltb lo hi ≡ true
    → probe db h s (slot_at h first (lo + (hi - lo) / 2)) ≡ reached
    → seek_loop (suc fuel) db h s first lo hi ≡ seek_loop fuel db h s first lo (lo + (hi - lo) / 2)
unfolding seek_loop
seek_reached fuel db h s first lo hi e p = rw (e, p, seek_loop) refl

seek_done :
    (fuel : ℕ) (db : Handle) (h : Header) (s first lo hi : ℕ)
    → ltb lo hi ≡ false
    → seek_loop (suc fuel) db h s first lo hi ≡ some lo
unfolding seek_loop
seek_done fuel db h s first lo hi e = rw (e, seek_loop) refl

module _ (db : Handle) (hist : History) (start_time : ℕ) (v : Series db hist) where
  abbrev ts_at : ℕ → ℕ
  ts_at k = (hist (oldest_number db.header + k)).ts

  ts_at-le : (i j : ℕ) → i ≤ j → j < available db.header → ts_at i ≤ ts_at j
  ts_at-le i j le lt =
      v.ascending _ _ (omega arith) (omega arith) (omega (arith, available-le db.header))

  -- Every record before position `k` is before the start time, and that at `k` is not.
  abbrev pub IsLowerBound : ℕ → Type 0
  IsLowerBound k =
      (k ≤ available db.header)
      × ((j : ℕ) → j < k → ts_at j < start_time)
      × ((j : ℕ) → k ≤ j → j < available db.header → start_time ≤ ts_at j)

  seek_loop-IsLowerBound :
      (fuel lo hi : ℕ)
      → hi < lo + fuel
      → lo ≤ hi
      → hi ≤ available db.header
      → ((j : ℕ) → j < lo → ts_at j < start_time)
      → ((j : ℕ) → hi ≤ j → j < available db.header → start_time ≤ ts_at j)
      → (k : ℕ) × (seek_loop fuel db db.header start_time (first_slot db.header) lo hi ≡ some k)
        × IsLowerBound k
  seek_loop-IsLowerBound zero lo hi f le top below above = absurd (omega arith)
  seek_loop-IsLowerBound (suc fuel) lo hi f le top below above = elim (Bool-cases (ltb lo hi)) [
    | inr e ↦ (
      lo,
      seek_done fuel db db.header start_time _ lo hi e,
      (omega arith, below, λ j a b. above j (ground arith) b),
    )
    | inl e ↦
        let mid = lo + (hi - lo) / 2 in
        let lt : lo < hi = ltb→lt lo hi e in
        let lm : mid < hi = omega arith in
        let p = probe-retained db hist mid start_time v (omega arith) in
        elim (Bool-cases (ltb (ts_at mid) start_time)) [
          | inl older ↦
              let p' : probe db db.header start_time (slot_at db.header (first_slot db.header) mid)
                  ≡ before =
                rw (p, older) refl in
              let (k, eq, b) =
                seek_loop-IsLowerBound fuel (mid + 1) hi (omega arith) (omega arith) top
                  (λ j a.
                    omega (arith, ltb→lt _ _ older, ts_at-le j mid (omega arith) (omega arith)))
                  above in
              (k, seek_before fuel db db.header start_time _ lo hi e p' ∙ eq, b)
          | inr newer ↦
              let p' : probe db db.header start_time (slot_at db.header (first_slot db.header) mid)
                  ≡ reached =
                rw (p, newer) refl in
              let ge : start_time ≤ ts_at mid = ground arith in
              let (k, eq, b) =
                seek_loop-IsLowerBound fuel lo mid (omega arith) (omega arith) (omega arith) below
                  (λ j a b. omega (arith, ge, ts_at-le mid j a b)) in
              (k, seek_reached fuel db db.header start_time _ lo hi e p' ∙ eq, b)
        ]
  ]

  -- tsdb_seek_start ends, on any database of retained records with timestamps that are not 0 and do
  -- not descend: it gives the position of the first record at or after the start time. All records
  -- before it are earlier, and all from it on are not.
  pub seek_start-IsLowerBound :
      (k : ℕ) × (seek_start db db.header start_time (available db.header) (first_slot db.header)
        ≡ some k)
      × IsLowerBound k
  unfolding seek_start
  seek_start-IsLowerBound =
      seek_loop-IsLowerBound (available db.header + 1) 0 (available db.header) (omega arith)
        (omega arith) (omega arith) (λ j lt. absurd (omega arith)) (λ j a b. absurd (omega arith))
