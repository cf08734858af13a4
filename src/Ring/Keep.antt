-- ===== src/Ring/Keep.antt =====
-- Changes of the header and of the file that keep every row.
use esp_tsdb.Prelude.{ℕ, ◌%◌, ◌≤◌, ◌<◌, ◌≡◌, ◌⊎◌, inl, inr, arith, refl, ◌∙◌, sym, Bool-cases}
use native.Mathlib.Nat.{mod-eq_of_lt}
use esp_tsdb.Bytes.{Mem}
use esp_tsdb.Format.{Header}
use esp_tsdb.Storage.{File, Outcome, write_item, is_done}
use esp_tsdb.Handle.{Handle}
use esp_tsdb.Format.Codec.{encode}
use esp_tsdb.Header.{write_header}
use esp_tsdb.Write.{persist_header, cap_capacity}
use esp_tsdb.Ring.{Row, History, Holds, Rep, available, slot_of, data_start}
use esp_tsdb.Ring.Frame.{Cell-lt, offset_lt, Holds-frame, bytes-write_item, size-write_item}

-- The fields that the meaning of the data region depends on.
pub record SameRing (g h : Header) : Type 0 where
  pub rpb : g.records_per_block ≡ h.records_per_block
  pub np : g.num_params ≡ h.num_params
  pub io : g.index_offset ≡ h.index_offset
  pub ie : g.index_entries ≡ h.index_entries
  pub max : g.max_records ≡ h.max_records
  pub total : g.total_records ≡ h.total_records
  pub oldest : g.oldest_record_idx ≡ h.oldest_record_idx

-- Whether a slot holds a row depends on the block geometry alone.
pub Holds-cong :
    (g h : Header) (f : File) (s : ℕ) (row : Row)
    → g.records_per_block ≡ h.records_per_block
    → g.num_params ≡ h.num_params
    → data_start g ≡ data_start h
    → Holds g f s row
    → Holds h f s row
Holds-cong g h f s row r n d v = record {
  inside = rw (← r) (omega (arith, v.inside));
  nowrap = rw (← r) (omega (arith, v.nowrap));
  tagged = rw (← r, ← d) v.tagged;
  stamped = rw (← r, ← d) v.stamped;
  columns = λ p k. rw (← r, ← d) (v.columns p (omega arith));
}

available-cong : (g h : Header) → SameRing g h → available g ≡ available h
unfolding available
available-cong g h e = rw (e.max, e.total)

slot_of-cong : (g h : Header) (i : ℕ) → SameRing g h → slot_of g i ≡ slot_of h i
unfolding slot_of
slot_of-cong g h i e = rw e.max

pub Rep-cong :
    (g h : Header) (f : File) (hist : History) → SameRing g h → Rep g f hist → Rep h f hist
Rep-cong g h f hist e v = record {
  geometry = record {
    rpb_pos = omega (arith, e.rpb, v.geometry.rpb_pos);
    rpb_small = omega (arith, e.rpb, v.geometry.rpb_small);
    columns_fit = rw (← e.rpb, ← e.np) v.geometry.columns_fit;
    header_below = omega (arith, e.io, e.ie, v.geometry.header_below);
  };
  oldest = rw (← available-cong g h e, ← e.oldest, ← e.total, ← e.max) v.oldest;
  rows = λ i lo hi. rw (← slot_of-cong g h i e) (
      Holds-cong g h f (slot_of g i) (hist i) e.rpb e.np (omega (arith, e.io, e.ie))
        (v.rows i (omega (arith, e.total, available-cong g h e)) (omega (arith, e.total))));
}

-- A file that keeps every byte from the data region on keeps the rows.
pub Rep-file :
    (h : Header) (f f' : File) (hist : History)
    → f.size ≤ f'.size
    → ((q : ℕ) → data_start h ≤ q → q < f.size → f'.bytes q ≡ f.bytes q)
    → Rep h f hist
    → Rep h f' hist
Rep-file h f f' hist le same v = record {
  geometry = v.geometry;
  oldest = v.oldest;
  rows = λ i lo hi.
      let held = v.rows i lo hi in
      Holds-frame h f f' (slot_of h i) (hist i) le
        (λ q x e c. same q (omega arith) (
          omega (
            arith,
            held.inside,
            Cell-lt h (slot_of h i % h.records_per_block) x v.geometry
                (offset_lt (slot_of h i) h.records_per_block v.geometry.rpb_pos) c,
          )))
        held;
}

-- A write that ends below the data region, whole or in part, keeps the rows.
pub Rep-write_below :
    (h : Header) (f : File) (hist : History) (n : ℕ) (src : Mem) (o : Outcome)
    → n ≤ data_start h
    → Rep h f hist
    → Rep h (write_item f 0 n src o) hist
Rep-write_below h f hist n src o le v =
    Rep-file h f (write_item f 0 n src o) hist (size-write_item f 0 n src o)
      (λ q lo hi. bytes-write_item f 0 n q src o hi (λ x lx e. absurd (omega arith))) v

-- Writing a header into the file, whole or in part, does not touch the data region.
pub Rep-write_header :
    (h g : Header) (f : File) (hist : History) (o : Outcome)
    → Rep h f hist
    → Rep h (write_header f g o).1 hist
unfolding write_header
Rep-write_header h g f hist o v =
    Rep-write_below h f hist 584 (encode g) o v.geometry.header_below v

pub Rep-persist_header :
    (db : Handle) (hist : History) (a b : Outcome)
    → Rep db.header db.file hist
    → Rep (persist_header db a b).header (persist_header db a b).file hist
unfolding persist_header
Rep-persist_header db hist a b v =
    let v1 = Rep-write_header db.header db.header db.file hist a v in
    let v2 = Rep-write_header db.header db.header (write_header db.file db.header a).1 hist b v1 in
    elim (Bool-cases (is_done a)) [ inl e ↦ rw e v1 | inr e ↦ rw e v2 ]

-- While the ring has not wrapped every record is retained, in the slot of its number.
pub linear :
    (h : Header) (i : ℕ)
    → (h.max_records ≡ 0) ⊎ (h.total_records < h.max_records)
    → (available h ≡ h.total_records) × (i < h.total_records → slot_of h i ≡ i)
unfolding available slot_of
linear h i grows = ground (arith, mod-eq_of_lt {n = i} {m = h.max_records})

pub full :
    (h : Header) (i : ℕ)
    → 0 < h.total_records
    → h.max_records ≡ h.total_records
    → (available h ≡ h.total_records) × (i < h.total_records → slot_of h i ≡ i)
unfolding available slot_of
full h i pos e = ground (arith, mod-eq_of_lt {n = i} {m = h.max_records})

-- Capping the capacity of a database that has not wrapped keeps its rows in their slots.
pub Rep-cap_capacity :
    (db : Handle) (hist : History)
    → 0 < db.header.total_records
    → (db.header.max_records ≡ 0) ⊎ (db.header.total_records < db.header.max_records)
    → Rep db.header db.file hist
    → Rep (cap_capacity db).header (cap_capacity db).file hist
unfolding cap_capacity
Rep-cap_capacity db hist pos grows v = record {
  geometry = record {
    rpb_pos = v.geometry.rpb_pos;
    rpb_small = v.geometry.rpb_small;
    columns_fit = v.geometry.columns_fit;
    header_below = v.geometry.header_below;
  };
  oldest = rw (all'.0) (oldest_zero ∙ sym (grind arith));
  rows = λ i lo hi.
      let same : slot_of h i ≡ slot_of h' i =
        (linear h i grows).1 hi ∙ sym ((full h' i pos refl).1 hi) in
      rw (← same) (
        Holds-cong h h' db.file (slot_of h i) (hist i) refl refl refl
          (v.rows i (omega (arith, (linear h i grows).0)) hi));
}
  where
    h : Header
    h = db.header

    h' : Header
    h' = record h { max_records = db.header.total_records }

    all' :
        (available h' ≡ db.header.total_records) × (0 < db.header.total_records → slot_of h' 0 ≡ 0)
    all' = full h' 0 pos refl

    oldest_zero : h.oldest_record_idx ≡ 0
    oldest_zero = grind (arith, v.oldest, (linear h 0 grows).0)
