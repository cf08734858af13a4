-- ===== src/Overflow/Moved.antt =====
-- The loop of tsdb_migrate_overflow_h that moves the overflow records.
use mathlib.Core.Path.{subst}
use esp_tsdb.Prelude.{
  ℕ, zero, suc, ◌+◌, ◌*◌, ◌/◌, ◌%◌, ◌^◌, ◌≤◌, ◌<◌, ◌≡◌, refl, arith, ◌∙◌, ap, true, false,
  Bool-cases, inl, inr, ltb, leb, Option, none, some, ◌==◌,
}
use esp_tsdb.Bytes.{Mem, get16}
use esp_tsdb.Format.{u32}
use esp_tsdb.Storage.{File, Outcome, done, write_item}
use esp_tsdb.Storage.Laws.{bytes-store_inside, size-store_bytes}
use esp_tsdb.Ring.Frame.{bytes-write_item, size-write_item}
use esp_tsdb.Write.{values_bytes}
use esp_tsdb.Overflow.Relayout.{Layout, old_values, new_values, old_pos, new_pos, move_extras}

-- A file that has all of another one, and more behind it.
pub record Extends (f g : File) : Type 0 where
  pub size : f.size ≤ g.size
  pub bytes : (q : ℕ) → q < f.size → g.bytes q ≡ f.bytes q

pub Extends-trans : {f g k : File} → Extends f g → Extends g k → Extends f k
Extends-trans {f} a b = record {
  size = omega (arith, a.size, b.size);
  bytes = λ q lt. b.bytes q (omega (arith, a.size)) ∙ a.bytes q lt;
}

pub Extends-write :
    (f g : File) (off n : ℕ) (src : Mem) (o : Outcome)
    → f.size ≤ off
    → Extends f g
    → Extends f (write_item g off n src o)
Extends-write f g off n src o le e = record {
  size = omega (arith, e.size, size-write_item g off n src o);
  bytes = λ q lt.
      bytes-write_item g off n q src o (omega (arith, e.size)) (λ x lx s. absurd (omega arith))
      ∙ e.bytes q lt;
}

-- A record that the old file has in full is read from a longer file all the same.
old_values-Extends :
    (f g : File) (pos count j : ℕ)
    → Extends f g
    → pos + count * 2 ≤ f.size
    → old_values g pos count j ≡ old_values f pos count j
unfolding old_values get16
old_values-Extends f g pos count j e inside = elim (Bool-cases (ltb j count)) [
  | inr b ↦ rw b refl
  | inl b ↦
      let lt : j < count = ground arith in
      let here : leb (pos + j * 2 + 2) f.size ≡ true = ground arith in
      let there : leb (pos + j * 2 + 2) g.size ≡ true = ground (arith, e.size) in
      rw (b, here, there)
        (omega
          (arith, e.bytes (pos + j * 2) (omega arith), e.bytes (pos + j * 2 + 1) (omega arith)))
]

value_bytes : (v i : ℕ) → v % 256 + 256 * (v / 256 % 256) ≡ v % 2 ^ 16
value_bytes v i = omega arith

get16-values_bytes :
    (v : ℕ → ℕ) (i : ℕ)
    → (values_bytes v (i * 2) ≡ v i % 256) × (values_bytes v (i * 2 + 1) ≡ v i / 256 % 256)
unfolding values_bytes
get16-values_bytes v i =
    let a : i * 2 / 2 ≡ i = omega arith in
    let b : (i * 2 + 1) / 2 ≡ i = omega arith in
    let c : (i * 2 % 2 == 0) ≡ true = ground arith in
    let d : ((i * 2 + 1) % 2 == 0) ≡ false = ground arith in (rw (c, a) refl, rw (d, b) refl)

-- The column that record `r` is to have.
abbrev pub moved_value : File → Layout → (r i : ℕ) → ℕ
moved_value f l r i = new_values l.col_map (old_values f (old_pos l r) l.old_count) i % 2 ^ 16

new_values-cong :
    (c : ℕ → Option ℕ) (v w : ℕ → ℕ) (i : ℕ)
    → ((j : ℕ) → v j ≡ w j)
    → new_values c v i ≡ new_values c w i
unfolding new_values
new_values-cong c v w i e = go (c i) refl
  where
    go : (o : Option ℕ) → c i ≡ o → new_values c v i ≡ new_values c w i
    go none t = simp (t, new_values) refl
    go (some j) t = simp (t, new_values) (e j)

-- The new region of `n` records from record `r` on is above the old file and does not wrap.
pub record HasRoom (f : File) (l : Layout) (r n : ℕ) : Type 0 where
  pub above : f.size ≤ l.new_data_offset
  pub nowrap : l.new_data_offset + (r + n) * (l.new_count * 2) < u32

module _ (f : File) (l : Layout) where
  abbrev w : ℕ
  w = l.new_count * 2

  new_pos_lem : (r n : ℕ) → HasRoom f l r (suc n) → new_pos l r ≡ l.new_data_offset + r * w
  unfolding new_pos
  new_pos_lem r n h =
      let lt : l.new_data_offset + r * w < u32 = omega (arith, h.nowrap) in omega (arith, lt)

  rest_room : (r n : ℕ) → HasRoom f l r (suc n) → HasRoom f l (r + 1) n
  rest_room r n h = record { above = h.above; nowrap = omega (arith, h.nowrap) }

  -- However the writes end, the loop leaves the old file as it was.
  pub move_extras-Extends :
      (n r : ℕ) (env : ℕ → Outcome) (g : File)
      → HasRoom f l r n
      → Extends f g
      → Extends f (move_extras n r l env g)
  unfolding move_extras
  move_extras-Extends zero r env g h e = e
  move_extras-Extends (suc n) r env g h e =
      move_extras-Extends n (r + 1) env _ (rest_room r n h)
        (Extends-write f g (new_pos l r) w _ (env r) (omega (arith, new_pos_lem r n h, h.above)) e)

  -- The records from `r` on do not touch what is before them.
  move_extras-before :
      (n r q : ℕ) (env : ℕ → Outcome) (g : File)
      → HasRoom f l r n
      → q < g.size
      → q < l.new_data_offset + r * w
      → (move_extras n r l env g).bytes q ≡ g.bytes q
  unfolding move_extras
  move_extras-before zero r q env g h lt before = refl
  move_extras-before (suc n) r q env g h lt before =
      let src = values_bytes (new_values l.col_map (old_values g (old_pos l r) l.old_count)) in
      move_extras-before n (r + 1) q env (write_item g (new_pos l r) w src (env r))
        (rest_room r n h) (omega (arith, size-write_item g (new_pos l r) w src (env r)))
        (omega arith)
      ∙ bytes-write_item g (new_pos l r) w q src (env r) lt
          (λ x lx s. absurd (omega (arith, new_pos_lem r n h)))

  -- One record, and then the ones behind it.
  first_moved :
      (n r i : ℕ) (g : File) (v : ℕ → ℕ)
      → HasRoom f l r (suc n)
      → i < l.new_count
      → get16
          (move_extras n
            (r + 1)
            l
            (λ k. done)
            (write_item g (new_pos l r) w (values_bytes v) done)).bytes
          (l.new_data_offset + r * w + i * 2)
        ≡ v i % 2 ^ 16
  unfolding get16 write_item
  first_moved n r i g v h ilt =
      let src = values_bytes v in
      let g' = write_item g (new_pos l r) w src done in
      let p : ℕ = l.new_data_offset + r * w + i * 2 in
      let at = new_pos_lem r n h in
      let long = (size-store_bytes g (new_pos l r) w src).1 in
      let below = λ (q : ℕ) (lt : q < l.new_data_offset + r * w + w).
        move_extras-before n (r + 1) q (λ k. done) g' (rest_room r n h)
          (omega (arith, at, long, lt)) (omega (arith, lt)) in
      let (lo, hi) = get16-values_bytes v i in
      omega (
        arith,
        below p (omega arith),
        below (p + 1) (omega arith),
        bytes-store_inside g (new_pos l r) w (i * 2) p src (omega (arith, at)) (omega arith),
        bytes-store_inside g (new_pos l r) w (i * 2 + 1) (p + 1) src (omega (arith, at))
            (omega arith),
        lo,
        hi,
        value_bytes (v i) i,
      )

  -- When the writes are done, every record has its columns in the new region.
  pub move_extras-moved :
      (n r j i : ℕ) (g : File)
      → HasRoom f l r n
      → Extends f g
      → j < n
      → i < l.new_count
      → old_pos l (r + j) + l.old_count * 2 ≤ f.size
      → get16 (move_extras n r l (λ k. done) g).bytes (l.new_data_offset + (r + j) * w + i * 2)
        ≡ moved_value f l (r + j) i
  unfolding move_extras
  move_extras-moved zero r j i g h e lt ilt inside = absurd (omega arith)
  move_extras-moved (suc n) r zero i g h e lt ilt inside =
      let here : r + 0 ≡ r = omega arith in
      let inside' = subst (λ k. old_pos l k + l.old_count * 2 ≤ f.size) here inside in
      rw here (
        first_moved n r i g (new_values l.col_map (old_values g (old_pos l r) l.old_count)) h ilt
        ∙ ap (λ v. v % 2 ^ 16)
            (new_values-cong l.col_map (old_values g (old_pos l r) l.old_count)
              (old_values f (old_pos l r) l.old_count) i
              (λ j. old_values-Extends f g (old_pos l r) l.old_count j e inside')))
  move_extras-moved (suc n) r (suc j) i g h e lt ilt inside =
      let shift : r + suc j ≡ r + 1 + j = omega arith in
      rw shift (
        move_extras-moved n (r + 1) j i _ (rest_room r n h)
          (Extends-write f g (new_pos l r) w _ done (omega (arith, new_pos_lem r n h, h.above)) e)
          (omega arith) ilt (rw (← shift) inside))
