-- ===== src/Recycler/Stragglers.antt =====
-- A task that was blocked on a handle's mutex never works on the handle's next database.
use esp_tsdb.Prelude.{
  ℕ, ◌+◌, ◌%◌, ◌≤◌, ◌<◌, ◌≡◌, ◌≢◌, inl, inr, arith, refl, ◌∙◌, sym, ap, Bool, true, false, ◌&&◌,
  ◌==◌, Bool-cases, if◌then◌else◌, Option, none, some, List, [], ◌∷◌,
}
use esp_tsdb.Format.{err_invalid_state, u32, add32}
use esp_tsdb.Handle.{Handle}
use esp_tsdb.Buffer.{Heap}
use esp_tsdb.Fold.{FoldEnv, fold_header, fold_done}
use esp_tsdb.Lifecycle.{Closed, close_open, close_h}
use esp_tsdb.Write.{Values, WriteEnv, write_h}
use esp_tsdb.Write.Entry.{write_h-Replaced}
use esp_tsdb.Lifecycle.Close.{close_h-open, close_h-shut}
use esp_tsdb.Recycler.{
  World, wiped, store_at, retire_handle, acquire_handle, Event, opens, works, closes, close_at,
  step, run,
}

-- Whether an event hands handle `i` out again.
unfoldable pub reuses : ℕ → World → Event → ℕ
reuses i w (opens c m) = elim w.recycled [ none ↦ 0 | some j ↦ if i == j then 1 else 0 ]
reuses i w (works j db) = 0
reuses i w (closes j env) = 0

unfoldable pub count_reuses : ℕ → World → List Event → ℕ
count_reuses i w [] = 0
count_reuses i w (e ∷ es) = reuses i w e + count_reuses i (step w e) es

generation-fold_header :
    (db : Handle) (env : FoldEnv) → (fold_header db env).1.generation ≡ db.generation
unfolding fold_header fold_done
generation-fold_header db env = ground arith

generation-close_h :
    (seen db : Handle) (hp : Heap) (env : FoldEnv)
    → (close_h seen (some db) hp env).db.generation ≡ db.generation
unfolding close_open
generation-close_h seen db hp env = elim (Bool-cases db.is_open) [
  | inl o ↦
      rw (close_h-open seen db hp env o)
        (generation-fold_header (record db { cache_dirty = false }) env)
  | inr o ↦ rw (close_h-shut seen db hp env o) refl
]

at-retire_handle : (w : World) (j : ℕ) → (retire_handle w j).at ≡ w.at
unfolding retire_handle
at-retire_handle w j = ground arith

fresh-retire_handle : (w : World) (j : ℕ) → (retire_handle w j).fresh ≡ w.fresh
unfolding retire_handle
fresh-retire_handle w j = ground arith

at-close_at : (w : World) (j : ℕ) (c : Closed) → (close_at w j c).at ≡ store_at w.at j c.db
unfolding close_at
at-close_at w j c = elim (Bool-cases c.retired) [
  | inl r ↦
      simp (r, close_at)
        (at-retire_handle (record w { at = store_at w.at j c.db; heap = c.heap }) j)
  | inr r ↦ simp (r, close_at) refl
]

fresh-close_at : (w : World) (j : ℕ) (c : Closed) → (close_at w j c).fresh ≡ w.fresh
unfolding close_at
fresh-close_at w j c = elim (Bool-cases c.retired) [
  | inl r ↦
      simp (r, close_at)
        (fresh-retire_handle (record w { at = store_at w.at j c.db; heap = c.heap }) j)
  | inr r ↦ simp (r, close_at) refl
]

-- A store that keeps the generation keeps every generation.
generation-store_at :
    (at : ℕ → Handle) (j i : ℕ) (db : Handle)
    → db.generation ≡ (at j).generation
    → (store_at at j db i).generation ≡ (at i).generation
unfolding store_at
generation-store_at at j i db e = elim (Bool-cases (i == j)) [
  | inl same ↦
      let eq : i ≡ j = ground arith in
      simp (same, store_at) (e ∙ ap (λ k. (at k).generation) (sym eq))
  | inr other ↦ simp (other, store_at) refl
]

same_lem : (g : ℕ) → g < u32 → g ≡ (g + 0) % u32
same_lem g lt = omega arith

-- tsdb_acquire_handle on a handle that is recycled counts its generation up by one.
opens-fields :
    (i : ℕ) (at : ℕ → Handle) (fresh : ℕ) (r : Option ℕ) (hp : Heap) (c m : Bool)
    → i < fresh
    → (at i).generation < u32
    → let w : World = record { at = at; fresh = fresh; recycled = r; heap = hp } in
      let w' = (acquire_handle w c m).1 in
      ((w'.at i).generation ≡ ((at i).generation + reuses i w (opens c m)) % u32)
      × (fresh ≤ w'.fresh)
unfolding acquire_handle reuses store_at wiped add32
opens-fields i at fresh none hp c m lt g = elim (Bool-cases (c && m)) [
  | inl ok ↦
      let ne : (i == fresh) ≡ false = ground arith in
      rw (ok, ne) (same_lem (at i).generation g, omega arith)
  | inr short ↦ rw short (same_lem (at i).generation g, omega arith)
]
opens-fields i at fresh (some j) hp c m lt g = elim (Bool-cases (i == j)) [
  | inl same ↦
      let eq : i ≡ j = ground arith in
      rw same (ap (λ k. ((at k).generation + 1) % u32) (sym eq), omega arith)
  | inr other ↦ rw other (same_lem (at i).generation g, omega arith)
]

-- What one event does to the generation of handle `i` and to the allocated handles.
step-generation :
    (i : ℕ) (w : World) (e : Event)
    → i < w.fresh
    → (w.at i).generation < u32
    → (((step w e).at i).generation ≡ ((w.at i).generation + reuses i w e) % u32)
      × (w.fresh ≤ (step w e).fresh)
unfolding step reuses
step-generation i w (opens c m) lt g = opens-fields i w.at w.fresh w.recycled w.heap c m lt g
step-generation i w (works j db) lt g = (
  generation-store_at w.at j i (record db { generation = (w.at j).generation }) refl
      ∙ same_lem (w.at i).generation g,
  omega arith,
)
step-generation i w (closes j env) lt g =
    let c = close_h (w.at j) (some (w.at j)) w.heap env in
    (
      ap (λ a. (a i).generation) (at-close_at w j c)
          ∙ generation-store_at w.at j i c.db (generation-close_h (w.at j) (w.at j) w.heap env)
          ∙ same_lem (w.at i).generation g,
      rw (fresh-close_at w j c) (omega arith),
    )

-- The generation counts how often the handle was handed out again, and the handle stays allocated.
run-generation :
    (i : ℕ) (w : World) (es : List Event)
    → i < w.fresh
    → (w.at i).generation < u32
    → ((run w es).at i).generation ≡ ((w.at i).generation + count_reuses i w es) % u32
unfolding run count_reuses
run-generation i w [] lt g = same_lem (w.at i).generation g
run-generation i w (e ∷ es) lt g =
    let (gen, more) = step-generation i w e lt g in
    let small : ((step w e).at i).generation < u32 = rw gen (mod_lem _) in
    run-generation i (step w e) es (omega arith) small
    ∙ rw gen (add_mod (w.at i).generation (reuses i w e) (count_reuses i (step w e) es))
  where
    mod_lem : (x : ℕ) → x % u32 < u32
    mod_lem x = omega arith

    add_mod : (a b c : ℕ) → ((a + b) % u32 + c) % u32 ≡ (a + (b + c)) % u32
    add_mod a b c = omega arith

-- After events that hand handle `i` out again, fewer than 2 ^ 32 times, its generation differs.
generation-differs :
    (i : ℕ) (w : World) (es : List Event)
    → i < w.fresh
    → (w.at i).generation < u32
    → 0 < count_reuses i w es
    → count_reuses i w es < u32
    → ((run w es).at i).generation ≢ (w.at i).generation
generation-differs i w es lt g some_reuse few same =
    apart (w.at i).generation (count_reuses i w es) g some_reuse few
      (sym (run-generation i w es lt g) ∙ same)
  where
    apart : (g n : ℕ) → g < u32 → 0 < n → n < u32 → (g + n) % u32 ≢ g
    apart g n lg ln hn e = omega arith

-- A task calls tsdb_write_h on a handle that is open, with no migration and no close under way, and
-- blocks on its mutex. While it waits, other tasks open, use and close databases in any order. If they
-- hand this handle out again, at least once and fewer than 2 ^ 32 times, the waiting call returns
-- ESP_ERR_INVALID_STATE and changes nothing of the handle's new database.
pub write_h-run :
    (i : ℕ) (w : World) (es : List Event) (timestamp : ℕ) (values : Values) (env : WriteEnv)
    → i < w.fresh
    → (w.at i).generation < u32
    → (w.at i).is_open ≡ true
    → (w.at i).migrating ≡ false
    → (w.at i).closing ≡ false
    → 0 < count_reuses i w es
    → count_reuses i w es < u32
    → let db = (run w es).at i in
      write_h (w.at i) (some db) timestamp (some values) env ≡ (err_invalid_state, db)
write_h-run i w es timestamp values env lt g open_seen no_migration no_close some_reuse few =
    write_h-Replaced (w.at i) ((run w es).at i) timestamp values env open_seen no_migration no_close
      (inr (generation-differs i w es lt g some_reuse few))
