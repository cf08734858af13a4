-- ===== src/Open/Durable.antt =====
-- The files that tsdb_write_h leaves, opened again by tsdb_open without a close.
use mathlib.Core.Path.{subst}
use esp_tsdb.Prelude.{
  ℕ, ◌+◌, ◌≡◌, ◌<◌, refl, arith, ◌∙◌, sym, ap, Bool, true, inl, inr, Option, none, some,
  if◌then◌else◌, ◌||◌,
}
use esp_tsdb.Format.{Header, EspErr, esp_ok, esp_fail, u32}
use esp_tsdb.Format.Codec.{Fits}
use esp_tsdb.Handle.{Handle}
use esp_tsdb.Write.{
  WriteEnv, Pass, again, failed, stored, write_passes, write_locked, free_space_guard, finish_write,
}
use esp_tsdb.Write.Sides.{
  Sides, sides, PassesSides, sides-guard, sides-write_passes, committed, sides-committed,
  finish-committed,
}
use esp_tsdb.Ring.{Row, History, append, Rep}
use esp_tsdb.Ring.Stored.{CanWrite, FitsRow}
use esp_tsdb.Ring.Refines.{
  WriteResult, write_locked-refines, PassesPost, passes_post, GuardPost, guard_keeps,
}
use esp_tsdb.Sidecar.{SideEnv}
use esp_tsdb.Sidecar.Keeps.{sidecar_write-SameData}
use esp_tsdb.Sidecar.InStep.{InStep}
use esp_tsdb.Sidecar.Halves.{IsWhole, has_dir}
use esp_tsdb.Sidecar.Recovered.{Recovers}
use esp_tsdb.Sidecar.Crash.{MirrorEnds, sidecar_write-Recovers}
use esp_tsdb.Migrate.{Disk, migrate_recover}
use esp_tsdb.Config.{Config}
use esp_tsdb.Open.{OpenEnv, usable, judge_header, open_file}
use esp_tsdb.Open.Resume.{IsEarlier, IsCurrent, open_file-Recovers}

abbrev with_sides : Handle → Sides → Handle
with_sides h s = record h {
  side = s.side;
  sidecar_seq = s.sidecar_seq;
  sidecar_slot = s.sidecar_slot;
  legacy_seq = s.legacy_seq;
  legacy_slot = s.legacy_slot;
}

InStep-with : (h g : Handle) → InStep (with_sides h (sides g)) → InStep g
InStep-with h g st = record {
  compact_le = st.compact_le;
  legacy_le = st.legacy_le;
  legacy_seq = st.legacy_seq;
  mirrored = st.mirrored;
  compact_slot = st.compact_slot;
  legacy_slot = st.legacy_slot;
}

-- Handles with the same sidecar state are in step with it alike.
InStep-cong : (g h : Handle) → sides g ≡ sides h → InStep h → InStep g
InStep-cong g h e st = InStep-with h g (
    subst (λ s. InStep (with_sides h s)) (sym e)
      (record {
        compact_le = st.compact_le;
        legacy_le = st.legacy_le;
        legacy_seq = st.legacy_seq;
        mirrored = st.mirrored;
        compact_slot = st.compact_slot;
        legacy_slot = st.legacy_slot;
      }))

abbrev dir_of : SideEnv → Sides → Bool
dir_of env s = if s.side_dir_ready then s.side.dir else s.side.dir || env.makes_dir

module _ (row : Row) (env : WriteEnv) (w : IsWhole env.sidecar.slot_write)
    (ends : MirrorEnds env.sidecar) where
  -- Once the block is written, the rest of tsdb_write_h leaves side files that give the new header.
  finish-Recovers :
      (ev : Bool) (idx : ℕ) (db d : Handle)
      → d.extra_param_count ≡ 0
      → sides d ≡ sides db
      → InStep db
      → db.sidecar_seq + 1 < u32
      → has_dir db env.sidecar ≡ true
      → Fits (finish_write ev idx row.ts row.vals env d).header
      → Recovers
          (finish_write ev idx row.ts row.vals env d).side
          (finish_write ev idx row.ts row.vals env d).header
  finish-Recovers ev idx db d none_extra same st room dir fits =
      let m = committed ev idx row.ts d in
      let (h, s) = finish-committed ev idx row env d none_extra in
      let kept = sidecar_write-SameData m env.sidecar in
      let e : sides m ≡ sides db = sides-committed ev idx row.ts d ∙ same in
      rw (h, s, kept.header)
        ((sidecar_write-Recovers m env.sidecar (InStep-cong m db e st)
          (subst (λ x. Fits x) (h ∙ kept.header) fits)
          (omega (arith, ap (λ (x : Sides). x.sidecar_seq) e)) w (ap (dir_of env.sidecar) e ∙ dir)
          ends).1)

  -- After tsdb_write_h returned ESP_OK and its compact sidecar slot was written in full, and the mirror
  -- in full or not to its last byte, tsdb_sidecar_load gives back the header with the new record.
  pub write_locked-Recovers :
      (db : Handle) (hist : History)
      → Rep db.header db.file hist
      → CanWrite db
      → FitsRow db.header row
      → InStep db
      → db.sidecar_seq + 1 < u32
      → has_dir db env.sidecar ≡ true
      → Fits (write_locked db row.ts row.vals env).1.header
      → (write_locked db row.ts row.vals env).0 ≡ esp_ok
      → Recovers
          (write_locked db row.ts row.vals env).1.side
          (write_locked db row.ts row.vals env).1.header
  unfolding write_locked
  write_locked-Recovers db hist v can fits st room dir =
      go (write_passes 2 g row.ts row.vals env)
        (passes_post hist row env db.header g kept.0 kept.1 kept.2 kept.3)
        (sides-write_passes row env 2 g)
    where
      g : Handle
      g = free_space_guard db env

      kept : GuardPost db hist row g
      kept = guard_keeps db hist row env v can fits

      go :
          (p : Option Pass)
          → PassesPost db.header hist row p
          → PassesSides row env (sides g) p
          → let r : EspErr × Handle = elim p [
            | none ↦ (esp_fail, db)
            | some (again db') ↦ (esp_fail, db')
            | some (failed e db') ↦ (e, db')
            | some (stored ev idx db') ↦ (esp_ok, finish_write ev idx row.ts row.vals env db')
          ] in
            Fits r.1.header → r.0 ≡ esp_ok → Recovers r.1.side r.1.header
      go none post sd f e = elim post [ ]
      go (some (again _)) post sd f e = elim post [ ]
      go (some (failed x d)) post sd f e = absurd (post.0 e)
      go (some (stored ev idx d)) post sd f e =
          finish-Recovers ev idx db d post.1 (sd ∙ sides-guard db env) st room dir f

ok_result :
    (h : Header) (hist : History) (row : Row) (e : EspErr) (d : Handle)
    → WriteResult h hist row (e, d)
    → e ≡ esp_ok
    → Rep d.header d.file (append hist h.total_records row)
      × (d.header.total_records ≡ h.total_records + 1)
ok_result h hist row e d (inl (o, rep, t)) ok = (rep, t)
ok_result h hist row e d (inr (ne, s, c)) ok = absurd (ne ok)

-- The files that an acknowledged tsdb_write_h leaves, with the header in the database file not
-- written, are opened again with the new record: once tsdb_open has its buffer pool, it gives a handle
-- that holds the history with the new row at its end. The handle was not closed, and the theorem
-- assumes that the database file still has the bytes of the call: on esp_littlefs that needs a
-- tsdb_sync_h or a close after the call, since an open file is not committed. It is also when the compact sidecar slot of the
-- call was written in full, when the mirror was too, or was not opened or cut before its last byte,
-- and when fopen gives the file, whose header is a usable one of the same geometry; it covers
-- adaptive capacity and eviction. It is for a handle in step with its side files, with no overflow
-- region, numbers that do not wrap, a new header of version 3 or later that passes the sanity check,
-- and a configuration with its columns.
pub write_locked-Reopens :
    (db : Handle) (hist : History) (row : Row) (env : WriteEnv)
    → Rep db.header db.file hist
    → CanWrite db
    → FitsRow db.header row
    → InStep db
    → db.sidecar_seq + 1 < u32
    → IsWhole env.sidecar.slot_write
    → has_dir db env.sidecar ≡ true
    → MirrorEnds env.sidecar
    → (d : Handle) → write_locked db row.ts row.vals env ≡ (esp_ok, d)
    → Fits d.header
    → (c : Config) → IsCurrent d.header c
    → (g : Header) → judge_header d.file ≡ usable g
    → IsEarlier g d.header
    → (fresh : Handle) (disk : Disk) (oenv : OpenEnv)
    → (migrate_recover disk oenv.recover).main ≡ some d.file
    → oenv.opens ≡ true
    → (r : Handle) × (open_file (record fresh { side = d.side }) disk c oenv ≡ some r)
      × Rep r.header r.file (append hist db.header.total_records row)
      × (r.header.total_records ≡ db.header.total_records + 1)
write_locked-Reopens db hist row env v can fits st room w dir ends d e dfits c cur g judge early
      fresh disk oenv main opens =
    let res = write_locked db row.ts row.vals env in
    let (rep, t) =
      ok_result db.header hist row esp_ok d
        (subst (λ x. WriteResult db.header hist row x) e
          (write_locked-refines db hist row env v can fits))
        refl in
    let rec : Recovers d.side d.header =
      subst (λ (x : EspErr × Handle). Recovers x.1.side x.1.header) e
        (write_locked-Recovers row env w ends db hist v can fits st room dir
          (subst (λ (x : EspErr × Handle). Fits x.1.header) (sym e) dfits)
          (ap (λ (x : EspErr × Handle). x.0) e)) in
    let (r, o, rep', t', _) =
      open_file-Recovers (record fresh { side = d.side }) disk c oenv d.file g d.header
        (append hist db.header.total_records row) main opens judge rec early cur rep in
    (r, o, rep', t' ∙ t)
