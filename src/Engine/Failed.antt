-- ===== src/Engine/Failed.antt =====
-- tsdb_migrate_engine of src/tsdb_migrate.c on its error paths.
use esp_tsdb.Prelude.{
  ℕ, ◌≡◌, ◌≢◌, ◌⊎◌, inl, inr, refl, Bool, true, false, not, ◌&&◌, ◌||◌, Option, none, some,
  if◌then◌else◌, Bool-cases,
}
use esp_tsdb.Bytes.{Mem}
use esp_tsdb.Format.{
  Header, EspErr, esp_ok, esp_fail, err_no_mem, err_invalid_arg, err_invalid_state, err_not_found,
  err_timeout,
}
use esp_tsdb.Storage.{File, empty_file}
use esp_tsdb.Handle.{Handle}
use esp_tsdb.Engine.{Plan, MigrateOpts, make_plan}
use esp_tsdb.Engine.Build.{EngineEnv, build_file}
use esp_tsdb.Engine.Run.{adopt_schema, lose_file, run_plan, engine_locked}

-- The swap failed: the handle is closed and its file pointer NULL, so that no call works on it, and
-- the path has the whole new file `out`, or nothing when the rename failed.
abbrev pub IsLost : EngineEnv → File → EspErr × Handle → Type 0
IsLost env out (e, d) =
    (e ≡ esp_fail)
    × (d.is_open ≡ false)
    × (d.file_open ≡ false)
    × (((env.renames ≡ true) × (d.file ≡ out)) ⊎ ((env.renames ≡ false) × (d.file ≡ empty_file)))

-- How a migration may end; `lost` says what holds when the swap failed.
abbrev pub Ended : Handle → (lost : EspErr × Handle → Type 0) → EspErr × Handle → Type 0
Ended db lost (e, d) =
    (d.side ≡ db.side)
    × ((e ≡ esp_ok)
        ⊎ ((e ≢ esp_ok)
            × (d.header ≡ db.header)
            × (d.pool ≡ db.pool)
            × (db.migrating ≡ false → d.migrating ≡ false)
            × (((d.file ≡ db.file) × (d.is_open ≡ db.is_open) × (d.file_open ≡ db.file_open))
                ⊎ lost (e, d))))

stopped :
    (db : Handle) (e : EspErr) (lost : EspErr × Handle → Type 0)
    → e ≢ esp_ok
    → Ended db lost (e, record db { migrating = false })
stopped db e lost ne = (refl, inr (ne, refl, refl, λ m. refl, inl (refl, refl, refl)))

-- The swap fails only once the new file is built.
abbrev BuiltLost : EspErr → File → EngineEnv → EspErr × Handle → Type 0
BuiltLost built out env r = (built ≡ esp_ok) × IsLost env out r

path_lem :
    (out : File) (env : EngineEnv)
    → ((env.renames ≡ true) × ((if env.renames then out else empty_file) ≡ out))
      ⊎ ((env.renames ≡ false) × ((if env.renames then out else empty_file) ≡ empty_file))
path_lem out env = elim (Bool-cases env.renames) [
  | inl e ↦ inl (e, rw e refl)
  | inr e ↦ inr (e, rw e refl)
]

swap_lost :
    (db : Handle) (out : File) (env : EngineEnv)
    → Ended db
        (BuiltLost esp_ok out env)
        (esp_fail, lose_file db (if env.renames then out else empty_file))
unfolding lose_file
swap_lost db out env =
    (refl, inr (λ z. cc, refl, refl, λ m. refl, inr (refl, (refl, refl, refl, path_lem out env))))

swapped :
    (db : Handle) (out : File) (nh : Header) (env : EngineEnv) (b : Bool)
    → Ended db (BuiltLost esp_ok out env) (
        if b
        then (esp_ok, adopt_schema db out nh)
        else (esp_fail, lose_file db (if env.renames then out else empty_file)))
unfolding adopt_schema
swapped db out nh env true = (refl, inl refl)
swapped db out nh env false = swap_lost db out env

after_build :
    (db : Handle) (e : EspErr) (out : File) (nh : Header) (env : EngineEnv) (a : Bool)
    → Ended db (BuiltLost e out env) (
        if a then (err_no_mem, record db { migrating = false }) else elim e [
          | esp_ok ↦
              if env.renames && env.reopens
              then (esp_ok, adopt_schema db out nh)
              else (esp_fail, lose_file db (if env.renames then out else empty_file))
          | e' ↦ (e', record db { migrating = false })
        ])
after_build db e out nh env true = stopped db err_no_mem (BuiltLost e out env) (λ z. cc)
after_build db esp_ok out nh env false = swapped db out nh env (env.renames && env.reopens)
after_build db esp_fail out nh env false =
    stopped db esp_fail (BuiltLost esp_fail out env) (λ z. cc)
after_build db err_invalid_arg out nh env false =
    stopped db err_invalid_arg (BuiltLost err_invalid_arg out env) (λ z. cc)
after_build db err_invalid_state out nh env false =
    stopped db err_invalid_state (BuiltLost err_invalid_state out env) (λ z. cc)
after_build db err_not_found out nh env false =
    stopped db err_not_found (BuiltLost err_not_found out env) (λ z. cc)
after_build db err_no_mem out nh env false =
    stopped db err_no_mem (BuiltLost err_no_mem out env) (λ z. cc)
after_build db err_timeout out nh env false =
    stopped db err_timeout (BuiltLost err_timeout out env) (λ z. cc)

-- A failed swap of a file that was built to its end.
abbrev pub PlanLost : Handle → EngineEnv → (rd_blk : Mem) → EspErr × Handle → Type 0
PlanLost db env rd_blk r =
    (p : Plan) × (names : ℕ → Option Mem) × (col_map : ℕ → Option ℕ) × ((build_file db p names
        col_map env rd_blk).0
      ≡ esp_ok)
    × IsLost env (build_file db p names col_map env rd_blk).1 r

Ended-map :
    (db : Handle) (a b : EspErr × Handle → Type 0) (r : EspErr × Handle)
    → (a r → b r)
    → Ended db a r
    → Ended db b r
Ended-map db a b r f (s, inl ok) = (s, inl ok)
Ended-map db a b r f (s, inr (ne, h, p, m, inl k)) = (s, inr (ne, h, p, m, inl k))
Ended-map db a b r f (s, inr (ne, h, p, m, inr l)) = (s, inr (ne, h, p, m, inr (f l)))

run_plan-Ended :
    (db : Handle) (p : Plan) (names : ℕ → Option Mem) (col_map : ℕ → Option ℕ) (env : EngineEnv)
    (rd_blk : Mem)
    → Ended db (PlanLost db env rd_blk) (run_plan db p names col_map env rd_blk)
unfolding run_plan
run_plan-Ended db p names col_map env rd_blk =
    let (e, out, nh) = build_file db p names col_map env rd_blk in
    Ended-map db (BuiltLost e out env) (PlanLost db env rd_blk)
      (run_plan db p names col_map env rd_blk) (λ l. (p, names, col_map, l.0, l.1))
      (after_build db e out nh env (not env.malloc_ok || not env.opens_mig))

-- Nothing to do, no plan, or a plan to run.
planned :
    (db : Handle) (names : ℕ → Option Mem) (col_map : ℕ → Option ℕ) (env : EngineEnv) (rd_blk : Mem)
    (same : Bool) (m : Option Plan)
    → Ended db (PlanLost db env rd_blk) (
        if same
        then (esp_ok, db)
        else elim m [ none ↦ (err_no_mem, db) | some p ↦ run_plan db p names col_map env rd_blk ])
planned db names col_map env rd_blk true m = (refl, inl refl)
planned db names col_map env rd_blk false none =
    (refl, inr (λ z. cc, refl, refl, λ e. e, inl (refl, refl, refl)))
planned db names col_map env rd_blk false (some p) = run_plan-Ended db p names col_map env rd_blk

-- tsdb_migrate_engine, under its lock, never touches the sidecars. On every error the handle has the
-- header and the pool that it had, and is not left as migrating. Its file is as it was and the handle
-- is as open as it was, unless the error came in the swap of a .mig file that was built to its end:
-- then ESP_FAIL is returned, the handle is closed with no file, and the path has that new file, or
-- nothing when the rename failed.
pub engine_locked-Ended :
    (db : Handle) (new_names : Option (ℕ → Mem)) (new_count : ℕ) (opts : Option MigrateOpts)
    (override : Option ℕ) (env : EngineEnv) (rd_blk : Mem)
    → Ended db
        (PlanLost db env rd_blk)
        (engine_locked db new_names new_count opts override env rd_blk)
unfolding engine_locked
engine_locked-Ended db new_names new_count opts override env rd_blk =
    planned db _ _ env rd_blk _ (make_plan db.header _ override opts)
