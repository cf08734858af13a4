-- ===== src/Sidecar/InStep.antt =====
-- The side files of an open handle and its counters.
use esp_tsdb.Prelude.{◌⊎◌, ℕ, ◌≤◌, ◌≡◌, arith, sym, ap, refl, Option, none, some}
use esp_tsdb.Format.{Header}
use esp_tsdb.Storage.{File}
use esp_tsdb.Handle.{Handle}
use esp_tsdb.Sidecar.{
  Slot, read_compact, read_legacy, newest_compact, newest_legacy, slot_seq, slot_index,
  sidecar_load,
}

pub read_compact-slot :
    (f : Option File) (i : ℕ) (s : Slot) → read_compact f i ≡ some s → s.slot ≡ i
unfolding read_compact
read_compact-slot none i s e = cc
read_compact-slot (some f) i s e = ground (arith, e)

pub read_legacy-slot : (f : Option File) (i : ℕ) (s : Slot) → read_legacy f i ≡ some s → s.slot ≡ i
unfolding read_legacy
read_legacy-slot none i s e = cc
read_legacy-slot (some f) i s e = ground (arith, e)

-- The counters of the handle are those of the newest slots, and each kind of slot alternates from
-- the newest on.
pub record InStep (db : Handle) : Type 0 where
  pub compact_le : slot_seq (newest_compact db.side) ≤ db.sidecar_seq
  pub legacy_le : slot_seq (newest_legacy db.side) ≤ db.legacy_seq
  pub legacy_seq : db.legacy_seq ≤ db.sidecar_seq
  pub mirrored : newest_legacy db.side ≡ none → db.legacy_seq ≡ 0
  pub compact_slot : (s : Slot) → newest_compact db.side ≡ some s → s.slot ≡ db.sidecar_slot
  pub legacy_slot : (s : Slot) → newest_legacy db.side ≡ some s → s.slot ≡ db.legacy_slot

-- However the side files are, tsdb_sidecar_load leaves its counters in step with them.
pub sidecar_load-InStep : (db : Handle) (base : Header) → InStep (sidecar_load db base).0
unfolding sidecar_load
sidecar_load-InStep db base = record {
  compact_le = ground arith;
  legacy_le = omega arith;
  legacy_seq = ground arith;
  mirrored = λ e. ap slot_seq e;
  compact_slot = λ s e. sym (ap slot_index e);
  legacy_slot = λ s e. sym (ap slot_index e);
}

-- The handle is in step with its side files, and its counters are exactly theirs: legacy_seq is the
-- number of the newest mirror, and sidecar_seq the larger of the numbers of the newest slots.
pub record IsCounted (db : Handle) : Type 0 where
  pub in_step : InStep db
  pub legacy : db.legacy_seq ≡ slot_seq (newest_legacy db.side)
  pub newest :
      (db.sidecar_seq ≡ slot_seq (newest_compact db.side))
      ⊎ (db.sidecar_seq ≡ slot_seq (newest_legacy db.side))

-- However the side files are, tsdb_sidecar_load gives the counters of the newest slots.
pub sidecar_load-IsCounted : (db : Handle) (base : Header) → IsCounted (sidecar_load db base).0
unfolding sidecar_load
sidecar_load-IsCounted db base = record {
  in_step = sidecar_load-InStep db base;
  legacy = refl;
  newest = ground arith;
}
