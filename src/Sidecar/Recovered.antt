-- ===== src/Sidecar/Recovered.antt =====
-- The header that tsdb_sidecar_load gives back after each half of tsdb_sidecar_write.
use mathlib.Core.Path.{subst}
use esp_tsdb.Prelude.{
  inl, inr, ℕ, ◌+◌, ◌%◌, ◌≤◌, ◌<◌, ◌≡◌, refl, arith, ◌∙◌, sym, ap, Bool, true, Option, none, some,
}
use esp_tsdb.Bytes.{Mem}
use esp_tsdb.Format.{Header, u32}
use esp_tsdb.Format.Codec.{Fits, SameHeader}
use esp_tsdb.Storage.{cut}
use esp_tsdb.Handle.{Handle, SideFiles}
use esp_tsdb.Sidecar.{
  sidecar2_size, sidecar_size, SideEnv, write_compact, write_mirror, Slot, slot_seq, slot_index,
  newest_compact, newest_legacy, choose, sidecar_load,
}
use esp_tsdb.Sidecar.Slots.{renamed, apply_compact-written}
use esp_tsdb.Sidecar.Mirror.{decode-written}
use esp_tsdb.Sidecar.Newest.{AllBelow, choose-compact, choose-mirror}
use esp_tsdb.Sidecar.InStep.{InStep, IsCounted}
use esp_tsdb.Sidecar.Halves.{
  IsWhole, has_dir, mod_again, bumped, slot_of, mirror_slot, write_compact-legacy, newest-whole,
  newest-torn, mirror_file-whole, newest_legacy-whole, newest_legacy-torn, write_mirror-compact,
}
use esp_tsdb.Header.Stored.{SameHeader-trans}

-- The side files give back the header `h` to a database whose own header has the same names.
unfoldable pub Recovers : SideFiles → Header → Type 0
Recovers side h =
    (db : Handle) (base : Header)
    → db.side ≡ side
    → ((i : ℕ) → i < 512 → base.param_names i ≡ h.param_names i)
    → (g : Header) × ((sidecar_load db base).1 ≡ some g) × SameHeader g h

Chooses : Option Slot → Option Slot → Header → Type 0
Chooses r d h =
    (base : Header)
    → ((i : ℕ) → i < 512 → base.param_names i ≡ h.param_names i)
    → (g : Header) × (choose base r d ≡ some g) × SameHeader g h

Chooses-Recovers :
    (side : SideFiles) (h : Header)
    → Chooses (newest_legacy side) (newest_compact side) h
    → Recovers side h
unfolding Recovers Chooses sidecar_load
Chooses-Recovers side h c db base e names =
    let (g, t, s) = c base names in
    (g, ap (λ (x : SideFiles). choose base (newest_legacy x) (newest_compact x)) e ∙ t, s)

renamed-SameHeader :
    (h : Header) (names : Mem)
    → ((i : ℕ) → i < 512 → names i ≡ h.param_names i)
    → SameHeader (renamed h names) h
renamed-SameHeader h names e = record {
  magic_word = refl;
  version = refl;
  num_params = refl;
  param_size = refl;
  record_size = refl;
  records_per_block = refl;
  max_records = refl;
  total_records = refl;
  oldest_record_idx = refl;
  newest_record_idx = refl;
  oldest_timestamp = refl;
  newest_timestamp = refl;
  index_offset = refl;
  index_entries = refl;
  index_stride = refl;
  total_writes = refl;
  total_evictions = refl;
  base_params = refl;
  extra_param_count = refl;
  overflow_record_size = refl;
  overflow_offset = refl;
  first_overflow_record_idx = refl;
  reserved2 = refl;
  names = e;
}

below : (a : Option Slot) (k : ℕ) → slot_seq a ≤ k → AllBelow (λ q. q ≤ k) a
below a k le s e = let q = ap slot_seq e in omega arith

-- A compact slot that is the newest, with no mirror that it does not know, gives its header.
compact-Chooses :
    (db : Handle) (r : Option Slot) (i : ℕ) (s : db.sidecar_seq < u32) (l : db.legacy_seq < u32)
    → Fits db.header
    → (r ≡ none → db.legacy_seq ≡ 0)
    → slot_seq r ≤ db.legacy_seq
    → Chooses r (some (slot_of db s l i)) db.header
unfolding Chooses
compact-Chooses db r i s l fits z le base names = (
  _,
  choose-compact base r (slot_of db s l i) z (below r db.legacy_seq le),
  SameHeader-trans (apply_compact-written db.header db.sidecar_seq db.legacy_seq s l base fits)
      (renamed-SameHeader db.header base.param_names names),
)

mirror-Chooses :
    (db : Handle) (d : Slot) (i : ℕ) (s : db.sidecar_seq < u32)
    → Fits db.header
    → d.legacy_seq < db.sidecar_seq
    → Chooses (some (mirror_slot db s i)) (some d) db.header
unfolding Chooses
mirror-Chooses db d i s fits lt base names = (
  _,
  choose-mirror base (mirror_slot db s i) d lt,
  decode-written db.header db.sidecar_seq s fits,
)

Recovers-cong :
    (a b : SideFiles) (h : Header)
    → newest_legacy b ≡ newest_legacy a
    → newest_compact b ≡ newest_compact a
    → Recovers a h
    → Recovers b h
unfolding Recovers sidecar_load
Recovers-cong a b h l c rec db base e names =
    let (g, t, s) = rec (record db { side = a }) base refl names in
    (
      g,
      ap (λ (x : SideFiles). choose base (newest_legacy x) (newest_compact x)) e
          ∙ simp (l, c) refl
          ∙ t,
      s,
    )

no_slot : {s : Slot} → some s ≡ none → ⊥
no_slot e = cc

mirror-fields :
    (db : Handle) (env : SideEnv)
    → IsWhole env.mirror_write
    → ((write_mirror db env).0.sidecar_seq ≡ db.sidecar_seq)
      × ((write_mirror db env).0.legacy_seq ≡ db.sidecar_seq)
      × ((write_mirror db env).0.legacy_slot ≡ (db.legacy_slot + 1) % 2)
      × ((write_mirror db env).0.sidecar_slot ≡ db.sidecar_slot)
mirror-fields db env m = rw (mirror_file-whole db env m) (refl, refl, refl, refl)

-- What holds of the handle once its slots are written.
abbrev pub Settled : Handle → Header → Type 0
Settled db h = InStep db × Recovers db.side h

module _ (db : Handle) (env : SideEnv) where
  -- The handle whose number is counted, before its compact slot is written.
  abbrev b : Handle
  b = bumped db

  abbrev db1 : Handle
  db1 = (write_compact b env).0

  module _ (st : InStep db) (fits : Fits db.header) (room : db.sidecar_seq + 1 < u32) where
    bump_lem : b.sidecar_seq ≡ db.sidecar_seq + 1
    bump_lem = omega arith

    seq_small : b.sidecar_seq < u32
    seq_small = omega arith

    legacy_small : b.legacy_seq < u32
    legacy_small = omega (arith, st.legacy_seq)

    module _ (w : IsWhole env.slot_write) (dir : has_dir b env ≡ true) where
      compact-newest :
          newest_compact db1.side
          ≡ some (slot_of b seq_small legacy_small ((db.sidecar_slot + 1) % 2 % 2))
      compact-newest =
          newest-whole b env seq_small legacy_small (omega (arith, st.compact_le)) w dir

      pub compact-Settled : Settled db1 db.header
      compact-Settled =
          let (side, header, seq, lseq, lslot, cslot) = write_compact-legacy b env in
          let e = compact-newest in
          (
            record {
              compact_le = let q = ap slot_seq e in omega (arith, seq);
              legacy_le = let q = ap slot_seq side in omega (arith, lseq, st.legacy_le);
              legacy_seq = omega (arith, seq, lseq, st.legacy_seq);
              mirrored = λ n. lseq ∙ st.mirrored (sym side ∙ n);
              compact_slot = λ s t.
                  let q = ap slot_index (sym t ∙ e) in
                  q ∙ sym (mod_again db.sidecar_slot) ∙ sym cslot;
              legacy_slot = λ s t. st.legacy_slot s (sym side ∙ t) ∙ sym lslot;
            },
            Chooses-Recovers db1.side db.header (
                rw (side, e)
                  (compact-Chooses b (newest_legacy db.side) ((db.sidecar_slot + 1) % 2 % 2)
                    seq_small legacy_small fits st.mirrored st.legacy_le)),
          )

      small1 : db1.sidecar_seq < u32
      small1 =
          let (_, _, seq, _, _, _) = write_compact-legacy b env in omega (arith, seq, seq_small)

      mirror_below : slot_seq (newest_legacy db1.side) < db1.sidecar_seq
      mirror_below =
          let (side, _, seq, _, _, _) = write_compact-legacy b env in
          let q = ap slot_seq side in omega (arith, seq, bump_lem, st.legacy_le, st.legacy_seq)

      pub mirror-Settled : IsWhole env.mirror_write → Settled (write_mirror db1 env).0 db.header
      mirror-Settled m =
          let (_, header, seq, lseq, _, _) = write_compact-legacy b env in
          let c = write_mirror-compact db1 env in
          let e = newest_legacy-whole db1 env small1 mirror_below m in
          let (kept, _) = compact-Settled in
          let s = mirror-fields db1 env m in
          (
            record {
              compact_le = let q = ap slot_seq c in omega (arith, s.0, kept.compact_le);
              legacy_le = let q = ap slot_seq e in omega (arith, s.1);
              legacy_seq = omega (arith, s.0, s.1);
              mirrored = λ n. absurd (no_slot (sym e ∙ n));
              compact_slot = λ t r. kept.compact_slot t (sym c ∙ r) ∙ sym s.3;
              legacy_slot = λ t r.
                  let q = ap slot_index (sym r ∙ e) in
                  q ∙ sym (mod_again db1.legacy_slot) ∙ sym s.2;
            },
            subst (λ h. Recovers (write_mirror db1 env).0.side h) header
                (Chooses-Recovers (write_mirror db1 env).0.side db1.header (
                  rw (e, c, compact-newest)
                    (mirror-Chooses db1
                      (slot_of b seq_small legacy_small ((db.sidecar_slot + 1) % 2 % 2))
                      ((db1.legacy_slot + 1) % 2 % 2) small1 (subst (λ h. Fits h) (sym header) fits)
                      (omega (arith, seq, bump_lem, st.legacy_seq))))),
          )

      -- The counters after each half, from a handle whose counters are exactly its slots'.
      pub compact-IsCounted :
          db.legacy_seq ≡ slot_seq (newest_legacy db.side)
          → IsCounted db1 × (db1.sidecar_seq ≡ db.sidecar_seq + 1)
      compact-IsCounted exact =
          let (side, header, seq, lseq, lslot, cslot) = write_compact-legacy b env in
          (
            record {
              in_step = compact-Settled.0;
              legacy = lseq ∙ exact ∙ sym (ap slot_seq side);
              newest = inl (seq ∙ sym (ap slot_seq compact-newest));
            },
            seq ∙ bump_lem,
          )

      pub mirror-IsCounted :
          IsWhole env.mirror_write
          → IsCounted (write_mirror db1 env).0
            × ((write_mirror db1 env).0.sidecar_seq ≡ db.sidecar_seq + 1)
      mirror-IsCounted m =
          let (_, _, seq, _, _, _) = write_compact-legacy b env in
          let e = newest_legacy-whole db1 env small1 mirror_below m in
          let s = mirror-fields db1 env m in
          (
            record {
              in_step = (mirror-Settled m).0;
              legacy = s.1 ∙ sym (ap slot_seq e);
              newest = inr (s.0 ∙ sym (ap slot_seq e));
            },
            s.0 ∙ seq ∙ bump_lem,
          )

      pub torn_mirror-Recovers :
          (k : ℕ) (e : Bool)
          → env.mirror_write.item ≡ cut k e
          → k < sidecar_size
          → Recovers (write_mirror db1 env).0.side db.header
      torn_mirror-Recovers k e item short =
          let (kept, rec) = compact-Settled in
          Recovers-cong db1.side (write_mirror db1 env).0.side db.header
            (newest_legacy-torn db1 env k e kept.legacy_slot item short)
            (write_mirror-compact db1 env) rec

    pub torn_slot-Recovers :
        (k : ℕ) (e : Bool) (old : Header)
        → env.slot_write.item ≡ cut k e
        → k < sidecar2_size
        → Recovers db.side old
        → Recovers db1.side old
    torn_slot-Recovers k e old item short rec =
        Recovers-cong db.side db1.side old (write_compact-legacy b env).0
          (newest-torn b env k e st.compact_slot item short) rec
