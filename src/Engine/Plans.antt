-- ===== src/Engine/Plans.antt =====
-- The trim-to-fit of tsdb_migrate_engine.
use native.Mathlib.Nat.{div-mul-le_self, div-lt_iff_lt-mul}
use mathlib.Core.Path.{subst}
use esp_tsdb.Prelude.{
  ℕ, ◌+◌, ◌-◌, ◌*◌, ◌/◌, ◌%◌, ◌≤◌, ◌<◌, ◌≡◌, ◌≢◌, ◌⊎◌, inl, inr, refl, arith, Bool, true, false,
  ltb, leb, ◌||◌, not, if◌then◌else◌, none, some, Bool-cases, ◌==◌,
}
use esp_tsdb.Format.{u32, add32}
use esp_tsdb.Engine.Copies.{div_mono}
use esp_tsdb.Engine.{Plan, migrate_file_size, plan_size, fitting, trim_to, fit_plan}

-- The blocks for `n` records.
abbrev blocks_of : ℕ → ℕ → ℕ
blocks_of n rpb = (n + rpb - 1) / rpb

-- The bytes of the file that a plan makes: its index and whole blocks, in exact arithmetic.
abbrev pub file_bytes : Plan → ℕ
file_bytes p = p.index_offset + p.index_entries * 8 + blocks_of p.retain p.rpb * 1024

-- A plan with a capacity, as the engine makes it, for a file below 2 ^ 32 bytes.
pub record IsBounded (p : Plan) (stride : ℕ) : Type 0 where
  pub rpb_pos : 0 < p.rpb
  pub rpb_small : p.rpb ≤ 1016
  pub some_records : 0 < p.retain
  pub capped : p.retain ≤ p.max
  pub entries : p.index_entries ≡ p.max / stride + 1
  pub max_small : p.max < 4294966000
  pub small : file_bytes p < u32
  pub stride_pos : 0 < stride

blocks-le : (n rpb b : ℕ) → 0 < rpb → n ≤ b * rpb → blocks_of n rpb ≤ b
blocks-le n rpb b pos le =
    let m =
      (div-lt_iff_lt-mul {k = rpb} {x = n + rpb - 1} {y = b + 1} pos).1 (omega (arith, pos, le)) in
    omega arith

plan_size-exact : (p : Plan) (stride : ℕ) → IsBounded p stride → plan_size p ≡ file_bytes p
unfolding plan_size migrate_file_size
plan_size-exact p stride v =
    let nz : (p.rpb == 0) ≡ false = ground (arith, v.rpb_pos) in
    let nw : (p.retain + p.rpb - 1) % u32 ≡ p.retain + p.rpb - 1 =
      omega (arith, v.capped, v.max_small, v.rpb_small) in
    rw (nz, nw) (omega (arith, v.small))

mod_le : (x : ℕ) → x % u32 ≤ x
mod_le x = omega arith

-- The records that fit go into blocks that fit.
fitting-blocks :
    (p : Plan) (budget : ℕ)
    → p.index_offset + p.index_entries * 8 < u32
    → fitting p budget ≢ 0
    → (b : ℕ) × (fitting p budget ≤ b * p.rpb)
      × (p.index_offset + p.index_entries * 8 + b * 1024 ≤ budget)
unfolding fitting
fitting-blocks p budget small ne =
    let nw : add32 p.index_offset (p.index_entries * 8) ≡ p.index_offset + p.index_entries * 8 =
      omega arith in
    elim (Bool-cases (ltb (add32 p.index_offset (p.index_entries * 8)) budget)) [
      | inl e ↦ (
        (budget - add32 p.index_offset (p.index_entries * 8)) / 1024,
        rw e (mod_le _),
        (let lt : add32 p.index_offset (p.index_entries * 8) < budget = ground arith in
            omega (
              arith,
              nw,
              lt,
              div-mul-le_self (budget - add32 p.index_offset (p.index_entries * 8)) 1024,
            )),
      )
      | inr e ↦ absurd (ne (rw e (omega arith)))
    ]

choice :
    (a t z l : Bool) (p p' q : Plan)
    → (if a
        then some p
        else if not t
        then none
        else if z
        then none
        else if l
        then some p'
        else some p)
      ≡ some q
    → ((a ≡ true) × (p ≡ q))
      ⊎ ((z ≡ false) × (l ≡ true) × (p' ≡ q))
      ⊎ ((z ≡ false) × (l ≡ false) × (p ≡ q))
choice true t z l p p' q e = inl (refl, cc)
choice false false z l p p' q e = absurd (cc)
choice false true true l p p' q e = absurd (cc)
choice false true false true p p' q e = inr (inl (refl, refl, cc))
choice false true false false p p' q e = inr (inr (refl, refl, cc))

-- What tsdb_migrate_engine asks of the plan that it goes on with.
abbrev pub IsFit : Plan → Plan → (budget : ℕ) → Type 0
IsFit p q budget =
    (file_bytes q ≤ budget) × (0 < q.retain) × (q.retain ≤ p.retain) × (q.retain ≤ q.max)

module _ (p : Plan) (stride budget : ℕ) (v : IsBounded p stride) where
  index_small : p.index_offset + p.index_entries * 8 < u32
  index_small = omega (arith, v.small)

  whole : fitting p budget ≢ 0 → p.retain ≤ fitting p budget → file_bytes p ≤ budget
  whole ne le =
      let (b, f, room) = fitting-blocks p budget index_small ne in
      omega (arith, room, blocks-le p.retain p.rpb b v.rpb_pos (omega (arith, le, f)))

  trimmed :
      fitting p budget ≢ 0
      → fitting p budget < p.retain
      → IsFit p (trim_to p stride (fitting p budget)) budget
  unfolding trim_to
  trimmed ne lt =
      let fit = fitting p budget in
      let (b, f, room) = fitting-blocks p budget index_small ne in
      let test : (p.max == 0 || ltb fit p.max) ≡ true = ground (arith, v.capped) in
      let entries : add32 (fit / stride) 1 ≤ p.index_entries = omega (
        arith,
        mod_le (fit / stride + 1),
        v.entries,
        div_mono fit p.max stride v.stride_pos (omega (arith, v.capped)),
      ) in
      rw test (
        omega (arith, room, entries, blocks-le fit p.rpb b v.rpb_pos f),
        omega arith,
        omega arith,
        omega arith,
      )

  -- A plan that tsdb_migrate_engine goes on with, trimmed or not, makes a file whose bytes, counted
  -- without a wrap, are within the budget; it keeps at least one record and none that was not there,
  -- and has a capacity for those it keeps. This is for a database with a capacity whose whole file,
  -- before a trim, is below 2 ^ 32 bytes.
  pub fit_plan-IsFit :
      (q : Plan) (allow_trim : Bool)
      → fit_plan p stride budget allow_trim ≡ some q
      → IsFit p q budget
  unfolding fit_plan
  fit_plan-IsFit q allow_trim e =
      elim (choice (leb (plan_size p) budget) allow_trim (fitting p budget == 0)
        (ltb (fitting p budget) p.retain) p (trim_to p stride (fitting p budget)) q e) [
          | inl (le, same) ↦
              subst (λ x. IsFit p x budget) same
                (
                  (let le' : plan_size p ≤ budget = ground arith in
                      omega (arith, le', plan_size-exact p stride v)),
                  v.some_records,
                  omega arith,
                  v.capped,
                )
          | inr (inl (nz, lt, same)) ↦
              subst (λ x. IsFit p x budget) same (trimmed (ground arith) (ground arith))
          | inr (inr (nz, ge, same)) ↦
              subst (λ x. IsFit p x budget) same
                (whole (ground arith) (ground arith), v.some_records, omega arith, v.capped)
        ]
