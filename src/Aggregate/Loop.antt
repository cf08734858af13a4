-- ===== src/Aggregate/Loop.antt =====
-- What the loop of tsdb_aggregate_h has in its accumulators.
use mathlib.Core.Path.{subst}
use esp_tsdb.Prelude.{
  ℕ, zero, suc, ◌+◌, ◌-◌, ◌≤◌, ◌<◌, ◌≡◌, ◌⊎◌, inl, inr, refl, arith, ◌∙◌, sym, ap, true, false,
  Bool-cases, leb, ◌==◌, if◌then◌else◌, some, List, [], ◌∷◌, get_elem?, length, ℤ, pos, negsuc,
  pos_part, neg_part, sub_ℕ, ◌+ℤ◌, ◌≤ℤ◌, ltb_ℤ, signed16,
}
use esp_tsdb.Format.{u32, add32}
use esp_tsdb.Write.{Values}
use esp_tsdb.Aggregate.{Acc, accumulate, agg_loop}

-- The magnitudes of the positive values, and of the negative ones, added up.
unfoldable pub positives : List ℤ → ℕ
positives [] = 0
positives (v ∷ vs) = pos_part v + positives vs

unfoldable pub negatives : List ℤ → ℕ
negatives [] = 0
negatives (v ∷ vs) = neg_part v + negatives vs

abbrev pub total : List ℤ → ℤ
total vs = sub_ℕ (positives vs) (negatives vs)

-- `v` is one of the values.
abbrev pub IsValue : List ℤ → ℤ → Type 0
IsValue vs v = (k : ℕ) × (get_elem? vs k ≡ some v)

-- The values of the records at position `i`.
unfoldable pub column : ℕ → List (ℕ × Values) → List ℤ
column i [] = []
column i (r ∷ rest) = signed16 (r.1 i) ∷ column i rest

pub sub_ℕ-cong : (a b c d : ℕ) → a + d ≡ c + b → sub_ℕ a b ≡ sub_ℕ c d
sub_ℕ-cong a b c d e = elim (Bool-cases (leb b a)) [
  | inl t ↦
      let u : leb d c ≡ true = ground arith in
      let m : a - b ≡ c - d = ground arith in rw (t, u) (ap (λ x. pos x) m)
  | inr t ↦
      let u : leb d c ≡ false = ground arith in
      let m : b - a - 1 ≡ d - c - 1 = ground arith in rw (t, u) (ap (λ x. negsuc x) m)
]

pub sub_ℕ-parts : (a b : ℕ) → pos_part (sub_ℕ a b) + b ≡ a + neg_part (sub_ℕ a b)
sub_ℕ-parts a b = elim (Bool-cases (leb b a)) [
  | inl t ↦ let le : b ≤ a = ground arith in rw t (omega arith)
  | inr t ↦ let lt : a < b = ground arith in rw t (omega arith)
]

parts-sub_ℕ : (x : ℤ) → x ≡ sub_ℕ (pos_part x) (neg_part x)
parts-sub_ℕ (pos n) =
    let t : leb 0 n ≡ true = ground arith in
    let m : n ≡ n - 0 = omega arith in rw t (ap (λ x. pos x) m)
parts-sub_ℕ (negsuc n) =
    let t : leb (suc n) 0 ≡ false = ground arith in
    let m : n ≡ suc n - 0 - 1 = omega arith in rw t (ap (λ x. negsuc x) m)

-- What the loop makes of an accumulator that has seen a value.
pub record IsAfter (vs : List ℤ) (before after : Acc) : Type 0 where
  pub sum :
      after.sum ≡ sub_ℕ (pos_part before.sum + positives vs) (neg_part before.sum + negatives vs)
  pub first : after.first_val ≡ before.first_val
  pub last :
      ((vs ≡ []) × (after.last_val ≡ before.last_val))
      ⊎ (get_elem? vs (length vs - 1) ≡ some after.last_val)
  pub min_le : after.min_val ≤ℤ before.min_val
  pub min_all : (v : ℤ) → IsValue vs v → after.min_val ≤ℤ v
  pub min_is : (after.min_val ≡ before.min_val) ⊎ IsValue vs after.min_val
  pub max_ge : before.max_val ≤ℤ after.max_val
  pub max_all : (v : ℤ) → IsValue vs v → v ≤ℤ after.max_val
  pub max_is : (after.max_val ≡ before.max_val) ⊎ IsValue vs after.max_val

abbrev stepped : ℤ → Acc → Acc
stepped v acc = record {
  sum = acc.sum +ℤ v;
  min_val = if ltb_ℤ v acc.min_val then v else acc.min_val;
  max_val = if ltb_ℤ acc.max_val v then v else acc.max_val;
  first_val = acc.first_val;
  last_val = v;
}

pub IsValue-later : (v x : ℤ) (vs : List ℤ) → IsValue vs x → IsValue (v ∷ vs) x
IsValue-later v x vs (k, e) = (suc k, e)

IsValue-cases : (v x : ℤ) (vs : List ℤ) → IsValue (v ∷ vs) x → (v ≡ x) ⊎ IsValue vs x
IsValue-cases v x vs (zero, e) = inl cc
IsValue-cases v x vs (suc k, e) = inr (k, e)

pub last_lem :
    (v x : ℤ) (vs : List ℤ)
    → ((vs ≡ []) × (x ≡ v)) ⊎ (get_elem? vs (length vs - 1) ≡ some x)
    → get_elem? (v ∷ vs) (length (v ∷ vs) - 1) ≡ some x
last_lem v x [] (inl (e, s)) = ap (λ y. some y) (sym s)
last_lem v x [] (inr e) = cc
last_lem v x (w ∷ vs) (inl (e, s)) = cc
last_lem v x (w ∷ vs) (inr e) =
    let m : length (v ∷ w ∷ vs) - 1 ≡ suc (length (w ∷ vs) - 1) = omega arith in
    subst (λ k. get_elem? (v ∷ w ∷ vs) k ≡ some x) (sym m) e

-- One value more, in front.
stepped-min :
    (v : ℤ) (acc : Acc)
    → ((stepped v acc).min_val ≤ℤ acc.min_val)
      × ((stepped v acc).min_val ≤ℤ v)
      × (((stepped v acc).min_val ≡ acc.min_val) ⊎ ((stepped v acc).min_val ≡ v))
stepped-min v acc = elim (Bool-cases (ltb_ℤ v acc.min_val)) [
  | inl t ↦ rw t (ground arith, omega arith, inr refl)
  | inr t ↦ rw t (omega arith, ground arith, inl refl)
]

stepped-max :
    (v : ℤ) (acc : Acc)
    → (acc.max_val ≤ℤ (stepped v acc).max_val)
      × (v ≤ℤ (stepped v acc).max_val)
      × (((stepped v acc).max_val ≡ acc.max_val) ⊎ ((stepped v acc).max_val ≡ v))
stepped-max v acc = elim (Bool-cases (ltb_ℤ acc.max_val v)) [
  | inl t ↦ rw t (ground arith, omega arith, inr refl)
  | inr t ↦ rw t (omega arith, ground arith, inl refl)
]

-- A bound of one value and of the others.
pub all_values :
    (v : ℤ) (vs : List ℤ) (P : ℤ → Type 0)
    → P v
    → ((x : ℤ) → IsValue vs x → P x)
    → (x : ℤ) → IsValue (v ∷ vs) x
    → P x
all_values v vs P here there x is = elim (IsValue-cases v x vs is) [
  | inl e ↦ subst P e here
  | inr m ↦ there x m
]

-- An extreme that is the one before, or one of the values.
one_of :
    (a b c v : ℤ) (vs : List ℤ)
    → (b ≡ a) ⊎ (b ≡ v)
    → (c ≡ b) ⊎ IsValue vs c
    → (c ≡ a) ⊎ IsValue (v ∷ vs) c
one_of a b c v vs s (inr m) = inr (IsValue-later v c vs m)
one_of a b c v vs (inl e) (inl f) = inl (f ∙ e)
one_of a b c v vs (inr e) (inl f) = inr (0, ap (λ x. some x) (sym (f ∙ e)))

step-IsAfter :
    (v : ℤ) (vs : List ℤ) (acc after : Acc)
    → IsAfter vs (stepped v acc) after
    → IsAfter (v ∷ vs) acc after
unfolding positives negatives ◌+ℤ◌
step-IsAfter v vs acc after a =
    let (lo, lo', lo_is) = stepped-min v acc in
    let (hi, hi', hi_is) = stepped-max v acc in
    let e = sub_ℕ-parts (pos_part acc.sum + pos_part v) (neg_part acc.sum + neg_part v) in
    record {
      sum =
          a.sum
          ∙ sub_ℕ-cong (pos_part (acc.sum +ℤ v) + positives vs)
              (neg_part (acc.sum +ℤ v) + negatives vs)
              (pos_part acc.sum + (pos_part v + positives vs))
              (neg_part acc.sum + (neg_part v + negatives vs)) (omega (arith, e));
      first = a.first;
      last = inr (last_lem v after.last_val vs a.last);
      min_le = omega (arith, a.min_le, lo);
      min_all = all_values v vs (λ x. after.min_val ≤ℤ x) (omega (arith, a.min_le, lo')) a.min_all;
      min_is = one_of acc.min_val (stepped v acc).min_val after.min_val v vs lo_is a.min_is;
      max_ge = omega (arith, a.max_ge, hi);
      max_all = all_values v vs (λ x. x ≤ℤ after.max_val) (omega (arith, a.max_ge, hi')) a.max_all;
      max_is = one_of acc.max_val (stepped v acc).max_val after.max_val v vs hi_is a.max_is;
    }

no-IsValue : (v : ℤ) → ¬ IsValue [] v
no-IsValue v (k, e) = cc

accumulate-stepped :
    (count : ℕ) (v : ℤ) (acc : Acc) → 0 < count → accumulate count v acc ≡ stepped v acc
unfolding accumulate
accumulate-stepped count v acc seen = let t : (count == 0) ≡ false = ground arith in rw t refl

pub agg_loop_cons :
    (r : ℕ × Values) (rest : List (ℕ × Values)) (i count n : ℕ) (acc acc' : Acc)
    → add32 count 1 ≡ n
    → accumulate count (signed16 (r.1 i)) acc ≡ acc'
    → agg_loop (r ∷ rest) i count acc ≡ agg_loop rest i n acc'
unfolding agg_loop
agg_loop_cons r rest i count n acc acc' c s =
    ap (λ k. agg_loop rest i k (accumulate count (signed16 (r.1 i)) acc)) c
    ∙ ap (λ a. agg_loop rest i n a) s

pub agg_loop-IsAfter :
    (records : List (ℕ × Values)) (i count : ℕ) (acc : Acc)
    → 0 < count
    → count + length records < u32
    → ((agg_loop records i count acc).0 ≡ count + length records)
      × IsAfter (column i records) acc (agg_loop records i count acc).1
unfolding agg_loop column positives negatives
agg_loop-IsAfter [] i count acc seen small = (
  omega arith,
  record {
    sum = parts-sub_ℕ acc.sum ∙ sub_ℕ-cong _ _ _ _ (omega arith);
    first = refl;
    last = inl (refl, refl);
    min_le = omega arith;
    min_all = λ v m. absurd (no-IsValue v m);
    min_is = inl refl;
    max_ge = omega arith;
    max_all = λ v m. absurd (no-IsValue v m);
    max_is = inl refl;
  },
)
agg_loop-IsAfter (r ∷ rest) i count acc seen small =
    let v = signed16 (r.1 i) in
    let c : add32 count 1 ≡ count + 1 = omega arith in
    let s = accumulate-stepped count v acc seen in
    let (n, a) =
      agg_loop-IsAfter rest i (count + 1) (stepped v acc) (omega arith) (omega (arith, small)) in
    subst (λ (p : ℕ × Acc). (p.0 ≡ count + suc (length rest)) × IsAfter (v ∷ column i rest) acc p.1)
      (sym (agg_loop_cons r rest i count (count + 1) acc (stepped v acc) c s))
      (omega (arith, n), step-IsAfter v (column i rest) acc _ a)
