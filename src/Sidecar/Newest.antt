-- ===== src/Sidecar/Newest.antt =====
-- How tsdb_sidecar_load chooses between the slots.
use esp_tsdb.Prelude.{
  ℕ, ◌+◌, ◌%◌, ◌≤◌, ◌<◌, ◌≡◌, refl, arith, ◌∙◌, sym, ap, true, false, Option, none, some, ltb, leb,
  ◌==◌, Bool-cases, ◌⊎◌, inl, inr,
}
use esp_tsdb.Format.{Header}
use esp_tsdb.Format.Codec.{decode}
use esp_tsdb.Storage.{File}
use esp_tsdb.Sidecar.{Slot, newest, choose, apply_compact, set_slot, slot_seq}

-- Every slot that is there satisfies a bound on its number.
abbrev pub AllBelow : (ℕ → Type 0) → Option Slot → Type 0
AllBelow p a = (s : Slot) → a ≡ some s → p s.seq

pub newest-left :
    (a : Slot) (b : Option Slot) → AllBelow (λ q. q ≤ a.seq) b → newest (some a) b ≡ some a
unfolding newest
newest-left a none le = refl
newest-left a (some b) le =
    let e : ltb a.seq b.seq ≡ false = ground (arith, le b refl) in simp (e, newest) refl

pub newest-right :
    (a : Option Slot) (b : Slot) → AllBelow (λ q. q < b.seq) a → newest a (some b) ≡ some b
unfolding newest
newest-right none b lt = refl
newest-right (some a) b lt =
    let e : ltb a.seq b.seq ≡ true = ground (arith, lt a refl) in simp (e, newest) refl

-- The newest is one of the two.
pub newest-AllBelow :
    (p : ℕ → Type 0) (a b : Option Slot) → AllBelow p a → AllBelow p b → AllBelow p (newest a b)
unfolding newest
newest-AllBelow p none b pa pb = pb
newest-AllBelow p (some a) none pa pb = pa
newest-AllBelow p (some a) (some b) pa pb = elim (Bool-cases (ltb a.seq b.seq)) [
  | inl e ↦ rw (e, newest) pb
  | inr e ↦ rw (e, newest) pa
]

-- A slot is never newer than the newest.
pub newest-le :
    (a b : Option Slot) (k : ℕ)
    → slot_seq (newest a b) ≤ k
    → AllBelow (λ q. q ≤ k) a × AllBelow (λ q. q ≤ k) b
unfolding newest
newest-le none none k le = (λ s e. cc, λ s e. cc)
newest-le none (some b) k le = (λ s e. cc, λ s e. let q = ap slot_seq e in omega arith)
newest-le (some a) none k le = (λ s e. let q = ap slot_seq e in omega arith, λ s e. cc)
newest-le (some a) (some b) k le =
    (λ s e. let q = ap slot_seq e in ground arith, λ s e. let q = ap slot_seq e in ground arith)

-- Losing the older of two slots does not change which is the newest.
pub newest-lost_right :
    (a b : Option Slot)
    → ((s : Slot) → b ≡ some s → s.slot ≡ 1)
    → ((s : Slot) → newest a b ≡ some s → s.slot % 2 ≡ 0)
    → newest a none ≡ newest a b
unfolding newest
newest-lost_right none none one cur = refl
newest-lost_right none (some b) one cur = absurd (omega (arith, one b refl, cur b refl))
newest-lost_right (some a) none one cur = refl
newest-lost_right (some a) (some b) one cur = elim (Bool-cases (ltb a.seq b.seq)) [
  | inl e ↦
      let w : newest (some a) (some b) ≡ some b = simp (e, newest) refl in
      absurd (omega (arith, one b refl, cur b w))
  | inr e ↦ simp (e, newest) refl
]

pub newest-lost_left :
    (a b : Option Slot)
    → ((s : Slot) → a ≡ some s → s.slot ≡ 0)
    → ((s : Slot) → newest a b ≡ some s → s.slot % 2 ≡ 1)
    → newest none b ≡ newest a b
unfolding newest
newest-lost_left none b nil cur = refl
newest-lost_left (some a) none nil cur = absurd (omega (arith, nil a refl, cur a refl))
newest-lost_left (some a) (some b) nil cur = elim (Bool-cases (ltb a.seq b.seq)) [
  | inl e ↦ simp (e, newest) refl
  | inr e ↦
      let w : newest (some a) (some b) ≡ some a = simp (e, newest) refl in
      absurd (omega (arith, nil a refl, cur a w))
]

-- The compact slot is taken when no mirror is newer than the one it knows.
pub choose-compact :
    (base : Header) (r : Option Slot) (d : Slot)
    → (r ≡ none → d.legacy_seq ≡ 0)
    → AllBelow (λ q. q ≤ d.legacy_seq) r
    → choose base r (some d) ≡ some (apply_compact base d.content)
unfolding choose
choose-compact base none d z le =
    let e : (d.legacy_seq == 0) ≡ true = ground (arith, z refl) in simp (e, choose) refl
choose-compact base (some r) d z le =
    let e : leb r.seq d.legacy_seq ≡ true = ground (arith, le r refl) in simp (e, choose) refl

-- The mirror is taken when it is newer than the one that the compact slot knows.
pub choose-mirror :
    (base : Header) (r : Slot) (d : Slot)
    → d.legacy_seq < r.seq
    → choose base (some r) (some d) ≡ some (decode r.content)
unfolding choose
choose-mirror base r d lt =
    let e : leb r.seq d.legacy_seq ≡ false = ground arith in simp (e, choose) refl

-- The newest of two slots that `read` judges.
abbrev pub newest_of : (Option File → ℕ → Option Slot) → (ℕ → Option File) → Option Slot
newest_of read slots = newest (read (slots 0) 0) (read (slots 1) 1)

set_slot-at :
    (slots : ℕ → Option File) (i j : ℕ) (f : Option File) → j ≡ i % 2 → set_slot slots i f j ≡ f
unfolding set_slot
set_slot-at slots i j f e = let t : (j == i % 2) ≡ true = ground arith in simp (t, set_slot) refl

set_slot-other :
    (slots : ℕ → Option File) (i j : ℕ) (f : Option File)
    → (j ≡ i % 2 → ⊥)
    → set_slot slots i f j ≡ slots j
unfolding set_slot
set_slot-other slots i j f e =
    let t : (j == i % 2) ≡ false = ground arith in simp (t, set_slot) refl

-- Slots at 0 and 1 after one of them was replaced.
set_slot-both :
    (slots : ℕ → Option File) (i : ℕ) (f : Option File)
    → ((i % 2 ≡ 0) × (set_slot slots i f 0 ≡ f) × (set_slot slots i f 1 ≡ slots 1))
      ⊎ ((i % 2 ≡ 1) × (set_slot slots i f 0 ≡ slots 0) × (set_slot slots i f 1 ≡ f))
set_slot-both slots i f = elim (Bool-cases (i % 2 == 0)) [
  | inl e ↦
      let z : i % 2 ≡ 0 = ground arith in
      inl (z, set_slot-at slots i 0 f (sym z), set_slot-other slots i 1 f (λ o. omega arith))
  | inr e ↦
      let z : i % 2 ≡ 1 = ground arith in
      inr (z, set_slot-other slots i 0 f (λ o. omega arith), set_slot-at slots i 1 f (sym z))
]

module _ (read : Option File → ℕ → Option Slot) (slots : ℕ → Option File) where
  -- A slot with a number above the newest is the newest once it is written.
  pub newest_of-written :
      (i : ℕ) (f : Option File) (s : Slot)
      → read f (i % 2) ≡ some s
      → slot_seq (newest_of read slots) < s.seq
      → newest_of read (set_slot slots i f) ≡ some s
  newest_of-written i f s r lt =
      let (l, m) =
        newest-le (read (slots 0) 0) (read (slots 1) 1) (slot_seq (newest_of read slots))
          (omega arith) in
      elim (set_slot-both slots i f) [
        | inl (z, a, b) ↦
            let r' : read f 0 ≡ some s = rw (sym z) r in
            rw (a, b, r') (newest-left s (read (slots 1) 1) (λ t e. omega (arith, m t e)))
        | inr (z, a, b) ↦
            let r' : read f 1 ≡ some s = rw (sym z) r in
            rw (a, b, r') (newest-right (read (slots 0) 0) s (λ t e. omega (arith, l t e)))
      ]

  -- Losing the slot after that of the newest leaves the newest.
  pub newest_of-lost :
      (i : ℕ) (f : Option File)
      → ((g : Option File) (j : ℕ) (s : Slot) → read g j ≡ some s → s.slot ≡ j)
      → ((s : Slot) → newest_of read slots ≡ some s → s.slot ≡ i)
      → read f ((i + 1) % 2) ≡ none
      → newest_of read (set_slot slots ((i + 1) % 2) f) ≡ newest_of read slots
  newest_of-lost i f at cur r = elim (set_slot-both slots ((i + 1) % 2) f) [
    | inl (z, a, b) ↦
        let z' : (i + 1) % 2 ≡ 0 = omega arith in
        let r' : read f 0 ≡ none = rw (sym z') r in
        rw (a, b, r')
          (newest-lost_left (read (slots 0) 0) (read (slots 1) 1) (λ s e. at (slots 0) 0 s e)
            (λ s e. omega (arith, cur s e)))
    | inr (z, a, b) ↦
        let z' : (i + 1) % 2 ≡ 1 = omega arith in
        let r' : read f 1 ≡ none = rw (sym z') r in
        rw (a, b, r')
          (newest-lost_right (read (slots 0) 0) (read (slots 1) 1) (λ s e. at (slots 1) 1 s e)
            (λ s e. omega (arith, cur s e)))
  ]

  -- A slot put back as it was.
  pub newest_of-same :
      (i : ℕ) (f : Option File)
      → f ≡ slots (i % 2)
      → newest_of read (set_slot slots i f) ≡ newest_of read slots
  newest_of-same i f e = elim (set_slot-both slots i f) [
    | inl (z, a, b) ↦ let g : f ≡ slots 0 = e ∙ ap slots z in rw (a, b, g) refl
    | inr (z, a, b) ↦ let g : f ≡ slots 1 = e ∙ ap slots z in rw (a, b, g) refl
  ]
