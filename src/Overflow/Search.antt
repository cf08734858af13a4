-- ===== src/Overflow/Search.antt =====
-- The search of tsdb_migrate_overflow_h for the old column of a name.
use mathlib.Core.Path.{subst}
use esp_tsdb.Prelude.{
  ℕ, zero, suc, ◌+◌, ◌≤◌, ◌<◌, ◌≡◌, ◌≢◌, refl, arith, sym, ap, Bool, true, false, Bool-cases, not,
  ◌||◌, inl, inr, ltb, ◌==◌, if◌then◌else◌, Option, none, some,
}
use esp_tsdb.Bytes.{Mem}
use esp_tsdb.Names.{same_name}
use esp_tsdb.Overflow.Relayout.{old_column}

-- Two C strings agree in their first 19 characters, or up to the NUL of both.
abbrev pub SameName : Mem → Mem → Type 0
SameName a b = (k : ℕ) → k < 19 → ((m : ℕ) → m < k → a m ≢ 0) → a k ≡ b k

-- The same for the `n` characters from `i` on.
abbrev SameFrom : (n i : ℕ) → Mem → Mem → Type 0
SameFrom n i a b = (k : ℕ) → i ≤ k → k < i + n → ((m : ℕ) → i ≤ m → m < k → a m ≢ 0) → a k ≡ b k

char_lem :
    (x y : ℕ) (rest : Bool)
    → (if not (x == y) then false else x == 0 || rest) ≡ true
    → (x ≡ y) × (x ≢ 0 → rest ≡ true)
char_lem x y rest e = let same : x ≡ y = ground arith in (same, λ ne. ground (arith, ne))

char_back :
    (x y : ℕ) (rest : Bool)
    → x ≡ y
    → (x ≢ 0 → rest ≡ true)
    → (if not (x == y) then false else x == 0 || rest) ≡ true
char_back x y rest e r = elim (Bool-cases (x == 0)) [
  | inl z ↦ ground arith
  | inr z ↦ let t : rest ≡ true = r (λ q. ground arith) in ground arith
]

same_name-SameFrom : (n i : ℕ) (a b : Mem) → same_name n i a b ≡ true → SameFrom n i a b
unfolding same_name
same_name-SameFrom zero i a b e k lo hi ne = absurd (omega arith)
same_name-SameFrom (suc n) i a b e k lo hi ne =
    let (here, rest) = char_lem (a i) (b i) (same_name n (i + 1) a b) e in
    elim (Bool-cases (k == i)) [
      | inl t ↦ let at : k ≡ i = ground arith in subst (λ x. a x ≡ b x) (sym at) here
      | inr t ↦
          let lt : i < k = ground arith in
          same_name-SameFrom n (i + 1) a b (rest (ne i (omega arith) lt)) k (omega arith)
            (omega arith) (λ m le. ne m (omega arith))
    ]

SameFrom-same_name : (n i : ℕ) (a b : Mem) → SameFrom n i a b → same_name n i a b ≡ true
unfolding same_name
SameFrom-same_name zero i a b s = refl
SameFrom-same_name (suc n) i a b s =
    char_back (a i) (b i) (same_name n (i + 1) a b)
      (s i (omega arith) (omega arith) (λ m le lt. absurd (omega arith)))
      (λ nz. SameFrom-same_name n (i + 1) a b (λ k lo hi ne.
        s k (omega arith) (omega arith) (λ m le lt. elim (Bool-cases (m == i)) [
          | inl t ↦ let at : m ≡ i = ground arith in subst (λ x. a x ≢ 0) (sym at) nz
          | inr t ↦ ne m (ground arith) lt
        ])))

same_name_lem : (a b : Mem) → same_name 19 0 a b ≡ true → SameName a b
same_name_lem a b e k lt ne =
    same_name-SameFrom 19 0 a b e k (omega arith) (omega arith) (λ m le. ne m)

other_name_lem : (a b : Mem) → same_name 19 0 a b ≡ false → ¬ SameName a b
other_name_lem a b e s =
    let t =
      SameFrom-same_name 19 0 a b (λ k lo hi ne. s k (omega arith) (λ m. ne m (omega arith))) in
    cc

-- What the search for a name gives.
ColumnPost : (n j : ℕ) → Mem → (ℕ → Mem) → Option ℕ → Type 0
ColumnPost n j name old none = (m : ℕ) → j ≤ m → m < j + n → ¬ SameName name (old m)
ColumnPost n j name old (some c) =
    (j ≤ c)
    × (c < j + n)
    × SameName name (old c)
    × ((m : ℕ) → j ≤ m → m < c → ¬ SameName name (old m))

-- A column that has another name does not change what the search gives.
column_step :
    (n j : ℕ) (name : Mem) (old : ℕ → Mem) (o : Option ℕ)
    → ¬ SameName name (old j)
    → ColumnPost n (j + 1) name old o
    → ColumnPost (suc n) j name old o
unfolding ColumnPost
column_step n j name old none other post = λ m lo hi. elim (Bool-cases (m == j)) [
  | inl t ↦ let at : m ≡ j = ground arith in subst (λ x. ¬ SameName name (old x)) (sym at) other
  | inr t ↦ post m (ground arith) (omega arith)
]
column_step n j name old (some c) other (lo, hi, same, before) = (
  omega arith,
  omega arith,
  same,
  λ m le lt. elim (Bool-cases (m == j)) [
    | inl t ↦ let at : m ≡ j = ground arith in subst (λ x. ¬ SameName name (old x)) (sym at) other
    | inr t ↦ before m (ground arith) lt
  ],
)

old_column_lem :
    (n j : ℕ) (name : Mem) (old : ℕ → Mem) → ColumnPost n j name old (old_column n j name old)
unfolding old_column ColumnPost
old_column_lem zero j name old = λ m lo hi. absurd (omega arith)
old_column_lem (suc n) j name old = elim (Bool-cases (same_name 19 0 name (old j))) [
  | inl t ↦
      rw t (omega arith, omega arith, same_name_lem name (old j) t, λ m lo hi. absurd (omega arith))
  | inr t ↦ rw t (
      column_step n j name old (old_column n (j + 1) name old) (other_name_lem name (old j) t)
        (old_column_lem n (j + 1) name old))
]

-- The first old column of `count` that has the name `name` is number `j`.
pub record IsFirst (count : ℕ) (name : Mem) (old : ℕ → Mem) (j : ℕ) : Type 0 where
  pub inside : j < count
  pub same : SameName name (old j)
  pub before : (m : ℕ) → m < j → ¬ SameName name (old m)

pub old_column-IsFirst :
    (count j : ℕ) (name : Mem) (old : ℕ → Mem)
    → IsFirst count name old j
    → old_column count 0 name old ≡ some j
unfolding ColumnPost
old_column-IsFirst count j name old is =
    go (old_column count 0 name old) (old_column_lem count 0 name old)
  where
    go : (o : Option ℕ) → ColumnPost count 0 name old o → o ≡ some j
    go none post = absurd (post j (omega arith) (omega (arith, is.inside)) is.same)
    go (some c) (lo, hi, same, before) = elim (Bool-cases (ltb c j)) [
      | inl t ↦ absurd (is.before c (ground arith) same)
      | inr t ↦ elim (Bool-cases (ltb j c)) [
        | inl u ↦ absurd (before j (omega arith) (ground arith) is.same)
        | inr u ↦ let at : c ≡ j = ground arith in ap (λ x. some x) at
      ]
    ]

pub old_column-new :
    (count : ℕ) (name : Mem) (old : ℕ → Mem)
    → ((m : ℕ) → m < count → ¬ SameName name (old m))
    → old_column count 0 name old ≡ none
unfolding ColumnPost
old_column-new count name old new =
    go (old_column count 0 name old) (old_column_lem count 0 name old)
  where
    go : (o : Option ℕ) → ColumnPost count 0 name old o → o ≡ none
    go none post = refl
    go (some c) (lo, hi, same, before) = absurd (new c (omega arith) same)
