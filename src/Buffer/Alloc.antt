-- ===== src/Buffer/Alloc.antt =====
-- Allocating and freeing the pool: no page is lost, whichever malloc fails.
use esp_tsdb.Prelude.{
  ◌%◌, ℕ, zero, suc, ◌+◌, ◌-◌, ◌*◌, ◌/◌, ◌≤◌, ◌<◌, ◌≡◌, ◌≢◌, ◌⊎◌, inl, inr, refl, Bool, true, false,
  arith, ltb, Bool-cases, ◌==◌, if◌then◌else◌,
}
use esp_tsdb.Format.{EspErr, esp_ok, err_no_mem, u32}
use esp_tsdb.Buffer.{
  Pool, Heap, Caps, AllocStrategy, alloc_caps, free_pages, alloc_pages, alloc_paged,
  alloc_contiguous, alloc_buffer_pool, free_buffer_pool, set_page, set_flag, max_pages, zero_pool,
}

-- The pages from `j` on, `n` of them, are allocated.
abbrev pub AreHeld : Pool → (j n : ℕ) → Type 0
AreHeld p j n = (k : ℕ) → j ≤ k → k < j + n → p.allocated k ≡ true

-- Freeing `n` pages that are held gives `n` blocks back.
live-free_pages :
    (n j : ℕ) (p : Pool) (hp : Heap) → AreHeld p j n → (free_pages n j p hp).1.live ≡ hp.live - n
unfolding free_pages
live-free_pages zero j p hp held = omega arith
live-free_pages (suc n) j p hp held =
    let p' = record p { allocated = set_flag p.allocated j false } in
    let held' : AreHeld p' (j + 1) n = λ k lo hi. unfold set_flag in ground (arith, held k) in
    rw (held j (omega arith) (omega arith)) (
      let ih = live-free_pages n (j + 1) p' (record hp { live = hp.live - 1 }) held' in
      omega (arith, ih))

-- What a pool that was allocated looks like.
pub record IsAllocated (pool : Pool) (before after : Heap) : Type 0 where
  pub held : AreHeld pool 0 pool.num_pages
  pub counted : after.live ≡ before.live + pool.num_pages

record Grown (p q : Pool) (n i : ℕ) (hp hq : Heap) : Type 0 where
  pages : q.num_pages ≡ p.num_pages + n
  shape : (q.page_size ≡ p.page_size) × (q.total_size ≡ p.total_size) × (q.is_paged ≡ p.is_paged)
  held : AreHeld q 0 (i + n)
  live : hq.live ≡ hp.live + n

alloc_pages-Grown :
    (caps : Caps) (n i : ℕ) (p : Pool) (hp : Heap)
    → AreHeld p 0 i
    → i ≤ hp.live
    → let (e, q, hq) = alloc_pages caps n i p hp in
      ((e ≡ esp_ok) × Grown p q n i hp hq) ⊎ ((e ≡ err_no_mem) × (hq.live ≡ hp.live - i))
unfolding alloc_pages
alloc_pages-Grown caps zero i p hp held le = inl (
  refl,
  record {
    pages = omega arith;
    shape = (refl, refl, refl);
    held = λ k lo hi. held k lo (omega arith);
    live = omega arith;
  },
)
alloc_pages-Grown caps (suc n) i p hp held le = elim (Bool-cases (hp.gives caps i)) [
  | inr e ↦ rw e (inr (refl, live-free_pages i 0 p hp held))
  | inl e ↦
      let p' : Pool = record p {
        pages = set_page p.pages i (hp.content i);
        allocated = set_flag p.allocated i true;
        num_pages = p.num_pages + 1;
      } in
      let hp' : Heap = record hp { live = hp.live + 1 } in
      let held' : AreHeld p' 0 (i + 1) = λ k lo hi. unfold set_flag in ground (arith, held k) in
      rw e (elim (alloc_pages-Grown caps n (i + 1) p' hp' held' (omega arith)) [
        | inl (k, g) ↦ inl (
          k,
          record {
            pages = omega (arith, g.pages);
            shape = g.shape;
            held = λ j lo hi. g.held j lo (omega arith);
            live = omega (arith, g.live);
          },
        )
        | inr (k, l) ↦ inr (k, omega (arith, l))
      ])
]

-- How tsdb_alloc_buffer_pool may end.
abbrev pub Settled : (total_size : ℕ) → Heap → EspErr × Pool × Heap → Type 0
Settled total_size hp (e, q, hq) =
    ((e ≡ esp_ok)
      × IsAllocated q hp hq
      × (q.total_size ≡ total_size)
      × (0 < q.page_size)
      × (0 < q.num_pages)
      × (q.is_paged ≡ true → total_size ≤ q.num_pages * q.page_size))
    ⊎ ((e ≢ esp_ok) × (hq.live ≡ hp.live))

exact_pages : (t ps : ℕ) → 0 < ps → 0 < t → (t ≤ (t + ps - 1) / ps * ps) × (0 < (t + ps - 1) / ps)
exact_pages t ps h k = grind arith

enough_pages :
    (t ps : ℕ)
    → 0 < ps
    → 0 < t
    → t + ps ≤ u32
    → (t ≤ (t + ps + u32 - 1) % u32 / ps * ps) × (0 < (t + ps + u32 - 1) % u32 / ps)
enough_pages t ps h k small =
    let e : (t + ps + u32 - 1) % u32 ≡ t + ps - 1 = omega arith in rw e (exact_pages t ps h k)

alloc_pages-Settled :
    (caps : Caps) (n : ℕ) (p : Pool) (hp : Heap)
    → 0 < p.page_size
    → p.num_pages ≡ 0
    → 0 < n
    → p.total_size ≤ n * p.page_size
    → Settled p.total_size hp (alloc_pages caps n 0 p hp)
alloc_pages-Settled caps n p hp h z k le =
    elim (alloc_pages-Grown caps n 0 p hp (λ j lo hi. absurd (omega arith)) (omega arith)) [
      | inl (e, g) ↦ inl (
        e,
        record {
          held = λ j lo hi. g.held j lo (omega (arith, g.pages));
          counted = omega (arith, g.pages, g.live);
        },
        g.shape.1,
        omega (arith, g.shape),
        omega (arith, g.pages),
        λ _. rw (g.pages, g.shape.0, z) (omega arith),
      )
      | inr (e, l) ↦ inr (λ o. cc, omega (arith, l))
    ]

alloc_paged-Settled :
    (caps : Caps) (p : Pool) (hp : Heap)
    → 0 < p.page_size
    → p.num_pages ≡ 0
    → 0 < p.total_size
    → p.total_size + p.page_size ≤ u32
    → Settled p.total_size hp (alloc_paged caps p hp)
unfolding alloc_paged
alloc_paged-Settled caps p hp h z k small =
    let n = (p.total_size + p.page_size + u32 - 1) % u32 / p.page_size in
    let (le, pos) = enough_pages p.total_size p.page_size h k small in
    elim (Bool-cases (ltb max_pages n)) [
      | inl e ↦ rw e (inr (λ o. cc, refl))
      | inr e ↦ rw e (alloc_pages-Settled caps n p hp h z pos le)
    ]

alloc_contiguous-Settled :
    (caps : Caps) (p : Pool) (hp : Heap)
    → 0 < p.page_size
    → p.is_paged ≡ false
    → Settled p.total_size hp (alloc_contiguous caps p hp)
unfolding alloc_contiguous
alloc_contiguous-Settled caps p hp h c = elim (Bool-cases (hp.gives caps 0)) [
  | inr e ↦ rw e (inr (λ o. cc, refl))
  | inl e ↦ rw e (
      inl (
        refl,
        record { held = λ j lo hi. unfold set_flag in ground arith; counted = refl },
        refl,
        h,
        omega arith,
        λ q. cc,
      ))
]

-- tsdb_alloc_buffer_pool either succeeds, with every page that it counts held, the pages of a paged
-- pool large enough for it, and no other block taken; or it fails and the heap has as many live
-- blocks as before, whichever malloc failed. This is for a total and a page size (2048 where the
-- caller gives 0) whose sum is at most 2 ^ 32, so that the size_t of the page count does not wrap.
pub alloc_buffer_pool-Settled :
    (total_size : ℕ) (use_paged : Bool) (page_size : ℕ) (strategy : AllocStrategy) (spiram_free : ℕ)
    (pool : Pool) (hp : Heap)
    → total_size + (if ltb 0 page_size then page_size else 2048) ≤ u32
    → Settled total_size hp
        (alloc_buffer_pool total_size use_paged page_size strategy spiram_free pool hp)
unfolding alloc_buffer_pool
alloc_buffer_pool-Settled total_size use_paged page_size strategy spiram_free pool hp small =
    let ps = if ltb 0 page_size then page_size else 2048 in
    let p = record zero_pool { page_size = ps; total_size = total_size; is_paged = use_paged } in
    let caps = alloc_caps strategy spiram_free total_size in
    let ps_pos : 0 < ps = ground arith in
    elim (Bool-cases (total_size == 0)) [
      | inl z ↦ rw z (inr (λ o. cc, refl))
      | inr nz ↦ rw nz (elim (Bool-cases use_paged) [
        | inl b ↦ rw b (
            alloc_paged-Settled caps (record p { is_paged = true }) hp ps_pos refl (ground arith)
              small)
        | inr b ↦
            rw b (alloc_contiguous-Settled caps (record p { is_paged = false }) hp ps_pos refl)
      ])
    ]

-- tsdb_free_buffer_pool on a pool whose pages are all held, after an allocation that took a block for
-- each, leaves as many live blocks as there were before it.
pub free_buffer_pool-alloc :
    (pool : Pool) (before after : Heap)
    → IsAllocated pool before after
    → (free_buffer_pool pool after).1.live ≡ before.live
unfolding free_buffer_pool
free_buffer_pool-alloc pool before after v =
    omega (arith, live-free_pages pool.num_pages 0 pool after v.held, v.counted)
