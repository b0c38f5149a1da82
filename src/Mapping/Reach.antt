-- ===== src/Mapping/Reach.antt =====
-- What the flush of the cache and the cleaner of the mapping reach (src/dmalloc.h).
use shared_gapbs.Base.{
  ◌>>=◌, some, sym, lt_or_le, ℕ, zero, suc, ◌+◌, ◌*◌, ◌/◌, ◌^◌, ◌≤◌, ◌<◌, ◌≡◌, ap, ◌∙◌, ◌⊎◌, inl,
  inr, arith, Array, Bool, true, false, List, [], if◌then◌else◌, ◌&&◌, leb, ltb, map, write,
  for_range, for_range_inv, Run, done, exited, pos,
}
use shared_gapbs.Stl.{contains}
use shared_gapbs.Mapping.{
  Call, read_write, System, bytes_of, one_g, dmalloc, shmalloc, steps, flush_x86_cache,
  munmap_memory,
}
use shared_gapbs.Mapping.Laws.{IsMapped, dmalloc-IsMapped, shmalloc-IsMapped}

-- The cache line of a word is flushed.
steps-covers :
    (p fuel i stop j : ℕ)
    → stop ≤ 8 * i + fuel
    → 8 * i ≤ j
    → j < stop
    → (m : ℕ) × (8 * m ≤ j)
      × (j < 8 * m + 8)
      × (contains (p + 64 * m) (map (λ i. p + 8 * i) (steps fuel (8 * i) stop)) ≡ true)
unfolding steps contains
steps-covers p zero i stop j h lo hi = absurd (omega arith)
steps-covers p (suc fuel) i stop j h lo hi =
    let inside : ltb (8 * i) stop ≡ true = ground arith in
    elim (lt_or_le j (8 * i + 8)) [
      | inr later ↦
          let (m, low, high, e) =
            steps-covers p fuel (suc i) stop j (omega arith) (omega arith) hi in
          let next : 8 * suc i ≡ 8 * i + 8 = omega arith in
          let rest : List ℕ → Bool = λ xs. contains (p + 64 * m) (map (λ i. p + 8 * i) xs) in
          let e' : rest (steps fuel (8 * i + 8) stop) ≡ true =
            ap (λ k. rest (steps fuel k stop)) (sym next) ∙ e in
          (m, low, high, rw inside (ground (arith, e')))
      | inl now ↦
          let same_word : p + 64 * i ≡ p + 8 * (8 * i) = omega arith in
          (i, lo, omega arith, rw inside (ground (arith, same_word)))
    ]

steps-within :
    (p fuel i stop a : ℕ)
    → contains a (map (λ i. p + 8 * i) (steps fuel i stop)) ≡ true
    → (p ≤ a) × (a < p + 8 * stop)
unfolding steps contains
steps-within p zero i stop a e = absurd (ground arith)
steps-within p (suc fuel) i stop a e = ground (arith, steps-within p fuel (i + 8) stop a)

-- The flush of a region of less than 2 ^ 34 GiB reaches, for each of its bytes, the start of the
-- 64-byte line, counted from the start of the region, that the byte is in, and no address outside
-- of the region.
pub flush_x86_cache-covers :
    (p size : ℕ)
    → size < 2 ^ 34
    → ((j : ℕ)
        → j < size * one_g
        → (m : ℕ) × (64 * m ≤ j)
          × (j < 64 * m + 64)
          × (contains (p + 64 * m) (flush_x86_cache p size) ≡ true))
      × ((a : ℕ) → contains a (flush_x86_cache p size) ≡ true → (p ≤ a) × (a < p + size * one_g))
unfolding flush_x86_cache
flush_x86_cache-covers p size h = (
  λ j lt.
      let stop = bytes_of size / 8 in
      let (m, low, high, e) =
        steps-covers p stop 0 stop (j / 8) (omega arith) (omega arith) (omega arith) in
      (m, omega arith, omega arith, e),
  λ a e.
      let within = steps-within p (bytes_of size / 8) 0 (bytes_of size / 8) a e in
      (within.0, omega arith),
)

-- The memory with the bytes of a region set to 0.
abbrev pub zeroed : ℕ → ℕ → Array ℕ → Array ℕ
zeroed start len memory j = if leb start j && ltb j (start + len) then 0 else memory j

zero_all :
    (start len : ℕ) (memory : Array ℕ) (j : ℕ)
    → for_range len 0 (λ i memory. write memory (start + i) 0) memory j ≡ zeroed start len memory j
zero_all start len memory j =
    for_range_inv (λ i (s : Array ℕ). s j ≡ zeroed start i memory j) len
      (λ i memory. write memory (start + i) 0) len 0 memory (omega arith)
      (λ i s lo hi e. ground arith) (ground arith)

-- The cleaner ends with EXIT_FAILURE, or has mapped the region with the right to write and set
-- every byte of it to 0, and no other.
pub record IsCleaned (sys : System) (size : ℕ) (memory : Array ℕ) (result : Run (Array ℕ))
    : Type 0 where
  pub cleaned :
      ((start fd : ℕ) × (after : Array ℕ) × (sys.maps (bytes_of size) read_write fd ≡ some start)
        × (result ≡ done after)
        × ((j : ℕ) → after j ≡ zeroed start (bytes_of size) memory j))
      ⊎ (result ≡ exited (pos 1))

IsMapped-IsCleaned :
    (sys : System) (size : ℕ) (memory : Array ℕ) (r : List Call × Run ℕ)
    → IsMapped sys size 0 r
    → IsCleaned sys size memory (
        r.1 >>= λ start.
        done (for_range (bytes_of size) 0 (λ i memory. write memory (start + i) 0) memory))
IsMapped-IsCleaned sys size memory r is =
    let zero_from : ℕ → Run (Array ℕ) =
      λ start. done (for_range (bytes_of size) 0 (λ i memory. write memory (start + i) 0) memory) in
    elim is.result [
      | inl (start, fd, e, maps) ↦ record {
        cleaned = inl (
          start,
          fd,
          for_range (bytes_of size) 0 (λ i memory. write memory (start + i) 0) memory,
          maps,
          ap (λ result. result >>= zero_from) e,
          zero_all start (bytes_of size) memory,
        );
      }
      | inr e ↦ record { cleaned = inr (ap (λ result. result >>= zero_from) e) }
    ]

-- On the master munmap_memory ends with EXIT_FAILURE, or maps the region with the right to write
-- and sets every byte of it to 0, and no other; on every other host it makes no call and leaves
-- the memory as it is.
pub munmap_memory-IsCleaned :
    (sys : System) (size : ℕ) (test_mode : Bool) (host_id : ℕ) (memory : Array ℕ)
    → IsCleaned sys size memory (munmap_memory sys size test_mode 0 memory).1
      × (munmap_memory sys size test_mode (suc host_id) memory ≡ ([], done memory))
unfolding munmap_memory
munmap_memory-IsCleaned sys size true host_id memory = (
  IsMapped-IsCleaned sys size memory (shmalloc sys size 0) (shmalloc-IsMapped sys size 0),
  ground arith,
)
munmap_memory-IsCleaned sys size false host_id memory = (
  IsMapped-IsCleaned sys size memory (dmalloc sys size 0) (dmalloc-IsMapped sys size 0),
  ground arith,
)
