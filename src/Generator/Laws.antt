-- ===== src/Generator/Laws.antt =====
-- MakeRMatEL of src/generator.h, before the edges are permuted: edges of vertices.
use shared_gapbs.Base.{
  subst, ℕ, suc, ◌+◌, ◌-◌, ◌*◌, ◌/◌, ◌^◌, ◌<◌, ◌≡◌, inl, inr, refl, arith, min, Array, lt_suc_cases,
  for_range_inv,
}
use shared_gapbs.PVector.{PVector, new, get}
use shared_gapbs.Graph.{EdgePair}
use shared_gapbs.Generator.{
  Generator, Point, descend, rmat_edge, block_size, rand_seed, rmat_block, rmat_blocks,
}

-- Both ends are below `n`.
abbrev pub EndsBelow : ℕ → EdgePair → Type 0
EndsBelow n e = (e.u < n) × (e.v < n)

rmat_edge-EndsBelow :
    (draw : ℕ → ℕ → Point) (scale seed drawn : ℕ)
    → EndsBelow (2 ^ scale) (rmat_edge draw scale seed drawn)
unfolding rmat_edge descend
rmat_edge-EndsBelow draw scale seed drawn =
    for_range_inv (λ depth (s : ℕ × ℕ). (s.0 < 2 ^ depth) × (s.1 < 2 ^ depth)) scale
      (λ depth s. descend (draw seed (drawn + depth)) s) scale 0 (0, 0) (omega arith)
      (λ depth s lo hi h.
        let double : 2 ^ suc depth ≡ 2 * 2 ^ depth = omega arith in
        let bits : (s.0 < 2 ^ depth) × (s.1 < 2 ^ depth) = h in ground (arith, double, bits))
      (omega arith, omega arith)

module _ (draw : ℕ → ℕ → Point) (gen : Generator) (size : gen.num_nodes ≡ 2 ^ gen.scale) where
  -- The edges below `i` are made.
  pub record Generated (i : ℕ) (el : PVector EdgePair) : Type 0 where
    pub room : el.size ≡ gen.num_edges
    pub ends : (e : ℕ) → e < i → EndsBelow gen.num_nodes (get el e)

  rmat_block-Generated :
      (i : ℕ) (el : PVector EdgePair)
      → Generated (i * block_size) el
      → i * block_size < gen.num_edges
      → Generated
          (min (i * block_size + block_size) gen.num_edges)
          (rmat_block draw gen (i * block_size) el)
  unfolding rmat_block
  rmat_block-Generated i el g h =
      let stop = min (i * block_size + block_size) gen.num_edges in
      for_range_inv Generated stop _ (stop - i * block_size) (i * block_size) el (omega (arith, h))
        (λ e el lo hi g. record {
          room = g.room;
          ends = λ k lt. elim (lt_suc_cases k e lt) [
            | inl below ↦ let before = g.ends k below in ground arith
            | inr at ↦
                let ends =
                  rmat_edge-EndsBelow draw gen.scale (rand_seed + i * block_size / block_size)
                    ((e - i * block_size) * gen.scale) in
                rw size (ground arith)
          ];
        })
        g

  pub rmat_blocks-Generated :
      (fresh : Array EdgePair) → Generated gen.num_edges (rmat_blocks fresh draw gen)
  unfolding rmat_blocks
  rmat_blocks-Generated fresh =
      let rounds = (gen.num_edges + block_size - 1) / block_size in
      let g =
        for_range_inv (λ i el. Generated (min (i * block_size) gen.num_edges) el) rounds
          (λ i. rmat_block draw gen (i * block_size)) rounds 0 (new fresh gen.num_edges)
          (omega arith)
          (λ i el lo hi g.
            let start : i * block_size < gen.num_edges = omega arith in
            let here : min (i * block_size) gen.num_edges ≡ i * block_size = omega arith in
            let next : min (i * block_size + block_size) gen.num_edges
                ≡ min (suc i * block_size) gen.num_edges =
              omega arith in
            subst (λ stop. Generated stop (rmat_block draw gen (i * block_size) el)) next
              (rmat_block-Generated i el (subst (λ stop. Generated stop el) here g) start))
          (record { room = refl; ends = λ e lt. absurd (omega arith) }) in
      subst (λ stop. Generated stop (rmat_blocks fresh draw gen)) (omega arith) g
