-- ===== src/Generator.antt =====
-- src/generator.h: class Generator, for unweighted graphs. The parallel loops are run in order of
-- their index. What the generators of random numbers draw is an argument.
pub mod Laws
pub mod Permuting
pub mod Correct
use shared_gapbs.Base.{
  ℕ, ◌+◌, ◌-◌, ◌*◌, ◌/◌, ◌^◌, min, Bool, Array, List, write_all, ltb, if◌then◌else◌, for_range,
  negsuc, minus_one, Run, done, exited, ◌>>=◌,
}
use shared_gapbs.PVector.{PVector, new, get, put, to_list}
use shared_gapbs.Graph.{EdgePair}

-- The largest NodeID, which has 32 bits.
abbrev pub max_node_id : ℕ
max_node_id = 2 ^ 31 - 1

abbrev pub rand_seed : ℕ
rand_seed = 27491095

abbrev pub block_size : ℕ
block_size = 2 ^ 18

pub record Generator : Type 0 where
  pub host_id : ℕ
  pub scale : ℕ
  pub num_nodes : ℕ
  pub num_edges : ℕ

-- The constructor without a host ends the process.
unfoldable pub no_host : ℕ → ℕ → Run Generator
no_host scale degree = exited minus_one

-- `1l << scale` is 2 ^ scale for a scale below 63.
unfoldable pub new_generator : ℕ → ℕ → ℕ → Run Generator
new_generator scale degree host_id =
    let num_nodes = 2 ^ scale in
    if ltb max_node_id num_nodes
    then exited (negsuc 30)
    else done (record {
      host_id = host_id;
      scale = scale;
      num_nodes = num_nodes;
      num_edges = num_nodes * degree;
    })

-- What the allocations hold before they are written to.
pub record Fresh : Type 0 where
  pub el : Array EdgePair
  pub permutation : Array ℕ

-- A point that was drawn, by what its comparisons with A+B, A and A+B+C say.
pub record Point : Type 0 where
  pub below_ab : Bool
  pub above_a : Bool
  pub above_abc : Bool

-- The body of the loop over `depth`, on `src` and `dst`.
descend : Point → ℕ × ℕ → ℕ × ℕ
descend rand_point (src, dst) =
    let src = src * 2 in
    let dst = dst * 2 in
    if rand_point.below_ab
    then (if rand_point.above_a then (src, dst + 1) else (src, dst))
    else (if rand_point.above_abc then (src + 1, dst + 1) else (src + 1, dst))

-- `draw seed k` is the point that is drawn after `k` others since the generator was seeded.
rmat_edge : (ℕ → ℕ → Point) → ℕ → ℕ → ℕ → EdgePair
unfolding descend
rmat_edge draw scale seed drawn =
    let s : ℕ × ℕ = for_range scale 0 (λ depth s. descend (draw seed (drawn + depth)) s) (0, 0) in
    record { u = s.0; v = s.1 }

-- The body of the loop over blocks.
pub rmat_block : (ℕ → ℕ → Point) → Generator → ℕ → PVector EdgePair → PVector EdgePair
unfolding rmat_edge
rmat_block draw gen block el =
    for_range (min (block + block_size) gen.num_edges - block) block
      (λ e el.
        put el e
          (rmat_edge draw gen.scale (rand_seed + block / block_size) ((e - block) * gen.scale)))
      el

pub rmat_blocks : Array EdgePair → (ℕ → ℕ → Point) → Generator → PVector EdgePair
unfolding rmat_block
rmat_blocks fresh draw gen =
    for_range ((gen.num_edges + block_size - 1) / block_size) 0
      (λ i. rmat_block draw gen (i * block_size)) (new fresh gen.num_edges)

-- `shuffle` is `std::shuffle` with a generator of the fixed seed.
pub shuffled : Array ℕ → (List ℕ → List ℕ) → ℕ → PVector ℕ
shuffled fresh shuffle num_nodes =
    let permutation = for_range num_nodes 0 (λ n v. put v n n) (new fresh num_nodes) in
    record permutation { cells = write_all permutation.cells 0 (shuffle (to_list permutation)) }

pub permute_ids : Array ℕ → (List ℕ → List ℕ) → Generator → PVector EdgePair → PVector EdgePair
unfolding shuffled
permute_ids fresh shuffle gen el =
    let permutation = shuffled fresh shuffle gen.num_nodes in
    for_range gen.num_edges 0
      (λ e el.
        put el e (record { u = get permutation (get el e).u; v = get permutation (get el e).v }))
      el

make_rmat_el : Fresh → (ℕ → ℕ → Point) → (List ℕ → List ℕ) → Generator → PVector EdgePair
unfolding rmat_blocks permute_ids
make_rmat_el fresh draw shuffle gen =
    permute_ids fresh.permutation shuffle gen (rmat_blocks fresh.el draw gen)

-- MakeUniformEL ends the process before it allocates.
make_uniform_el : Generator → Run (PVector EdgePair)
make_uniform_el gen = exited minus_one

unfoldable pub generate_el :
    Fresh → (ℕ → ℕ → Point) → (List ℕ → List ℕ) → Generator → Bool → Run (PVector EdgePair)
unfolding make_uniform_el make_rmat_el
generate_el fresh draw shuffle gen uniform =
    if uniform then make_uniform_el gen else done (make_rmat_el fresh draw shuffle gen)

-- What MakeGraph of src/builder.h does with a scale: the edges of the list.
unfoldable pub generate :
    Fresh → (ℕ → ℕ → Point) → (List ℕ → List ℕ) → ℕ → ℕ → ℕ → Bool → Run (List EdgePair)
unfolding new_generator generate_el
generate fresh draw shuffle scale degree host_id uniform = do
  gen ← new_generator scale degree host_id
  el ← generate_el fresh draw shuffle gen uniform
  done (to_list el)
