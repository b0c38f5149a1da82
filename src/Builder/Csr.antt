-- ===== src/Builder/Csr.antt =====
-- MakeCSR of src/builder.h: the counting sort of an edge list into CSR form.
pub mod Regions
pub mod Correct
use shared_gapbs.Base.{
  ℕ, ◌+◌, Bool, true, false, not, ◌&&◌, ◌||◌, Array, write, List, [], ◌∷◌, if◌then◌else◌,
}
use shared_gapbs.Atomics.{fetch_and_add}
use shared_gapbs.PVector.{PVector, get, put}
use shared_gapbs.Graph.{EdgePair, gen_index, undirected, CsrGraph}
use shared_gapbs.Builder.PrefixSum.{parallel_prefix_sum}
use shared_gapbs.Builder.Degrees.{Options, count_degrees, find_max_node_id}

-- What the allocations of one call hold before it writes to them.
pub record Fresh : Type 0 where
  pub degrees : Array ℕ
  pub local_sums : Array ℕ
  pub bulk_prefix : Array ℕ
  pub offsets : Array ℕ
  pub neighs : Array ℕ
  pub index : Array ℕ

pub record Placing : Type 0 where
  pub neighs : Array ℕ
  pub offsets : PVector ℕ

-- `(*neighs)[fetch_and_add(offsets[n], 1)] = x;`
pub place : ℕ → ℕ → Placing → Placing
place n x s =
    let (at, next) = fetch_and_add (get s.offsets n) 1 in
    record { neighs = write s.neighs at x; offsets = put s.offsets n next }

-- The body of the loop of MakeCSR; GetSource of an unweighted edge is `e.u`.
pub place_edge : Options → Bool → Placing → EdgePair → Placing
unfolding place
place_edge o transpose s e =
    let out = if o.symmetrize || (not o.symmetrize && not transpose) then place e.u e.v s else s in
    if o.symmetrize || (not o.symmetrize && transpose) then place e.v e.u out else out

pub place_each : Options → Bool → Placing → List EdgePair → Placing
place_each o transpose s [] = s
place_each o transpose s (e ∷ el) = place_each o transpose (place_edge o transpose s e) el

-- `index`, `neighs`, the length of `neighs`, and the member `index_x`.
pub record Csr : Type 0 where
  pub index : Array ℕ
  pub neighs : Array ℕ
  pub neighs_size : ℕ
  pub index_x : ℕ

pub make_csr : Fresh → Options → ℕ → List EdgePair → Bool → Csr
unfolding place_each
make_csr fresh o num_nodes el transpose =
    let degrees = count_degrees fresh.degrees o num_nodes el transpose in
    let offsets = parallel_prefix_sum fresh.local_sums fresh.bulk_prefix fresh.offsets degrees in
    let s = place_each o transpose (record { neighs = fresh.neighs; offsets = offsets }) el in
    record {
      index = gen_index fresh.index offsets 0;
      neighs = s.neighs;
      neighs_size = get offsets num_nodes;
      index_x = offsets.size;
    }
