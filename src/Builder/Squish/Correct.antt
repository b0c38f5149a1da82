-- ===== src/Builder/Squish/Correct.antt =====
-- SquishCSR of src/builder.h as a whole: what the neighbourhoods of the new graph are.
use shared_gapbs.Base.{
  ℕ, suc, ◌+◌, ◌-◌, ◌<◌, ◌≡◌, refl, ap, sym, ◌∙◌, arith, slice, length, false, some, done, not,
  ◌&&◌, ◌==◌,
}
use shared_gapbs.Graph.{CsrGraph, undirected, to_list, out_neigh}
use shared_gapbs.Graph.Laws.{to_list-out_neigh}
use shared_gapbs.Stl.{squish, contains, AscendsFrom}
use shared_gapbs.Stl.Laws.{AscendsFrom-squish, contains-squish}
use shared_gapbs.Builder.Squish.{Fresh, Squished, squish_cells, squish_csr}
use shared_gapbs.Builder.Squish.Rows.{IsMonotone}
use shared_gapbs.Builder.Squish.Copies.{squished_row, squish_cells-Laid, at-step}

module _ (fresh : Fresh) (g : CsrGraph) (mono : IsMonotone g.num_nodes g.out_index) where
  abbrev pub squished : Squished
  squished = squish_cells fresh g.out_index g.out_cells g.num_nodes

  -- The undirected graph made of the new arrays.
  abbrev pub squished_graph : ℕ → CsrGraph
  squished_graph unset = undirected unset g.num_nodes squished.sq_index squished.sq_neighs

  pub to_list-squished :
      (unset v : ℕ)
      → v < g.num_nodes
      → to_list (out_neigh (squished_graph unset) v 0) ≡ squish v (to_list (out_neigh g v 0))
  unfolding undirected
  to_list-squished unset v lt =
      let index = squished.sq_index in
      let here = squished_row fresh g.num_nodes g.out_index g.out_cells mono v in
      let next : index (v + 1) ≡ index (suc v) = ap index (omega arith) in
      let size : index (v + 1) - index v ≡ length here =
        omega (arith, next, at-step fresh g.num_nodes g.out_index g.out_cells mono v lt) in
      to_list-out_neigh (squished_graph unset) v 0
      ∙ ap (slice squished.sq_neighs (index v)) size
      ∙ (squish_cells-Laid fresh g.num_nodes g.out_index g.out_cells mono).laid v lt
      ∙ ap (squish v) (sym (to_list-out_neigh g v 0))

  -- For a graph with a non-decreasing index: SquishCSR of the out-neighbours, with index_x set,
  -- succeeds, and in the graph made of its result the neighbours of a vertex are strictly
  -- ascending and are exactly the old neighbours other than the vertex itself.
  pub squish_csr-neighbours :
      (index_x unset v z : ℕ)
      → v < g.num_nodes
      → (squish_csr fresh g false (some index_x) ≡ done squished)
        × AscendsFrom 0 (to_list (out_neigh (squished_graph unset) v 0))
        × (contains z (to_list (out_neigh (squished_graph unset) v 0))
            ≡ (contains z (to_list (out_neigh g v 0)) && not (z == v)))
  unfolding squish_csr
  squish_csr-neighbours index_x unset v z lt =
      let e = to_list-squished unset v lt in
      (
        refl,
        rw e (AscendsFrom-squish v (to_list (out_neigh g v 0))),
        rw e (contains-squish z v (to_list (out_neigh g v 0))),
      )
