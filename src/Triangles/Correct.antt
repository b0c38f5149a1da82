-- ===== src/Triangles/Correct.antt =====
-- OrderedCount of src/tc.cc counts every triple once and never runs past a neighbourhood.
use shared_gapbs.Base.{
  ℕ, zero, suc, ◌+◌, ◌≤◌, ◌<◌, ◌≡◌, refl, ap, ◌∙◌, arith, true, List, [], ◌∷◌, ltb, some,
  Bool-cases, inl, inr,
}
use shared_gapbs.Graph.{CsrGraph, to_list, out_neigh}
use shared_gapbs.Stl.{contains, AscendsFrom}
use shared_gapbs.Triangles.{count_v, count_u, ordered_count, closing, wedges, triangles}
use shared_gapbs.Triangles.Scan.{count_w_lem, AscendsFrom-weaken}

module _ (row : ℕ → List ℕ) (n : ℕ) (sorted : (v : ℕ) → v < n → AscendsFrom 0 (row v)) where
  wedges_none : (u : ℕ) (vs : List ℕ) → AscendsFrom (suc u) vs → wedges row u vs ≡ 0
  wedges_none u [] a = refl
  wedges_none u (v ∷ vs) a =
      let later = wedges_none u vs (AscendsFrom-weaken v u vs (omega (arith, a.0)) a.1) in
      ground (arith, later, a.0)

  count_v_lem :
      (u k : ℕ) (vs : List ℕ) (total : ℕ)
      → u < n
      → AscendsFrom k vs
      → ((z : ℕ) → contains z vs ≡ true → contains z (row u) ≡ true)
      → count_v row u vs total ≡ some (wedges row u vs + total)
  unfolding count_v contains
  count_v_lem u k [] total lt a sub = ap some (omega arith)
  count_v_lem u k (v ∷ vs) total lt a sub = elim (Bool-cases (ltb u v)) [
    | inl above ↦
        let rest = wedges_none u (v ∷ vs) (ground arith, a.1) in
        rw (above, count_v) (ap some (omega (arith, rest)))
    | inr within ↦
        let here : contains v (row u) ≡ true = sub v (ground arith) in
        let inner =
          count_w_lem (row u) (row u) 0 v 0 (row v) total (sorted u lt) (sorted v (ground arith))
            here (λ z le. refl) in
        let again =
          count_v_lem u (suc v) vs (closing (row u) v (row v) + total) lt a.1
            (λ z c. sub z (ground arith)) in
        rw (within, inner, count_v) (again ∙ ap some (ground arith))
  ]

  pub count_u_lem : (u : ℕ) → u ≤ n → count_u row u ≡ some (triangles row u)
  unfolding count_u
  count_u_lem zero h = refl
  count_u_lem (suc u) h =
      let inner = count_v_lem u 0 (row u) (triangles row u) h (sorted u h) (λ z c. c) in
      rw (count_u_lem u (omega arith)) (inner ∙ ap some (omega arith))

-- On a graph with strictly ascending neighbourhoods OrderedCount never reads past a neighbourhood,
-- and yields the number of triples w <= v <= u of which v is a neighbour of u, and w of both.
pub ordered_count-triangles :
    (g : CsrGraph)
    → ((v : ℕ) → v < g.num_nodes → AscendsFrom 0 (to_list (out_neigh g v 0)))
    → ordered_count g ≡ some (triangles (λ u. to_list (out_neigh g u 0)) g.num_nodes)
unfolding ordered_count
ordered_count-triangles g sorted =
    count_u_lem (λ u. to_list (out_neigh g u 0)) g.num_nodes sorted g.num_nodes (omega arith)
