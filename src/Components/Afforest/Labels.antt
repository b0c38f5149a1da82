-- ===== src/Components/Afforest/Labels.antt =====
-- What a labelling of the components of a graph is (src/cc.cc, src/cc_sv.cc).
use shared_gapbs.Base.{
  ℕ, ◌≤◌, ◌<◌, ◌≡◌, refl, ap, sym, subst, ◌∙◌, ◌⊎◌, inl, inr, ◌↔◌, arith, Array, List, true, drop,
  for_range_inv, lt_suc_cases, write, if◌then◌else◌,
}
use shared_gapbs.Graph.{CsrGraph, to_list, out_neigh, in_neigh}
use shared_gapbs.Graph.Laws.{to_list-out_neigh}
use shared_gapbs.Stl.{contains}
use shared_gapbs.Components.Closure.{
  Connected, one, same, back, on, Connected-ap, Connected-map, Points, IsForest,
}
use shared_gapbs.Components.Afforest.{init_comp}
use shared_gapbs.Components.Afforest.Growing.{Grows}

abbrev pub row : CsrGraph → ℕ → List ℕ
row g u = to_list (out_neigh g u 0)

abbrev pub column : CsrGraph → ℕ → List ℕ
column g u = to_list (in_neigh g u 0)

-- An edge out of a vertex of the graph.
abbrev pub Edge : CsrGraph → ℕ → ℕ → Type 0
Edge g x y = (x < g.num_nodes) × (contains y (row g x) ≡ true)

-- The neighbours are vertices, and every edge is found from its other end: in a directed graph
-- among the in-neighbours, which are the ends of edges, and otherwise among the out-neighbours.
pub record IsMirrored (g : CsrGraph) : Type 0 where
  pub inside : (u v : ℕ) → Edge g u v → v < g.num_nodes
  pub mirror :
      (u v : ℕ) → Edge g u v → contains u (if g.directed then column g v else row g v) ≡ true
  pub in_edges : (u v : ℕ) → u < g.num_nodes → contains v (column g u) ≡ true → Edge g v u

-- Every vertex is labelled with a vertex that labels itself and is not above it, and two vertices
-- have the same label exactly if edges connect them.
pub record IsLabelling (g : CsrGraph) (comp : Array ℕ) : Type 0 where
  pub below : (x : ℕ) → x < g.num_nodes → comp x ≤ x
  pub root : (x : ℕ) → x < g.num_nodes → comp (comp x) ≡ comp x
  pub agrees :
      (x y : ℕ) → x < g.num_nodes → y < g.num_nodes → (comp x ≡ comp y) ↔ Connected (Edge g) x y

pub init_comp_lem : (n : ℕ) (fresh : Array ℕ) (i : ℕ) → i < n → init_comp n fresh i ≡ i
unfolding init_comp
init_comp_lem n fresh i h =
    for_range_inv (λ k (comp : Array ℕ). (i : ℕ) → i < k → comp i ≡ i) n (λ n comp. write comp n n)
      n 0 fresh (omega arith) (λ k s lo hi p j lt. ground (arith, lt_suc_cases j k lt, p j))
      (λ j lt. absurd (omega arith)) i h

pub init_comp-IsForest : (n : ℕ) (fresh : Array ℕ) → IsForest n (init_comp n fresh)
init_comp-IsForest n fresh x h = omega (arith, init_comp_lem n fresh x h)

-- In a flat forest, connected vertices have the same parent.
pub Connected-label :
    (n : ℕ) (comp : Array ℕ)
    → ((k : ℕ) → k < n → comp (comp k) ≡ comp k)
    → (x y : ℕ) → Connected (Points n comp) x y
    → comp x ≡ comp y
Connected-label n comp flat =
    Connected-ap (Points n comp) comp (λ x y e. sym (flat x (e.0)) ∙ ap comp (e.1))

-- Vertices with the same parent are connected.
pub label-Connected :
    (n : ℕ) (comp : Array ℕ) (x y : ℕ)
    → x < n
    → y < n
    → comp x ≡ comp y
    → Connected (Points n comp) x y
label-Connected n comp x y h k e = on x (comp x) y (one x (comp x) (h, refl)) (
    subst (λ z. Connected (Points n comp) z y) (sym e) (back y (comp y) (one y (comp y) (k, refl))))

-- A flat forest that grew from single vertices along edges, and connects every edge, is a labelling.
pub Grows-IsLabelling :
    (g : CsrGraph) (fresh comp : Array ℕ)
    → Grows g.num_nodes (Edge g) (init_comp g.num_nodes fresh) comp
    → ((x y : ℕ) → Edge g x y → Connected (Points g.num_nodes comp) x y)
    → ((k : ℕ) → k < g.num_nodes → comp (comp k) ≡ comp k)
    → IsLabelling g comp
Grows-IsLabelling g fresh comp gr edges flat = record {
  below = gr.forest;
  root = flat;
  agrees = λ x y h k. (
    λ e. Connected-map _ _ start x y (gr.sound x y (label-Connected g.num_nodes comp x y h k e)),
    λ c. Connected-label g.num_nodes comp flat x y (Connected-map _ _ edges x y c),
  );
}
  where
    start :
        (x y : ℕ)
        → Points g.num_nodes (init_comp g.num_nodes fresh) x y ⊎ Edge g x y
        → Connected (Edge g) x y
    start x y (inl (h, e)) =
        subst (Connected (Edge g) x) (sym (init_comp_lem g.num_nodes fresh x h) ∙ e) (same x)
    start x y (inr e) = one x y e

-- Iterating from an offset goes over the neighbours behind it.
pub out_neigh_offset : (g : CsrGraph) (u r : ℕ) → to_list (out_neigh g u r) ≡ drop r (row g u)
out_neigh_offset g u r = to_list-out_neigh g u r ∙ ap (drop r) (sym (to_list-out_neigh g u 0))
