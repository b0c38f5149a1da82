-- ===== src/Components/EdgeList.antt =====
-- The components of an edge list, and what Afforest (src/cc.cc) and ShiloachVishkin
-- (src/cc_sv.cc) find on the graph that MakeGraph (src/builder.h) makes of it.
use shared_gapbs.Base.{
  Bool-cases, ℕ, ◌≤◌, ◌<◌, ◌≡◌, inl, inr, ◌↔◌, refl, ap, subst, ◌∙◌, arith, Array, true, false,
  ◌==◌, List, [], ◌∷◌, some, if◌then◌else◌,
}
use shared_gapbs.Graph.{EdgePair, CsrGraph}
use shared_gapbs.Stl.{contains}
use shared_gapbs.Builder.Degrees.{find_max_node_id}
use shared_gapbs.Builder.Degrees.Laws.{AllLe, find_max_node_id-AllLe}
use shared_gapbs.Builder.Make.Edges.{joined}
use shared_gapbs.Builder.Make.Correct.{IsRow, IsGraphOf}
use shared_gapbs.Components.Closure.{Connected, one, same, Connected-map}
use shared_gapbs.Components.Afforest.{afforest}
use shared_gapbs.Components.Afforest.Labels.{row, column, Edge, IsMirrored}
use shared_gapbs.Components.Afforest.Correct.{afforest-IsLabelling}

pub joined-swap : (v z : ℕ) (el : List EdgePair) → joined v z el ≡ joined z v el
joined-swap v z [] = refl
joined-swap v z (e ∷ el) = ground (arith, joined-swap v z el)

joined_le : (v z m : ℕ) (el : List EdgePair) → AllLe m el → joined v z el ≡ true → z ≤ m
joined_le v z m [] h e = absurd (ground arith)
joined_le v z m (x ∷ el) h e = ground (arith, joined_le v z m el)

-- An edge of the list joins the two.
abbrev pub Joined : List EdgePair → ℕ → ℕ → Type 0
Joined el x y = joined x y el ≡ true

-- What is in a row, and what is in the row of its other end.
pub IsRow-Joined :
    (el : List EdgePair) (v z : ℕ) (xs : List ℕ)
    → IsRow el v xs
    → contains z xs ≡ true
    → Joined el v z × (z == v ≡ false)
IsRow-Joined el v z xs is e = let adjacent = is.adjacent z in ground arith

pub IsRow-contains :
    (el : List EdgePair) (v z : ℕ) (xs : List ℕ)
    → IsRow el v xs
    → Joined el z v
    → v == z ≡ false
    → contains z xs ≡ true
IsRow-contains el v z xs is e ne =
    let adjacent = is.adjacent z in let swapped = joined-swap v z el in ground arith

module _ (el : List EdgePair) (g : CsrGraph) (is : IsGraphOf el g) where
  pub within : (u v : ℕ) → Joined el u v → v < g.num_nodes
  within u v e =
      omega (arith, is.nodes, joined_le u v (find_max_node_id el) el (find_max_node_id-AllLe el) e)

  within_row : (u v : ℕ) → Joined el u v → u < g.num_nodes
  within_row u v e = within v u (joined-swap v u el ∙ e)

  row-IsRow : (v : ℕ) → v < g.num_nodes → IsRow el v (row g v)
  row-IsRow v h = is.out_rows v (omega (arith, is.nodes))

  pub out-Edge : (u v : ℕ) → Edge g u v → Joined el u v × (v == u ≡ false)
  out-Edge u v (lt, e) = IsRow-Joined el u v (row g u) (row-IsRow u lt) e

  Edge-back : (u v : ℕ) → Joined el u v → v == u ≡ false → Edge g v u
  Edge-back u v e ne =
      (within u v e, IsRow-contains el v u (row g v) (row-IsRow v (within u v e)) e ne)

  -- A graph of an edge list has each edge in the rows of both of its ends.
  pub IsGraphOf-IsMirrored : IsMirrored g
  IsGraphOf-IsMirrored = record {
    inside = λ u v e. within u v (out-Edge u v e).0;
    mirror = λ u v e.
        ap (λ b. contains u (if b then column g v else row g v)) is.undirected
        ∙ (Edge-back u v (out-Edge u v e).0 (out-Edge u v e).1).1;
    in_edges = λ u v h e.
        let (j, ne) = IsRow-Joined el u v (column g u) (is.in_rows u (omega (arith, is.nodes))) e in
        Edge-back u v j ne;
  }

  -- A joined pair is an edge, or one vertex.
  connects : (u v : ℕ) → Joined el u v → Connected (Edge g) u v
  connects u v e = elim (Bool-cases (u == v)) [
    | inl eq ↦
        let same_vertex : u ≡ v = ground arith in subst (Connected (Edge g) u) same_vertex (same u)
    | inr ne ↦ one u v (Edge-back v u (joined-swap v u el ∙ e) ne)
  ]

  Edge-Joined : (x y : ℕ) → Connected (Edge g) x y ↔ Connected (Joined el) x y
  Edge-Joined x y = (
    Connected-map (Edge g) (Joined el) (λ u v e. one u v (out-Edge u v e).0) x y,
    Connected-map (Joined el) (Edge g) connects x y,
  )

  -- On the simple undirected graph of an edge list, Afforest ends, whatever memory it is given,
  -- however many rounds it samples and whichever component the sampling picks, and gives two
  -- vertices the same label exactly if edges of the list connect them.
  pub afforest-components :
      (fresh : Array ℕ) (sample : Array ℕ → ℕ) (neighbor_rounds : ℕ)
      → (comp : Array ℕ) × (afforest fresh sample g neighbor_rounds ≡ some comp)
        × ((x y : ℕ)
            → x ≤ find_max_node_id el
            → y ≤ find_max_node_id el
            → (comp x ≡ comp y) ↔ Connected (Joined el) x y)
  afforest-components fresh sample k =
      let (comp, e, l) = afforest-IsLabelling g IsGraphOf-IsMirrored fresh sample k in
      (
        comp,
        e,
        λ x y hx hy.
            let labels = l.agrees x y (omega (arith, is.nodes)) (omega (arith, is.nodes)) in
            (λ same. (Edge-Joined x y).0 (labels.0 same), λ c. labels.1 ((Edge-Joined x y).1 c)),
      )
