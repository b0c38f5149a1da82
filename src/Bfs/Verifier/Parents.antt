-- ===== src/Bfs/Verifier/Parents.antt =====
-- What BFSVerifier sees in a parent, against the depths (src/bfs.cc).
use shared_gapbs.Base.{
  ◌&&◌, not, not, ℕ, ℤ, pos, negsuc, minus_one, ◌==ℤ◌, zero, suc, ◌<◌, ◌≡◌, ◌↔◌, refl, ap, sym, ◌∙◌,
  subst, arith, true, false, ◌==◌, Array, List, [], ◌∷◌, ◌⊎◌, if◌then◌else◌, inl, inr, Bool-cases,
  ==_iff,
}
use shared_gapbs.Stl.{contains}
use shared_gapbs.Graph.{CsrGraph}
use shared_gapbs.Components.Afforest.Labels.{column}
use shared_gapbs.Bfs.{negative}
use shared_gapbs.Bfs.Walks.{Walk-to_source, Chain-Walk, Walk, stay, along, Chain, root, child}
use shared_gapbs.Bfs.Rounds.{IsTransposed}
use shared_gapbs.Bfs.Verifier.{find_edge, check_vertex, one_less}
use shared_gapbs.Bfs.Verifier.Filling.{==ℤ_lem, pos-injective}
use shared_gapbs.Bfs.Verifier.Distances.{IsDistance}

==ℤ_self : (a : ℤ) → (a ==ℤ a) ≡ true
==ℤ_self (pos a) = ground arith
==ℤ_self (negsuc a) = ground arith

-- The parent is found among the in-neighbours, one step nearer.
find_edge-pos :
    (depth : Array ℤ) (own : ℤ) (p : ℕ) (vs : List ℕ)
    → (find_edge depth (pos p) own vs ≡ true) ↔ ((contains p vs ≡ true) × (depth p ≡ one_less own))
unfolding find_edge contains
find_edge-pos depth own p [] = (λ e. absurd (ground (arith, e)), λ e. absurd (ground (arith, e.0)))
find_edge-pos depth own p (v ∷ vs) = elim (Bool-cases (v == p)) [
  | inl here ↦
      let at = (==_iff v p).0 here in
      rw here (
        λ e. (ground (arith, at), ap depth (sym at) ∙ ==ℤ_lem (depth v) (one_less own) e),
        λ e.
            ap (λ z. depth z ==ℤ one_less own) at
            ∙ ap (λ z. z ==ℤ one_less own) (e.1)
            ∙ ==ℤ_self (one_less own),
      )
  | inr other ↦
      let (to, from) = find_edge-pos depth own p vs in
      rw other
        (λ e. (ground (arith, (to e).0), (to e).1), λ e. from (ground (arith, e.0, other), e.1))
]

find_edge-negsuc :
    (depth : Array ℤ) (own : ℤ) (k : ℕ) (vs : List ℕ) → find_edge depth (negsuc k) own vs ≡ false
unfolding find_edge
find_edge-negsuc depth own k [] = refl
find_edge-negsuc depth own k (v ∷ vs) = find_edge-negsuc depth own k vs

pub Chain-negative :
    (g : CsrGraph) (source : ℕ) (p : Array ℤ) (k v : ℕ)
    → Chain g source p k v
    → negative (p v) ≡ false
Chain-negative g source p _ _ (root e) = ap negative e
Chain-negative g source p _ _ (child k u v c x e) = ap negative e

pub IsDistance-Walk :
    (g : CsrGraph) (source : ℕ) (depth : Array ℤ)
    → IsDistance g source depth
    → (v d : ℕ) → depth v ≡ pos d
    → Walk g source d v
IsDistance-Walk g source depth far v d at = elim (far.shown v) [
  | inl new ↦ absurd (ground (arith, new, at))
  | inr (c, e, path) ↦ subst (λ m. Walk g source m v) (pos-injective c d (sym e ∙ at)) path
]

pub check_vertex-new :
    (g : CsrGraph) (source : ℕ) (parent depth : Array ℤ) (v : ℕ)
    → depth v ≡ minus_one
    → check_vertex g source parent depth v ≡ true
    → parent v ≡ minus_one
unfolding check_vertex
check_vertex-new g source parent depth v new ok =
    sym (==ℤ_lem minus_one (parent v) (sym (rw (check_vertex, new) refl) ∙ ok))

-- What a look at a reached vertex shows.
check_vertex-reached :
    (g : CsrGraph) (source : ℕ) (parent depth : Array ℤ) (v d : ℕ)
    → depth v ≡ pos d
    → check_vertex g source parent depth v ≡ true
    → ((v ≡ source) × (parent v ≡ pos v) × (d ≡ 0))
      ⊎ ((p : ℕ) × ((v == source) ≡ false)
          × (parent v ≡ pos p)
          × (contains p (column g v) ≡ true)
          × (depth p ≡ one_less (pos d)))
unfolding check_vertex
check_vertex-reached g source parent depth v d at ok =
    go (parent v) refl (sym (rw (check_vertex, at) refl) ∙ ok)
  where
    go :
        (q : ℤ)
        → parent v ≡ q
        → (if not (q ==ℤ minus_one)
            then (if v == source
                then q ==ℤ pos v && pos d ==ℤ pos 0
                else find_edge depth q (pos d) (column g v))
            else (pos d ==ℤ q))
          ≡ true
        → ((v ≡ source) × (parent v ≡ pos v) × (d ≡ 0))
          ⊎ ((p : ℕ) × ((v == source) ≡ false)
              × (parent v ≡ pos p)
              × (contains p (column g v) ≡ true)
              × (depth p ≡ one_less (pos d)))
    go (pos p) e h = elim (Bool-cases (v == source)) [
      | inl is ↦
          inl ((==_iff v source).0 is, e ∙ ap pos (ground (arith, is, h)), ground (arith, is, h))
      | inr other ↦
          let (to, from) = find_edge-pos depth (pos d) p (column g v) in
          let (c, near) = to (ground (arith, other, h)) in inr (p, other, e, c, near)
    ]
    go (negsuc zero) e h = absurd (ground (arith, h))
    go (negsuc (suc k)) e h =
        absurd (ground (arith, h, find_edge-negsuc depth (pos d) (suc k) (column g v)))

pub Chain-depth :
    (g : CsrGraph) (source : ℕ) (parent depth : Array ℤ)
    → IsTransposed g
    → IsDistance g source depth
    → ((v : ℕ) → v < g.num_nodes → check_vertex g source parent depth v ≡ true)
    → (d v : ℕ) → v < g.num_nodes
    → depth v ≡ pos d
    → Chain g source parent d v
Chain-depth g source parent depth is far ok zero v lt at =
    elim (check_vertex-reached g source parent depth v 0 at (ok v lt)) [
      | inl (is, e, zero_is) ↦
          subst (Chain g source parent 0) (sym is) (root (ap parent (sym is) ∙ e ∙ ap pos is))
      | inr (p, other, e, c, near) ↦
          let start =
            Walk-to_source g source 0 v (IsDistance-Walk g source depth far v 0 at) refl in
          absurd (ground (arith, start, other))
    ]
Chain-depth g source parent depth is far ok (suc d) v lt at =
    elim (check_vertex-reached g source parent depth v (suc d) at (ok v lt)) [
      | inl (is, e, zero_is) ↦ absurd (omega (arith, zero_is))
      | inr (p, other, e, c, near) ↦
          let edge = is.from_in p v lt c in
          child d p v (Chain-depth g source parent depth is far ok d p (edge.0) near) edge e
    ]

pub check_vertex-Chain :
    (g : CsrGraph) (source : ℕ) (parent depth : Array ℤ) (k v : ℕ)
    → IsTransposed g
    → IsDistance g source depth
    → depth v ≡ pos k
    → Chain g source parent k v
    → check_vertex g source parent depth v ≡ true
unfolding check_vertex
check_vertex-Chain g source parent depth _ _ is far at (root e) = rw (at, e) (ground arith)
check_vertex-Chain g source parent depth _ _ is far at (child k u v c x e) =
    let (m, at_u, le) = far.bound k u (Chain-Walk g source parent k u c) in
    let path : Walk g source m u = IsDistance-Walk g source depth far u m at_u in
    let (j, at_v, near) = far.bound (suc m) v (along m u v path x) in
    let same : suc k ≡ j = pos-injective (suc k) j (sym at ∙ at_v) in
    let m_is : m ≡ k = omega (arith, le, near, same) in
    let other : (v == source) ≡ false = elim (Bool-cases (v == source)) [
      | inl is_source ↦
          let (z, at_source, none_less) = far.bound 0 source stay in
          let z_is : suc k ≡ z =
            pos-injective (suc k) z
              (sym at ∙ ap depth ((==_iff v source).0 is_source) ∙ at_source) in
          absurd (omega (arith, z_is, none_less))
      | inr other ↦ other
    ] in
    rw (at, e, other)
      ((find_edge-pos depth (pos (suc k)) u (column g v)).1 (is.to_in u v x, at_u ∙ ap pos m_is))
