-- ===== src/Components/Verifier/Correct.antt =====
-- The verdict of CCVerifier (src/cc.cc, src/cc_sv.cc).
use shared_gapbs.Base.{
  all_below_lem, ℕ, ◌+◌, ◌<◌, ◌≡◌, refl, ap, sym, ◌∙◌, subst, arith, Bool, true, false, Array, List,
  ◌↔◌, Option, none, some, inl, inr, Bool-cases,
}
use shared_gapbs.Bitmap as Bits
use shared_gapbs.Bitmap.{Bitmap, get_bit, set_bit}
use shared_gapbs.Bitmap.Laws.{get_bit-reset}
use shared_gapbs.Graph.{CsrGraph}
use shared_gapbs.Stl.{contains}
use shared_gapbs.Components.Closure.{Connected-ap, Connected, back, on}
use shared_gapbs.Components.Afforest.Labels.{Edge, IsMirrored, IsLabelling}
use shared_gapbs.Components.Afforest.{afforest}
use shared_gapbs.Components.Afforest.Correct.{afforest-IsLabelling}
use shared_gapbs.Components.Hooking.{shiloach_vishkin}
use shared_gapbs.Components.Hooking.Correct.{shiloach_vishkin-IsLabelling}
use shared_gapbs.Components.Verifier.{
  label_to_source, all_visited, cc_verifier, Ending, rejected, reached, unfinished, search_each,
}
use shared_gapbs.Components.Verifier.Searches.{
  IsSource, Found, label_to_source-IsSource, label_to_source-some, search_each-Ends,
}
use shared_gapbs.Components.Verifier.Searching.{
  Settled, Ends, near-Connected, row-near, mirror-near,
}

-- Two vertices have the same label exactly if edges connect them.
abbrev pub Labels : CsrGraph → Array ℕ → Type 0
Labels g comp =
    (x y : ℕ) → x < g.num_nodes → y < g.num_nodes → (comp x ≡ comp y) ↔ Connected (Edge g) x y

Settled-Labels :
    (g : CsrGraph) (comp : Array ℕ) (sources : Array (Option ℕ)) (c : Bitmap)
    → Settled g comp sources c
    → ((v : ℕ) → v < g.num_nodes → get_bit c v ≡ true)
    → Labels g comp
Settled-Labels g comp sources c p all x y hx hy = (
  λ e.
      let (r, er, cr) = p.known x hx (all x hx) in
      let (q, eq, cq) = p.known y hy (all y hy) in
      let same : q ≡ r = ground (arith, ap sources e, er, eq) in
      on x r y (back r x cr) (subst (λ z. Connected (Edge g) z y) same cq),
  Connected-ap (Edge g) comp
      (λ u v e. sym ((p.closed u (e.0) (all u (e.0)) v (row-near g u v (e.1))).1)) x y,
)

Labels-visited :
    (g : CsrGraph) (comp : Array ℕ) (sources : Array (Option ℕ)) (labels : List ℕ) (c : Bitmap)
    → IsMirrored g
    → IsSource g.num_nodes comp sources
    → ((v : ℕ) → v < g.num_nodes → (r : ℕ) × (sources (comp v) ≡ some r))
    → ((v : ℕ) → v < g.num_nodes → contains (comp v) labels ≡ true)
    → Settled g comp sources c
    → Found sources labels (reached c)
    → Labels g comp
    → (v : ℕ) → v < g.num_nodes
    → get_bit c v ≡ true
Labels-visited g comp sources labels c m src has held p found agrees v lt =
    let (r, e) = has v lt in
    let (at, label) = src (comp v) r e in
    let visited : get_bit c r ≡ true = found (comp v) r (held v lt) e in
    sym (Connected-ap (Edge g) (get_bit c) alike r v ((agrees r v at lt).0 label)) ∙ visited
  where
    alike : (x y : ℕ) → Edge g x y → get_bit c x ≡ get_bit c y
    alike x y e = elim (Bool-cases (get_bit c x)) [
      | inl old ↦ old ∙ sym ((p.closed x (e.0) old y (row-near g x y (e.1))).0)
      | inr new ↦ elim (Bool-cases (get_bit c y)) [
        | inl old ↦ (p.closed y (m.inside x y e) old x (mirror-near g x y m e)).0 ∙ sym old
        | inr none_of ↦ new ∙ sym none_of
      ]
    ]

-- On a graph, directed or not, whose neighbours are vertices and whose edges are found from both
-- ends, and whatever memory the bitmap is given: when the iteration over the map meets every label
-- of a vertex, in any order, CCVerifier ends, and it answers true exactly if any two vertices have
-- the same label exactly if edges connect them.
pub cc_verifier-Labels :
    (g : CsrGraph) (labels : List ℕ) (comp fresh : Array ℕ)
    → IsMirrored g
    → ((v : ℕ) → v < g.num_nodes → contains (comp v) labels ≡ true)
    → (verdict : Bool) × (cc_verifier fresh labels g comp ≡ some verdict)
      × ((verdict ≡ true) ↔ Labels g comp)
unfolding cc_verifier all_visited
cc_verifier-Labels g labels comp fresh m held =
    go (search_each comp g (g.num_nodes + 2) sources labels start) (
      search_each-Ends g comp sources labels start m (label_to_source-IsSource comp g.num_nodes)
        empty)
  where
    sources : Array (Option ℕ)
    sources = label_to_source comp g.num_nodes

    start : Bitmap
    start = Bits.reset (Bits.new fresh g.num_nodes)

    empty : Settled g comp sources start
    empty = record {
      known = λ v k bit. absurd (ground (arith, get_bit-reset fresh g.num_nodes v k, bit));
      closed = λ v k bit. absurd (ground (arith, get_bit-reset fresh g.num_nodes v k, bit));
    }

    go :
        (o : Ending)
        → Ends g comp sources start o × Found sources labels o
        → (verdict : Bool) × (elim o [
          | rejected ↦ some false
          | reached c ↦ some (all_visited g.num_nodes c)
          | unfinished ↦ none
        ]
            ≡ some verdict)
          × ((verdict ≡ true) ↔ Labels g comp)
    go rejected ((u, v, lt, c, differ), f) = (
      false,
      refl,
      (
        λ e. absurd (ground (arith, e)),
        λ agrees.
            let (lv, path) = near-Connected g u v m lt c in
            absurd (ground (arith, differ, (agrees u v lt lv).1 path)),
      ),
    )
    go (reached c) ((p, k), f) =
        let (to, from) = all_below_lem g.num_nodes (get_bit c) in
        (
          all_visited g.num_nodes c,
          refl,
          (
            λ e. Settled-Labels g comp sources c p (to e),
            λ agrees. from (
                Labels-visited g comp sources labels c m (label_to_source-IsSource comp g.num_nodes)
                  (label_to_source-some comp g.num_nodes) held p f agrees),
          ),
        )
    go unfinished (p, f) = elim p [ ]

cc_verifier-true :
    (g : CsrGraph) (labels : List ℕ) (comp bits : Array ℕ)
    → IsMirrored g
    → ((v : ℕ) → v < g.num_nodes → contains (comp v) labels ≡ true)
    → IsLabelling g comp
    → cc_verifier bits labels g comp ≡ some true
cc_verifier-true g labels comp bits m held p =
    let (verdict, e, accepts) = cc_verifier-Labels g labels comp bits m held in
    e ∙ ap some (accepts.1 p.agrees)

-- On a graph, directed or not, whose neighbours are vertices and whose edges are found from both
-- ends: when the iteration over the map meets every label of a vertex, in any order, Afforest and
-- ShiloachVishkin end, and CCVerifier answers true for the labels of both.
pub cc_verifier-afforest-shiloach_vishkin :
    (g : CsrGraph) (order : Array ℕ → List ℕ) (fresh bits : Array ℕ) (sample : Array ℕ → ℕ)
    (rounds : ℕ)
    → IsMirrored g
    → ((comp : Array ℕ) (v : ℕ) → v < g.num_nodes → contains (comp v) (order comp) ≡ true)
    → (a b : Array ℕ) × (afforest fresh sample g rounds ≡ some a)
      × (shiloach_vishkin fresh g ≡ some b)
      × (cc_verifier bits (order a) g a ≡ some true)
      × (cc_verifier bits (order b) g b ≡ some true)
cc_verifier-afforest-shiloach_vishkin g order fresh bits sample rounds m held =
    let (a, ea, pa) = afforest-IsLabelling g m fresh sample rounds in
    let (b, eb, pb) = shiloach_vishkin-IsLabelling g m.inside fresh in
    (
      a,
      b,
      ea,
      eb,
      cc_verifier-true g (order a) a bits m (held a) pa,
      cc_verifier-true g (order b) b bits m (held b) pb,
    )
