-- ===== src/Generator/Correct.antt =====
-- The generated edge list (src/generator.h), and the graph that MakeGraph (src/builder.h) makes of it.
use shared_gapbs.Base.{
  inr, inl, Bool-cases, ℕ, zero, suc, ◌+◌, ◌-◌, ◌*◌, ◌^◌, ◌≤◌, ◌<◌, ◌≡◌, refl, ap, sym, subst, ◌∙◌,
  arith, max, Array, Bool, true, false, List, [], ◌∷◌, length, length-slice, slice, done, exited,
  negsuc, minus_one, some, Rearranges-below, ltb, if◌then◌else◌,
}
use native.Mathlib.Nat.{pow-le-pow_right}
use mathlib.Core.List.{Permᴰ}
use shared_gapbs.PVector.{PVector, get, to_list}
use shared_gapbs.Graph.{EdgePair, CsrGraph}
use shared_gapbs.SharedGraph.{Mapping}
use shared_gapbs.Builder.Degrees.{Options, find_max, find_max_node_id, arcs, targets}
use shared_gapbs.Builder.Degrees.Laws.{AllLe}
use shared_gapbs.Builder.Make
use shared_gapbs.Builder.Make.{edges, make_graph_master, make_graph_worker, mapped}
use shared_gapbs.Builder.Make.Edges.{length-arcs, targets_le}
use shared_gapbs.Mapping.{bytes_of}
use shared_gapbs.Builder.Make.Correct.{IsGraphOf, make_graph-IsGraphOf}
use shared_gapbs.Generator.{
  Generator, Fresh, Point, max_node_id, rmat_blocks, permute_ids, generate,
}
use shared_gapbs.Generator.Laws.{EndsBelow, rmat_blocks-Generated}
use shared_gapbs.Generator.Permuting.{permute_ids-renumbered}

-- The scale is refused exactly from 31 on.
refused : (scale : ℕ) → 31 ≤ scale → ltb max_node_id (2 ^ scale) ≡ true
refused scale h =
    let large : 2 ^ 31 ≤ 2 ^ scale = pow-le-pow_right (omega arith) h in ground (arith, large)

bounded : (scale : ℕ) → scale < 31 → 2 ^ scale ≤ 2 ^ 30
bounded scale h = let le : scale ≤ 30 = omega (arith, h) in pow-le-pow_right (omega arith) le

accepted : (scale : ℕ) → scale < 31 → ltb max_node_id (2 ^ scale) ≡ false
accepted scale h = let small = bounded scale h in ground (arith, small)

positive : (scale : ℕ) → 0 < 2 ^ scale
positive scale =
    let none : 0 ≤ scale = omega arith in
    let least : 2 ^ 0 ≤ 2 ^ scale = pow-le-pow_right (omega arith) none in omega (arith, least)

slice-AllLe :
    (n m p : ℕ) (a : Array EdgePair)
    → ((i : ℕ) → p ≤ i → i < p + n → ((a i).u ≤ m) × ((a i).v ≤ m))
    → AllLe m (slice a p n)
slice-AllLe zero m p a h = tt
slice-AllLe (suc n) m p a h =
    let (u, v) = h p (omega arith) (omega arith) in
    (u, v, slice-AllLe n m (suc p) a (λ i lo hi. h i (omega (arith, lo)) (omega (arith, hi))))

find_max_le : (m n : ℕ) (el : List EdgePair) → m ≤ n → AllLe n el → find_max m el ≤ n
unfolding find_max
find_max_le m n [] h a = h
find_max_le m n (e ∷ el) h a =
    find_max_le (max (max m e.u) e.v) n el (omega (arith, h, a.0, a.1)) a.2

module _ (fresh : Fresh) (draw : ℕ → ℕ → Point) (shuffle : List ℕ → List ℕ)
    (permutes : (xs : List ℕ) → Permᴰ xs (shuffle xs)) (scale degree host_id : ℕ) where
  abbrev gen : Generator
  gen = record {
    host_id = host_id;
    scale = scale;
    num_nodes = 2 ^ scale;
    num_edges = 2 ^ scale * degree;
  }

  abbrev raw : PVector EdgePair
  raw = rmat_blocks fresh.el draw gen

  abbrev el : PVector EdgePair
  el = permute_ids fresh.permutation shuffle gen raw

  el_size : el.size ≡ 2 ^ scale * degree
  el_size =
      (permute_ids-renumbered shuffle permutes fresh.permutation gen raw).2
      ∙ (rmat_blocks-Generated draw gen refl fresh.el).room

  el_ends : (e : ℕ) → e < 2 ^ scale * degree → EndsBelow (2 ^ scale) (get el e)
  el_ends e h =
      let (σ, keeps, size, moved) =
        permute_ids-renumbered shuffle permutes fresh.permutation gen raw in
      let ends = (rmat_blocks-Generated draw gen refl fresh.el).ends e h in
      subst (EndsBelow (2 ^ scale)) (sym (moved e h)) (
        Rearranges-below (2 ^ scale) σ keeps (get raw e).u ends.0,
        Rearranges-below (2 ^ scale) σ keeps (get raw e).v ends.1,
      )

  el_made : scale < 31 → generate fresh draw shuffle scale degree host_id false ≡ done (to_list el)
  unfolding generate
  el_made small = rw (accepted scale small) refl

  el_length : length (to_list el) ≡ 2 ^ scale * degree
  el_length = length-slice el.cells 0 el.size ∙ el_size

  el_AllLe : AllLe (2 ^ scale - 1) (to_list el)
  el_AllLe = slice-AllLe el.size (2 ^ scale - 1) 0 el.cells (λ i lo hi.
      let ends = el_ends i (omega (arith, hi, el_size)) in
      (omega (arith, ends.0), omega (arith, ends.1)))

  outcome :
      (uniform : Bool)
      → generate fresh draw shuffle scale degree host_id uniform ≡ (
          if ltb scale 31
          then (if uniform then exited minus_one else done (to_list el))
          else exited (negsuc 30))
  unfolding generate
  outcome true = elim (Bool-cases (ltb scale 31)) [
    | inl small ↦ rw (small, accepted scale (ground arith)) refl
    | inr large ↦ rw (large, refused scale (ground arith)) refl
  ]
  outcome false = elim (Bool-cases (ltb scale 31)) [
    | inl small ↦ rw (small, accepted scale (ground arith)) refl
    | inr large ↦ rw (large, refused scale (ground arith)) refl
  ]

  -- With a shuffle that permutes and a scale below 63, whatever points are drawn and whatever
  -- memory is given: there is a list of 2 ^ scale * degree edges between vertices below 2 ^ scale
  -- that the generator yields when the scale is below 31; it ends the process with -1 instead when
  -- uniform edges are asked for, and with -31 when the scale is 31 or more.
  pub generate-AllLe :
      scale < 63
      → (el : List EdgePair) × ((uniform : Bool)
          → generate fresh draw shuffle scale degree host_id uniform ≡ (
              if ltb scale 31
              then (if uniform then exited minus_one else done el)
              else exited (negsuc 30)))
        × (length el ≡ 2 ^ scale * degree)
        × AllLe (2 ^ scale - 1) el
  generate-AllLe shift = (to_list el, outcome, el_length, el_AllLe)

  last_le : find_max_node_id (to_list el) ≤ 2 ^ scale - 1
  unfolding find_max_node_id
  last_le = find_max_le 0 (2 ^ scale - 1) (to_list el) (omega arith) el_AllLe

  -- For a scale below 31 with 2 * 2 ^ scale * degree less than 2 ^ 31, a shuffle that permutes,
  -- with symmetrize and without in-place construction, when the allocations of the mapping succeed
  -- on the master and on another host and both mappings have at least 4 * (2 * 2 ^ scale + 4 * 2 ^
  -- scale * degree + 9) bytes: whatever points are drawn and whatever memory is given, the
  -- generator yields an edge list, MakeGraph of it succeeds on the master with the simple
  -- undirected graph of that list, which has at most 2 ^ scale vertices, and on the other host,
  -- when it sees the mapping that the master left, with a graph that is the simple undirected
  -- graph of the list too.
  pub generate-IsGraphOf :
      (made made' : Make.Fresh) (o : Options) (host ptr ptr' : ℕ) (invert : Bool) (m : Mapping)
      → o.symmetrize ≡ true
      → o.in_place ≡ false
      → scale < 31
      → 2 * (2 ^ scale * degree) < 2 ^ 31
      → mapped made 0 ≡ done ptr
      → mapped made' (suc host) ≡ done ptr'
      → 4 * (2 * 2 ^ scale + 4 * (2 ^ scale * degree) + 9) ≤ bytes_of made.size_of_shmem
      → 4 * (2 * 2 ^ scale + 4 * (2 ^ scale * degree) + 9) ≤ bytes_of made'.size_of_shmem
      → (el : List EdgePair) × (m' : Mapping) × (g : CsrGraph) × (w : CsrGraph) × (generate fresh
            draw shuffle scale degree host_id false
          ≡ done el)
        × (make_graph_master made o invert
              (edges (generate fresh draw shuffle scale degree host_id false))
              m
            ≡ done (m', g))
        × (make_graph_worker made' o invert (suc host) (m'.cells ∷ []) ≡ done (some w))
        × (g.num_nodes ≤ 2 ^ scale)
        × IsGraphOf el g
        × IsGraphOf el w
  generate-IsGraphOf made made' o host ptr ptr' invert m symmetric apart small sparse got got' room
        room' =
      let top = last_le in
      let nodes = bounded scale small in
      let least = positive scale in
      let (m', g, w, e, e', is, is') =
        make_graph-IsGraphOf made o (to_list el) symmetric apart (omega (arith, top, nodes, least))
          (few_targets sparse) (omega (arith, el_length, sparse)) made' host ptr ptr' invert m got
          got' (omega (arith, top, el_length, least, room))
          (omega (arith, top, el_length, least, room')) in
      (
        to_list el,
        m',
        g,
        w,
        el_made small,
        ap (λ input. make_graph_master made o invert (edges input) m) (el_made small) ∙ e,
        e',
        omega (arith, is.nodes, top, least),
        is,
        is',
      )
    where
      few_targets :
          2 * (2 ^ scale * degree) < 2 ^ 31
          → (v : ℕ) → length (targets v (arcs true false (to_list el))) < 2 ^ 31
      few_targets sparse v =
          let most = targets_le v (arcs true false (to_list el)) in
          let both = length-arcs false (to_list el) in omega (arith, most, both, el_length, sparse)
