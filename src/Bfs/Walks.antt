-- ===== src/Bfs/Walks.antt =====
-- Shortest walks from the source, and how a step of the breadth-first search extends them
-- (src/bfs.cc).
use shared_gapbs.Base.{
  refl, ℕ, ℤ, pos, suc, ◌≤◌, ◌<◌, ◌≡◌, ap, sym, ◌∙◌, ◌⊎◌, inl, inr, arith, Array, true, false, List,
  Bool-cases, lt_or_le,
}
use shared_gapbs.Stl.{contains}
use shared_gapbs.Graph.{CsrGraph}
use shared_gapbs.Components.Afforest.Labels.{Edge}
use shared_gapbs.Bfs.{negative}
use shared_gapbs.Bfs.Discovery.{Discovers, Discovers-stays}

-- A walk along edges from the source.
pub data Walk (g : CsrGraph) (source : ℕ) : ℕ → ℕ → Type 0 where
  stay : Walk g source 0 source
  along : (k u v : ℕ) → Walk g source k u → Edge g u v → Walk g source (suc k) v

-- A walk along edges from parents to their children.
pub data Chain (g : CsrGraph) (source : ℕ) (p : Array ℤ) : ℕ → ℕ → Type 0 where
  root : p source ≡ pos source → Chain g source p 0 source
  child : (k u v : ℕ) → Chain g source p k u → Edge g u v → p v ≡ pos u → Chain g source p (suc k) v

pub Walk-to_source : (g : CsrGraph) (source j v : ℕ) → Walk g source j v → j ≡ 0 → v ≡ source
Walk-to_source g source _ _ stay e = refl
Walk-to_source g source _ _ (along k u v w edge) e = absurd (omega (arith, e))

pub Chain-Walk :
    (g : CsrGraph) (source : ℕ) (p : Array ℤ) (k v : ℕ) → Chain g source p k v → Walk g source k v
Chain-Walk g source p _ _ (root e) = stay
Chain-Walk g source p _ _ (child k u v c x e) = along k u v (Chain-Walk g source p k u c) x

-- Some shortest walk to the vertex follows the parents.
pub record IsShortest (g : CsrGraph) (source : ℕ) (p : Array ℤ) (v : ℕ) : Type 0 where
  pub depth : ℕ
  pub parents : Chain g source p depth v
  pub shortest : (j : ℕ) → Walk g source j v → depth ≤ j

-- After `d` rounds: the vertices with a parent are those with a walk of at most `d` edges, with a
-- shortest one along the parents, and edges lead out of them only from active ones.
pub record Searching (g : CsrGraph) (source : ℕ) (p : Array ℤ) (Active : ℕ → Type 0) (d : ℕ)
    : Type 0 where
  pub active : (v : ℕ) → Active v → (v < g.num_nodes) × (negative (p v) ≡ false)
  pub closed :
      (v : ℕ)
      → v < g.num_nodes
      → negative (p v) ≡ false
      → Active v ⊎ ((w : ℕ) → Edge g v w → negative (p w) ≡ false)
  pub tree :
      (v : ℕ)
      → v < g.num_nodes
      → negative (p v) ≡ false
      → (s : IsShortest g source p v) × (s.depth ≤ d)
  pub near : (j v : ℕ) → Walk g source j v → j ≤ d → negative (p v) ≡ false

Chain-stays :
    (g : CsrGraph) (source : ℕ) (E : ℕ → ℕ → Type 0) (p q : Array ℤ) (ds : List ℕ)
    → Discovers E p q ds
    → (k v : ℕ) → Chain g source p k v
    → Chain g source q k v
Chain-stays g source E p q ds d _ _ (root e) =
    root (Discovers-stays E p q ds d source (ap negative e) ∙ e)
Chain-stays g source E p q ds d _ _ (child k u v c x e) =
    child k u v (Chain-stays g source E p q ds d k u c) x
      (Discovers-stays E p q ds d v (ap negative e) ∙ e)

-- What is the case with a vertex before a round, or is discovered in it.
module _ (g : CsrGraph) (source : ℕ) (inside : (u v : ℕ) → Edge g u v → v < g.num_nodes)
    (E : ℕ → ℕ → Type 0) (Active : ℕ → Type 0) (p q : Array ℤ) (ds : List ℕ) (d : ℕ)
    (s : Searching g source p Active d) (disc : Discovers E p q ds)
    (to : (u v : ℕ) → E u v → Active u × Edge g u v)
    (from : (u v : ℕ) → Active u → Edge g u v → E u v) where
  still : (v : ℕ) → negative (p v) ≡ false → negative (q v) ≡ false
  still v h = ap negative (Discovers-stays E p q ds disc v h) ∙ h

  before : (v : ℕ) → contains v ds ≡ false → negative (q v) ≡ false → negative (p v) ≡ false
  before v absent h = ap negative (sym (disc.kept v absent)) ∙ h

  out_of : (u v : ℕ) → Edge g u v → negative (p u) ≡ false → negative (q v) ≡ false
  out_of u v e h = elim (s.closed u e.0 h) [
    | inl a ↦ disc.reached u v (from u v a e)
    | inr c ↦ still v (c v e)
  ]

  IsShortest-stays :
      (v : ℕ)
      → (t : IsShortest g source p v) × (t.depth ≤ d)
      → (t : IsShortest g source q v) × (t.depth ≤ suc d)
  IsShortest-stays v (t, le) = (
    record {
      depth = t.depth;
      parents = Chain-stays g source E p q ds disc t.depth v t.parents;
      shortest = t.shortest;
    },
    omega arith,
  )

  near_before : (j v : ℕ) → Walk g source j v → j ≤ suc d → negative (q v) ≡ false
  near_before _ _ stay h = still source (s.near 0 source stay (omega arith))
  near_before _ _ (along k u v w e) h = out_of u v e (s.near k u w (omega arith))

  discovered : (v : ℕ) → contains v ds ≡ true → (t : IsShortest g source q v) × (t.depth ≤ suc d)
  discovered v h =
      let (u, x, at) = disc.found v h in
      let (a, e) = to u v x in
      let (t, le) = s.tree u e.0 (s.active u a).1 in
      (
        record {
          depth = suc t.depth;
          parents = child t.depth u v (Chain-stays g source E p q ds disc t.depth u t.parents) e at;
          shortest = λ j w. elim (lt_or_le d j) [
            | inl later ↦ omega arith
            | inr early ↦
                let known = s.near j v w early in let unknown = disc.fresh v h in absurd cc
          ];
        },
        omega arith,
      )

  pub Searching-step : Searching g source q (λ v. contains v ds ≡ true) (suc d)
  Searching-step = record {
    active = λ v h. let (u, x, at) = disc.found v h in (inside u v (to u v x).1, ap negative at);
    closed = λ v lt h. elim (Bool-cases (contains v ds)) [
      | inl now ↦ inl now
      | inr absent ↦ inr (λ w e. out_of v w e (before v absent h))
    ];
    tree = λ v lt h. elim (Bool-cases (contains v ds)) [
      | inl now ↦ discovered v now
      | inr absent ↦ IsShortest-stays v (s.tree v lt (before v absent h))
    ];
    near = near_before;
  }

-- More vertices may count as active, and any that is not must be closed.
pub Searching-map :
    (g : CsrGraph) (source : ℕ) (p : Array ℤ) (A B : ℕ → Type 0) (d : ℕ)
    → ((v : ℕ) → B v → (v < g.num_nodes) × (negative (p v) ≡ false))
    → ((v : ℕ) → v < g.num_nodes → A v → B v)
    → Searching g source p A d
    → Searching g source p B d
Searching-map g source p A B d active to s = record {
  active = active;
  closed = λ v lt h. elim (s.closed v lt h) [ inl a ↦ inl (to v lt a) | inr c ↦ inr c ];
  tree = s.tree;
  near = s.near;
}

-- When no vertex is active any more, every walk leads to a vertex with a parent.
pub Searching-end :
    (g : CsrGraph) (source : ℕ) (p : Array ℤ) (A : ℕ → Type 0) (d : ℕ)
    → Searching g source p A d
    → ((v : ℕ) → A v → ⊥)
    → (j v : ℕ) → Walk g source j v
    → negative (p v) ≡ false
Searching-end g source p A d s none _ _ stay = s.near 0 source stay (omega arith)
Searching-end g source p A d s none _ _ (along k u v w e) =
    elim (s.closed u e.0 (Searching-end g source p A d s none k u w)) [
      | inl a ↦ absurd (none u a)
      | inr c ↦ c v e
    ]
