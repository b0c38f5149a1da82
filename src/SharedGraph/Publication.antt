-- ===== src/SharedGraph/Publication.antt =====
-- The order of the master's stores (src/graph.h): the synchronization variable comes last.
use mathlib.Core.Option.{some-injective}
use shared_gapbs.Base.{
  ℕ, ◌≤◌, ◌<◌, ◌≡◌, refl, ap, sym, subst, ◌∙◌, ◌≢◌, true, false, eq_or_ne, inl, inr, arith, Array,
  write, List, [], ◌∷◌, ◌++◌, map, take, length, length-append, some, lt_or_le, ◌==◌,
}
use shared_gapbs.Graph.{CsrGraph}
use shared_gapbs.SharedGraph.{
  Mapping, Local, store, store_metadata, store_row_sizes, store_graph, master, attach, await,
  worker,
}
use shared_gapbs.SharedGraph.Writing.{IsCsr, IsStored}
use shared_gapbs.SharedGraph.Stored.{master-IsStored, pointers-row_at}
use shared_gapbs.SharedGraph.Reading.{IsCopy}
use shared_gapbs.SharedGraph.RoundTrip.{attach-IsCopy}
use shared_gapbs.SharedGraph.Stores.{
  replay, replay-append, replay_sync, AvoidsSync-take, take_all, take-append, IsLogged,
  store64-IsLogged, store_row_sizes-IsLogged, store_neighs-IsLogged, store_rows-IsLogged,
}

pub worker-skip :
    (cells : Array ℕ) (later : List (Array ℕ)) (fresh_out fresh_in : Array ℕ)
    → cells 0 ≢ 1
    → worker (cells ∷ later) fresh_out fresh_in ≡ worker later fresh_out fresh_in
unfolding worker
worker-skip cells later fresh_out fresh_in unset =
    let e : (cells 0 == 1) ≡ false = ground arith in rw (e, worker, await)

pub worker-take :
    (cells : Array ℕ) (later : List (Array ℕ)) (fresh_out fresh_in : Array ℕ)
    → cells 0 ≡ 1
    → worker (cells ∷ later) fresh_out fresh_in ≡ some (attach cells fresh_out fresh_in)
unfolding worker
worker-take cells later fresh_out fresh_in set =
    let e : (cells 0 == 1) ≡ true = ground arith in rw (e, worker, await)

module _ (l : Local) (c : IsCsr l) (before fresh_out fresh_in : Array ℕ) where
  store_graph-IsLogged :
      (m : Mapping) → IsLogged before m → IsLogged before (store_graph l fresh_out fresh_in m).0
  unfolding store_graph
  store_graph-IsLogged m r = store_neighs-IsLogged l before _ (
      store_rows-IsLogged l before _ (store_row_sizes l m)
        (λ v lt. omega (arith, pointers-row_at l c fresh_out fresh_in m v lt))
        (store_row_sizes-IsLogged l before m r))

  store_metadata-IsLogged : (m : Mapping) → IsLogged before m → IsLogged before (store_metadata l m)
  unfolding store_metadata
  store_metadata-IsLogged m r =
      store64-IsLogged before _ _ _ (omega arith) (
        store64-IsLogged before _ _ _ (omega arith) (store64-IsLogged before _ _ _ (omega arith) r))

  abbrev untouched : Mapping
  untouched = record { cells = before; stores = [] }

  -- All that the master stores before the synchronization variable.
  graph_stored : Mapping
  graph_stored = (store_graph l fresh_out fresh_in (store_metadata l untouched)).0

  graph_stored-IsLogged : IsLogged before graph_stored
  unfolding graph_stored
  graph_stored-IsLogged =
      store_graph-IsLogged (store_metadata l untouched)
        (store_metadata-IsLogged untouched (record { cells = unfold replay in refl; avoids = tt }))

  -- The stores of the whole constructor, in order.
  unfoldable pub stores : List (ℕ × ℕ)
  stores = (master l fresh_out fresh_in untouched).0.stores

  -- The mapping after the first `k` of them.
  unfoldable pub state : ℕ → Array ℕ
  unfolding stores
  state k = replay before (take k stores)

  stores_lem : stores ≡ graph_stored.stores ++ (0, 1) ∷ []
  unfolding stores graph_stored master store
  stores_lem = refl

  final_lem : (master l fresh_out fresh_in untouched).0.cells ≡ replay before stores
  unfolding master store graph_stored
  final_lem =
      ap (λ cells. write cells 0 1) graph_stored-IsLogged.cells
      ∙ sym (
          ap (replay before) stores_lem
          ∙ replay-append before graph_stored.stores ((0, 1) ∷ [])
          ∙ (unfold replay in refl))

  -- For a graph in CSR form whose sizes fit 64 bits: before the master's last store the
  -- synchronization variable has the value that it had before the constructor.
  pub state_sync : (k : ℕ) → k < length stores → state k 0 ≡ before 0
  unfolding state
  state_sync k lt =
      let size = ap length stores_lem in
      let early =
        take-append k graph_stored.stores ((0, 1) ∷ [])
          (omega (arith, size, length-append graph_stored.stores ((0, 1) ∷ []))) in
      ap (λ s. replay before s 0) (ap (take k) stores_lem ∙ early)
      ∙ replay_sync before (take k graph_stored.stores)
          (AvoidsSync-take k graph_stored.stores graph_stored-IsLogged.avoids)

  pub state_final :
      (k : ℕ) → length stores ≤ k → state k ≡ (master l fresh_out fresh_in untouched).0.cells
  unfolding state
  state_final k le = ap (replay before) (take_all k stores le) ∙ sym final_lem

  state-IsStored : (k : ℕ) → length stores ≤ k → IsStored l (state k)
  state-IsStored k le = rw (state_final k le) (master-IsStored l fresh_out fresh_in untouched c).0

  module _ (clear : before 0 ≢ 1) (worker_out worker_in : Array ℕ) where
    -- For a graph in CSR form whose sizes fit 64 bits, when the synchronization variable is not 1
    -- before the master starts: a worker that polls the mapping at any moments between the
    -- master's stores, and attaches, has a copy of the whole graph.
    pub worker-IsCopy :
        (polls : List ℕ) (g : CsrGraph)
        → worker (map state polls) worker_out worker_in ≡ some g
        → IsCopy l g
    worker-IsCopy [] g e = unfold worker in cc
    worker-IsCopy (k ∷ polls) g e = elim (lt_or_le k (length stores)) [
      | inl early ↦
          worker-IsCopy polls g
            (sym (worker-skip (state k) (map state polls) worker_out worker_in (unset k early)) ∙ e)
      | inr late ↦
          subst (IsCopy l)
            (some-injective _ _
              (sym (worker-take (state k) (map state polls) worker_out worker_in (set k late)) ∙ e))
            (attach-IsCopy l (state k) worker_out worker_in c (state-IsStored k late))
    ]
      where
        unset : (k : ℕ) → k < length stores → state k 0 ≢ 1
        unset k early e = clear (sym (state_sync k early) ∙ e)

        set : (k : ℕ) → length stores ≤ k → state k 0 ≡ 1
        set k late =
            ap (λ (a : Array ℕ). a 0) (state_final k late)
            ∙ (master-IsStored l fresh_out fresh_in untouched c).1

  -- For a graph in CSR form whose sizes fit 64 bits: a worker whose polls include the state after
  -- the master's last store attaches.
  pub worker_attaches :
      (worker_out worker_in : Array ℕ) (polls : List ℕ)
      → (g : CsrGraph) × (worker (map state (polls ++ length stores ∷ [])) worker_out worker_in
          ≡ some g)
  worker_attaches worker_out worker_in [] = (
    attach (state (length stores)) worker_out worker_in,
    worker-take (state (length stores)) [] worker_out worker_in (
        ap (λ (a : Array ℕ). a 0) (state_final (length stores) (omega arith))
        ∙ (master-IsStored l fresh_out fresh_in untouched c).1),
  )
  worker_attaches worker_out worker_in (k ∷ polls) =
      let later = map state (polls ++ length stores ∷ []) in
      elim (eq_or_ne (state k 0) 1) [
        | inl set ↦ (
          attach (state k) worker_out worker_in,
          worker-take (state k) later worker_out worker_in set,
        )
        | inr unset ↦
            let (g, e) = worker_attaches worker_out worker_in polls in
            (g, worker-skip (state k) later worker_out worker_in unset ∙ e)
      ]
