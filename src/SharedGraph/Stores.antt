-- ===== src/SharedGraph/Stores.antt =====
-- The log of the master's stores (src/graph.h): it accounts for the mapping, and all but the last
-- store leave the synchronization variable alone.
use shared_gapbs.Base.{
  ℕ, zero, suc, ◌+◌, ◌-◌, ◌/◌, ◌%◌, ◌^◌, ◌≤◌, ◌<◌, ◌≡◌, refl, ap, sym, ◌∙◌, arith, Array, write,
  List, [], ◌∷◌, ◌++◌, take, length, for_range, for_range_inv,
}
use shared_gapbs.SharedGraph.{
  Mapping, Local, Pointers, store, store64, row_size, store_row_sizes, store_row, store_rows,
  store_neighs,
}

-- The mapping after some stores.
unfoldable pub replay : Array ℕ → List (ℕ × ℕ) → Array ℕ
replay cells [] = cells
replay cells ((p, x) ∷ stores) = replay (write cells p x) stores

abbrev pub AvoidsSync : List (ℕ × ℕ) → Type 0
AvoidsSync [] = Unit
AvoidsSync ((p, x) ∷ stores) = (0 < p) × AvoidsSync stores

pub replay-append :
    (cells : Array ℕ) (s t : List (ℕ × ℕ)) → replay cells (s ++ t) ≡ replay (replay cells s) t
unfolding replay
replay-append cells [] t = refl
replay-append cells ((p, x) ∷ s) t = replay-append (write cells p x) s t

AvoidsSync-append : (s t : List (ℕ × ℕ)) → AvoidsSync s → AvoidsSync t → AvoidsSync (s ++ t)
AvoidsSync-append [] t h k = k
AvoidsSync-append ((p, x) ∷ s) t h k = (h.0, AvoidsSync-append s t h.1 k)

pub replay_sync : (cells : Array ℕ) (s : List (ℕ × ℕ)) → AvoidsSync s → replay cells s 0 ≡ cells 0
unfolding replay
replay_sync cells [] h = refl
replay_sync cells ((p, x) ∷ s) h = ground (arith, replay_sync (write cells p x) s h.1, h.0)

pub AvoidsSync-take : (k : ℕ) (s : List (ℕ × ℕ)) → AvoidsSync s → AvoidsSync (take k s)
AvoidsSync-take zero s h = tt
AvoidsSync-take (suc k) [] h = tt
AvoidsSync-take (suc k) ((p, x) ∷ s) h = (h.0, AvoidsSync-take k s h.1)

pub take_all : (k : ℕ) (s : List (ℕ × ℕ)) → length s ≤ k → take k s ≡ s
take_all zero [] h = refl
take_all (suc k) [] h = refl
take_all zero (x ∷ s) h = absurd (omega arith)
take_all (suc k) (x ∷ s) h = ap (λ t. x ∷ t) (take_all k s (omega arith))

pub take-append : (k : ℕ) (s t : List (ℕ × ℕ)) → k ≤ length s → take k (s ++ t) ≡ take k s
take-append zero s t h = refl
take-append (suc k) [] t h = absurd (omega arith)
take-append (suc k) (x ∷ s) t h = ap (λ r. x ∷ r) (take-append k s t (omega arith))

-- The log accounts for the cells, and the synchronization variable was not stored yet.
pub record IsLogged (before : Array ℕ) (m : Mapping) : Type 0 where
  pub cells : m.cells ≡ replay before m.stores
  pub avoids : AvoidsSync m.stores

pub store-IsLogged :
    (before : Array ℕ) (m : Mapping) (p x : ℕ)
    → 0 < p
    → IsLogged before m
    → IsLogged before (store m p x)
unfolding store
store-IsLogged before m p x h r = record {
  cells =
      ap (λ c. write c p x) r.cells
      ∙ sym (replay-append before m.stores ((p, x) ∷ []) ∙ (unfold replay in refl));
  avoids = AvoidsSync-append m.stores ((p, x) ∷ []) r.avoids (h, tt);
}

pub store64-IsLogged :
    (before : Array ℕ) (m : Mapping) (p x : ℕ)
    → 0 < p
    → IsLogged before m
    → IsLogged before (store64 m p x)
unfolding store64
store64-IsLogged before m p x h r =
    store-IsLogged before (store m p (x % 2 ^ 32)) (p + 1) (x / 2 ^ 32 % 2 ^ 32) (omega arith)
      (store-IsLogged before m p (x % 2 ^ 32) h r)

-- A loop of rounds that keep the log keeps it.
for_range-IsLogged :
    (before : Array ℕ) (body : ℕ → Mapping → Mapping) (n : ℕ) (m : Mapping)
    → ((k : ℕ) (t : Mapping) → k < n → IsLogged before t → IsLogged before (body k t))
    → IsLogged before m
    → IsLogged before (for_range n 0 body m)
for_range-IsLogged before body n m keep r =
    for_range_inv (λ k t. IsLogged before t) n body n 0 m (omega arith)
      (λ k t lo hi p. keep k t hi p) r

pub store_row_sizes-IsLogged :
    (l : Local) (before : Array ℕ) (m : Mapping)
    → IsLogged before m
    → IsLogged before (store_row_sizes l m)
unfolding store_row_sizes
store_row_sizes-IsLogged l before m r =
    for_range-IsLogged before _ (l.index_x - 1) m
      (λ k t lt q. store64-IsLogged before t _ _ (omega arith) q) r

pub store_neighs-IsLogged :
    (l : Local) (before : Array ℕ) (m : Mapping)
    → IsLogged before m
    → IsLogged before (store_neighs l m)
unfolding store_neighs
store_neighs-IsLogged l before m r =
    for_range-IsLogged before _ l.neigh_size m
      (λ k t lt q.
        store-IsLogged before (store t (7 + k) (l.neighs k)) (7 + k) (l.neighs k) (omega arith)
          (store-IsLogged before t (7 + k) (l.neighs k) (omega arith) q))
      r

pub store_rows-IsLogged :
    (l : Local) (before : Array ℕ) (s : Pointers) (m : Mapping)
    → ((v : ℕ) → v < l.index_x → 0 < s.out_index v)
    → IsLogged before m
    → IsLogged before (store_rows l s m)
unfolding store_rows store_row
store_rows-IsLogged l before s m pos r =
    for_range-IsLogged before (store_row l s) (l.index_x - 1) m
      (λ i t lt q.
        for_range-IsLogged before _ (row_size t.cells l.neigh_size i) t
          (λ j u below p. store-IsLogged before u _ _ (omega (arith, pos i)) p) q)
      r
