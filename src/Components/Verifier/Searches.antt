-- ===== src/Components/Verifier/Searches.antt =====
-- The searches of CCVerifier, one from the source of each label (src/cc.cc).
use shared_gapbs.Base.{
  ==_iff, write, lt_suc_cases, for_range_inv, ℕ, zero, suc, ◌+◌, ◌<◌, ◌≤◌, ◌≡◌, refl, ap, sym, ◌∙◌,
  subst, arith, true, ◌==◌, Array, List, [], ◌∷◌, Option, none, some, inl, inr, Bool-cases,
}
use shared_gapbs.Bitmap.{Bitmap, get_bit, set_bit}
use shared_gapbs.Bitmap.Laws.{get_bit-set_bit}
use shared_gapbs.Graph.{CsrGraph}
use shared_gapbs.Stl.{contains}
use shared_gapbs.Components.Closure.{Connected, same}
use shared_gapbs.Components.Afforest.Labels.{Edge, IsMirrored}
use shared_gapbs.Components.Verifier.{
  label_to_source, Ending, rejected, reached, unfinished, search, search_each,
}
use shared_gapbs.Components.Verifier.Visiting.{unvisited}
use shared_gapbs.Components.Verifier.Searching.{Searching, Settled, Ends, search-Ends, Ends-mono}

-- The source of a label is a vertex with that label.
abbrev pub IsSource : ℕ → Array ℕ → Array (Option ℕ) → Type 0
IsSource n comp sources = (l r : ℕ) → sources l ≡ some r → (r < n) × (comp r ≡ l)

pub label_to_source-IsSource : (comp : Array ℕ) (n : ℕ) → IsSource n comp (label_to_source comp n)
unfolding label_to_source
label_to_source-IsSource comp n =
    for_range_inv (λ k (m : Array (Option ℕ)). (l r : ℕ) → m l ≡ some r → (r < k) × (comp r ≡ l)) n
      (λ k m. write m (comp k) (some k)) n 0 (λ l. none) (omega arith)
      (λ k m lo hi p l r e. elim (Bool-cases (comp k == l)) [
        | inl hit ↦
            let here : some k ≡ some r = ground (arith, e, hit) in
            (ground (arith, here), ground (arith, here, hit))
        | inr other ↦ let old = p l r (ground (arith, e, other)) in (omega (arith, old.0), old.1)
      ])
      (λ l r e. absurd (ground (arith, e)))

pub label_to_source-some :
    (comp : Array ℕ) (n v : ℕ) → v < n → (r : ℕ) × (label_to_source comp n (comp v) ≡ some r)
unfolding label_to_source
label_to_source-some comp n v lt =
    for_range_inv (λ k (m : Array (Option ℕ)). (v : ℕ) → v < k → (r : ℕ) × (m (comp v) ≡ some r)) n
      (λ k m. write m (comp k) (some k)) n 0 (λ l. none) (omega arith)
      (λ k m lo hi p v lt. elim (Bool-cases (comp k == comp v)) [
        | inl hit ↦ (k, ground (arith, hit))
        | inr other ↦
            let old : v < k = ground (arith, lt_suc_cases v k lt, other) in
            let (r, e) = p v old in (r, ground (arith, e, other))
      ])
      (λ v lt. absurd (omega (arith, lt))) v lt

unvisited-le : (n : ℕ) (b : Bitmap) → unvisited n b ≤ n
unvisited-le zero b = omega arith
unvisited-le (suc n) b = let ih = unvisited-le n b in ground (arith, ih)

source-Searching :
    (g : CsrGraph) (comp : Array ℕ) (sources : Array (Option ℕ)) (b : Bitmap) (l r : ℕ)
    → IsSource g.num_nodes comp sources
    → sources l ≡ some r
    → Settled g comp sources b
    → Searching g comp sources l (record { visited = set_bit b r; frontier = r ∷ [] })
unfolding contains
source-Searching g comp sources b l r src e p =
    let (lt, same_label) = src l r e in
    record {
      known = λ v k bit. elim (Bool-cases (r == v)) [
        | inl here ↦
            let at : r ≡ v = ground (arith, here) in
            (
              r,
              ap sources (sym (ap comp at) ∙ same_label) ∙ e,
              subst (Connected (Edge g) r) at (same r),
            )
        | inr other ↦ p.known v k (ground (arith, get_bit-set_bit b r v, bit, other))
      ];
      closed = λ v k bit. elim (Bool-cases (r == v)) [
        | inl here ↦ inl (ground (arith, here))
        | inr other ↦ inr (λ w c.
            let done = p.closed v k (ground (arith, get_bit-set_bit b r v, bit, other)) w c in
            (ground (arith, get_bit-set_bit b r w, done.0), done.1))
      ];
      front = λ v c.
          let at : r ≡ v = ground (arith, c) in
          (
            subst (λ x. x < g.num_nodes) at lt,
            ground (arith, get_bit-set_bit b r v, at),
            sym (ap comp at) ∙ same_label,
          );
    }

-- The sources of the labels `ls` are visited.
abbrev pub Found : Array (Option ℕ) → List ℕ → Ending → Type 0
Found sources ls rejected = Unit
Found sources ls (reached c) =
    (l r : ℕ) → contains l ls ≡ true → sources l ≡ some r → get_bit c r ≡ true
Found sources ls unfinished = Unit

Found-cons :
    (g : CsrGraph) (comp : Array ℕ) (sources : Array (Option ℕ)) (l : ℕ) (ls : List ℕ) (b : Bitmap)
    (o : Ending)
    → ((r : ℕ) → sources l ≡ some r → get_bit b r ≡ true)
    → Ends g comp sources b o
    → Found sources ls o
    → Found sources (l ∷ ls) o
unfolding contains
Found-cons g comp sources l ls b rejected h p f = f
Found-cons g comp sources l ls b (reached c) h (p, k) f = λ m r e er. elim (Bool-cases (m == l)) [
  | inl at ↦ k r (h r (subst (λ x. sources x ≡ some r) ((==_iff m l).0 at) er))
  | inr other ↦ f m r (ground (arith, e, other)) er
]
Found-cons g comp sources l ls b unfinished h p f = f

search_after-Ends :
    (g : CsrGraph) (comp : Array ℕ) (sources : Array (Option ℕ)) (l r : ℕ) (ls : List ℕ)
    (b : Bitmap) (rest : Bitmap → Ending)
    → sources l ≡ some r
    → ((c : Bitmap)
        → Settled g comp sources c
        → Ends g comp sources c (rest c) × Found sources ls (rest c))
    → (o : Ending) → Ends g comp sources (set_bit b r) o
    → Ends g comp sources b
        (elim o [ rejected ↦ rejected | reached c ↦ rest c | unfinished ↦ unfinished ])
      × Found sources
          (l ∷ ls)
          (elim o [ rejected ↦ rejected | reached c ↦ rest c | unfinished ↦ unfinished ])
search_after-Ends g comp sources l r ls b rest e ih rejected p = (p, tt)
search_after-Ends g comp sources l r ls b rest e ih (reached c) (p, k) =
    let (q, f) = ih c p in
    (
      Ends-mono g comp sources b c (rest c)
          (λ v old. k v (ground (arith, old, get_bit-set_bit b r v))) q,
      Found-cons g comp sources l ls c (rest c)
          (λ s es.
            let at : r ≡ s = ground (arith, e, es) in
            k s (ground (arith, at, get_bit-set_bit b r s)))
          q f,
    )
search_after-Ends g comp sources l r ls b rest e ih unfinished p = elim p [ ]

pub search_each-Ends :
    (g : CsrGraph) (comp : Array ℕ) (sources : Array (Option ℕ)) (ls : List ℕ) (b : Bitmap)
    → IsMirrored g
    → IsSource g.num_nodes comp sources
    → Settled g comp sources b
    → Ends g comp sources b (search_each comp g (g.num_nodes + 2) sources ls b)
      × Found sources ls (search_each comp g (g.num_nodes + 2) sources ls b)
unfolding search_each contains
search_each-Ends g comp sources [] b m src p =
    ((p, λ v e. e), λ l r c e. absurd (ground (arith, c)))
search_each-Ends g comp sources (l ∷ ls) b m src p =
    go (λ c. search_each-Ends g comp sources ls c m src) (sources l) refl
  where
    rest : Bitmap → Ending
    rest c = search_each comp g (g.num_nodes + 2) sources ls c

    ends : Ending → Type 0
    ends o = Ends g comp sources b o × Found sources (l ∷ ls) o

    go :
        ((c : Bitmap)
          → Settled g comp sources c
          → Ends g comp sources c (rest c) × Found sources ls (rest c))
        → (o : Option ℕ) → sources l ≡ o
        → ends (elim o [
          | none ↦ rest b
          | some r ↦ elim (search comp g l (g.num_nodes + 2) (set_bit b r) (r ∷ [])) [
            | rejected ↦ rejected
            | reached c ↦ rest c
            | unfinished ↦ unfinished
          ]
        ])
    go ih none e =
        let (q, f) = ih b p in
        (q, Found-cons g comp sources l ls b (rest b) (λ r er. absurd (ground (arith, e, er))) q f)
    go ih (some r) e =
        search_after-Ends g comp sources l r ls b rest e ih
          (search comp g l (g.num_nodes + 2) (set_bit b r) (r ∷ []))
          (search-Ends g comp sources l (g.num_nodes + 2) (set_bit b r) (r ∷ []) m
            (omega (arith, unvisited-le g.num_nodes (set_bit b r)))
            (source-Searching g comp sources b l r src e p))
