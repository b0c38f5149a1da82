-- ===== src/Components/Afforest/Growing.antt =====
-- Linking along edges only: what the steps of src/cc.cc and src/cc_sv.cc have in common.
use shared_gapbs.Base.{
  for_each-all, for_each, Option, ℕ, ◌<◌, ◌≡◌, refl, ◌⊎◌, inl, inr, Array, List, [], ◌∷◌, some,
  true, ap, sym, subst, take, ◌∙◌, chain,
}
use shared_gapbs.Stl.{contains}
use shared_gapbs.Stl.Laws.{contains-cons, contains-head, contains-tail, contains-nil}
use shared_gapbs.Components.{link}
use shared_gapbs.Components.Closure.{Connected, one, Connected-map, Points, PointsOr, IsForest}
use shared_gapbs.Components.Linking.{Linked, link-Linked}
use shared_gapbs.Components.Compressing.{IsShorter}
use shared_gapbs.Components.Afforest.{link_each, link_first}

module _ (size : ℕ) (E : ℕ → ℕ → Type 0) where
  -- `after` is a forest that connects what `comp` connects, and beyond that only along edges.
  pub record Grows (comp after : Array ℕ) : Type 0 where
    pub forest : IsForest size after
    pub kept : (x y : ℕ) → Connected (Points size comp) x y → Connected (Points size after) x y
    pub sound :
        (x y : ℕ)
        → Connected (Points size after) x y
        → Connected (λ x y. Points size comp x y ⊎ E x y) x y

  pub Grows-same : (comp : Array ℕ) → IsForest size comp → Grows comp comp
  Grows-same comp f = record {
    forest = f;
    kept = λ x y c. c;
    sound = Connected-map _ _ (λ x y e. one x y (inl e));
  }

  pub Grows-trans : (a b c : Array ℕ) → Grows a b → Grows b c → Grows a c
  Grows-trans a b c s t = record {
    forest = t.forest;
    kept = λ x y d. t.kept x y (s.kept x y d);
    sound = λ x y d. Connected-map _ _ (step s) x y (t.sound x y d);
  }
    where
      step :
          (s : Grows a b) (x y : ℕ)
          → Points size b x y ⊎ E x y
          → Connected (λ x y. Points size a x y ⊎ E x y) x y
      step s x y (inl e) = s.sound x y (one x y e)
      step s x y (inr e) = one x y (inr e)

  pub IsShorter-Grows : (comp after : Array ℕ) → IsShorter size comp after → Grows comp after
  IsShorter-Grows comp after s = record {
    forest = s.forest;
    kept = s.kept;
    sound = λ x y d. Connected-map _ _ (λ x y e. one x y (inl e)) x y (s.no_more x y d);
  }

  pub Linked-Grows :
      (u v : ℕ) (comp after : Array ℕ)
      → Connected E u v
      → Linked size u v comp after
      → Grows comp after
  Linked-Grows u v comp after e s = record {
    forest = s.forest;
    kept = s.kept;
    sound = λ x y d. Connected-map _ _ step x y (s.no_more x y d);
  }
    where
      step :
          (x y : ℕ)
          → PointsOr size comp u v x y
          → Connected (λ x y. Points size comp x y ⊎ E x y) x y
      step x y (inl p) = one x y (inl p)
      step x y (inr (p, q)) = rw (p, q) (Connected-map _ _ (λ x y d. one x y (inr d)) u v e)

  -- One vertex is linked to `u`.
  pub link-Grows :
      (u v : ℕ) (comp : Array ℕ)
      → u < size
      → v < size
      → Connected E u v
      → IsForest size comp
      → (after : Array ℕ) × (link u v comp ≡ some after)
        × Grows comp after
        × Connected (Points size after) u v
  link-Grows u v comp h k c f =
      let (after, e, l) = link-Linked size u v comp h k f in
      (after, e, Linked-Grows u v comp after c l, l.joined)

  -- The vertices of a list, which are joined to `u` by edges.
  abbrev pub Near : ℕ → List ℕ → Type 0
  Near u vs = (v : ℕ) → contains v vs ≡ true → (v < size) × Connected E u v

  abbrev pub All : ℕ → List ℕ → Array ℕ → Type 0
  All u vs after = (v : ℕ) → contains v vs ≡ true → Connected (Points size after) u v

  All-cons :
      (u v : ℕ) (vs : List ℕ) (after : Array ℕ)
      → Connected (Points size after) u v
      → All u vs after
      → All u (v ∷ vs) after
  All-cons u v vs after c all w h = elim (contains-cons w v vs h) [
    | inl e ↦ subst (Connected (Points size after) u) (sym e) c
    | inr later ↦ all w later
  ]

  pub link_each-Grows :
      (u : ℕ) (vs : List ℕ) (comp : Array ℕ)
      → u < size
      → Near u vs
      → IsForest size comp
      → (after : Array ℕ) × (link_each u vs comp ≡ some after) × Grows comp after × All u vs after
  unfolding link_each
  link_each-Grows u [] comp h near f =
      (comp, refl, Grows-same comp f, λ v c. absurd (contains-nil v c))
  link_each-Grows u (v ∷ vs) comp h near f =
      let first = near v (contains-head v vs) in
      let (mid, e, g, c) = link-Grows u v comp h first.0 first.1 f in
      let (after, e', g', all) =
        link_each-Grows u vs mid h (λ w c. near w (contains-tail w v vs c)) g.forest in
      (
        after,
        ap (λ o. chain o (link_each u vs)) e ∙ e',
        Grows-trans comp mid after g g',
        All-cons u v vs after (g'.kept u v c) all,
      )

  pub link_first-Grows :
      (u : ℕ) (vs : List ℕ) (comp : Array ℕ)
      → u < size
      → Near u vs
      → IsForest size comp
      → (after : Array ℕ) × (link_first u vs comp ≡ some after)
        × Grows comp after
        × All u (take 1 vs) after
  unfolding link_first
  link_first-Grows u [] comp h near f =
      (comp, refl, Grows-same comp f, λ v c. absurd (contains-nil v c))
  link_first-Grows u (v ∷ vs) comp h near f =
      let first = near v (contains-head v vs) in
      let (after, e, g, c) = link-Grows u v comp h first.0 first.1 f in
      (after, e, g, All-cons u v [] after c (λ w d. absurd (contains-nil w d)))

  -- A loop whose rounds grow the forest grows it, and keeps what they leave.
  pub grow_each :
      (D : ℕ → Array ℕ → Type 0)
      → ((k : ℕ) (s t : Array ℕ) → Grows s t → D k s → D k t)
      → (m : ℕ) (body : ℕ → Array ℕ → Option (Array ℕ))
      → ((k : ℕ) (s : Array ℕ)
          → k < m
          → IsForest size s
          → (t : Array ℕ) × (body k s ≡ some t) × Grows s t × D k t)
      → (s : Array ℕ) → IsForest size s
      → (t : Array ℕ) × (for_each m body s ≡ some t) × Grows s t × ((k : ℕ) → k < m → D k t)
  grow_each D keep m body step s f =
      let (t, e, f', g, d) =
        for_each-all (IsForest size) Grows D Grows-same Grows-trans keep m body
          (λ k s h f. let (t, e, g, d) = step k s h f in (t, e, g.forest, g, d)) s f in
      (t, e, g, d)
