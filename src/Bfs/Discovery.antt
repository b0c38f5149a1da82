-- ===== src/Bfs/Discovery.antt =====
-- What a step of the breadth-first search does to the parents, in whichever direction it is taken
-- (src/bfs.cc).
use shared_gapbs.Base.{
  subst, ℕ, ℤ, pos, ◌≡◌, refl, ap, sym, ◌∙◌, ◌⊎◌, inl, inr, arith, Array, write, true, false, ◌||◌,
  List, [], ◌∷◌, ◌++◌, Bool-cases,
}
use shared_gapbs.Stl.{contains}
use shared_gapbs.Bfs.{negative}

pub contains-append :
    (z : ℕ) (xs ys : List ℕ) → contains z (xs ++ ys) ≡ (contains z xs || contains z ys)
unfolding contains
contains-append z [] ys = refl
contains-append z (x ∷ xs) ys = ground (arith, contains-append z xs ys)

-- Along the edges `E` the vertices of the list are discovered: they had no parent and get one from
-- which an edge leads to them, no other vertex changes, and every end of an edge has a parent.
pub record Discovers (E : ℕ → ℕ → Type 0) (p p' : Array ℤ) (ds : List ℕ) : Type 0 where
  pub kept : (v : ℕ) → contains v ds ≡ false → p' v ≡ p v
  pub fresh : (v : ℕ) → contains v ds ≡ true → negative (p v) ≡ true
  pub found : (v : ℕ) → contains v ds ≡ true → (u : ℕ) × E u v × (p' v ≡ pos u)
  pub reached : (u v : ℕ) → E u v → negative (p' v) ≡ false

abbrev pub Nowhere : ℕ → ℕ → Type 0
Nowhere u v = ⊥

abbrev pub Either : (ℕ → ℕ → Type 0) → (ℕ → ℕ → Type 0) → ℕ → ℕ → Type 0
Either E F u v = E u v ⊎ F u v

abbrev pub Only : ℕ → ℕ → ℕ → ℕ → Type 0
Only u v x y = (x ≡ u) × (y ≡ v)

pub Discovers-nothing : (p : Array ℤ) → Discovers Nowhere p p []
unfolding contains
Discovers-nothing p = record {
  kept = λ v h. refl;
  fresh = λ v h. cc;
  found = λ v h. cc;
  reached = λ u v e. absurd e;
}

-- A discovered vertex keeps its parent from then on.
pub Discovers-stays :
    (E : ℕ → ℕ → Type 0) (p p' : Array ℤ) (ds : List ℕ)
    → Discovers E p p' ds
    → (v : ℕ) → negative (p v) ≡ false
    → p' v ≡ p v
Discovers-stays E p p' ds d v h = elim (Bool-cases (contains v ds)) [
  | inl e ↦ let n = d.fresh v e in absurd cc
  | inr e ↦ d.kept v e
]

pub Discovers-then :
    (E F : ℕ → ℕ → Type 0) (p q r : Array ℤ) (ds es : List ℕ)
    → Discovers E p q ds
    → Discovers F q r es
    → Discovers (Either E F) p r (ds ++ es)
Discovers-then E F p q r ds es d e = record {
  kept = λ v h.
      let split = contains-append v ds es in
      let before : contains v ds ≡ false = ground arith in
      let later : contains v es ≡ false = ground arith in e.kept v later ∙ d.kept v before;
  fresh = λ v h.
      let split = contains-append v ds es in
      elim (Bool-cases (contains v ds)) [
        | inl before ↦ d.fresh v before
        | inr none_before ↦
            let later : contains v es ≡ true = ground arith in
            ap negative (sym (d.kept v none_before)) ∙ e.fresh v later
      ];
  found = λ v h.
      let split = contains-append v ds es in
      elim (Bool-cases (contains v ds)) [
        | inl before ↦
            let (u, x, at) = d.found v before in
            (u, inl x, Discovers-stays F q r es e v (ap negative at) ∙ at)
        | inr none_before ↦
            let later : contains v es ≡ true = ground arith in
            let (u, x, at) = e.found v later in (u, inr x, at)
      ];
  reached = λ u v x. elim x [
    | inl along ↦ let h = d.reached u v along in ap negative (Discovers-stays F q r es e v h) ∙ h
    | inr along ↦ e.reached u v along
  ];
}

-- Along the same edges, said in another way.
pub Discovers-map :
    (E F : ℕ → ℕ → Type 0) (p q : Array ℤ) (ds : List ℕ)
    → ((u v : ℕ) → E u v → F u v)
    → ((u v : ℕ) → F u v → E u v)
    → Discovers E p q ds
    → Discovers F p q ds
Discovers-map E F p q ds to from d = record {
  kept = d.kept;
  fresh = d.fresh;
  found = λ v h. let (u, x, at) = d.found v h in (u, to u v x, at);
  reached = λ u v x. d.reached u v (from u v x);
}

-- One edge whose end has no parent yet, when the others end there too, and edges whose ends have
-- one.
pub Discovers-one :
    (E : ℕ → ℕ → Type 0) (u v : ℕ) (p : Array ℤ)
    → E u v
    → ((x y : ℕ) → E x y → y ≡ v)
    → negative (p v) ≡ true
    → Discovers E p (write p v (pos u)) (v ∷ [])
unfolding contains
Discovers-one E u v p along there h = record {
  kept = λ w e. ground arith;
  fresh = λ w e. let same : w ≡ v = ground arith in ap (λ v. negative (p v)) same ∙ h;
  found = λ w e. let same : w ≡ v = ground arith in (u, subst (E u) (sym same) along, ground arith);
  reached = λ x w e. let same = there x w e in ground arith;
}

pub Discovers-none :
    (E : ℕ → ℕ → Type 0) (p : Array ℤ)
    → ((u v : ℕ) → E u v → negative (p v) ≡ false)
    → Discovers E p p []
unfolding contains
Discovers-none E p h = record {
  kept = λ v e. refl;
  fresh = λ v e. cc;
  found = λ v e. cc;
  reached = h;
}

Discovers-includes :
    (E : ℕ → ℕ → Type 0) (p q r : Array ℤ) (ds es : List ℕ)
    → Discovers E p q ds
    → Discovers E p r es
    → (v : ℕ) → contains v ds ≡ true
    → contains v es ≡ true
Discovers-includes E p q r ds es d e v h = elim (Bool-cases (contains v es)) [
  | inl there ↦ there
  | inr missing ↦
      let (u, x, at) = d.found v h in
      let unset = ap negative (e.kept v missing) ∙ d.fresh v h in
      let set = e.reached u v x in absurd cc
]

-- What is discovered depends on the edges and the earlier parents alone.
pub Discovers-same :
    (E : ℕ → ℕ → Type 0) (p q r : Array ℤ) (ds es : List ℕ)
    → Discovers E p q ds
    → Discovers E p r es
    → (v : ℕ) → contains v ds ≡ contains v es
Discovers-same E p q r ds es d e v =
    let to = Discovers-includes E p q r ds es d e v in
    let from = Discovers-includes E p r q es ds e d v in ground arith
