-- ===== src/Components/Threads/Schedules.antt =====
-- Calls of Link that run at once join what calls one after the other join (src/cc.cc).
use shared_gapbs.Base.{
  ◌*◌, max, lt_suc_cases, sum_below-ext, ◌≢◌, subst, sym, eq_or_ne, ℕ, zero, suc, ◌+◌, ◌≤◌, ◌<◌,
  ◌≡◌, refl, ◌⊎◌, ◌↔◌, true, false, arith, Array, write, List, [], ◌∷◌, ◌==◌, if◌then◌else◌, inl,
  inr, sum_below,
}
use shared_gapbs.Components.Closure.{Connected, one, Points, IsForest, Connected-map}
use shared_gapbs.Components.Threads.{
  Pc, finished, is_finished, Links, start, link_step, turn, run, work,
}
use shared_gapbs.Components.Threads.Invariant.{Knows, Knows-later}
use shared_gapbs.Components.Threads.Steps.{left, link_step-Stepped}

-- Every entry of the schedule is the number of a call.
abbrev pub AllBelow : ℕ → List ℕ → Type 0
AllBelow n [] = Unit
AllBelow n (i ∷ schedule) = (i < n) × AllBelow n schedule

reflexive : (i : ℕ) → (i == i) ≡ true
reflexive i = ground arith

-- A sum one of whose terms gets smaller by `d`.
sum_below-drop :
    (f g : ℕ → ℕ) (i d n : ℕ)
    → i < n
    → ((j : ℕ) → j ≢ i → g j ≡ f j)
    → g i + d ≤ f i
    → sum_below g n + d ≤ sum_below f n
sum_below-drop f g i d zero h e lt = absurd (omega arith)
sum_below-drop f g i d (suc n) h e lt = elim (lt_suc_cases i n h) [
  | inl before ↦
      let rest = sum_below-drop f g i d n before e lt in
      let here : g n ≡ f n = e n (λ same. absurd (omega arith)) in omega arith
  | inr now ↦
      let rest = sum_below-ext g f n (λ j below. e j (λ same. absurd (omega arith))) in
      let here : g n + d ≤ f n = subst (λ i. g i + d ≤ f i) now lt in omega arith
]

module _ (size n : ℕ) (us vs : Array ℕ) (comp : Array ℕ) (us_below : (i : ℕ) → i < n → us i < size)
    (vs_below : (i : ℕ) → i < n → vs i < size) where
  -- A parent of the first forest, or the edge of a call.
  abbrev pub Given : ℕ → ℕ → Type 0
  Given x y = Points size comp x y ⊎ ((i : ℕ) × (i < n) × (x ≡ us i) × (y ≡ vs i))

  -- What holds after any steps of the calls: the forest connects what the first one connects and
  -- nothing but by the edges of calls, and the ends of the edge of a call that has returned.
  pub record IsJoining (s : Links) : Type 0 where
    pub forest : IsForest size s.comp
    pub kept : (x y : ℕ) → Connected (Points size comp) x y → Connected (Points size s.comp) x y
    pub no_more : (x y : ℕ) → Connected (Points size s.comp) x y → Connected Given x y
    pub knows : (i : ℕ) → i < n → Knows size s.comp (us i) (vs i) (s.pc i)

  -- The steps that all calls have left.
  abbrev pub all_left : Links → ℕ
  all_left s = sum_below (λ i. left (us i) (vs i) (s.pc i)) n

  turn-IsJoining : (i : ℕ) (s : Links) → i < n → IsJoining s → IsJoining (turn us vs i s)
  unfolding turn
  turn-IsJoining i s lt j =
      let step =
        link_step-Stepped size (us i) (vs i) s.comp j.forest (s.pc i) (us_below i lt)
          (vs_below i lt) (j.knows i lt) in
      record {
        forest = step.later.forest;
        kept = λ x y c. step.later.kept x y (j.kept x y c);
        no_more = step.no_more Given j.no_more (one (us i) (vs i) (inr (i, lt, refl, refl)));
        knows = λ k hk. elim (eq_or_ne k i) [
          | inl e ↦
              subst (λ k. Knows size (turn us vs i s).comp (us k) (vs k) ((turn us vs i s).pc k))
                (sym e) (rw (reflexive i) step.knows)
          | inr ne ↦
              let other : (k == i) ≡ false = ground arith in
              rw other (Knows-later size (us k) (vs k) s.comp _ (s.pc k) step.later (j.knows k hk))
        ];
      }

  turn-left :
      (i : ℕ) (s : Links)
      → i < n
      → IsJoining s
      → all_left (turn us vs i s) + (if is_finished (s.pc i) then 0 else 1) ≤ all_left s
  unfolding turn
  turn-left i s lt j =
      let step =
        link_step-Stepped size (us i) (vs i) s.comp j.forest (s.pc i) (us_below i lt)
          (vs_below i lt) (j.knows i lt) in
      let pc' = (link_step (us i) (vs i) s.comp (s.pc i)).1 in
      sum_below-drop (λ k. left (us k) (vs k) (s.pc k))
        (λ k. left (us k) (vs k) (write s.pc i pc' k)) i (if is_finished (s.pc i) then 0 else 1) n
        lt (λ k ne. let other : (k == i) ≡ false = ground arith in rw other refl)
        (rw (reflexive i) step.fewer)

  run-IsJoining :
      (schedule : List ℕ) (s : Links)
      → AllBelow n schedule
      → IsJoining s
      → IsJoining (run us vs schedule s)
        × (all_left (run us vs schedule s) + work us vs schedule s ≤ all_left s)
  unfolding run work
  run-IsJoining [] s h j = (j, omega arith)
  run-IsJoining (i ∷ schedule) s h j =
      let j' = turn-IsJoining i s h.0 j in
      let (end, le) = run-IsJoining schedule (turn us vs i s) h.1 j' in
      (end, omega (arith, turn-left i s h.0 j))

  start-IsJoining : IsForest size comp → IsJoining (start comp)
  start-IsJoining f = record {
    forest = f;
    kept = λ x y c. c;
    no_more = Connected-map (Points size comp) Given (λ x y p. one x y (inl p));
    knows = λ i lt. tt;
  }

  -- What the calls leave when all of them have returned.
  pub record IsJoined (after : Array ℕ) : Type 0 where
    pub forest : IsForest size after
    pub joined : (x y : ℕ) → Connected (Points size after) x y ↔ Connected Given x y

  finished_lem : (pc : Pc) → is_finished pc ≡ true → pc ≡ finished
  finished_lem pc h = ground arith

  -- When all have returned, exactly the edges of the calls are added.
  IsJoining-IsJoined :
      (s : Links) → ((i : ℕ) → i < n → is_finished (s.pc i) ≡ true) → IsJoining s → IsJoined s.comp
  IsJoining-IsJoined s all j = record {
    forest = j.forest;
    joined = λ x y. (j.no_more x y, Connected-map Given (Points size s.comp) given x y);
  }
    where
      given : (x y : ℕ) → Given x y → Connected (Points size s.comp) x y
      given x y (inl p) = j.kept x y (one x y p)
      given x y (inr (i, lt, e, e')) =
          let k =
            subst (Knows size s.comp (us i) (vs i)) (finished_lem (s.pc i) (all i lt))
              (j.knows i lt) in
          subst (λ x. Connected (Points size s.comp) x y) (sym e)
            (subst (λ y. Connected (Points size s.comp) (us i) y) (sym e') k)

  -- When calls of Link for edges of vertices run at once on a forest, each step one access to
  -- comp, then whatever the order of the steps: once all calls have returned, comp is a forest
  -- that connects two vertices exactly if the forest before and the edges of the calls connect
  -- them.
  pub run-IsJoined :
      (schedule : List ℕ)
      → IsForest size comp
      → AllBelow n schedule
      → ((i : ℕ) → i < n → is_finished ((run us vs schedule (start comp)).pc i) ≡ true)
      → IsJoined (run us vs schedule (start comp)).comp
  run-IsJoined schedule f h all =
      IsJoining-IsJoined (run us vs schedule (start comp)) all
        (run-IsJoining schedule (start comp) h (start-IsJoining f)).0

  -- When calls of Link for edges of vertices run at once on a forest, then whatever the order of
  -- the steps: the steps that calls take before they have returned are at most 6 times the larger
  -- end of the edge plus 7 each, added up over the calls.
  pub run-work :
      (schedule : List ℕ)
      → IsForest size comp
      → AllBelow n schedule
      → work us vs schedule (start comp) ≤ sum_below (λ i. 6 * max (us i) (vs i) + 7) n
  run-work schedule f h =
      omega (arith, (run-IsJoining schedule (start comp) h (start-IsJoining f)).1)
