-- ===== src/CommandLine/Laws.antt =====
-- What a command line sets (src/command_line.h), whichever class reads it.
use shared_gapbs.Base.{
  none, some, some, Option, ℤ, pos, minus_one, ◌==ℤ◌, Bool, true, false, not, ◌&&◌, ◌||◌, List, [],
  ◌∷◌, if◌then◌else◌, Run, done, exited, aborted, ◌>>=◌, ◌≡◌, refl, ap, subst, done-injective, ◌∙◌,
  arith, Bool-cases, inl, inr,
}
use shared_gapbs.CommandLine.{
  opt_t, Opt, opt_x, opt_l, opt_upper_s, opt_upper_t, opt_f, opt_g, opt_h, opt_k, opt_s, opt_u,
  opt_m, Text, ClBase, handle_base, Parser, is_empty, finish, parse_args,
}
use shared_gapbs.CommandLine.Apps.{
  ClPageRank, app_parser, iter_parser, page_rank_parser, delta_parser, convert_parser,
}

abbrev pub map_run {ℓ κ} : {A : Type ℓ} {B : Type κ} → (A → B) → Run A → Run B
map_run f m = m >>= λ a. done (f a)

-- The class treats the options of CLBase as CLBase does, and keeps its own out of that part.
abbrev pub Extends {ℓ} : {S : Type ℓ} → (Text → ℤ) → Parser S → Type ℓ
Extends {S = S} atoi p =
    (o : Opt) (t : Text) (s : S) → map_run p.base (p.handle o t s) ≡ handle_base atoi o t (p.base s)

app_parser-Extends : (atoi atol : Text → ℤ) → Extends atoi (app_parser atoi atol)
app_parser-Extends atoi atol o t s = ground arith

iter_parser-Extends : (atoi atol : Text → ℤ) → Extends atoi (iter_parser atoi atol)
iter_parser-Extends atoi atol o t s = ground arith

convert_parser-Extends : (atoi atol : Text → ℤ) → Extends atoi (convert_parser atoi atol)
convert_parser-Extends atoi atol o t s = ground arith

abbrev pub is_t : Opt → Bool
is_t opt_t = true
is_t _ = false

abbrev pub is_some {ℓ} : {A : Type ℓ} → Option A → Bool
is_some none = false
is_some (some x) = true

-- The same, but for a tolerance that is not a number, which ends the process.
abbrev pub ExtendsNumbers {ℓ} :
    {D : Type ℓ} → (Text → ℤ) → (Text → Option D) → Parser (ClPageRank D) → Type ℓ
ExtendsNumbers {D = D} atoi stod p =
    (o : Opt) (t : Text) (s : ClPageRank D)
    → map_run p.base (p.handle o t s)
      ≡ (if is_t o && not (is_some (stod t)) then aborted else handle_base atoi o t (p.base s))

page_rank_parser-ExtendsNumbers {ℓ} :
    {D : Type ℓ} (atoi atol : Text → ℤ) (stod : Text → Option D)
    → ExtendsNumbers atoi stod (page_rank_parser atoi atol stod)
page_rank_parser-ExtendsNumbers atoi atol stod o t s = ground arith

delta_parser-Extends {ℓ} :
    {W : Type ℓ} (atoi atol : Text → ℤ) (weight : Text → W)
    → Extends atoi (delta_parser atoi atol weight)
delta_parser-Extends atoi atol weight o t s = ground arith

-- CLApp, CLIterApp, CLDelta and CLConvert treat the options of CLBase as CLBase does, and keep
-- their own options out of that part; CLPageRank does so too, except that a -t whose argument
-- makes stod throw aborts the process.
pub handlers-Extends {ℓ κ} :
    {D : Type ℓ} {W : Type κ} (atoi atol : Text → ℤ) (stod : Text → Option D) (weight : Text → W)
    → Extends atoi (app_parser atoi atol)
      × Extends atoi (iter_parser atoi atol)
      × ExtendsNumbers atoi stod (page_rank_parser atoi atol stod)
      × Extends atoi (delta_parser atoi atol weight)
      × Extends atoi (convert_parser atoi atol)
handlers-Extends atoi atol stod weight = (
  app_parser-Extends atoi atol,
  iter_parser-Extends atoi atol,
  page_rank_parser-ExtendsNumbers atoi atol stod,
  delta_parser-Extends atoi atol weight,
  convert_parser-Extends atoi atol,
)

-- The argument of the last of the options that `is` picks, as a number; `d` when there is none.
abbrev pub last_int : (Text → ℤ) → (Opt → Bool) → List (Opt × Text) → ℤ → ℤ
last_int atoi is [] d = d
last_int atoi is ((o, t) ∷ opts) d = last_int atoi is opts (if is o then atoi t else d)

abbrev pub last_text : (Opt → Bool) → List (Opt × Text) → Text → Text
last_text is [] d = d
last_text is ((o, t) ∷ opts) d = last_text is opts (if is o then t else d)

abbrev pub given : (Opt → Bool) → List (Opt × Text) → Bool
given is [] = false
given is ((o, t) ∷ opts) = is o || given is opts

abbrev pub is_x : Opt → Bool
is_x opt_x = true
is_x _ = false

abbrev pub is_l : Opt → Bool
is_l opt_l = true
is_l _ = false

abbrev pub is_upper_s : Opt → Bool
is_upper_s opt_upper_s = true
is_upper_s _ = false

abbrev pub is_upper_t : Opt → Bool
is_upper_t opt_upper_t = true
is_upper_t _ = false

abbrev pub is_f : Opt → Bool
is_f opt_f = true
is_f _ = false

abbrev pub is_k : Opt → Bool
is_k opt_k = true
is_k _ = false

abbrev pub is_s : Opt → Bool
is_s opt_s = true
is_s _ = false

abbrev pub is_u : Opt → Bool
is_u opt_u = true
is_u _ = false

abbrev pub is_m : Opt → Bool
is_m opt_m = true
is_m _ = false

abbrev pub is_h : Opt → Bool
is_h opt_h = true
is_h _ = false

abbrev pub is_scale : Opt → Bool
is_scale opt_g = true
is_scale opt_u = true
is_scale _ = false

-- What the options set in the part of CLBase.
abbrev pub settings : (Text → ℤ) → List (Opt × Text) → ClBase → ClBase
settings atoi opts c = record {
  host_id = last_int atoi is_x opts c.host_id;
  munmap = last_int atoi is_l opts c.munmap;
  size_in_gib = last_int atoi is_upper_s opts c.size_in_gib;
  test_mode = last_int atoi is_upper_t opts c.test_mode;
  scale = last_int atoi is_scale opts c.scale;
  degree = last_int atoi is_k opts c.degree;
  filename = last_text is_f opts c.filename;
  symmetrize = given is_s opts || c.symmetrize;
  uniform = given is_u opts || c.uniform;
  in_place = given is_m opts || c.in_place;
}

or-true : (b : Bool) → (b || true) ≡ true
or-true b = ground arith

settings-step :
    (atoi : Text → ℤ) (o : Opt) (t : Text) (opts : List (Opt × Text)) (c : ClBase)
    → map_run (settings atoi opts) (handle_base atoi o t c)
      ≡ (if is_h o then exited (pos 0) else done (settings atoi ((o, t) ∷ opts) c))
settings-step atoi o t opts c =
    ground (arith, or-true (given is_s opts), or-true (given is_u opts), or-true (given is_m opts))

-- The CLBase part at the end: a generated graph is symmetrized.
abbrev pub finished : ClBase → ClBase
finished c = if c.scale ==ℤ minus_one then c else record c { symmetrize = true }

-- How ParseArgs ends when `help` tells whether help was asked for, and the options set `c`.
abbrev pub Outcome {ℓ} : {S : Type ℓ} → Parser S → Bool → ClBase → Run (Bool × S) → Type 0
Outcome p help c (done (ok, s)) =
    (help ≡ false)
    × (ok ≡ not (is_empty c.filename && (c.scale ==ℤ minus_one)))
    × (p.base s ≡ finished c)
Outcome p help c (exited code) = (help ≡ true) × (code ≡ pos 0)
Outcome p help c aborted = ⊥

module _ {ℓ} {S : Type ℓ} (p : Parser S) (atoi : Text → ℤ) (extends : Extends atoi p) where
  finish-Outcome : (s : S) → Outcome p false (p.base s) (done (finish p s))
  unfolding finish
  finish-Outcome s = ground (arith, p.base-with_base (record (p.base s) { symmetrize = true }) s)

  step-Outcome :
      (o : Opt) (t : Text) (opts : List (Opt × Text)) (c : ClBase) (r : Run S)
      → map_run (λ s. settings atoi opts (p.base s)) r
        ≡ (if is_h o then exited (pos 0) else done (settings atoi ((o, t) ∷ opts) c))
      → ((s : S)
          → Outcome p (given is_h opts) (settings atoi opts (p.base s)) (parse_args p opts s))
      → Outcome p
          (given is_h ((o, t) ∷ opts))
          (settings atoi ((o, t) ∷ opts) c)
          (r >>= parse_args p opts)
  step-Outcome o t opts c (done s) e rest = elim (Bool-cases (is_h o)) [
    | inl help ↦ absurd (ground arith)
    | inr plain ↦
        let same : settings atoi opts (p.base s) ≡ settings atoi ((o, t) ∷ opts) c =
          done-injective _ _ (e ∙ rw plain refl) in
        rw plain (subst (λ c. Outcome p (given is_h opts) c (parse_args p opts s)) same (rest s))
  ]
  step-Outcome o t opts c (exited code) e rest = ground arith
  step-Outcome o t opts c aborted e rest = ground arith

  -- For a class that treats the options of CLBase as CLBase does: ParseArgs ends the process with
  -- 0 if and only if help is asked for; otherwise it returns, each member of CLBase is what the
  -- last option for it sets, a generated graph is symmetrized, and the result is whether a file or
  -- a scale is given.
  pub parse_args-Outcome :
      (opts : List (Opt × Text)) (s : S)
      → Outcome p (given is_h opts) (settings atoi opts (p.base s)) (parse_args p opts s)
  unfolding parse_args
  parse_args-Outcome [] s = finish-Outcome s
  parse_args-Outcome ((o, t) ∷ opts) s =
      step-Outcome o t opts (p.base s) (p.handle o t s)
        (combine (p.handle o t s) (extends o t s) ∙ settings-step atoi o t opts (p.base s))
        (parse_args-Outcome opts)
    where
      combine :
          (r : Run S)
          → map_run p.base r ≡ handle_base atoi o t (p.base s)
          → map_run (λ s. settings atoi opts (p.base s)) r
            ≡ map_run (settings atoi opts) (handle_base atoi o t (p.base s))
      combine (done s') e = ap (map_run (settings atoi opts)) e
      combine (exited code) e = ap (map_run (settings atoi opts)) e
      combine aborted e = ap (map_run (settings atoi opts)) e
