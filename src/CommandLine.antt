-- ===== src/CommandLine.antt =====
-- src/command_line.h: the option classes. `getopt` has split the command line: each option comes with
-- its argument, empty for an option that takes none. A string is the list of its characters.
pub mod Apps
pub mod Laws
use shared_gapbs.Base.{
  ℕ, ℤ, pos, minus_one, ◌==ℤ◌, Bool, true, false, ◌&&◌, List, [], ◌∷◌, if◌then◌else◌, Run, done,
  exited, ◌>>=◌, ◌≡◌,
}

-- The option characters, and any other that `getopt` may return.
pub data Opt : Type 0 where
  opt_x : Opt
  opt_l : Opt
  opt_upper_s : Opt
  opt_upper_t : Opt
  opt_f : Opt
  opt_g : Opt
  opt_h : Opt
  opt_k : Opt
  opt_s : Opt
  opt_u : Opt
  opt_m : Opt
  opt_a : Opt
  opt_n : Opt
  opt_r : Opt
  opt_v : Opt
  opt_i : Opt
  opt_t : Opt
  opt_d : Opt
  opt_b : Opt
  opt_e : Opt
  opt_w : Opt
  other : Opt

abbrev pub Text : Type 0
Text = List ℕ

pub record ClBase : Type 0 where
  pub host_id : ℤ
  pub munmap : ℤ
  pub size_in_gib : ℤ
  pub test_mode : ℤ
  pub scale : ℤ
  pub degree : ℤ
  pub filename : Text
  pub symmetrize : Bool
  pub uniform : Bool
  pub in_place : Bool

abbrev pub cl_base : ClBase
cl_base = record {
  host_id = minus_one;
  munmap = pos 0;
  size_in_gib = pos 0;
  test_mode = pos 0;
  scale = minus_one;
  degree = pos 16;
  filename = [];
  symmetrize = false;
  uniform = false;
  in_place = false;
}

-- CLBase::HandleArg; `atoi` is the one of the C library. PrintUsage ends the process with 0.
abbrev pub handle_base : (Text → ℤ) → Opt → Text → ClBase → Run ClBase
handle_base atoi opt_x opt_arg c = done (record c { host_id = atoi opt_arg })
handle_base atoi opt_l opt_arg c = done (record c { munmap = atoi opt_arg })
handle_base atoi opt_upper_s opt_arg c = done (record c { size_in_gib = atoi opt_arg })
handle_base atoi opt_upper_t opt_arg c = done (record c { test_mode = atoi opt_arg })
handle_base atoi opt_f opt_arg c = done (record c { filename = opt_arg })
handle_base atoi opt_g opt_arg c = done (record c { scale = atoi opt_arg })
handle_base atoi opt_h opt_arg c = exited (pos 0)
handle_base atoi opt_k opt_arg c = done (record c { degree = atoi opt_arg })
handle_base atoi opt_s opt_arg c = done (record c { symmetrize = true })
handle_base atoi opt_u opt_arg c = done (record c { uniform = true; scale = atoi opt_arg })
handle_base atoi opt_m opt_arg c = done (record c { in_place = true })
handle_base atoi _ opt_arg c = done c

-- What ParseArgs sees of an object of any of the classes: its HandleArg, and its CLBase part.
pub record Parser {ℓ} (S : Type ℓ) : Type ℓ where
  pub handle : Opt → Text → S → Run S
  pub base : S → ClBase
  pub with_base : ClBase → S → S
  pub base-with_base : (c : ClBase) (s : S) → base (with_base c s) ≡ c

-- `filename_ == ""`
abbrev pub is_empty : Text → Bool
is_empty [] = true
is_empty (x ∷ t) = false

module _ {ℓ} {S : Type ℓ} (p : Parser S) where
  -- The end of ParseArgs: without an input it fails, and a generated graph is symmetrized.
  unfoldable pub finish : S → Bool × S
  finish s =
      let c = p.base s in
      if is_empty c.filename && (c.scale ==ℤ minus_one) then (false, s) else (
        true,
        if c.scale ==ℤ minus_one then s else p.with_base (record c { symmetrize = true }) s,
      )

  unfoldable pub parse_args : List (Opt × Text) → S → Run (Bool × S)
  unfolding finish
  parse_args [] s = done (finish s)
  parse_args ((opt, opt_arg) ∷ opts) s = p.handle opt opt_arg s >>= parse_args opts
