-- ===== src/CommandLine/Apps.antt =====
-- The classes of src/command_line.h that extend CLBase: each handles its own options and hands the
-- others on.
use shared_gapbs.Base.{
  none, some, aborted, Option, ℤ, pos, minus_one, Bool, true, false, [], Run, done, ◌>>=◌, refl,
}
use shared_gapbs.CommandLine.{
  Opt, opt_a, opt_n, opt_r, opt_v, opt_i, opt_t, opt_d, opt_b, opt_e, opt_w, Text, ClBase, cl_base,
  handle_base, Parser,
}

pub record ClApp : Type 0 where
  pub base : ClBase
  pub do_analysis : Bool
  pub num_trials : ℤ
  pub start_vertex : ℤ
  pub do_verify : Bool

abbrev pub cl_app : ClApp
cl_app = record {
  base = cl_base;
  do_analysis = false;
  num_trials = pos 16;
  start_vertex = minus_one;
  do_verify = false;
}

pub record ClIterApp : Type 0 where
  pub app : ClApp
  pub num_iters : ℤ

pub record ClPageRank {ℓ} (D : Type ℓ) : Type ℓ where
  pub app : ClApp
  pub max_iters : ℤ
  pub tolerance : D

pub record ClDelta {ℓ} (W : Type ℓ) : Type ℓ where
  pub app : ClApp
  pub delta : W

pub record ClConvert : Type 0 where
  pub base : ClBase
  pub out_filename : Text
  pub out_weighted : Bool
  pub out_el : Bool
  pub out_sg : Bool

abbrev pub cl_convert : ClConvert
cl_convert = record {
  base = cl_base;
  out_filename = [];
  out_weighted = false;
  out_el = false;
  out_sg = false;
}

-- `atoi` and `atol` are those of the C library.
module _ (atoi atol : Text → ℤ) where
  abbrev pub handle_app : Opt → Text → ClApp → Run ClApp
  handle_app opt_a opt_arg c = done (record c { do_analysis = true })
  handle_app opt_n opt_arg c = done (record c { num_trials = atoi opt_arg })
  handle_app opt_r opt_arg c = done (record c { start_vertex = atol opt_arg })
  handle_app opt_v opt_arg c = done (record c { do_verify = true })
  handle_app opt opt_arg c =
      handle_base atoi opt opt_arg c.base >>= λ b. done (record c { base = b })

  abbrev pub handle_iter_app : Opt → Text → ClIterApp → Run ClIterApp
  handle_iter_app opt_i opt_arg c = done (record c { num_iters = atoi opt_arg })
  handle_iter_app opt opt_arg c = handle_app opt opt_arg c.app >>= λ a. done (record c { app = a })

  -- `stod` is the one of the C++ library, where `none` is that it throws; nobody catches that, so
  -- the process is aborted. Doubles are the type `D`.
  abbrev pub handle_page_rank {ℓ} :
      {D : Type ℓ} → (Text → Option D) → Opt → Text → ClPageRank D → Run (ClPageRank D)
  handle_page_rank stod opt_i opt_arg c = done (record c { max_iters = atoi opt_arg })
  handle_page_rank stod opt_t opt_arg c = elim (stod opt_arg) [
    | none ↦ aborted
    | some t ↦ done (record c { tolerance = t })
  ]
  handle_page_rank stod opt opt_arg c =
      handle_app opt opt_arg c.app >>= λ a. done (record c { app = a })

  -- `weight` is `atof` or `atol` with the conversion to the type of weights.
  abbrev pub handle_delta {ℓ} : {W : Type ℓ} → (Text → W) → Opt → Text → ClDelta W → Run (ClDelta W)
  handle_delta weight opt_d opt_arg c = done (record c { delta = weight opt_arg })
  handle_delta weight opt opt_arg c =
      handle_app opt opt_arg c.app >>= λ a. done (record c { app = a })

  abbrev pub handle_convert : Opt → Text → ClConvert → Run ClConvert
  handle_convert opt_b opt_arg c = done (record c { out_sg = true; out_filename = opt_arg })
  handle_convert opt_e opt_arg c = done (record c { out_el = true; out_filename = opt_arg })
  handle_convert opt_w opt_arg c = done (record c { out_weighted = true })
  handle_convert opt opt_arg c =
      handle_base atoi opt opt_arg c.base >>= λ b. done (record c { base = b })

  abbrev pub app_parser : Parser ClApp
  app_parser = record {
    handle = handle_app;
    base = λ c. c.base;
    with_base = λ b c. record c { base = b };
    base-with_base = λ b c. refl;
  }

  abbrev pub convert_parser : Parser ClConvert
  convert_parser = record {
    handle = handle_convert;
    base = λ c. c.base;
    with_base = λ b c. record c { base = b };
    base-with_base = λ b c. refl;
  }

  abbrev pub iter_parser : Parser ClIterApp
  iter_parser = record {
    handle = handle_iter_app;
    base = λ c. c.app.base;
    with_base = λ b c. record c { app = record c.app { base = b } };
    base-with_base = λ b c. refl;
  }

  abbrev pub page_rank_parser {ℓ} : {D : Type ℓ} → (Text → Option D) → Parser (ClPageRank D)
  page_rank_parser stod = record {
    handle = handle_page_rank stod;
    base = λ c. c.app.base;
    with_base = λ b c. record c { app = record c.app { base = b } };
    base-with_base = λ b c. refl;
  }

  abbrev pub delta_parser {ℓ} : {W : Type ℓ} → (Text → W) → Parser (ClDelta W)
  delta_parser weight = record {
    handle = handle_delta weight;
    base = λ c. c.app.base;
    with_base = λ b c. record c { app = record c.app { base = b } };
    base-with_base = λ b c. refl;
  }
