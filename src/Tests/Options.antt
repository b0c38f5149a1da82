-- ===== src/Tests/Options.antt =====
-- A small command line (src/command_line.h).
use shared_gapbs.Base.{ℤ, pos, ◌≡◌, refl, List, [], ◌∷◌, length, false, Option, none, some}
use shared_gapbs.CommandLine.{Opt, opt_x, opt_g, opt_n, Text, parse_args}
use shared_gapbs.CommandLine.Apps.{
  cl_app, app_parser, iter_parser, page_rank_parser, delta_parser, convert_parser,
}
use shared_gapbs.CommandLine.Laws.{
  Extends, ExtendsNumbers, handlers-Extends, Outcome, settings, parse_args-Outcome,
}

-- A number written in unary.
abbrev unary : Text → ℤ
unary t = pos (length t)

-- Only a text without other digits is a number.
abbrev unary_double : Text → Option ℤ
unary_double [] = none
unary_double (c ∷ t) = some (unary (c ∷ t))

-- `-g 3 -x 1 -n 2 -x 0`
abbrev command_line : List (Opt × Text)
command_line = (opt_g, 1 ∷ 1 ∷ 1 ∷ []) ∷ (opt_x, 1 ∷ []) ∷ (opt_n, 1 ∷ 1 ∷ []) ∷ (opt_x, []) ∷ []

last_host : (settings unary command_line cl_app.base).host_id ≡ pos 0
last_host = refl

handlers-Extends_example :
    Extends unary (app_parser unary unary)
    × Extends unary (iter_parser unary unary)
    × ExtendsNumbers unary unary_double (page_rank_parser unary unary unary_double)
    × Extends unary (delta_parser unary unary unary)
    × Extends unary (convert_parser unary unary)
handlers-Extends_example = handlers-Extends unary unary unary_double unary

parse_args-Outcome_example :
    Outcome
      (app_parser unary unary)
      false
      (settings unary command_line cl_app.base)
      (parse_args (app_parser unary unary) command_line cl_app)
parse_args-Outcome_example =
    parse_args-Outcome (app_parser unary unary) unary
      (handlers-Extends unary unary unary_double unary).0 command_line cl_app
