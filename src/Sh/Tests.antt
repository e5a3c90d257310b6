-- ===== src/Sh/Tests.antt =====
-- The parser of sh.c on concrete lines.
use cs.Common.{◌≡◌, refl, [], ◌∷◌, arith, codes}
use cs.Sh.{
  o_overwrite, Cmd, Parsed, among, skip_blanks, peek, split_word, token_at, after_greater, gettoken,
  add_arg, redirect, parseredirs, parseblock, parse_args, parseexec, parsepipe, parse_backs,
  parseline, parsecmd,
}
use cs.Ulib.{strchr}
use cs.Sh.Shape.{WellFormed, Stopped}
use cs.Sh.Show.{show}
use cs.Sh.Stops.{parsecmd-Stopped}
use cs.Sh.RoundTrip.{parsecmd-show}

abbrev listing : Cmd
listing =
    Cmd.pipe (Cmd.exec (codes "ls" ∷ codes "-l" ∷ []))
      (Cmd.redir (Cmd.exec (codes "wc" ∷ [])) (codes "out") o_overwrite 1)

line_parsed : parsecmd (codes "ls -l | wc >out\n") ≡ Parsed.done listing []
unfolding parsecmd parseline parse_backs parsepipe parseexec parse_args parseblock parseredirs
    redirect add_arg gettoken token_at after_greater split_word peek skip_blanks among strchr
line_parsed = refl

no_file : parsecmd (codes "wc > | ls") ≡ Parsed.panic
unfolding parsecmd parseline parse_backs parsepipe parseexec parse_args parseblock parseredirs
    redirect add_arg gettoken token_at after_greater split_word peek skip_blanks among strchr
no_file = refl

parsecmd-Stopped_example : Stopped WellFormed 0 (parsecmd (codes "(ls; wc >>out) &"))
parsecmd-Stopped_example = parsecmd-Stopped (codes "(ls; wc >>out) &")

listing-WellFormed : WellFormed listing
unfolding among strchr
listing-WellFormed = ground arith

parsecmd-show_example : parsecmd (show listing []) ≡ Parsed.done listing []
parsecmd-show_example = parsecmd-show listing listing-WellFormed
