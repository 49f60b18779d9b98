-- ===== src/Launcher/Tests.antt =====
-- The launcher on a command with two settings.
use nctu_unixprog.Base.{◌+◌, ◌≡◌, ◌≢◌, refl, true, none, some, List, [], ◌∷◌, ◌++◌, codes, text_eq}
use nctu_unixprog.Stream.{show_int, show_number, show_digits, digit_char}
use nctu_unixprog.Run.{ok, undefined}
use nctu_unixprog.Launcher.Host.{Host, Launcher}
use nctu_unixprog.Launcher.Command.{invalid, kind_of, main, executed}
use nctu_unixprog.Launcher.Runs.{
  Setting, to_file, through, arguments, HasSmallDescriptors, main-executes,
}
use nctu_unixprog.Launcher.Overflow.{main-overflows}

-- Every string gets eight bytes more, `open` gives 3, and `execvp` works.
abbrev toy : Host
toy = record {
  World = Unit {0};
  o_open = λ w t. (3, w);
  execvp = λ w cmd table. true;
  usable = λ n. n + 8;
}

abbrev tight : Host
tight = record {
  World = Unit {0};
  o_open = λ w t. (3, w);
  execvp = λ w cmd table. true;
  usable = λ n. n;
}

abbrev start : Launcher (Unit {0})
start = record { ld_preload = []; logger_out = []; stdout = []; world = tt }

abbrev settings : List Setting
settings = to_file (codes "log") ∷ through (codes "./a.so") ∷ []

toy-HasSmallDescriptors : HasSmallDescriptors toy
unfolding show_int show_number show_digits digit_char
toy-HasSmallDescriptors = record { small = λ w t. refl }

main-executes_example :
    main toy (arguments settings ++ (codes "--" ∷ codes "ls" ∷ codes "-l" ∷ [])) start
    ≡ ok
        (executed (codes "ls") (some (codes "ls") ∷ some (codes "-l") ∷ none ∷ []))
        (record { ld_preload = codes "./a.so"; logger_out = codes "3"; stdout = []; world = tt })
unfolding show_int show_number show_digits digit_char
main-executes_example =
    main-executes toy settings (codes "ls") (codes "-l" ∷ []) start toy-HasSmallDescriptors

command_kind : kind_of (codes "ls") ≢ invalid
unfolding kind_of text_eq
command_kind h = cc

main-overflows_example : main tight (codes "ls" ∷ []) start ≡ undefined
main-overflows_example = main-overflows tight (codes "ls") [] start (λ n. refl) command_kind
