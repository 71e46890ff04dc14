-- ===== src/First/Print.antt =====
-- The printing functions of hw1_client/src/client.c. A text that `vprintf` prints is taken as it
-- is printed, with its arguments put in.
use me2u.Base.{ℕ}
use me2u.CString.{Bytes, lit}
use me2u.System.{M, ◌>>◌, emit, exit, reported}
use me2u.First.Protocol.{c_verbose, c_default}
use me2u.Cli.Main.{usage}
use me2u.First.Strings.{First, c_errors}

abbrev pub c_info : Bytes
c_info = lit "\u{1b}[1;33m"

unfoldable pub first_color_verbose : M First (Unit {0})
first_color_verbose = emit (reported c_verbose)

unfoldable pub first_color_error : M First (Unit {0})
first_color_error = emit (reported c_errors)

unfoldable pub first_color_reset : M First (Unit {0})
first_color_reset = emit (reported c_default)

unfoldable pub first_color_info : M First (Unit {0})
first_color_info = emit (reported c_info)

-- The text is that of the other client, to the letter.
unfoldable pub first_print_usage : {A : Type 0} → ℕ → M First A
first_print_usage exit_code = do emit (reported usage); exit exit_code

unfoldable pub first_print_verbose : M First (Unit {0})
unfolding first_color_verbose first_color_reset
first_print_verbose = do
  first_color_verbose
  emit (reported (lit "    This is verbose printing        \n"))
  first_color_reset

unfoldable pub print_error : Bytes → M First (Unit {0})
unfolding first_color_error first_color_reset
print_error text = do first_color_error; emit (reported text); first_color_reset

unfoldable pub print_msg : Bytes → M First (Unit {0})
print_msg text = emit (reported text)

unfoldable pub print_info : Bytes → M First (Unit {0})
unfolding first_color_info first_color_reset
print_info text = do first_color_info; emit (reported text); first_color_reset
