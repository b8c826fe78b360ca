-- ===== src/Tests/Terminals.antt =====
-- The theorems on terminals, file handles, logs and lists of strings, each at one call.
use luaposix.Base.{
  List, [], ap, arith, cast_int, done, lit, none, pos, refl, some, ℕ, ◌+◌, ◌-◌, ◌==◌, ◌∷◌, ◌≡◌, ◌▹◌,
}
use luaposix.Helpers.Results.{pushresult}
use luaposix.Lua.{Machine, Value, call, integer, ok, ◌>>=◌}
use luaposix.Stdio.Bindings.{Files, StdioCalls}
use luaposix.Stdio.Handles.{
  OpensAndCloses, Use, after_uses, closes, handles_hold_what_is_open, held, one_if, opens,
}
use luaposix.Termio.Bindings.{TermioCalls, p_tcgetattr, p_tcsetattr}
use luaposix.Termio.RoundTrip.{IsTermios, KeepsSpeeds, restore_attributes}
use luaposix.Termio.Structs.{Speeds, Termios}
use luaposix.Tests.Fixtures.{Ledger, idle, lua54}

-- a terminal with its speeds in no field
abbrev fixed_speeds : Speeds
fixed_speeds = record {
  cfgetispeed = λ t. 13;
  cfgetospeed = λ t. 13;
  cfsetispeed = λ n t. t;
  cfsetospeed = λ n t. t;
  b0 = pos 0;
  nccs = 3;
}

fixed_speeds-KeepsSpeeds : KeepsSpeeds fixed_speeds
fixed_speeds-KeepsSpeeds = record { input = λ t line cc. refl; output = λ t line cc. refl }

abbrev cooked : Termios
cooked = record {
  c_iflag = 1280;
  c_oflag = 5;
  c_cflag = 191;
  c_lflag = 35387;
  c_line = 0;
  c_cc = 3 ∷ 28 ∷ 127 ∷ [];
}

cooked-IsTermios : IsTermios fixed_speeds cooked
cooked-IsTermios = record {
  iflag = omega arith;
  oflag = omega arith;
  cflag = omega arith;
  lflag = omega arith;
  ispeed = omega arith;
  ospeed = omega arith;
  count = refl;
  bytes = omega arith ▹ omega arith ▹ omega arith ▹ done;
}

abbrev terminal : TermioCalls Ledger
terminal = record {
  tcdrain = λ fd m. (pos 0, m);
  tcflow = λ fd action m. (pos 0, m);
  tcflush = λ fd qs m. (pos 0, m);
  tcgetattr = λ fd m. ((pos 0, cooked), m);
  tcsendbreak = λ fd duration m. (pos 0, m);
  tcsetattr = λ fd act t m. (pos 0, m);
  get_winsize =
      λ fd m. ((pos 0, record { ws_row = 24; ws_col = 80; ws_xpixel = 0; ws_ypixel = 0 }), m);
  set_winsize = λ fd ws m. (pos 0, m);
  stack_termios = record cooked { c_line = 77 };
  speeds = fixed_speeds;
}

restore_attributes_example :
    (saved : Value) × (p_tcgetattr ⦃lua = lua54⦄ terminal (integer (pos 0) ∷ []) idle
      ≡ (ok (saved ∷ []), idle))
    × (p_tcsetattr ⦃lua = lua54⦄ terminal (integer (pos 1) ∷ integer (pos 2) ∷ saved ∷ []) idle
        ≡ (call (
                terminal.tcsetattr
                  (cast_int (pos 1))
                  (cast_int (pos 2))
                  (record cooked { c_line = 77 }))
              >>= λ r. pushresult ⦃lua = lua54⦄ r none)
            idle)
restore_attributes_example =
    restore_attributes ⦃lua = lua54⦄ terminal (pos 0) (pos 1) (pos 2) cooked idle idle idle
      cooked-IsTermios fixed_speeds-KeepsSpeeds refl

-- the FILE pointers that are open, each with a count; fdopen always gives the pointer 7
abbrev Counts : Type 0
Counts = ℕ → ℕ

abbrev seven : StdioCalls Counts
seven = record {
  ctermid = λ m. (lit "/dev/tty", m);
  fileno = λ f m. (pos 0, m);
  fclose = λ f m. (pos 0, record m { kernel = λ g. m.kernel g - one_if (g == f) });
  fdopen = λ fd mode m. (some 7, record m { kernel = λ g. one_if (g == 7) + m.kernel g });
  rename = λ a b m. (pos 0, m);
}

seven-OpensAndCloses : OpensAndCloses (λ (k : Counts). k) seven
seven-OpensAndCloses = record {
  granted = λ fd mode f g w w' e. ground (arith, ap (λ t. t.1.kernel g) e, ap (λ t. t.0) e);
  refused = λ fd mode g w w' e. ground (arith, ap (λ t. t.0) e);
  closed = λ f g w h. grind arith;
}

abbrev nothing_open : Machine (Files Counts)
nothing_open = record { errno = pos 0; kernel = record { handles = []; system = λ g. 0 } }

-- a handle is closed twice
abbrev twice : List Use
twice = opens (pos 3) (lit "r") ∷ closes 0 ∷ closes 0 ∷ []

abbrev closed_twice : Files Counts
closed_twice = (after_uses ⦃lua = lua54⦄ seven twice nothing_open).kernel

handles_hold_what_is_open_example : closed_twice.system 7 ≡ held 7 closed_twice.handles + 0
handles_hold_what_is_open_example =
    handles_hold_what_is_open ⦃lua = lua54⦄ (λ (k : Counts). k) seven seven-OpensAndCloses twice
      (λ g. 0) nothing_open (λ g. refl) 7
