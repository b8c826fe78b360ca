-- ===== src/Termio/RoundTrip.antt =====
-- ext/posix/termio.c: attributes and window sizes, from the system to a table and back.
use luaposix.Base.{
  Every, List, [], arith, cast_int, cast_uint, cast_uint-cast_int, length, none, pos, refl, suc,
  zero, ℕ, ℤ, ◌%◌, ◌<◌, ◌^◌, ◌∷◌, ◌≡◌, ◌▹◌,
}
use luaposix.Helpers.Results.{pushresult}
use luaposix.Helpers.Sequences.{ReadsAs, sequence, sequence-ReadsAs}
use luaposix.Lua.{Args, Host, Machine, Table, Value, call, integer, ok, table, ◌>>=◌}
use luaposix.Termio.Bindings.{TermioCalls, p_tcgetattr, p_tcsetattr}
use luaposix.Termio.Structs.{
  Speeds, Termios, Winsize, attributes_table, cast_ushort, control_characters, opttop, pushwinsize,
  read_attributes, read_characters, towinsize,
}

-- the flags and speeds have 32 bits, and the control characters are NCCS bytes
pub record IsTermios (sp : Speeds) (t : Termios) : Type 0 where
  pub iflag : t.c_iflag < 2 ^ 32
  pub oflag : t.c_oflag < 2 ^ 32
  pub cflag : t.c_cflag < 2 ^ 32
  pub lflag : t.c_lflag < 2 ^ 32
  pub ispeed : sp.cfgetispeed t < 2 ^ 32
  pub ospeed : sp.cfgetospeed t < 2 ^ 32
  pub count : length t.c_cc ≡ sp.nccs
  pub bytes : Every (λ c. c < 2 ^ 8) t.c_cc

-- To set the speed that a struct has changes nothing, whatever is in the fields that hold no speed.
pub record KeepsSpeeds (sp : Speeds) : Type 0 where
  pub input :
      (t : Termios) (line : ℕ) (cc : List ℕ)
      → sp.cfsetispeed (sp.cfgetispeed t) (record t { c_line = line; c_cc = cc })
        ≡ record t { c_line = line; c_cc = cc }
  pub output :
      (t : Termios) (line : ℕ) (cc : List ℕ)
      → sp.cfsetospeed (sp.cfgetospeed t) (record t { c_line = line; c_cc = cc })
        ≡ record t { c_line = line; c_cc = cc }

cast_byte : (n : ℕ) → n < 2 ^ 8 → cast_uint (cast_int (pos n)) % 2 ^ 8 ≡ n
unfolding cast_uint cast_int
cast_byte n h = ground arith

module _ ⦃lua : Host⦄ where
  read_characters-ReadsAs :
      (t : Table) (cs : List ℕ) (n i : ℕ)
      → length cs ≡ n
      → Every (λ c. c < 2 ^ 8) cs
      → ReadsAs t i (control_characters cs)
      → read_characters n i (table [] t) ≡ ok cs
  unfolding read_characters
  read_characters-ReadsAs t [] zero i e b r = refl
  read_characters-ReadsAs t [] (suc n) i e b r = absurd (omega arith)
  read_characters-ReadsAs t (c ∷ cs) zero i e b r = absurd (omega arith)
  read_characters-ReadsAs t (c ∷ cs) (suc n) i e (b ▹ bs) r =
      let rest = read_characters-ReadsAs t cs n (suc i) (omega arith) bs r.1 in
      rw (r.0, rest, cast_byte c b)

  -- The attributes that tcgetattr shows in a table are read from it as they were, but for c_line:
  -- it is what the stack held.
  pub attributes_round_trip :
      (sp : Speeds) (stack t : Termios)
      → IsTermios sp t
      → KeepsSpeeds sp
      → read_attributes sp stack (attributes_table sp t) ≡ ok (record t { c_line = stack.c_line })
  unfolding read_attributes attributes_table opttop
  attributes_round_trip sp stack t w k = rw (
    cast_uint-cast_int t.c_iflag w.iflag,
    cast_uint-cast_int t.c_oflag w.oflag,
    cast_uint-cast_int t.c_cflag w.cflag,
    cast_uint-cast_int t.c_lflag w.lflag,
    cast_uint-cast_int (sp.cfgetispeed t) w.ispeed,
    cast_uint-cast_int (sp.cfgetospeed t) w.ospeed,
    k.input t stack.c_line stack.c_cc,
    k.output t stack.c_line stack.c_cc,
    read_characters-ReadsAs (sequence 0 (control_characters t.c_cc)) t.c_cc sp.nccs 0 w.count
        w.bytes (sequence-ReadsAs 0 (control_characters t.c_cc)),
  )

  -- What a successful tcgetattr returns can be given to tcsetattr, for any terminal and at any later
  -- time: the system is then asked to set exactly the attributes that it had answered, but for
  -- c_line, which is what the stack held.
  pub restore_attributes :
      {W : Type 0} (os : TermioCalls W) (fd fd' act : ℤ) (t : Termios) (w w' later : Machine W)
      → IsTermios os.speeds t
      → KeepsSpeeds os.speeds
      → os.tcgetattr (cast_int fd) w ≡ ((pos 0, t), w')
      → (saved : Value) × (p_tcgetattr os (integer fd ∷ []) w ≡ (ok (saved ∷ []), w'))
        × (p_tcsetattr os (integer fd' ∷ integer act ∷ saved ∷ []) later
            ≡ (call (
                    os.tcsetattr
                      (cast_int fd')
                      (cast_int act)
                      (record t { c_line = os.stack_termios.c_line }))
                  >>= λ r. pushresult r none)
                later)
  unfolding p_tcgetattr p_tcsetattr attributes_table
  restore_attributes os fd fd' act t w w' later i k e = (
    attributes_table os.speeds t,
    rw e,
    rw (attributes_round_trip os.speeds os.stack_termios t i k),
  )

  cast_ushort_of : (n : ℕ) → n < 2 ^ 16 → cast_ushort (cast_int (pos n)) ≡ n
  unfolding cast_uint cast_int
  cast_ushort_of n h = ground arith

  -- A window size of four unsigned shorts is read back from its table.
  pub winsize_round_trip :
      (ws : Winsize) (v : Value) (rest : Args)
      → ws.ws_row < 2 ^ 16
      → ws.ws_col < 2 ^ 16
      → ws.ws_xpixel < 2 ^ 16
      → ws.ws_ypixel < 2 ^ 16
      → towinsize (v ∷ pushwinsize ws ∷ rest) 2 ≡ ok ws
  unfolding towinsize pushwinsize
  winsize_round_trip ws v rest row col x y = rw (
    cast_ushort_of ws.ws_row row,
    cast_ushort_of ws.ws_col col,
    cast_ushort_of ws.ws_xpixel x,
    cast_ushort_of ws.ws_ypixel y,
  )
