-- ===== src/Termio/Structs.antt =====
-- ext/posix/termio.c: struct termios and struct winsize, to and from tables; with ws_xpixel and
-- ws_ypixel. A tcflag_t and a speed_t have 32 bits, a cc_t has 8, the fields of a winsize have 16.
use luaposix.Base.{
  Bytes, List, [], cast_int, cast_uint, if◌then◌else◌, lit, none, pos, some, suc, zero, ℕ, ℤ, ◌%◌,
  ◌++◌, ◌^◌, ◌∷◌,
}
use luaposix.Helpers.Args.{arg, lua_l_checktype, tointegerx}
use luaposix.Helpers.Fields.{checkfieldnames, optintfield}
use luaposix.Helpers.Results.{set_fields, typed_table}
use luaposix.Helpers.Sequences.{index_value, sequence}
use luaposix.Lua.{
  Args, Host, LuaType, Outcome, Value, empty, eq_type, err, get_field, integer, ok, table,
  top_error, type_of,
}
use luaposix.Lua.Checks.{◌>>=◌, ◌>>◌}

pub record Termios : Type 0 where
  pub c_iflag : ℕ
  pub c_oflag : ℕ
  pub c_cflag : ℕ
  pub c_lflag : ℕ
  -- what no function of the source reads or writes
  pub c_line : ℕ
  pub c_cc : List ℕ

pub record Winsize : Type 0 where
  pub ws_row : ℕ
  pub ws_col : ℕ
  pub ws_xpixel : ℕ
  pub ws_ypixel : ℕ

-- the accessors of speeds, which may keep them among the flags
pub record Speeds : Type 0 where
  pub cfgetispeed : Termios → ℕ
  pub cfgetospeed : Termios → ℕ
  pub cfsetispeed : ℕ → Termios → Termios
  pub cfsetospeed : ℕ → Termios → Termios
  pub b0 : ℤ
  pub nccs : ℕ

abbrev pub control_characters : List ℕ → List Value
control_characters [] = []
control_characters (c ∷ cs) = integer (pos c) ∷ control_characters cs

-- the table of Ptcgetattr
unfoldable pub attributes_table : Speeds → Termios → Value
unfolding set_fields
attributes_table sp t = table [] (
    set_fields empty (
      (lit "iflag", integer (pos t.c_iflag))
      ∷ (lit "oflag", integer (pos t.c_oflag))
      ∷ (lit "lflag", integer (pos t.c_lflag))
      ∷ (lit "cflag", integer (pos t.c_cflag))
      ∷ (lit "ispeed", integer (pos (sp.cfgetispeed t)))
      ∷ (lit "ospeed", integer (pos (sp.cfgetospeed t)))
      ∷ (lit "cc", table [] (sequence 0 (control_characters t.c_cc)))
      ∷ []))

unfoldable pub pushwinsize : Winsize → Value
unfolding typed_table
pushwinsize ws = typed_table (lit "PosixWinsize") (
    (lit "ws_row", integer (pos ws.ws_row))
    ∷ (lit "ws_col", integer (pos ws.ws_col))
    ∷ (lit "ws_xpixel", integer (pos ws.ws_xpixel))
    ∷ (lit "ws_ypixel", integer (pos ws.ws_ypixel))
    ∷ [])

abbrev pub winsize_fields : List Bytes
winsize_fields = lit "ws_row" ∷ lit "ws_col" ∷ lit "ws_xpixel" ∷ lit "ws_ypixel" ∷ []

-- the conversion of an int to an unsigned short
abbrev pub cast_ushort : ℤ → ℕ
cast_ushort z = cast_uint z % 2 ^ 16

module _ ⦃lua : Host⦄ where
  -- optint (L, -1, def), of the value on the top of the stack
  unfoldable pub opttop : Value → ℤ → Outcome ℤ
  opttop v def = if eq_type (type_of v) LuaType.tnil then ok def else elim (tointegerx v) [
    | none ↦
        err
          (top_error (lit "integer or nil" ++ (lit " expected, got " ++ lua.typename (type_of v))))
    | some d ↦ ok (cast_int d)
  ]

  -- the loop over c_cc, from `i` on
  unfoldable pub read_characters : ℕ → ℕ → Value → Outcome (List ℕ)
  unfolding index_value opttop
  read_characters zero i cc = ok []
  read_characters (suc n) i cc = do
    v ← index_value i cc
    c ← opttop v (pos 0)
    cs ← read_characters n (suc i) cc
    ok (cast_uint c % 2 ^ 8 ∷ cs)

  -- the struct that Ptcsetattr makes of a table; it starts as what the stack holds
  unfoldable pub read_attributes : Speeds → Termios → Value → Outcome Termios
  unfolding get_field opttop read_characters
  read_attributes sp stack t = do
    iflag ← opttop (get_field (lit "iflag") t) (pos 0)
    oflag ← opttop (get_field (lit "oflag") t) (pos 0)
    cflag ← opttop (get_field (lit "cflag") t) (pos 0)
    lflag ← opttop (get_field (lit "lflag") t) (pos 0)
    ispeed ← opttop (get_field (lit "ispeed") t) sp.b0
    ospeed ← opttop (get_field (lit "ospeed") t) sp.b0
    cs ← read_characters sp.nccs 0 (get_field (lit "cc") t)
    let flags = record stack {
      c_iflag = cast_uint iflag;
      c_oflag = cast_uint oflag;
      c_cflag = cast_uint cflag;
      c_lflag = cast_uint lflag;
    }
    let speeds = sp.cfsetospeed (cast_uint ospeed) (sp.cfsetispeed (cast_uint ispeed) flags)
    ok (record speeds { c_cc = cs })

  unfoldable pub towinsize : Args → ℕ → Outcome Winsize
  unfolding lua_l_checktype optintfield checkfieldnames
  towinsize args index = do
    lua_l_checktype args index LuaType.ttable
    let t = arg args index
    row ← optintfield t index (lit "ws_row") (pos 0)
    col ← optintfield t index (lit "ws_col") (pos 0)
    xpixel ← optintfield t index (lit "ws_xpixel") (pos 0)
    ypixel ← optintfield t index (lit "ws_ypixel") (pos 0)
    checkfieldnames t index winsize_fields
    ok (record {
      ws_row = cast_ushort row;
      ws_col = cast_ushort col;
      ws_xpixel = cast_ushort xpixel;
      ws_ypixel = cast_ushort ypixel;
    })
