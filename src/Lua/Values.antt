-- ===== src/Lua/Values.antt =====
-- Lua values as a binding sees them: the type tags of lua.h, one constructor for each. A table is
-- its entries, in the order in which lua_next visits them, with the `_type` of its metatable
-- (empty for none); metamethods are left out.
use luaposix.Base.{
  Bool, Bytes, List, [], arith, eq_bytes, eq_bytes_iff, eq_ℤ, false, if◌then◌else◌, pos, true, ℕ, ℤ,
  ◌∷◌, ◌≡◌,
}

pub data LuaType : Type 0 where
  tnone tnil tboolean tlightuserdata tnumber tstring ttable tfunction tuserdata tthread : LuaType

-- Lua 5.3 and 5.4 have two kinds of numbers; a float is known by its bits alone.
pub data Number : Type 0 where
  int : ℤ → Number
  float : ℕ → Number

mutual
  pub data Value : Type 0 where
    nil : Value
    boolean : Bool → Value
    number : Number → Value
    string : Bytes → Value
    table : Bytes → Table → Value
    -- a closure of Lua, and the closure that signal.c makes round a C handler
    function : ℕ → Value
    wrapped : ℤ → ℕ → Value
    userdata : ℕ → Value
    lightuserdata : ℕ → Value
    thread : ℕ → Value

  pub data Table : Type 0 where
    empty : Table
    entry : Value → Value → Table → Table

abbrev pub integer : ℤ → Value
integer n = number (int n)

abbrev pub type_of : Value → LuaType
type_of nil = LuaType.tnil
type_of (boolean _) = LuaType.tboolean
type_of (number _) = LuaType.tnumber
type_of (string _) = LuaType.tstring
type_of (table _ _) = LuaType.ttable
type_of (function _) = LuaType.tfunction
type_of (wrapped _ _) = LuaType.tfunction
type_of (userdata _) = LuaType.tuserdata
type_of (lightuserdata _) = LuaType.tlightuserdata
type_of (thread _) = LuaType.tthread

abbrev pub eq_type : LuaType → LuaType → Bool
eq_type LuaType.tnone LuaType.tnone = true
eq_type LuaType.tnil LuaType.tnil = true
eq_type LuaType.tboolean LuaType.tboolean = true
eq_type LuaType.tlightuserdata LuaType.tlightuserdata = true
eq_type LuaType.tnumber LuaType.tnumber = true
eq_type LuaType.tstring LuaType.tstring = true
eq_type LuaType.ttable LuaType.ttable = true
eq_type LuaType.tfunction LuaType.tfunction = true
eq_type LuaType.tuserdata LuaType.tuserdata = true
eq_type LuaType.tthread LuaType.tthread = true
eq_type _ _ = false

-- lua_toboolean
abbrev pub to_boolean : Value → Bool
to_boolean nil = false
to_boolean (boolean b) = b
to_boolean _ = true

abbrev pub is_key : Bytes → Value → Bool
is_key k (string s) = eq_bytes k s
is_key k _ = false

-- lua_getfield: nil for a key that is not there
unfoldable pub get_entry : Bytes → Table → Value
get_entry k empty = nil
get_entry k (entry j v t) = if is_key k j then v else get_entry k t

unfoldable pub get_field : Bytes → Value → Value
unfolding get_entry
get_field k (table _ t) = get_entry k t
get_field k _ = nil

-- lua_setfield on a table, at a value that is not nil
unfoldable pub set_field : Bytes → Value → Table → Table
set_field k v empty = entry (string k) v empty
set_field k v (entry j w t) = if is_key k j then entry j v t else entry j w (set_field k v t)

-- the pairs that lua_next visits
unfoldable pub entries : Table → List (Value × Value)
entries empty = []
entries (entry k v t) = (k, v) ∷ entries t

abbrev pub is_index : ℕ → Value → Bool
is_index i (number (int n)) = eq_ℤ n (pos i)
is_index i _ = false

-- lua_gettable at an integer key
unfoldable pub get_index_entry : ℕ → Table → Value
get_index_entry i empty = nil
get_index_entry i (entry k v t) = if is_index i k then v else get_index_entry i t

unfoldable pub get_index : ℕ → Value → Value
unfolding get_index_entry
get_index i (table _ t) = get_index_entry i t
get_index i _ = nil

-- A field that was set is read back, and the others stay as they were.
pub get_entry-set_field :
    (k j : Bytes) (v : Value) (t : Table)
    → get_entry j (set_field k v t) ≡ (if eq_bytes j k then v else get_entry j t)
unfolding get_entry set_field
get_entry-set_field k j v empty = ground arith
get_entry-set_field k j v (entry (string s) w t) =
    ground
      (arith, eq_bytes_iff j k, eq_bytes_iff k s, eq_bytes_iff j s, get_entry-set_field k j v t)
get_entry-set_field k j v (entry nil w t) = get_entry-set_field k j v t
get_entry-set_field k j v (entry (boolean _) w t) = get_entry-set_field k j v t
get_entry-set_field k j v (entry (number _) w t) = get_entry-set_field k j v t
get_entry-set_field k j v (entry (table _ _) w t) = get_entry-set_field k j v t
get_entry-set_field k j v (entry (function _) w t) = get_entry-set_field k j v t
get_entry-set_field k j v (entry (wrapped _ _) w t) = get_entry-set_field k j v t
get_entry-set_field k j v (entry (userdata _) w t) = get_entry-set_field k j v t
get_entry-set_field k j v (entry (lightuserdata _) w t) = get_entry-set_field k j v t
get_entry-set_field k j v (entry (thread _) w t) = get_entry-set_field k j v t
