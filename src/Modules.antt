-- ===== src/Modules.antt =====
-- The luaopen functions of ext/posix: the table that a module is. A macro of the C headers may be
-- undefined; then LPOSIX_CONST is left out by the preprocessor.
pub mod Errno
pub mod Termio
pub mod Socket
pub mod Files
pub mod Processes
pub mod Hosts
pub mod Names
use luaposix.Base.{Bytes, List, Option, [], lit, map, none, some, ℤ, ◌++◌, ◌∷◌}
use luaposix.Lua.{Table, Value, empty, integer, set_field, string}

-- LPOSIX_CONST, or a string constant that is its own name
pub data Item : Type 0 where
  constant : Bytes → Item
  literal : Bytes → Item

pub record Module : Type 0 where
  pub name : Bytes
  -- luaL_Reg
  pub functions : List Bytes
  pub items : List Item

-- the C function at a name, the value of a macro, and LPOSIX_VERSION_STRING
pub record Build : Type 0 where
  pub closure : Bytes → Value
  pub macro_value : Bytes → Option ℤ
  pub version_string : Bytes → Bytes

abbrev pub Field : Type 0
Field = Bytes × Option Value

abbrev pub item_field : Build → Item → Field
item_field b (constant n) = (n, elim (b.macro_value n) [ none ↦ none | some z ↦ some (integer z) ])
item_field b (literal n) = (n, some (string n))

-- lua_setfield for each field that has a value, in their order
unfoldable pub fill : Table → List Field → Table
unfolding set_field
fill t [] = t
fill t ((k, none) ∷ fields) = fill t fields
fill t ((k, some v) ∷ fields) = fill (set_field k v t) fields

-- the functions, the version, and the constants
abbrev pub module_fields : Build → Module → List Field
module_fields b m =
    map (λ n. (n, some (b.closure n))) m.functions
    ++ ((lit "version", some (string (b.version_string m.name))) ∷ map (item_field b) m.items)

unfoldable pub luaopen : Build → Module → Table
unfolding fill
luaopen b m = fill empty (module_fields b m)
