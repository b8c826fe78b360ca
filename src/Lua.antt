-- ===== src/Lua.antt =====
-- The host side of the bindings: the values that cross the Lua C API, the parts of Lua and of the C
-- library that stay parameters, and the effects of a binding.
pub mod Values
pub mod Effects
pub mod Checks
pub use Effects.*
unfoldable pub use Effects.{◌>>=◌, pure, raise, lift, call, read_errno, write_errno}
unfoldable pub use Values.{set_field, get_field, get_entry, get_index, get_index_entry, entries}
pub use Values.*
