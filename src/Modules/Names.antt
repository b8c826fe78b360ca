-- ===== src/Modules/Names.antt =====
-- ext/posix: whether a module table holds what was put under each name.
use luaposix.Base.{
  Bool, Bytes, Every, List, Option, [], arith, done, eq_bytes_iff, false, none, not, refl, some,
  true, ◌&&◌, ◌∙◌, ◌∷◌, ◌≡◌, ◌▹◌,
}
use luaposix.Helpers.Fields.{is_listed}
use luaposix.Lua.{Table, Value, empty, get_entry, get_entry-set_field, nil, set_field}
use luaposix.Modules.{Build, Field, Module, fill, luaopen, module_fields}
use luaposix.Modules.Errno.{posix_errno}
use luaposix.Modules.Files.{
  posix_dirent, posix_fcntl, posix_fnmatch, posix_glob, posix_libgen, posix_poll, posix_stdio,
  posix_sys_stat, posix_sys_statvfs, posix_utime,
}
use luaposix.Modules.Hosts.{
  posix_ctype, posix_grp, posix_pwd, posix_stdlib, posix_sys_msg, posix_sys_utsname, posix_syslog,
  posix_time,
}
use luaposix.Modules.Processes.{
  posix_sched, posix_signal, posix_sys_resource, posix_sys_time, posix_sys_times, posix_sys_wait,
  posix_unistd,
}
use luaposix.Modules.Socket.{posix_sys_socket}
use luaposix.Modules.Termio.{posix_termio}

abbrev pub named : Option Value → Value
named none = nil
named (some v) = v

abbrev field_names : List Field → List Bytes
field_names [] = []
field_names ((k, v) ∷ fields) = k ∷ field_names fields

abbrev distinct : List Bytes → Bool
distinct [] = true
distinct (n ∷ names) = not (is_listed n names) && distinct names

abbrev pub Has : Table → Field → Type 0
Has t (k, v) = get_entry k t ≡ named v

fill_other :
    (k : Bytes) (t : Table) (fields : List Field)
    → is_listed k (field_names fields) ≡ false
    → get_entry k (fill t fields) ≡ get_entry k t
unfolding fill
fill_other k t [] h = refl
fill_other k t ((j, none) ∷ fields) h = fill_other k t fields (ground (arith, h))
fill_other k t ((j, some v) ∷ fields) h =
    fill_other k (set_field j v t) fields (ground (arith, h))
    ∙ ground (arith, h, get_entry-set_field j k v t, eq_bytes_iff k j, eq_bytes_iff j k)

still_nil :
    (k : Bytes) (v : Value) (t : Table) (fields : List Field)
    → is_listed k (field_names fields) ≡ false
    → Every (λ (f : Field). get_entry f.0 t ≡ nil) fields
    → Every (λ (f : Field). get_entry f.0 (set_field k v t) ≡ nil) fields
still_nil k v t [] h e = done
still_nil k v t ((j, w) ∷ fields) h (e ▹ es) =
    ground (arith, h, e, get_entry-set_field k j v t, eq_bytes_iff k j, eq_bytes_iff j k)
    ▹ still_nil k v t fields (ground (arith, h)) es

fill-Has :
    (t : Table) (fields : List Field)
    → distinct (field_names fields) ≡ true
    → Every (λ (f : Field). get_entry f.0 t ≡ nil) fields
    → Every (Has (fill t fields)) fields
unfolding fill
fill-Has t [] d e = done
fill-Has t ((k, none) ∷ fields) d (e ▹ es) =
    let apart : is_listed k (field_names fields) ≡ false = ground (arith, d) in
    (fill_other k t fields apart ∙ e) ▹ fill-Has t fields (ground (arith, d)) es
fill-Has t ((k, some v) ∷ fields) d (e ▹ es) =
    let apart : is_listed k (field_names fields) ≡ false = ground (arith, d) in
    (fill_other k (set_field k v t) fields apart
      ∙ ground (arith, get_entry-set_field k k v t, eq_bytes_iff k k))
    ▹ fill-Has (set_field k v t) fields (ground (arith, d)) (still_nil k v t fields apart es)

all_nil : (fields : List Field) → Every (λ (f : Field). get_entry f.0 empty ≡ nil) fields
unfolding get_entry
all_nil [] = done
all_nil (f ∷ fields) = refl ▹ all_nil fields

luaopen-Has :
    (b : Build) (m : Module)
    → distinct (field_names (module_fields b m)) ≡ true
    → Every (Has (luaopen b m)) (module_fields b m)
unfolding luaopen
luaopen-Has b m d = fill-Has empty (module_fields b m) d (all_nil (module_fields b m))

-- the modules that have a luaopen function
unfoldable pub modules : List Module
modules =
    posix_errno ∷ posix_termio ∷ posix_sys_socket ∷ posix_fcntl ∷ posix_sys_stat ∷ posix_sys_statvfs
    ∷ posix_glob ∷ posix_fnmatch ∷ posix_dirent ∷ posix_libgen ∷ posix_utime ∷ posix_stdio
    ∷ posix_poll ∷ posix_signal ∷ posix_unistd ∷ posix_sys_resource ∷ posix_sys_wait ∷ posix_sched
    ∷ posix_sys_time ∷ posix_sys_times ∷ posix_sys_msg ∷ posix_syslog ∷ posix_time ∷ posix_stdlib
    ∷ posix_grp ∷ posix_pwd ∷ posix_ctype ∷ posix_sys_utsname ∷ []

-- For each module: the table that its luaopen function returns has at each name what was put
-- there, a function, the version or a constant, and nil at the name of a constant whose macro is
-- not defined.
pub modules-Has : (b : Build) → Every (λ m. Every (Has (luaopen b m)) (module_fields b m)) modules
unfolding modules
modules-Has b =
    luaopen-Has b posix_errno refl
    ▹ luaopen-Has b posix_termio refl
    ▹ luaopen-Has b posix_sys_socket refl
    ▹ luaopen-Has b posix_fcntl refl
    ▹ luaopen-Has b posix_sys_stat refl
    ▹ luaopen-Has b posix_sys_statvfs refl
    ▹ luaopen-Has b posix_glob refl
    ▹ luaopen-Has b posix_fnmatch refl
    ▹ luaopen-Has b posix_dirent refl
    ▹ luaopen-Has b posix_libgen refl
    ▹ luaopen-Has b posix_utime refl
    ▹ luaopen-Has b posix_stdio refl
    ▹ luaopen-Has b posix_poll refl
    ▹ luaopen-Has b posix_signal refl
    ▹ luaopen-Has b posix_unistd refl
    ▹ luaopen-Has b posix_sys_resource refl
    ▹ luaopen-Has b posix_sys_wait refl
    ▹ luaopen-Has b posix_sched refl
    ▹ luaopen-Has b posix_sys_time refl
    ▹ luaopen-Has b posix_sys_times refl
    ▹ luaopen-Has b posix_sys_msg refl
    ▹ luaopen-Has b posix_syslog refl
    ▹ luaopen-Has b posix_time refl
    ▹ luaopen-Has b posix_stdlib refl
    ▹ luaopen-Has b posix_grp refl
    ▹ luaopen-Has b posix_pwd refl
    ▹ luaopen-Has b posix_ctype refl
    ▹ luaopen-Has b posix_sys_utsname refl
    ▹ done
