-- ===== src/Unistd/Shapes/Types.antt =====
-- ext/posix/unistd.c: the types of results that each function may have.
use luaposix.Base.{Bytes, List, [], if◌then◌else◌, lit, ◌∷◌}
use luaposix.Helpers.Fields.{is_listed}
use luaposix.Helpers.Shapes.{Shape, error_shape}
use luaposix.Lua.{LuaType}

abbrev int_or_error : List Shape
int_or_error = error_shape ∷ (LuaType.tnumber ∷ []) ∷ []

abbrev pub name_or_nil : List Shape
name_or_nil = (LuaType.tstring ∷ []) ∷ (LuaType.tnil ∷ []) ∷ []

abbrev counting_functions : List Bytes
counting_functions =
    lit "alarm"
    ∷ lit "getegid"
    ∷ lit "geteuid"
    ∷ lit "getgid"
    ∷ lit "getpgrp"
    ∷ lit "getpid"
    ∷ lit "getppid"
    ∷ lit "getuid"
    ∷ lit "gethostid"
    ∷ lit "pathconf"
    ∷ lit "sleep"
    ∷ lit "sysconf"
    ∷ []

-- the lists of types that the name of a function allows, as its documentation has them; ttyname
-- has one more
abbrev pub shapes_of : Bytes → List Shape
shapes_of name =
    if is_listed name counting_functions
    then (LuaType.tnumber ∷ []) ∷ []
    else if is_listed name (lit "exec" ∷ lit "execp" ∷ [])
    then error_shape ∷ []
    else if is_listed name (lit "_exit" ∷ lit "sync" ∷ [])
    then [] ∷ []
    else if is_listed name (lit "crypt" ∷ lit "getlogin" ∷ [])
    then name_or_nil
    else if is_listed name (lit "getgroups" ∷ [])
    then error_shape ∷ (LuaType.ttable ∷ []) ∷ []
    else if is_listed name (lit "pipe" ∷ [])
    then error_shape ∷ (LuaType.tnumber ∷ LuaType.tnumber ∷ []) ∷ []
    else if is_listed name (lit "readlink" ∷ lit "read" ∷ lit "getcwd" ∷ [])
    then error_shape ∷ (LuaType.tstring ∷ []) ∷ []
    else if is_listed name (lit "getopt" ∷ [])
    then (LuaType.tfunction ∷ []) ∷ []
    else if is_listed name (lit "ttyname" ∷ [])
    then error_shape ∷ (LuaType.tstring ∷ []) ∷ (LuaType.tnil ∷ LuaType.tstring ∷ []) ∷ []
    else int_or_error
