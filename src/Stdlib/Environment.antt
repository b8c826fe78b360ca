-- ===== src/Stdlib/Environment.antt =====
-- ext/posix/stdlib.c: the table that Pgetenv makes of the environment.
use luaposix.Base.{
  Bytes, List, Option, [], ap, arith, eq_bytes, false, if◌then◌else◌, none, refl, some, true, ℕ,
  ◌++◌, ◌==◌, ◌∙◌, ◌∷◌, ◌≡◌, ◌≢◌,
}
use luaposix.Lua.{Table, Value, boolean, get_entry, get_entry-set_field, set_field, string}

-- the string before and behind the first '=', if there is one
abbrev pub before : ℕ → Option (Bytes × Bytes) → Option (Bytes × Bytes)
before c none = none
before c (some (name, value)) = some (c ∷ name, value)

unfoldable pub split_at_eq : Bytes → Option (Bytes × Bytes)
split_at_eq [] = none
split_at_eq (c ∷ s) = if c == 61 then some ([], s) else before c (split_at_eq s)

-- one turn of the loop: a string without '=' is a name that is true
abbrev pub set_variable : Bytes → Option (Bytes × Bytes) → Table → Table
set_variable s none t = set_field s (boolean true) t
set_variable s (some (name, value)) t = set_field name (string value) t

unfoldable pub environ_table : Table → List Bytes → Table
environ_table t [] = t
environ_table t (s ∷ environ) = environ_table (set_variable s (split_at_eq s) t) environ

-- what a string of the environment says of a name, over what was said before
abbrev pub said : Bytes → Value → Bytes → Option (Bytes × Bytes) → Value
said name v s none = if eq_bytes name s then boolean true else v
said name v s (some (n, value)) = if eq_bytes name n then string value else v

-- the environment as a function of names: the last string that sets a name counts
abbrev pub value_in : Bytes → Value → List Bytes → Value
value_in name v [] = v
value_in name v (s ∷ environ) = value_in name (said name v s (split_at_eq s)) environ

get_entry-set_variable :
    (name s : Bytes) (o : Option (Bytes × Bytes)) (t : Table)
    → get_entry name (set_variable s o t) ≡ said name (get_entry name t) s o
get_entry-set_variable name s none t = get_entry-set_field s name (boolean true) t
get_entry-set_variable name s (some (n, value)) t = get_entry-set_field n name (string value) t

pub get_entry-environ_table :
    (name : Bytes) (environ : List Bytes) (t : Table)
    → get_entry name (environ_table t environ) ≡ value_in name (get_entry name t) environ
unfolding environ_table
get_entry-environ_table name [] t = refl
get_entry-environ_table name (s ∷ environ) t =
    get_entry-environ_table name environ (set_variable s (split_at_eq s) t)
    ∙ ap (λ v. value_in name v environ) (get_entry-set_variable name s (split_at_eq s) t)

abbrev pub NoEquals : Bytes → Type 0
NoEquals [] = Unit
NoEquals (c ∷ s) = (c ≢ 61) × NoEquals s

-- A variable is split into its name and its value, whatever the value has in it.
pub split_at_eq-append :
    (name value : Bytes) → NoEquals name → split_at_eq (name ++ (61 ∷ value)) ≡ some (name, value)
unfolding split_at_eq
split_at_eq-append [] value h = refl
split_at_eq-append (c ∷ name) value h =
    let apart : (c == 61) ≡ false = ground arith in rw (apart, split_at_eq-append name value h.1)

-- an environment of names and values, as the strings of environ
abbrev pub joined : List (Bytes × Bytes) → List Bytes
joined [] = []
joined ((name, value) ∷ vars) = (name ++ (61 ∷ value)) ∷ joined vars

abbrev pub NamesNoEquals : List (Bytes × Bytes) → Type 0
NamesNoEquals [] = Unit
NamesNoEquals ((name, value) ∷ vars) = NoEquals name × NamesNoEquals vars

-- the value of the last variable of a name, and `v` if there is none
abbrev pub last_value : Bytes → Value → List (Bytes × Bytes) → Value
last_value name v [] = v
last_value name v ((n, value) ∷ vars) =
    last_value name (if eq_bytes name n then string value else v) vars

pub value_in-joined :
    (name : Bytes) (v : Value) (vars : List (Bytes × Bytes))
    → NamesNoEquals vars
    → value_in name v (joined vars) ≡ last_value name v vars
value_in-joined name v [] h = refl
value_in-joined name v ((n, value) ∷ vars) h =
    ap (λ o. value_in name (said name v (n ++ (61 ∷ value)) o) (joined vars))
      (split_at_eq-append n value h.0)
    ∙ value_in-joined name (if eq_bytes name n then string value else v) vars h.1
