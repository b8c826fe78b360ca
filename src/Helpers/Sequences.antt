-- ===== src/Helpers/Sequences.antt =====
-- Tables whose keys are consecutive integers, as the bindings make and read them.
use luaposix.Base.{
  Bytes, List, [], arith, eq_ℤ, eq_ℤ_iff, false, pos, refl, suc, true, ℕ, ◌<◌, ◌∷◌, ◌≡◌,
}
use luaposix.Lua.{
  Host, Outcome, Table, Value, empty, entry, err, get_index, get_index_entry, integer, nil, ok,
  run_error, string, table, type_of,
}

abbrev pub sequence : ℕ → List Value → Table
sequence i [] = empty
sequence i (v ∷ vs) = entry (integer (pos i)) v (sequence (suc i) vs)

-- the strings as values, in their order
abbrev pub string_values : List Bytes → List Value
string_values [] = []
string_values (s ∷ ss) = string s ∷ string_values ss

-- from the key `i` on, the table has the values of the list
abbrev pub ReadsAs : Table → ℕ → List Value → Type 0
ReadsAs t i [] = Unit
ReadsAs t i (v ∷ vs) = (get_index_entry i t ≡ v) × ReadsAs t (suc i) vs

pub ReadsAs-entry :
    (k i : ℕ) (v : Value) (t : Table) (vs : List Value)
    → k < i
    → ReadsAs t i vs
    → ReadsAs (entry (integer (pos k)) v t) i vs
unfolding get_index_entry
ReadsAs-entry k i v t [] h r = tt
ReadsAs-entry k i v t (x ∷ vs) h r =
    let apart : eq_ℤ (pos k) (pos i) ≡ false = ground (arith, eq_ℤ_iff (pos k) (pos i)) in
    (rw apart r.0, ReadsAs-entry k (suc i) v t vs (omega arith) r.1)

pub sequence-ReadsAs : (i : ℕ) (vs : List Value) → ReadsAs (sequence i vs) i vs
unfolding get_index_entry
sequence-ReadsAs i [] = tt
sequence-ReadsAs i (v ∷ vs) =
    let here : eq_ℤ (pos i) (pos i) ≡ true = (eq_ℤ_iff (pos i) (pos i)).1 refl in
    (
      rw here,
      ReadsAs-entry i (suc i) v (sequence (suc i) vs) vs (omega arith)
          (sequence-ReadsAs (suc i) vs),
    )

module _ ⦃lua : Host⦄ where
  -- lua_gettable at an integer key; a string's __index is the string library, which has none
  unfoldable pub index_value : ℕ → Value → Outcome Value
  unfolding get_index
  index_value i (table type t) = ok (get_index i (table type t))
  index_value i (string s) = ok nil
  index_value i v = err (run_error (lua.index_error (type_of v)))
