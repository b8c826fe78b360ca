-- ===== src/Helpers/Known.antt =====
-- ext/include/_helpers.c: which tables checkfieldnames lets through.
use luaposix.Base.{
  Bytes, Every, List, Option-cases, [], arith, done, inl, inr, refl, some, true, until_zero, ℕ, ◌↔◌,
  ◌∷◌, ◌≡◌, ◌▹◌,
}
use luaposix.Helpers.Args.{tolstring}
use luaposix.Helpers.Fields.{check_keys, checkfieldnames, checkismember, is_listed, table_entries}
use luaposix.Lua.{Host, Value, ok}
use luaposix.Lua.Checks.{>>=-eq-ok}
use luaposix.Posix.LegacyTime.{index}

-- a key that is a string, or a number in its decimal form, and up to its first zero is one of the
-- names
abbrev pub IsKnown : ⦃lua : Host⦄ → List Bytes → Value × Value → Type 0
IsKnown fields (key, _) =
    (k : Bytes) × (tolstring key ≡ some k) × (is_listed (until_zero k) fields ≡ true)

module _ ⦃lua : Host⦄ (index : ℕ) (fields : List Bytes) where
  member_of_passed :
      (key v : Value) → checkismember index fields key ≡ ok tt → IsKnown fields (key, v)
  unfolding checkismember
  member_of_passed key v h = elim (Option-cases (tolstring key)) [
    | inl e ↦ ground (arith, e, h)
    | inr (k, e) ↦ (k, e, ground (arith, e, h))
  ]

  passed_of_member :
      (key v : Value) → IsKnown fields (key, v) → checkismember index fields key ≡ ok tt
  unfolding checkismember
  passed_of_member key v (k, e, m) = ground (arith, e, m)

  members_of_passed :
      (es : List (Value × Value)) → check_keys index fields es ≡ ok tt → Every (IsKnown fields) es
  unfolding check_keys
  members_of_passed [] h = done
  members_of_passed ((key, v) ∷ es) h =
      let (u, a, b) = >>=-eq-ok (checkismember index fields key) _ h in
      member_of_passed key v a ▹ members_of_passed es b

  passed_of_members :
      (es : List (Value × Value)) → Every (IsKnown fields) es → check_keys index fields es ≡ ok tt
  unfolding check_keys
  passed_of_members [] h = refl
  passed_of_members ((key, v) ∷ es) (m ▹ h) = rw (passed_of_member key v m, passed_of_members es h)

-- A table passes checkfieldnames exactly if each of its keys is, as a string up to its first zero
-- byte, one of the names.
pub checkfieldnames_iff :
    ⦃lua : Host⦄
    → (v : Value) (index : ℕ) (fields : List Bytes)
    → (checkfieldnames v index fields ≡ ok tt) ↔ Every (IsKnown fields) (table_entries v)
unfolding checkfieldnames
checkfieldnames_iff v index fields = (
  members_of_passed index fields (table_entries v),
  passed_of_members index fields (table_entries v),
)
