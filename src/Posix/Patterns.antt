-- ===== src/Posix/Patterns.antt =====
-- The part of Lua's patterns that lib/posix uses: single characters of a class, and classes with the
-- suffixes `*` and `+`, which take as much as they can and give back where the rest does not match.
use luaposix.Base.{
  Bool, Bytes, List, Option, [], drop, false, if◌then◌else◌, leb, length, none, some, suc, take,
  true, zero, ℕ, ◌-◌, ◌∷◌,
}
use luaposix.Posix.Script.{onward}

-- whether what an item matches is a capture
pub data PatternItem : Type 0 where
  single : Bool → (ℕ → Bool) → PatternItem
  repeated : Bool → (ℕ → Bool) → ℕ → PatternItem

-- the captures, and what is left behind the match
abbrev pub Match : Type 0
Match = Option (List Bytes × Bytes)

abbrev pub capture : Bool → Bytes → Match → Match
capture keep part none = none
capture true part (some (parts, rest)) = some (part ∷ parts, rest)
capture false part (some (parts, rest)) = some (parts, rest)

abbrev pub run_length : (ℕ → Bool) → Bytes → ℕ
run_length class [] = 0
run_length class (x ∷ s) = let n = run_length class s in if class x then suc n else 0

-- max_expand: from the longest run down to the least that is allowed
unfoldable pub expand : (Bytes → Match) → Bool → Bytes → ℕ → ℕ → Match
expand onward keep s least zero = if leb least 0 then capture keep [] (onward s) else none
expand onward keep s least (suc n) =
    let shorter = expand onward keep s least n in
    if leb least (suc n)
    then elim (onward (drop (suc n) s)) [
      | none ↦ shorter
      | some found ↦ capture keep (take (suc n) s) (some found)
    ]
    else none

unfoldable pub match_items : List PatternItem → Bytes → Match
unfolding expand
match_items [] s = some ([], s)
match_items (single keep class ∷ items) [] = none
match_items (single keep class ∷ items) (x ∷ s) =
    let rest = match_items items s in if class x then capture keep (x ∷ []) rest else none
match_items (repeated keep class least ∷ items) s =
    expand (match_items items) keep s least (run_length class s)

module _ {ℓ} {S : Type ℓ} where
  abbrev pub found_at : Bytes → (List Bytes → S → S) → Match → S → ℕ × S
  found_at s use_captures none state = (0, state)
  found_at s use_captures (some (parts, rest)) state =
      (length s - length rest - 1, use_captures parts state)

  -- gsub with a function that is called for its effects on a state: what a match covers is skipped
  unfoldable pub gsub : List PatternItem → (List Bytes → S → S) → Bytes → ℕ → S → S
  unfolding match_items
  gsub items use_captures [] skip state = state
  gsub items use_captures (x ∷ s) (suc skip) state = gsub items use_captures s skip state
  gsub items use_captures (x ∷ s) zero state =
      let next = found_at (x ∷ s) use_captures (match_items items (x ∷ s)) state in
      gsub items use_captures s next.0 next.1
