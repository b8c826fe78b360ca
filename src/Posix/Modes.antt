-- ===== src/Posix/Modes.antt =====
-- lib/posix/_base.lua and lib/posix/compat.lua: file modes as texts. The bits of a lua_Integer are a
-- number below 2 ^ 64, and the S_I constants have the values that POSIX gives them.
pub mod RoundTrip
pub mod Functions
pub mod Umask
pub mod Chmod
use luaposix.Base.{
  Bool, Bytes, List, Option, [], bit_and, bit_or, false, if◌then◌else◌, leb, length, lit, none, not,
  some, suc, true, zero, ℕ, ◌%◌, ◌&&◌, ◌*◌, ◌+◌, ◌-◌, ◌==◌, ◌^◌, ◌||◌, ◌∷◌,
}
use luaposix.Posix.Patterns.{PatternItem, gsub, match_items, repeated, single}
use luaposix.Unistd.Access.{bits}

abbrev pub s_isuid : ℕ
s_isuid = 2048

abbrev pub s_isgid : ℕ
s_isgid = 1024

abbrev pub s_ixusr : ℕ
s_ixusr = 64

abbrev pub s_ixgrp : ℕ
s_ixgrp = 8

-- RWXALL
abbrev pub rwxall : ℕ
rwxall = 511

-- MODE_MAP: the letter and the bit of each place
abbrev pub mode_map : List (ℕ × ℕ)
mode_map =
    (b'r', 256)
    ∷ (b'w', 128)
    ∷ (b'x', 64)
    ∷ (b'r', 32)
    ∷ (b'w', 16)
    ∷ (b'x', 8)
    ∷ (b'r', 4)
    ∷ (b'w', 2)
    ∷ (b'x', 1)
    ∷ []

-- `~a`
abbrev pub bnot : ℕ → ℕ
bnot a = 2 ^ 64 - 1 - a

abbrev pub has_bit : ℕ → ℕ → Bool
has_bit mode b = not (bit_and mode b == 0)

abbrev pub letters : List (ℕ × ℕ) → ℕ → Bytes
letters [] mode = []
letters ((c, b) ∷ places) mode = (if has_bit mode b then c else b'-') ∷ letters places mode

abbrev pub set_letter : ℕ → ℕ → Bytes → Bytes
set_letter i c [] = []
set_letter zero c (x ∷ xs) = c ∷ xs
set_letter (suc i) c (x ∷ xs) = x ∷ set_letter i c xs

unfoldable pub pushmode : ℕ → Bytes
pushmode mode =
    let m = letters mode_map mode in
    let m' =
      if has_bit mode s_isuid
      then set_letter 2 (if has_bit mode s_ixusr then b's' else b'S') m
      else m in
    if has_bit mode s_isgid
    then set_letter 5 (if has_bit mode s_ixgrp then b's' else b'S') m'
    else m'

-- `sub (modestr, i, i)`: 0 stands for the empty text behind the end
abbrev pub first_letter : Bytes → ℕ
first_letter [] = 0
first_letter (x ∷ xs) = x

abbrev pub rest_letters : Bytes → Bytes
rest_letters [] = []
rest_letters (x ∷ xs) = xs

-- one round of the loop; none is the return of nil
abbrev pub read_letter : ℕ → ℕ → ℕ → ℕ → ℕ → Option ℕ
read_letter i c b letter mode =
    if letter == c
    then some (bit_or mode b)
    else if letter == b's'
    then if i == 3
      then some (bit_or (bit_or mode s_isuid) s_ixusr)
      else if i == 6
      then some (bit_or (bit_or mode s_isgid) s_ixgrp)
      else none
    else some mode

unfoldable pub read_letters : ℕ → List (ℕ × ℕ) → Bytes → ℕ → Option ℕ
read_letters i [] modestr mode = some mode
read_letters i ((c, b) ∷ places) modestr mode =
    elim (read_letter i c b (first_letter modestr) mode) [
      | none ↦ none
      | some mode' ↦ read_letters (i + 1) places (rest_letters modestr) mode'
    ]

unfoldable pub rwxrwxrwx : Bytes → Option ℕ
unfolding read_letters
rwxrwxrwx modestr = read_letters 1 mode_map modestr 0

abbrev pub one_of : Bytes → ℕ → Bool
one_of [] x = false
one_of (c ∷ cs) x = x == c || one_of cs x

abbrev pub all_in : Bytes → Bytes → Bool
all_in class [] = true
all_in class (x ∷ s) = one_of class x && all_in class s

-- match (s, '^[class]+$')
abbrev pub only : Bytes → Bytes → Bool
only class [] = false
only class (x ∷ s) = all_in class (x ∷ s)

unfoldable pub octal_mode : Bytes → ℕ → ℕ
octal_mode [] mode = mode
octal_mode (d ∷ ds) mode = octal_mode ds ((mode * 8 + (d - b'0')) % 2 ^ 64)

-- %s and %a
abbrev pub is_space : ℕ → Bool
is_space c = c == 32 || (leb 9 c && leb c 13)

abbrev pub is_alpha : ℕ → Bool
is_alpha c = (leb b'a' c && leb c b'z') || (leb b'A' c && leb c b'Z')

-- '^[ugoa]+%s*[-+=]%s*[rswx]+,*'
abbrev pub symbolic_start : List PatternItem
symbolic_start =
    repeated false (one_of (lit "ugoa")) 1
    ∷ repeated false is_space 0
    ∷ single false (one_of (lit "-+="))
    ∷ repeated false is_space 0
    ∷ repeated false (one_of (lit "rswx")) 1
    ∷ repeated false (λ c. c == b',') 0
    ∷ []

-- '%s*(%a+)%s*(.)%s*(%a+),*'
abbrev pub symbolic_clause : List PatternItem
symbolic_clause =
    repeated false is_space 0
    ∷ repeated true is_alpha 1
    ∷ repeated false is_space 0
    ∷ single true (λ c. true)
    ∷ repeated false is_space 0
    ∷ repeated true is_alpha 1
    ∷ repeated false (λ c. c == b',') 0
    ∷ []

-- whether a text has one of the letters
abbrev pub has_any : Bytes → Bytes → Bool
has_any class [] = false
has_any class (x ∷ s) = one_of class x || has_any class s

abbrev pub bits_if : Bool → ℕ → ℕ → ℕ
bits_if true more bits = bit_or bits more
bits_if false more bits = bits

-- the bits of `who`, and those of `what`
unfoldable pub who_bits : Bytes → ℕ
who_bits who = bits_if (has_any (lit "oa") who) 7 (
    bits_if (has_any (lit "ga") who) (bit_or s_isgid 56)
      (bits_if (has_any (lit "ua") who) (bit_or s_isuid 448) 0))

unfoldable pub what_bits : Bytes → ℕ
what_bits what = bits_if (has_any (lit "s") what) (bit_or s_isuid s_isgid) (
    bits_if (has_any (lit "x") what) 73
      (bits_if (has_any (lit "w") what) 146 (bits_if (has_any (lit "r") what) 292 0)))

abbrev pub change : ℕ → ℕ → ℕ → ℕ → ℕ
change op bits bobs mode =
    if op == b'+'
    then bit_or mode (bit_and bits bobs)
    else if op == b'-'
    then bit_and mode (bnot (bit_and bits bobs))
    else if op == b'='
    then bit_or (bit_and mode (bnot bits)) (bit_and bits bobs)
    else mode

-- the function that gsub calls
abbrev pub apply_clause : List Bytes → ℕ → ℕ
apply_clause (who ∷ (op ∷ []) ∷ what ∷ []) mode = change op (who_bits who) (what_bits what) mode
apply_clause _ mode = mode

abbrev pub is_some {ℓ} : {A : Type ℓ} → Option A → Bool
is_some none = false
is_some (some a) = true

-- what it says of a text that is no mode
unfoldable pub mode_munch : ℕ → Bytes → Option ℕ
unfolding rwxrwxrwx octal_mode who_bits what_bits match_items gsub
mode_munch mode modestr =
    if length modestr == 9 && only (lit "-rswx") modestr
    then rwxrwxrwx modestr
    else if only (lit "01234567") modestr
    then some (octal_mode modestr 0)
    else if is_some (match_items symbolic_start modestr)
    then some (gsub symbolic_clause apply_clause modestr 0 mode)
    else none
