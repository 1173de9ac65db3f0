-- ===== src/Text.antt =====
-- The `str` methods that the configuration files are parsed with. Texts are bytes; white space and
-- upper case are taken of ASCII.
pub mod Search
pub mod Lines
use dsvn.Prelude.{
  ℕ, ◌+◌, Bool, ◌&&◌, ◌||◌, Option, none, some, List, [], ◌∷◌, if◌then◌else◌, leb, ◌==◌,
}
use dsvn.Bytes.{Bytes, eqb, is_empty, trim}

-- `split(c)`: at least one piece.
unfoldable pub split_on : ℕ → Bytes → List Bytes
split_on sep [] = [] ∷ []
split_on sep (c ∷ s) =
    let rest = split_on sep s in
    if c == sep
    then [] ∷ rest
    else elim rest [ [] ↦ (c ∷ []) ∷ [] | (piece ∷ pieces) ↦ (c ∷ piece) ∷ pieces ]

-- `splitn(2, c)`, when it gives two pieces.
unfoldable pub split_once : ℕ → Bytes → Option (Bytes × Bytes)
split_once sep [] = none
split_once sep (c ∷ s) =
    let rest = split_once sep s in
    if c == sep
    then some ([], s)
    else elim rest [ none ↦ none | some (before, after) ↦ some (c ∷ before, after) ]

-- A line without the carriage return at its end.
unfoldable pub strip_cr : Bytes → Bytes
strip_cr [] = []
strip_cr (c ∷ []) = if c == 13 then [] else c ∷ []
strip_cr (c ∷ d ∷ s) = c ∷ strip_cr (d ∷ s)

unfoldable pub join_lines : List Bytes → List Bytes
unfolding strip_cr
join_lines [] = []
join_lines (l ∷ []) = if is_empty l then [] else l ∷ []
join_lines (l ∷ m ∷ ls) = strip_cr l ∷ join_lines (m ∷ ls)

-- `lines()`
unfoldable pub lines : Bytes → List Bytes
unfolding split_on join_lines
lines s = join_lines (split_on 10 s)

unfoldable pub ends_with : Bytes → Bytes → Bool
ends_with [] p = is_empty p
ends_with (c ∷ s) p = eqb (c ∷ s) p || ends_with s p

-- A text without its last byte.
unfoldable pub but_last : Bytes → Bytes
but_last [] = []
but_last (c ∷ []) = []
but_last (c ∷ d ∷ s) = c ∷ but_last (d ∷ s)

-- `to_lowercase()`
unfoldable pub to_lowercase : Bytes → Bytes
to_lowercase [] = []
to_lowercase (c ∷ s) = (if leb 65 c && leb c 90 then c + 32 else c) ∷ to_lowercase s

-- What stands before the last `/`, as `rfind('/')` finds it.
unfoldable pub before_last_slash : Bytes → Option Bytes
before_last_slash [] = none
before_last_slash (c ∷ s) = elim (before_last_slash s) [
  | none ↦ if c == b'/' then some [] else none
  | some p ↦ some (c ∷ p)
]

-- The pieces, trimmed, that are not empty.
unfoldable pub trimmed : List Bytes → List Bytes
trimmed [] = []
trimmed (s ∷ ss) = let rest = trimmed ss in if is_empty (trim s) then rest else trim s ∷ rest
