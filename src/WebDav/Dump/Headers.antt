-- ===== src/WebDav/Dump/Headers.antt =====
-- The header lines of a dump (dsvn-webdav/src/dump_handlers.rs), as they are written and read.
use dsvn.Prelude.{
  ℕ, ◌≡◌, refl, sym, ap, ◌∙◌, Bool, true, false, none, some, List, [], ◌∷◌, ◌++◌, arith, ◌==◌,
  append_assoc, All, All-append, not, ◌&&◌,
}
use mathlib.Core.Bool.{false≢true}
use dsvn.Bytes.{Bytes, ascii, strip_prefix, is_space, is_empty, trim, trim_start, trim_end}
use dsvn.Text.Search.{Free}
use dsvn.Text.Lines.{is_free, is_free-Free}
use dsvn.Decimal.{decimal}
use dsvn.Decimal.RoundTrip.{
  Plain, digit-Plain, decimal-All, trim_start-Plain, trim_end-Plain, is_empty-decimal,
}
use dsvn.WebDav.Xml.{cut}
use dsvn.WebDav.Dump.Props.{hdr_val}
use dsvn.WebDav.Dump.Write.{header}
use dsvn.WebDav.Dump.Read.{read_line}

-- A value of a header: not empty, without white space at its ends and without line feeds.
pub record IsValue (v : Bytes) : Type 0 where
  pub full : is_empty v ≡ false
  pub starts : trim_start is_space v ≡ v
  pub ends : trim_end is_space v ≡ v
  pub free : Free 10 v

read_line-Free : (l r : Bytes) → Free 10 l → read_line (l ++ (10 ∷ r)) ≡ (l ++ (10 ∷ []), r)
unfolding read_line
read_line-Free [] r f = refl
read_line-Free (c ∷ l) r f = rw (f.0, read_line) (rw (read_line-Free l r f.1) refl)

-- White space at the end goes, and what stands before a text that stays, stays.
trim_end-newline : (v : Bytes) → trim_end is_space (v ++ (10 ∷ [])) ≡ trim_end is_space v
unfolding trim_end
trim_end-newline [] = refl
trim_end-newline (c ∷ v) = rw (trim_end-newline v) refl

trim_end-before :
    (p t : Bytes) (d : ℕ) (r : Bytes)
    → trim_end is_space t ≡ d ∷ r
    → trim_end is_space (p ++ t) ≡ p ++ (d ∷ r)
unfolding trim_end
trim_end-before [] t d r e = e
trim_end-before (c ∷ []) t d r e = rw e refl
trim_end-before (c ∷ p ∷ ps) t d r e = rw (trim_end-before (p ∷ ps) t d r e) refl

-- The line that a header is, without its line feed.
abbrev pub line_of : (name value : Bytes) → Bytes
line_of name value = name ++ (ascii ": " ++ value)

trim_end-line :
    (name v : Bytes) → IsValue v → trim_end is_space (line_of name v ++ (10 ∷ [])) ≡ line_of name v
trim_end-line name [] i = absurd (false≢true (sym i.full))
trim_end-line name (d ∷ r) i =
    ap (trim_end is_space) (append_assoc name (ascii ": " ++ (d ∷ r)) (10 ∷ []))
    ∙ trim_end-before name (ascii ": " ++ ((d ∷ r) ++ (10 ∷ []))) b':' (b' ' ∷ d ∷ r) (
        trim_end-before (ascii ": ") ((d ∷ r) ++ (10 ∷ [])) d r (trim_end-newline (d ∷ r) ∙ i.ends))

-- A name of a header: it starts without white space and has no line feed and no colon.
abbrev pub IsName : Bytes → Type 0
IsName [] = ⊥
IsName (c ∷ name) = (is_space c ≡ false) × Free 10 (c ∷ name) × Free b':' (c ∷ name)

header_line : (name v rest : Bytes) → header name v ++ rest ≡ line_of name v ++ (10 ∷ rest)
unfolding header
header_line name v rest =
    append_assoc name _ rest
    ∙ ap (λ t. name ++ (ascii ": " ++ t)) (append_assoc v (10 ∷ []) rest)
    ∙ sym (append_assoc name (ascii ": " ++ v) (10 ∷ rest))

line_of-Free : (name v : Bytes) → IsName name → IsValue v → Free 10 (line_of name v)
line_of-Free [] v n i = absurd n
line_of-Free (c ∷ name) v n i =
    All-append (λ d. (d == 10) ≡ false) (c ∷ name) (ascii ": " ++ v) n.1 (refl, (refl, i.free))

trim-line :
    (name v : Bytes) → IsName name → IsValue v → trim (line_of name v ++ (10 ∷ [])) ≡ line_of name v
unfolding trim trim_start
trim-line [] v n i = absurd n
trim-line (c ∷ name) v n i = rw n.0 (trim_end-line (c ∷ name) v i)

-- The line of a header is read and trimmed to the name and the value.
pub trim-read_line :
    (name v rest : Bytes)
    → IsName name
    → IsValue v
    → (trim (read_line (header name v ++ rest)).0 ≡ line_of name v)
      × ((read_line (header name v ++ rest)).1 ≡ rest)
trim-read_line name v rest n i =
    let whole =
      ap read_line (header_line name v rest)
      ∙ read_line-Free (line_of name v) rest (line_of-Free name v n i) in
    (rw whole (trim-line name v n i), ap (λ (p : Bytes × Bytes). p.1) whole)

-- The text of a header is what stands behind its name.
cut-line : (name v : Bytes) → Free b':' name → cut (ascii ": ") (line_of name v) ≡ some (name, v)
unfolding cut strip_prefix
cut-line [] v f = refl
cut-line (c ∷ name) v f =
    let on : strip_prefix (c ∷ line_of name v) (ascii ": ") ≡ none = rw (f.0, strip_prefix) refl in
    rw (on, cut) (rw (cut-line name v f.1, cut) refl)

pub hdr_val-line_of : (name v : Bytes) → IsName name → IsValue v → hdr_val (line_of name v) ≡ v
unfolding hdr_val trim
hdr_val-line_of [] v n i = absurd n
hdr_val-line_of (c ∷ name) v n i = rw (cut-line (c ∷ name) v n.2, hdr_val) (rw i.starts i.ends)

-- Texts without white space, and numbers, are values.
Plain-Free : (v : Bytes) → All Plain v → Free 10 v
Plain-Free [] a = tt
Plain-Free (c ∷ v) a = (other c a.0, Plain-Free v a.1)
  where
    other : (c : ℕ) → Plain c → (c == 10) ≡ false
    other c h = ground arith

pub Plain-IsValue : (v : Bytes) → is_empty v ≡ false → All Plain v → IsValue v
Plain-IsValue v full a = record {
  full = full;
  starts = trim_start-Plain v a;
  ends = trim_end-Plain v a;
  free = Plain-Free v a;
}

pub decimal-IsValue : (n : ℕ) → IsValue (decimal n)
decimal-IsValue n = Plain-IsValue (decimal n) (is_empty-decimal n) (decimal-All Plain digit-Plain n)

-- The test of `IsName`.
unfoldable pub is_name : Bytes → Bool
unfolding is_free
is_name [] = false
is_name (c ∷ name) = not (is_space c) && (is_free 10 (c ∷ name) && is_free b':' (c ∷ name))

both : (a b : Bool) → (a && b) ≡ true → (a ≡ true) × (b ≡ true)
both true b h = (refl, h)
both false b h = absurd (false≢true h)

not-true : (a : Bool) → not a ≡ true → a ≡ false
not-true true h = absurd (false≢true h)
not-true false h = refl

pub is_name-IsName : (name : Bytes) → is_name name ≡ true → IsName name
unfolding is_name
is_name-IsName [] h = absurd (false≢true h)
is_name-IsName (c ∷ name) h =
    let (first, others) = both (not (is_space c)) _ h in
    let (lf, colon) = both (is_free 10 (c ∷ name)) _ others in
    (not-true (is_space c) first, is_free-Free 10 (c ∷ name) lf, is_free-Free b':' (c ∷ name) colon)

-- The pieces one behind the other, in front of a text.
unfoldable pub onto : List Bytes → Bytes → Bytes
onto [] t = t
onto (piece ∷ pieces) t = piece ++ onto pieces t

pub onto-append :
    (pieces : List Bytes) (t rest : Bytes) → onto pieces t ++ rest ≡ onto pieces (t ++ rest)
unfolding onto
onto-append [] t rest = refl
onto-append (piece ∷ pieces) t rest =
    append_assoc piece (onto pieces t) rest ∙ ap (λ u. piece ++ u) (onto-append pieces t rest)
