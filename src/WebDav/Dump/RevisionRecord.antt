-- ===== src/WebDav/Dump/RevisionRecord.antt =====
-- The record of a revision in the stream that `parse_dump_stream` reads
-- (dsvn-webdav/src/dump_handlers.rs).
use dsvn.Prelude.{
  ℕ, suc, ◌^◌, ◌<◌, ◌≡◌, refl, ap, ◌∙◌, true, false, Option, none, some, [], ◌∷◌, ◌++◌, arith,
  length, take-append, drop-append, length-append, ltb, leb, ge→ltb, inr, ℤ,
}
use dsvn.Bytes.{Bytes, ascii, is_empty, starts_with, trim}
use dsvn.Decimal.{decimal}
use dsvn.SortedMap.{SortedMap}
use dsvn.WebDav.Dump.Props.{hdr_val, number_or_0, parse_props_block}
use dsvn.WebDav.Dump.Props.RoundTrip.{take-all}
use dsvn.WebDav.Dump.Write.{header, newline, revision_text}
use dsvn.WebDav.Dump.Read.{
  ParsedRevision, LoadError, read_line, read_hdr, read_hdr_buf, read_exact, read_props,
}
use dsvn.WebDav.Dump.Load.{parse_dump_from, flush, new_revision, is_skipped}
use dsvn.WebDav.Dump.Headers.{
  IsValue, IsName, line_of, trim-read_line, decimal-IsValue, is_name, is_name-IsName, onto,
  onto-append,
}
use dsvn.WebDav.Dump.Steps.{is_empty-line}
use dsvn.WebDav.Dump.Nodes.{number_header}

hdr_step :
    (fuel : ℕ) (name v rest : Bytes) (ls : ℕ × ℕ)
    → IsName name
    → IsValue v
    → read_hdr_buf (suc fuel) (header name v ++ rest) ls
      ≡ read_hdr_buf fuel rest (read_hdr (line_of name v) ls)
unfolding read_hdr_buf
hdr_step fuel name v rest ls n i =
    let (line, left) = trim-read_line name v rest n i in
    rw (line, read_hdr_buf) (rw (is_empty-line name v n) (rw line (rw left refl)))

hdr_end :
    (fuel : ℕ) (rest : Bytes) (ls : ℕ × ℕ) → read_hdr_buf (suc fuel) (10 ∷ rest) ls ≡ (ls, rest)
unfolding read_hdr_buf read_line trim
hdr_end fuel rest ls = refl

read_hdr-both :
    (n : ℕ)
    → n < 2 ^ 64
    → read_hdr
        (line_of (ascii "Content-length") (decimal n))
        (read_hdr (line_of (ascii "Prop-content-length") (decimal n)) (0, 0))
      ≡ (n, n)
unfolding read_hdr starts_with is_name
read_hdr-both n b =
    rw (number_header (ascii "Content-length") n (is_name-IsName (ascii "Content-length") refl) b) (
      rw
        (number_header (ascii "Prop-content-length") n
          (is_name-IsName (ascii "Prop-content-length") refl) b)
        refl)

read_props-append :
    (props rest : Bytes)
    → 0 < length props
    → read_props (length props) (length props) (props ++ rest) ≡ inr (parse_props_block props, rest)
unfolding read_props read_exact
read_props-append props rest full =
    let pos : ltb 0 (length props) ≡ true = ground arith in
    let enough : ltb (length (props ++ rest)) (length props) ≡ false =
      ge→ltb (length (props ++ rest)) (length props) (omega (arith, length-append props rest)) in
    let fits : leb (length props) (length props) ≡ true = ground arith in
    rw (pos, read_props)
      (rw pos (
        rw enough (
          rw (take-append props rest)
            (rw fits (rw (take-all props) (rw (drop-append props rest) (rw pos refl)))))))

revision_text-append :
    (rev : ℕ) (props rest : Bytes)
    → revision_text rev props ++ rest
      ≡ header (ascii "Revision-number") (decimal rev)
        ++ (header (ascii "Prop-content-length") (decimal (length props))
            ++ (header (ascii "Content-length") (decimal (length props))
                ++ (10 ∷ (props ++ (10 ∷ rest)))))
unfolding revision_text onto
revision_text-append rev props rest =
    onto-append
      (header (ascii "Revision-number") (decimal rev)
        ∷ header (ascii "Prop-content-length") (decimal (length props))
        ∷ header (ascii "Content-length") (decimal (length props))
        ∷ newline
        ∷ props
        ∷ [])
      newline rest

read_hdr_buf-lengths :
    (fuel n : ℕ) (rest : Bytes)
    → n < 2 ^ 64
    → read_hdr_buf
        (suc (suc (suc fuel)))
        (header (ascii "Prop-content-length") (decimal n)
          ++ (header (ascii "Content-length") (decimal n) ++ (10 ∷ rest)))
        (0, 0)
      ≡ ((n, n), rest)
unfolding is_name
read_hdr_buf-lengths fuel n rest b =
    hdr_step _ (ascii "Prop-content-length") (decimal n) _ _
      (is_name-IsName (ascii "Prop-content-length") refl) (decimal-IsValue n)
    ∙ hdr_step _ (ascii "Content-length") (decimal n) _ _
        (is_name-IsName (ascii "Content-length") refl) (decimal-IsValue n)
    ∙ hdr_end fuel rest _
    ∙ ap (λ ls. (ls, rest)) (read_hdr-both n b)

module _ (parse_date : Bytes → Option ℤ) (now : ℤ) {A : Type 0}
    (on_rev : A → ParsedRevision → Option LoadError × A) where
  revision_found :
      (fuel : ℕ) (a a' : A) (cur_rev : Option ParsedRevision) (r : Bytes) (pl cl : ℕ) (r'' : Bytes)
      (props : SortedMap Bytes) (left : Bytes)
      → is_empty (read_line r).0 ≡ false
      → is_skipped (trim (read_line r).0) ≡ false
      → starts_with (trim (read_line r).0) (ascii "Revision-number:") ≡ true
      → flush parse_date now on_rev a cur_rev ≡ (none, a')
      → read_hdr_buf (length (read_line r).1) (read_line r).1 (0, 0) ≡ ((pl, cl), r'')
      → read_props pl cl r'' ≡ inr (props, left)
      → parse_dump_from parse_date now on_rev (suc fuel) a cur_rev r
        ≡ parse_dump_from parse_date now on_rev fuel a'
            (some
              (new_revision parse_date now (number_or_0 (hdr_val (trim (read_line r).0))) props))
            left
  unfolding parse_dump_from
  revision_found fuel a a' cur_rev r pl cl r'' props left full kept starts flushed lengths read =
      rw (full, parse_dump_from)
        (rw kept (rw starts (rw flushed (rw lengths (rw read (rw flushed refl))))))

  -- The text that a dump writes for a revision, whose number and block of properties are of 64 bits,
  -- hands the revision in progress on and starts the next, with the number and the properties
  -- written.
  pub parse_dump_from-revision_text :
      (fuel : ℕ) (a a' : A) (cur_rev : Option ParsedRevision) (rev : ℕ) (props rest : Bytes)
      → rev < 2 ^ 64
      → 0 < length props
      → length props < 2 ^ 64
      → flush parse_date now on_rev a cur_rev ≡ (none, a')
      → parse_dump_from parse_date now on_rev (suc fuel) a cur_rev (revision_text rev props ++ rest)
        ≡ parse_dump_from parse_date now on_rev fuel a'
            (some (new_revision parse_date now rev (parse_props_block props)))
            (10 ∷ rest)
  unfolding is_name header read_line is_skipped starts_with
  parse_dump_from-revision_text fuel a a' cur_rev rev props rest br full b flushed =
      let named = is_name-IsName (ascii "Revision-number") refl in
      let n = length props in
      let tail =
        header (ascii "Prop-content-length") (decimal n)
        ++ (header (ascii "Content-length") (decimal n) ++ (10 ∷ (props ++ (10 ∷ rest)))) in
      let (line, left) =
        trim-read_line (ascii "Revision-number") (decimal rev) tail named (decimal-IsValue rev) in
      ap (parse_dump_from parse_date now on_rev (suc fuel) a cur_rev)
        (revision_text-append rev props rest)
      ∙ revision_found fuel a a' cur_rev (header (ascii "Revision-number") (decimal rev) ++ tail) n
          n (props ++ (10 ∷ rest)) (parse_props_block props) (10 ∷ rest) refl (ap is_skipped line)
          (ap (λ t. starts_with t (ascii "Revision-number:")) line) flushed
          (ap (λ r. read_hdr_buf (length r) r (0, 0)) left
            ∙ read_hdr_buf-lengths _ n (props ++ (10 ∷ rest)) b)
          (read_props-append props (10 ∷ rest) full)
      ∙ ap
          (λ m.
            parse_dump_from parse_date now on_rev fuel a'
              (some (new_revision parse_date now m (parse_props_block props))) (10 ∷ rest))
          (ap (λ t. number_or_0 (hdr_val t)) line
            ∙ number_header (ascii "Revision-number") rev named br)

  -- An empty line is skipped.
  pub blank_line :
      (fuel : ℕ) (a : A) (cur_rev : Option ParsedRevision) (rest : Bytes)
      → parse_dump_from parse_date now on_rev (suc fuel) a cur_rev (10 ∷ rest)
        ≡ parse_dump_from parse_date now on_rev fuel a cur_rev rest
  unfolding parse_dump_from read_line trim is_skipped starts_with
  blank_line fuel a cur_rev rest = refl
