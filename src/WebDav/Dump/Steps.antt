-- ===== src/WebDav/Dump/Steps.antt =====
-- Reading one header of a node, and its content (dsvn-webdav/src/dump_handlers.rs).
use dsvn.Prelude.{
  ℕ, suc, ◌+◌, ◌<◌, ◌≡◌, refl, sym, ap, ◌∙◌, true, false, [], ◌∷◌, ◌++◌, arith, length, take, drop,
  length-append, take-append, drop-append, append_assoc, ltb, leb, inr, ge→ltb,
}
use dsvn.Bytes.{Bytes, is_empty, trim}
use dsvn.WebDav.Dump.Props.RoundTrip.{take-all}
use dsvn.WebDav.Dump.Write.{header}
use dsvn.WebDav.Dump.Read.{
  ParsedNode, read_line, read_exact, content_header, read_content_headers, text_of, read_content,
  is_content_header, node_header, parse_node_headers,
}
use dsvn.WebDav.Dump.Headers.{IsValue, IsName, line_of, trim-read_line}

pub is_empty-line : (name v : Bytes) → IsName name → is_empty (line_of name v) ≡ false
is_empty-line [] v n = absurd n
is_empty-line (c ∷ name) v n = refl

-- One header more: of the node, the first of the content's, and a further one of these.
pub node_step :
    (fuel : ℕ) (name v rest : Bytes) (nd : ParsedNode)
    → IsName name
    → IsValue v
    → is_content_header (line_of name v) ≡ false
    → parse_node_headers (suc fuel) (header name v ++ rest) nd
      ≡ parse_node_headers fuel rest (node_header (line_of name v) nd)
unfolding parse_node_headers
node_step fuel name v rest nd n i other =
    let (line, left) = trim-read_line name v rest n i in
    rw (line, parse_node_headers)
      (rw (is_empty-line name v n) (rw line (rw other (rw line (rw left refl)))))

content_found :
    (fuel : ℕ) (r : Bytes) (nd : ParsedNode)
    → is_empty (trim (read_line r).0) ≡ false
    → is_content_header (trim (read_line r).0) ≡ true
    → parse_node_headers (suc fuel) r nd
      ≡ read_content nd (
          read_content_headers fuel
            (read_line r).1
            (content_header (trim (read_line r).0) (0, 0, 0)))
unfolding parse_node_headers
content_found fuel r nd full first = rw (full, parse_node_headers) (rw first refl)

pub content_step :
    (fuel : ℕ) (name v rest : Bytes) (nd : ParsedNode)
    → IsName name
    → IsValue v
    → is_content_header (line_of name v) ≡ true
    → parse_node_headers (suc fuel) (header name v ++ rest) nd
      ≡ read_content nd (read_content_headers fuel rest (content_header (line_of name v) (0, 0, 0)))
content_step fuel name v rest nd n i first =
    let (line, left) = trim-read_line name v rest n i in
    let r = header name v ++ rest in
    content_found fuel r nd (ap is_empty line ∙ is_empty-line name v n)
      (ap is_content_header line ∙ first)
    ∙ ap
        (λ t.
          read_content nd (read_content_headers fuel (read_line r).1 (content_header t (0, 0, 0))))
        line
    ∙ ap
        (λ q.
          read_content nd (read_content_headers fuel q (content_header (line_of name v) (0, 0, 0))))
        left

pub lengths_step :
    (fuel : ℕ) (name v rest : Bytes) (ls : ℕ × ℕ × ℕ)
    → IsName name
    → IsValue v
    → read_content_headers (suc fuel) (header name v ++ rest) ls
      ≡ read_content_headers fuel rest (content_header (line_of name v) ls)
unfolding read_content_headers
lengths_step fuel name v rest ls n i =
    let (line, left) = trim-read_line name v rest n i in
    rw (line, read_content_headers) (rw (is_empty-line name v n) (rw line (rw left refl)))

pub lengths_end :
    (fuel : ℕ) (rest : Bytes) (ls : ℕ × ℕ × ℕ)
    → read_content_headers (suc fuel) (10 ∷ rest) ls ≡ (ls, rest)
unfolding read_content_headers read_line trim
lengths_end fuel rest ls = refl

-- The content of a node with properties is cut out behind them.
text_of-append : (props text : Bytes) → text_of (props ++ text) (length props) (length text) ≡ text
unfolding text_of
text_of-append props [] = refl
text_of-append props (c ∷ text) =
    let fits : leb (length props + suc (length text)) (length (props ++ (c ∷ text))) ≡ true =
      ground (arith, length-append props (c ∷ text)) in
    let some_text : ltb 0 (suc (length text)) ≡ true = ground arith in
    rw (fits, text_of) (rw some_text (rw (drop-append props (c ∷ text)) (take-all (c ∷ text))))

pub read_content-append :
    (nd : ParsedNode) (props text rest : Bytes)
    → 0 < length props
    → read_content nd
        ((length props, length text, length props + length text), props ++ (text ++ (10 ∷ rest)))
      ≡ inr (record nd { content = text }, rest)
unfolding read_content read_exact read_line
read_content-append nd props text rest full =
    let pos : ltb 0 (length props + length text) ≡ true = ground arith in
    let n = length-append props text in
    let whole = append_assoc props text (10 ∷ rest) in
    let enough : ltb (length (props ++ (text ++ (10 ∷ rest)))) (length props + length text)
        ≡ false =
      ge→ltb (length (props ++ (text ++ (10 ∷ rest)))) (length props + length text) (
        omega (arith, length-append props (text ++ (10 ∷ rest)), length-append text (10 ∷ rest))) in
    let taken : take (length props + length text) (props ++ (text ++ (10 ∷ rest))) ≡ props ++ text =
      rw (sym n) (rw (sym whole) (take-append (props ++ text) (10 ∷ rest))) in
    let left : drop (length props + length text) (props ++ (text ++ (10 ∷ rest))) ≡ 10 ∷ rest =
      rw (sym n) (rw (sym whole) (drop-append (props ++ text) (10 ∷ rest))) in
    rw (pos, read_content)
      (rw enough (rw pos (rw taken (rw left (rw (text_of-append props text) refl)))))
