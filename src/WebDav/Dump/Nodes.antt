-- ===== src/WebDav/Dump/Nodes.antt =====
-- Reading the text of a file's node that a dump has written (dsvn-webdav/src/dump_handlers.rs).
use dsvn.Prelude.{
  ℕ, suc, ◌+◌, ◌^◌, ◌<◌, ◌≤◌, ◌≡◌, refl, ap, ◌∙◌, Bool, true, false, some, [], ◌∷◌, ◌++◌, arith,
  length, inr, if◌then◌else◌, All,
}
use dsvn.Bytes.{Bytes, ascii, eqb, is_empty, starts_with, strip_prefix, trim, trim_start, trim_end}
use dsvn.Decimal.{decimal}
use dsvn.Decimal.RoundTrip.{Plain}
use dsvn.WebDav.Xml.{cut}
use dsvn.WebDav.Dump.Props.{hdr_val, number_or_0, build_node_props, prop_text}
use dsvn.WebDav.Dump.Props.RoundTrip.{number_or_0-decimal}
use dsvn.WebDav.Dump.Md5.{md5_hex}
use dsvn.WebDav.Dump.Md5.Hex.{IsHexDigit, md5_hex-IsHexDigit}
use dsvn.WebDav.Dump.Write.{header}
use dsvn.WebDav.Dump.Read.{
  add, change, file, ParsedNode, kind_of, action_of, content_header, read_content,
  is_content_header, node_header, parse_node_headers,
}
use dsvn.WebDav.Dump.Load.{new_node}
use dsvn.WebDav.Dump.Headers.{
  IsValue, IsName, line_of, hdr_val-line_of, Plain-IsValue, decimal-IsValue, is_name,
  is_name-IsName,
}
use dsvn.WebDav.Dump.Steps.{node_step, content_step, lengths_step, lengths_end, read_content-append}

-- The headers of a file's node, behind its path.
unfoldable pub file_headers : (action : Bytes) (executable : Bool) (content rest : Bytes) → Bytes
file_headers action executable content rest =
    let np = build_node_props executable in
    header (ascii "Node-kind") (ascii "file")
    ++ (header (ascii "Node-action") action
        ++ (header (ascii "Prop-content-length") (decimal (length np))
            ++ (header (ascii "Text-content-length") (decimal (length content))
                ++ (header (ascii "Text-content-md5") (md5_hex content)
                    ++ (header (ascii "Content-length") (decimal (length np + length content))
                        ++ (10 ∷ (np ++ (content ++ (10 ∷ rest)))))))))

abbrev pub action_text : Bool → Bytes
action_text known = if known then ascii "change" else ascii "add"

action_text-IsValue : (known : Bool) → IsValue (action_text known)
action_text-IsValue true =
    Plain-IsValue (ascii "change") refl (refl, (refl, (refl, (refl, (refl, (refl, tt))))))
action_text-IsValue false = Plain-IsValue (ascii "add") refl (refl, (refl, (refl, tt)))

hex_digits-Plain : (v : Bytes) → All IsHexDigit v → All Plain v
hex_digits-Plain [] a = tt
hex_digits-Plain (c ∷ v) a = (plain c a.0, hex_digits-Plain v a.1)
  where
    plain : (c : ℕ) → IsHexDigit c → Plain c
    plain c h = ground arith

md5_hex-IsValue : (content : Bytes) → IsValue (md5_hex content)
md5_hex-IsValue content =
    let (long, digits) = md5_hex-IsHexDigit content in
    Plain-IsValue (md5_hex content) (full (md5_hex content) long)
      (hex_digits-Plain (md5_hex content) digits)
  where
    full : (v : Bytes) → length v ≡ 32 → is_empty v ≡ false
    full [] h = absurd (omega (arith, h))
    full (c ∷ v) h = refl

length-build_node_props :
    (executable : Bool)
    → (0 < length (build_node_props executable)) × (length (build_node_props executable) ≤ 36)
unfolding build_node_props prop_text decimal
length-build_node_props true = (omega arith, omega arith)
length-build_node_props false = (omega arith, omega arith)

-- What the headers of the node set.
kind_header :
    (nd : ParsedNode)
    → node_header (line_of (ascii "Node-kind") (ascii "file")) nd ≡ record nd { kind = some file }
unfolding node_header starts_with kind_of eqb hdr_val cut strip_prefix trim trim_start trim_end
kind_header nd = refl

action_header :
    (known : Bool) (nd : ParsedNode)
    → node_header (line_of (ascii "Node-action") (action_text known)) nd
      ≡ record nd { action = some (if known then change else add) }
unfolding node_header starts_with action_of eqb hdr_val cut strip_prefix trim trim_start trim_end
action_header true nd = refl
action_header false nd = refl

pub number_header :
    (name : Bytes) (n : ℕ)
    → IsName name
    → n < 2 ^ 64
    → number_or_0 (hdr_val (line_of name (decimal n))) ≡ n
number_header name n i b =
    ap number_or_0 (hdr_val-line_of name (decimal n) i (decimal-IsValue n))
    ∙ number_or_0-decimal n b

-- What the headers of the content set.
content_headers :
    (np text : ℕ) (md5 : Bytes)
    → np + text < 2 ^ 64
    → content_header (line_of (ascii "Content-length") (decimal (np + text))) (
        content_header (line_of (ascii "Text-content-md5") md5) (
          content_header
            (line_of (ascii "Text-content-length") (decimal text))
            (content_header (line_of (ascii "Prop-content-length") (decimal np)) (0, 0, 0))))
      ≡ (np, text, np + text)
unfolding content_header starts_with is_name
content_headers np text md5 b =
    rw
      (number_header (ascii "Content-length") (np + text)
        (is_name-IsName (ascii "Content-length") refl) b)
      (rw
        (number_header (ascii "Text-content-length") text
          (is_name-IsName (ascii "Text-content-length") refl) (omega arith))
        (rw
          (number_header (ascii "Prop-content-length") np
            (is_name-IsName (ascii "Prop-content-length") refl) (omega arith))
          refl))

pub parse_node_headers-file :
    (fuel : ℕ) (path : Bytes) (known executable : Bool) (content rest : Bytes)
    → length content + 64 < 2 ^ 64
    → parse_node_headers
        (suc (suc (suc (suc (suc (suc (suc fuel)))))))
        (file_headers (action_text known) executable content rest)
        (new_node path)
      ≡ inr (
        record {
          path = path;
          kind = some file;
          action = some (if known then change else add);
          content = content;
        },
        rest,
      )
unfolding file_headers is_name is_content_header starts_with
parse_node_headers-file fuel path known executable content rest b =
    let np = length (build_node_props executable) in
    let (full, short) = length-build_node_props executable in
    node_step _ (ascii "Node-kind") (ascii "file") _ _ (is_name-IsName (ascii "Node-kind") refl)
      (Plain-IsValue (ascii "file") refl (refl, (refl, (refl, (refl, tt))))) refl
    ∙ ap (parse_node_headers _ _) (kind_header (new_node path))
    ∙ node_step _ (ascii "Node-action") (action_text known) _ _
        (is_name-IsName (ascii "Node-action") refl) (action_text-IsValue known) refl
    ∙ ap (parse_node_headers _ _) (action_header known _)
    ∙ content_step _ (ascii "Prop-content-length") (decimal np) _ _
        (is_name-IsName (ascii "Prop-content-length") refl) (decimal-IsValue np) refl
    ∙ ap (read_content _) (
        lengths_step _ (ascii "Text-content-length") (decimal (length content)) _ _
          (is_name-IsName (ascii "Text-content-length") refl) (decimal-IsValue (length content))
        ∙ lengths_step _ (ascii "Text-content-md5") (md5_hex content) _ _
            (is_name-IsName (ascii "Text-content-md5") refl) (md5_hex-IsValue content)
        ∙ lengths_step _ (ascii "Content-length") (decimal (np + length content)) _ _
            (is_name-IsName (ascii "Content-length") refl) (decimal-IsValue (np + length content))
        ∙ lengths_end fuel _ _
        ∙ ap (λ ls. (ls, build_node_props executable ++ (content ++ (10 ∷ rest))))
            (content_headers np (length content) (md5_hex content) (omega (arith, short, b))))
    ∙ read_content-append _ (build_node_props executable) content rest full
