-- ===== src/Examples/Texts.antt =====
-- The theorems about XML, PROPPATCH requests and svndiff documents at concrete texts.
use dsvn.Prelude.{◌≡◌, refl, some, List, [], ◌∷◌, arith, All, length}
use dsvn.Bytes.{Bytes, ascii}
use dsvn.WebDav.Xml.{escape_xml}
use dsvn.WebDav.Xml.Escape.{IsPlain, unescape, unescape-escape_xml}
use dsvn.WebDav.Svndiff.{decode_svndiff}
use dsvn.WebDav.Svndiff.RoundTrip.{svndiff_of, concat, decode_svndiff-svndiff_of}
use dsvn.WebDav.Svndiff.Copies.{svndiff_copy, decode_svndiff-svndiff_copy}
use dsvn.WebDav.PropPatch.{parse_property_element}
use dsvn.WebDav.PropPatch.Compact.{compact_block, parse_property_element-compact_block}

abbrev markup : Bytes
markup = ascii "a<b & \"c\""

unescape-escape_xml_example :
    All IsPlain (escape_xml markup) × (unescape (length markup) (escape_xml markup) ≡ markup)
unescape-escape_xml_example = unescape-escape_xml markup

abbrev chunks : List Bytes
chunks = ascii "hello " ∷ ascii "world" ∷ []

decode_svndiff-svndiff_of_example : decode_svndiff (svndiff_of chunks) ≡ concat chunks
decode_svndiff-svndiff_of_example = decode_svndiff-svndiff_of chunks (omega arith)

decode_svndiff-svndiff_copy_example : decode_svndiff (svndiff_copy 10 5) ≡ []
decode_svndiff-svndiff_copy_example =
    decode_svndiff-svndiff_copy 10 5 (omega arith) (omega arith) (omega arith)

parse_property_element-compact_block_example :
    parse_property_element (compact_block (ascii "mime") (ascii "text"))
    ≡ some (some (ascii "mime", []))
parse_property_element-compact_block_example =
    parse_property_element-compact_block (ascii "mime") (ascii "text")
      (refl, (refl, (refl, (refl, tt)))) (refl, (refl, (refl, (refl, tt))))
      (refl, (refl, (refl, (refl, tt)))) (refl, (refl, (refl, (refl, tt))))
