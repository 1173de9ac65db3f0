-- ===== src/WebDav/PropPatch.antt =====
-- PROPPATCH requests and responses (dsvn-webdav/src/proppatch.rs).
pub mod Compact
use dsvn.Prelude.{
  ℕ, zero, suc, ◌+◌, Bool, true, false, not, Option, none, some, List, [], ◌∷◌, ◌++◌, if◌then◌else◌,
  length, drop, ltb, ◌>>=◌,
}
use dsvn.Bytes.{Bytes, ascii, trim, is_empty}
use dsvn.Text.{split_on}
use dsvn.WebDav.Xml.{cut, escape_xml}

pub data PropertyModification : Type 0 where
  set : (name value : Bytes) → PropertyModification
  remove : (name : Bytes) → PropertyModification

-- The blocks from each start tag to the end tag that follows, a step for each byte at most.
unfoldable pub find_blocks_from : ℕ → (xml start_tag end_tag : Bytes) → List Bytes
unfolding cut
find_blocks_from zero xml start_tag end_tag = []
find_blocks_from (suc fuel) xml start_tag end_tag = elim (cut start_tag xml) [
  | none ↦ []
  | some (before, after) ↦ elim (cut end_tag (start_tag ++ after)) [
    | none ↦ []
    | some (between, rest) ↦ (between ++ end_tag) ∷ find_blocks_from fuel rest start_tag end_tag
  ]
]

unfoldable pub find_xml_blocks : (xml tag : Bytes) → List Bytes
unfolding find_blocks_from
find_xml_blocks xml tag =
    find_blocks_from (suc (length xml)) xml (ascii "<" ++ (tag ++ ascii ">"))
      (ascii "</" ++ (tag ++ ascii ">"))

unfoldable pub last_piece : Bytes → List Bytes → Bytes
last_piece piece [] = piece
last_piece piece (next ∷ pieces) = last_piece next pieces

-- `full_tag.split(':').last()`
unfoldable pub after_last_colon : Bytes → Bytes
unfolding last_piece
after_last_colon full_tag = last_piece full_tag (split_on b':' full_tag)

-- The first element of the content, and its trimmed value.
unfoldable pub parse_content : Bytes → Option (Bytes × Bytes)
unfolding after_last_colon
parse_content content = do
  (before, opened) ← cut (ascii "<") content
  (full_tag, inside) ← cut (ascii ">") opened
  some (
    after_last_colon full_tag,
    elim (cut (ascii "</" ++ (full_tag ++ ascii ">")) inside) [
      | none ↦ []
      | some (value, rest) ↦ trim value
    ],
  )

-- The content is taken from nine bytes after the start of the tag on; where that is after its end,
-- the slice panics, the outer `none`.
unfoldable pub parse_property_element : Bytes → Option (Option (Bytes × Bytes))
unfolding parse_content
parse_property_element xml = elim (cut (ascii "<D:prop>") xml) [
  | none ↦ some none
  | some (before_start, rest) ↦ elim (cut (ascii "</D:prop>") xml) [
    | none ↦ some none
    | some (before_end, after) ↦
        if ltb (length before_end) (length before_start + 9)
        then none
        else some (parse_content (drop (length before_start + 9) before_end))
  ]
]

unfoldable pub parse_blocks :
    (Bytes × Bytes → PropertyModification) → List Bytes → Option (List PropertyModification)
unfolding parse_property_element
parse_blocks make [] = some []
parse_blocks make (block ∷ blocks) = do
  found ← parse_property_element block
  rest ← parse_blocks make blocks
  some (elim found [ none ↦ rest | some p ↦ make p ∷ rest ])

-- `PropPatchRequest::from_xml`, its modifications; `none` is a panic.
unfoldable pub from_xml : Bytes → Option (List PropertyModification)
unfolding find_xml_blocks parse_blocks
from_xml xml = do
  sets ← parse_blocks (λ p. set p.0 p.1) (find_xml_blocks xml (ascii "D:set"))
  removes ← parse_blocks (λ p. remove p.0) (find_xml_blocks xml (ascii "D:remove"))
  some (sets ++ removes)

pub record PropStat : Type 0 where
  pub status : Bytes
  pub responsedescription : Option Bytes

pub record PropPatchResponse : Type 0 where
  pub href : Bytes
  pub propstats : List PropStat

abbrev pub success : Bytes → PropPatchResponse
success href = record {
  href = href;
  propstats = record { status = ascii "HTTP/1.1 200 OK"; responsedescription = none } ∷ [];
}

abbrev pub error : (href message : Bytes) → PropPatchResponse
error href message = record {
  href = href;
  propstats =
      record { status = ascii "HTTP/1.1 403 Forbidden"; responsedescription = some message } ∷ [];
}

description_xml : Option Bytes → Bytes
description_xml none = []
description_xml (some desc) =
    ascii "<D:responsedescription>" ++ (escape_xml desc ++ ascii "</D:responsedescription>")

unfoldable pub propstats_xml : (href : Bytes) → List PropStat → Bytes
unfolding description_xml
propstats_xml href [] = []
propstats_xml href (p ∷ ps) =
    ascii "<D:response><D:href>"
    ++ (href
        ++ (ascii "</D:href><D:propstat><D:status>"
            ++ (p.status
                ++ (ascii "</D:status>"
                    ++ (description_xml p.responsedescription
                        ++ (ascii "</D:propstat></D:response>" ++ propstats_xml href ps))))))

unfoldable pub to_xml : PropPatchResponse → Bytes
unfolding propstats_xml
to_xml r =
    ascii "<?xml version=\"1.0\" encoding=\"utf-8\"?>"
    ++ (ascii "<D:multistatus xmlns:D=\"DAV:\">"
        ++ (propstats_xml r.href r.propstats ++ ascii "</D:multistatus>"))

unfoldable pub success_xml : Bytes → Bytes
unfolding to_xml
success_xml href = to_xml (success href)
