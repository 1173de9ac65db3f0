-- ===== src/Examples/Dumps.antt =====
-- The theorems about dumps at concrete queries, texts and revisions.
use dsvn.Prelude.{
  Option, ℤ, map, true, ◌≤◌, ◌≡◌, refl, pos, false, none, some, [], ◌∷◌, ◌++◌, arith, length, All,
}
use dsvn.Bytes.{trim_start, trim_end, Bytes, ascii, eqb, starts_with}
use dsvn.SortedMap
use dsvn.Text.Lines.{is_free, is_free-Free, IsLine, is_line, is_line-IsLine}
use dsvn.WebDav.Dump.Params.{from_query}
use dsvn.WebDav.Dump.Params.Range.{range_query, from_query_bounds, from_query_past_head}
use dsvn.WebDav.Dump.Md5.{md5_hex}
use dsvn.WebDav.Dump.Md5.Hex.{IsHexDigit, md5_hex-IsHexDigit}
use dsvn.WebDav.Dump.Props.{build_empty_props, build_rev_props, parse_props_block}
use dsvn.WebDav.Dump.Props.RoundTrip.{unless_empty, parse_props_block-build_rev_props}
use dsvn.WebDav.Dump.Props.Truncated.{parse_props_block_two_lines}
use dsvn.WebDav.Dump.Read.{add, file, ParsedNode, ParsedRevision}
use dsvn.WebDav.Dump.Load.{parse_dump_stream, no_stats, load_revision}
use dsvn.WebDav.Dump.Headers.{IsValue}
use dsvn.WebDav.Dump.Stream.{
  DumpedFile, DumpedRevision, IsDumpedRevision, revisions_text, revision_of, collect,
  parse_dump_stream-revisions_text,
}
use dsvn.WebDav.Dump.Load.Batch.{has_error, batch_mode-load_revision}
use dsvn.Examples.Settings.{setting}
use dsvn.Examples.Repositories.{opened, main_rs, hello}

-- The sums that RFC 1321 gives for these texts.
md5_hex_empty : md5_hex [] ≡ ascii "d41d8cd98f00b204e9800998ecf8427e"
unfolding md5_hex
md5_hex_empty = refl

md5_hex_hello : md5_hex (ascii "hello") ≡ ascii "5d41402abc4b2a76b9719d911017c592"
unfolding md5_hex
md5_hex_hello = refl

from_query_bounds_example :
    ((from_query (ascii "r=3:HEAD&incremental") 5).start_rev
      ≤ (from_query (ascii "r=3:HEAD&incremental") 5).end_rev)
    × ((from_query (ascii "r=3:HEAD&incremental") 5).start_rev ≤ 5)
from_query_bounds_example = from_query_bounds (ascii "r=3:HEAD&incremental") 5

from_query_past_head_example :
    ((from_query (range_query 9 2) 5).start_rev ≡ 2)
    × ((from_query (range_query 9 2) 5).end_rev ≡ 9)
from_query_past_head_example = from_query_past_head 5 9 2 (omega arith) (omega arith) (omega arith)

md5_hex-IsHexDigit_example :
    (length (md5_hex (ascii "hello")) ≡ 32) × All IsHexDigit (md5_hex (ascii "hello"))
md5_hex-IsHexDigit_example = md5_hex-IsHexDigit (ascii "hello")

abbrev alice : Bytes
alice = ascii "alice"

abbrev message : Bytes
message = ascii "second line"

abbrev date : Bytes
date = ascii "2024-01-01T00:00:00.000000Z"

alice-IsLine : IsLine alice
unfolding is_line
alice-IsLine = is_line-IsLine alice refl

message-IsLine : IsLine message
unfolding is_line
message-IsLine = is_line-IsLine message refl

date-IsLine : IsLine date
unfolding is_line
date-IsLine = is_line-IsLine date refl

parse_props_block-build_rev_props_example :
    (SortedMap.get (ascii "svn:author") (parse_props_block (build_rev_props alice message date))
      ≡ unless_empty alice none)
    × (SortedMap.get (ascii "svn:log") (parse_props_block (build_rev_props alice message date))
        ≡ unless_empty message none)
    × (SortedMap.get (ascii "svn:date") (parse_props_block (build_rev_props alice message date))
        ≡ unless_empty date none)
parse_props_block-build_rev_props_example =
    parse_props_block-build_rev_props alice message date alice-IsLine message-IsLine date-IsLine
      (omega arith) (omega arith) (omega arith)

not_end : eqb message (ascii "PROPS-END") ≡ false
unfolding eqb
not_end = refl

not_name : starts_with message (ascii "K ") ≡ false
unfolding starts_with
not_name = refl

parse_props_block_two_lines_example :
    SortedMap.get
      (ascii "svn:log")
      (parse_props_block (build_rev_props alice (alice ++ (10 ∷ message)) []))
    ≡ some alice
parse_props_block_two_lines_example =
    parse_props_block_two_lines alice alice message alice-IsLine alice-IsLine message-IsLine not_end
      not_name (omega arith) (omega arith)

abbrev added : ParsedNode
added = record { path = main_rs; kind = some file; action = some add; content = hello }

abbrev revision : ParsedRevision
revision = record {
  revision_number = 1;
  author = ascii "mallory";
  message = message;
  timestamp = pos 7;
  nodes = added ∷ [];
}

batch_mode-load_revision_example :
    (load_revision setting (opened, no_stats) revision).1.0.batch_mode
    ≡ has_error (load_revision setting (opened, no_stats) revision).0
batch_mode-load_revision_example = batch_mode-load_revision setting opened no_stats revision refl

abbrev dumped_file : DumpedFile
dumped_file = record {
  path = ascii "src/main.rs";
  known = false;
  executable = true;
  content = hello;
}

abbrev dumped : DumpedRevision
dumped = record { number = 1; props = build_empty_props; files = dumped_file ∷ [] }

path-IsValue : IsValue (ascii "src/main.rs")
unfolding trim_start trim_end is_free
path-IsValue = record {
  full = refl;
  starts = refl;
  ends = refl;
  free = is_free-Free 10 (ascii "src/main.rs") refl;
}

dumped-IsDumpedRevision : IsDumpedRevision dumped
dumped-IsDumpedRevision = record {
  number_fits = omega arith;
  some_props = omega arith;
  props_fit = omega arith;
  files_fit = (record { named = path-IsValue; fits = omega arith }, tt);
}

abbrev no_date : Bytes → Option ℤ
no_date text = none

parse_dump_stream-revisions_text_example :
    parse_dump_stream no_date (pos 7) collect [] (revisions_text (dumped ∷ dumped ∷ []))
    ≡ (none, map (revision_of no_date (pos 7)) (dumped ∷ dumped ∷ []))
parse_dump_stream-revisions_text_example =
    parse_dump_stream-revisions_text no_date (pos 7) (dumped ∷ dumped ∷ [])
      (dumped-IsDumpedRevision, (dumped-IsDumpedRevision, tt))
