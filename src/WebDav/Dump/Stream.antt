-- ===== src/WebDav/Dump/Stream.antt =====
-- A whole dump of revisions that add and change files, as it is written and read
-- (dsvn-webdav/src/dump_handlers.rs).
use dsvn.Prelude.{
  ℕ, suc, ◌+◌, ◌-◌, ◌*◌, ◌^◌, ◌<◌, ◌≤◌, ◌≡◌, refl, sym, ap, ◌∙◌, Bool, Option, none, some, List, [],
  ◌∷◌, ◌++◌, arith, length, append_assoc, append-nil, All, if◌then◌else◌, ℤ, map, length-append,
}
use dsvn.Bytes.{Bytes}
use dsvn.WebDav.Dump.Props.{parse_props_block}
use dsvn.WebDav.Dump.Write.{header, file_node_text, revision_text}
use dsvn.WebDav.Dump.Read.{add, change, file, ParsedNode, ParsedRevision, LoadError, read_line}
use dsvn.WebDav.Dump.Load.{parse_dump_from, parse_dump_stream, flush, push_node, new_revision}
use dsvn.WebDav.Dump.Headers.{IsValue}
use dsvn.WebDav.Dump.Nodes.{action_text}
use dsvn.WebDav.Dump.FileNode.{parse_dump_from-file_node_text}
use dsvn.WebDav.Dump.RevisionRecord.{parse_dump_from-revision_text, blank_line}

-- A file as a dump names it, and a revision of files with its block of properties.
pub record DumpedFile : Type 0 where
  pub path : Bytes
  pub known : Bool
  pub executable : Bool
  pub content : Bytes

pub record DumpedRevision : Type 0 where
  pub number : ℕ
  pub props : Bytes
  pub files : List DumpedFile

pub record IsDumpedFile (f : DumpedFile) : Type 0 where
  pub named : IsValue f.path
  pub fits : length f.content + 64 < 2 ^ 64

pub record IsDumpedRevision (r : DumpedRevision) : Type 0 where
  pub number_fits : r.number < 2 ^ 64
  pub some_props : 0 < length r.props
  pub props_fit : length r.props < 2 ^ 64
  pub files_fit : All IsDumpedFile r.files

-- The text that `write_change_to_buf` and `generate_dump` write for them.
unfoldable pub files_text : List DumpedFile → Bytes → Bytes
files_text [] rest = rest
files_text (f ∷ fs) rest =
    file_node_text f.path (action_text f.known) f.executable f.content ++ files_text fs rest

unfoldable pub revisions_text : List DumpedRevision → Bytes
revisions_text [] = []
revisions_text (r ∷ rs) = revision_text r.number r.props ++ files_text r.files (revisions_text rs)

-- The node that a file is read as.
abbrev pub node_of : DumpedFile → ParsedNode
node_of f = record {
  path = f.path;
  kind = some file;
  action = some (if f.known then change else add);
  content = f.content;
}

-- The steps of the loop that the files take: two each.
abbrev steps_of : List DumpedFile → ℕ → ℕ
steps_of [] fuel = fuel
steps_of (f ∷ fs) fuel = suc (suc (steps_of fs fuel))

module _ (parse_date : Bytes → Option ℤ) (now : ℤ) where
  abbrev pub with_nodes : ParsedRevision → List ParsedNode → ParsedRevision
  with_nodes rev nds = record rev { nodes = rev.nodes ++ nds }

  pub revision_of : DumpedRevision → ParsedRevision
  revision_of r =
      with_nodes (new_revision parse_date now r.number (parse_props_block r.props))
        (map node_of r.files)

  module _ {A : Type 0} (on_rev : A → ParsedRevision → Option LoadError × A) where
    parse_dump_from-files_text :
        (fs : List DumpedFile) (fuel : ℕ) (a : A) (rev : ParsedRevision) (rest : Bytes)
        → All IsDumpedFile fs
        → parse_dump_from parse_date now on_rev (steps_of fs fuel) a (some rev) (files_text fs rest)
          ≡ parse_dump_from parse_date now on_rev fuel a
              (some (with_nodes rev (map node_of fs)))
              rest
    unfolding files_text push_node
    parse_dump_from-files_text [] fuel a rev rest ok =
        ap
          (λ nds.
            parse_dump_from parse_date now on_rev fuel a (some (record rev { nodes = nds })) rest)
          (sym (append-nil rev.nodes))
    parse_dump_from-files_text (f ∷ fs) fuel a rev rest (ok, oks) =
        parse_dump_from-file_node_text parse_date now on_rev (suc (steps_of fs fuel)) a (some rev)
          f.path f.known f.executable f.content (files_text fs rest) ok.named ok.fits
        ∙ blank_line parse_date now on_rev (steps_of fs fuel) a _ (files_text fs rest)
        ∙ parse_dump_from-files_text fs fuel a (with_nodes rev (node_of f ∷ [])) rest oks
        ∙ ap
            (λ nds.
              parse_dump_from parse_date now on_rev fuel a (some (record rev { nodes = nds })) rest)
            (append_assoc rev.nodes (node_of f ∷ []) (map node_of fs))

-- A callback that collects the revisions.
abbrev pub collect : List ParsedRevision → ParsedRevision → Option LoadError × List ParsedRevision
collect revs rev = (none, revs ++ (rev ∷ []))

abbrev pushed : List ParsedRevision → Option ParsedRevision → List ParsedRevision
pushed revs none = revs
pushed revs (some rev) = revs ++ (rev ∷ [])

-- The steps of the loop that the revisions take: two each, and those of their files.
abbrev steps : List DumpedRevision → ℕ → ℕ
steps [] fuel = suc fuel
steps (r ∷ rs) fuel = suc (suc (steps_of r.files (steps rs fuel)))

steps_of-sum : (fs : List DumpedFile) (fuel : ℕ) → steps_of fs fuel ≡ 2 * length fs + fuel
steps_of-sum [] fuel = omega arith
steps_of-sum (f ∷ fs) fuel = let rest = steps_of-sum fs fuel in omega (arith, rest)

steps-sum : (rs : List DumpedRevision) (fuel : ℕ) → steps rs fuel ≡ steps rs 0 + fuel
steps-sum [] fuel = omega arith
steps-sum (r ∷ rs) fuel =
    let rest = steps-sum rs fuel in
    let with_fuel = steps_of-sum r.files (steps rs fuel) in
    let without = steps_of-sum r.files (steps rs 0) in omega (arith, rest, with_fuel, without)

length-files_text :
    (fs : List DumpedFile) (rest : Bytes)
    → 2 * length fs + length rest ≤ length (files_text fs rest)
unfolding files_text file_node_text header
length-files_text [] rest = omega arith
length-files_text (f ∷ fs) rest =
    let more = length-files_text fs rest in
    let sum =
      length-append (file_node_text f.path (action_text f.known) f.executable f.content)
        (files_text fs rest) in
    omega (arith, more, sum)

steps-enough : (rs : List DumpedRevision) → steps rs 0 ≤ suc (length (revisions_text rs))
unfolding revisions_text revision_text header
steps-enough [] = omega arith
steps-enough (r ∷ rs) =
    let more = steps-enough rs in
    let sum =
      length-append (revision_text r.number r.props) (files_text r.files (revisions_text rs)) in
    let files = length-files_text r.files (revisions_text rs) in
    let taken = steps_of-sum r.files (steps rs 0) in omega (arith, more, sum, files, taken)

module _ (parse_date : Bytes → Option ℤ) (now : ℤ) where
  flush-collect :
      (revs : List ParsedRevision) (cur_rev : Option ParsedRevision)
      → flush parse_date now collect revs cur_rev ≡ (none, pushed revs cur_rev)
  unfolding flush
  flush-collect revs none = refl
  flush-collect revs (some rev) = refl

  parse_dump_from-revisions_text :
      (rs : List DumpedRevision) (fuel : ℕ) (revs : List ParsedRevision)
      (cur_rev : Option ParsedRevision)
      → All IsDumpedRevision rs
      → parse_dump_from parse_date now collect (steps rs fuel) revs cur_rev (revisions_text rs)
        ≡ (none, pushed revs cur_rev ++ map (revision_of parse_date now) rs)
  unfolding revisions_text parse_dump_from read_line revision_of
  parse_dump_from-revisions_text [] fuel revs cur_rev ok =
      flush-collect revs cur_rev ∙ ap (λ l. (none, l)) (sym (append-nil (pushed revs cur_rev)))
  parse_dump_from-revisions_text (r ∷ rs) fuel revs cur_rev (ok, oks) =
      let start = new_revision parse_date now r.number (parse_props_block r.props) in
      parse_dump_from-revision_text parse_date now collect (suc (steps_of r.files (steps rs fuel)))
        revs (pushed revs cur_rev) cur_rev r.number r.props (files_text r.files (revisions_text rs))
        ok.number_fits ok.some_props ok.props_fit (flush-collect revs cur_rev)
      ∙ blank_line parse_date now collect (steps_of r.files (steps rs fuel)) (pushed revs cur_rev)
          (some start) (files_text r.files (revisions_text rs))
      ∙ parse_dump_from-files_text parse_date now collect r.files (steps rs fuel)
          (pushed revs cur_rev) start (revisions_text rs) ok.files_fit
      ∙ parse_dump_from-revisions_text rs fuel (pushed revs cur_rev)
          (some (revision_of parse_date now r)) oks
      ∙ ap (λ l. (none, l))
          (append_assoc (pushed revs cur_rev) (revision_of parse_date now r ∷ [])
            (map (revision_of parse_date now) rs))

  -- The text that a dump writes for a series of revisions that add and change files is read back as
  -- this series: each revision with its number and the properties of its block, and each file with
  -- its path, its action and its content of any bytes. The numbers and lengths fit into 64 bits, the
  -- blocks are not empty, and the paths are not empty and have no line feed and no white space at
  -- their ends.
  pub parse_dump_stream-revisions_text :
      (rs : List DumpedRevision)
      → All IsDumpedRevision rs
      → parse_dump_stream parse_date now collect [] (revisions_text rs)
        ≡ (none, map (revision_of parse_date now) rs)
  unfolding parse_dump_stream
  parse_dump_stream-revisions_text rs ok =
      let extra = suc (length (revisions_text rs)) - steps rs 0 in
      let enough : suc (length (revisions_text rs)) ≡ steps rs extra =
        omega (arith, steps-enough rs, steps-sum rs extra) in
      ap (λ fuel. parse_dump_from parse_date now collect fuel [] none (revisions_text rs)) enough
      ∙ parse_dump_from-revisions_text rs extra [] none ok
