-- ===== src/Examples/Stores.antt =====
-- A tiered store with one object.
use dsvn.Prelude.{◌≡◌, none, some, [], ◌∷◌}
use dsvn.Bytes.{ascii, eqb}
use dsvn.Storage.{Library, TieredStore, to_option, tiered_get, demote}
use dsvn.Storage.Tiers.{tiered_get-demote}
use dsvn.Examples.Settings.{digest}
use dsvn.Examples.Packs.{hello_id}

abbrev tools : Library
tools = record { sha256 = digest; hex_encode = λ b. b; hex_decode = λ b. some b; compress = λ b. b }

abbrev stored : TieredStore
stored = record {
  hot = record { objects = (hello_id, ascii "hello") ∷ [] };
  warm = record { packs = []; pack_files = [] };
}

tiered_get-demote_example :
    to_option (tiered_get tools (demote tools stored (hello_id ∷ [])) hello_id) ≡ none
unfolding eqb
tiered_get-demote_example = tiered_get-demote tools stored (hello_id ∷ []) hello_id
