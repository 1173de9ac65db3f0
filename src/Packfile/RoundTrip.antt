-- ===== src/Packfile/RoundTrip.antt =====
-- Writing a packfile against opening it (dsvn-core/src/packfile.rs).
use dsvn.Prelude.{
  ℕ, zero, suc, ◌+◌, ◌-◌, ◌%◌, ◌^◌, ◌≤◌, ◌<◌, ◌≡◌, refl, sym, ap, ◌∙◌, subst, Option, none, some,
  List, [], ◌∷◌, ◌++◌, arith, if◌then◌else◌, length, drop, length-append, take-append, drop-append,
  drop-drop, append-nil, append_assoc, All, Bool-cases, inl, inr,
}
use dsvn.Bytes.{Bytes, eqb, eqb_iff}
use dsvn.Object.{ObjectId}
use dsvn.LittleEndian.{to_le_bytes, from_le_bytes, from_le_bytes-to_le_bytes}
use dsvn.Packfile.{
  Zstd, PackWriter, PackReader, ok, pack_version, insert_object, add_object, object_bytes,
  write_objects, write, slice, read_u32, scan, open_pack, find_entry, read_object, get_object,
}

-- The documented behaviour of the crate: decoding gives back what was encoded.
pub record IsZstd (z : Zstd) : Type 0 where
  pub decode-encode : (b : Bytes) → z.decode (z.encode b) ≡ some b

length-drop : (n : ℕ) (xs : Bytes) → length (drop n xs) ≡ length xs - n
length-drop zero xs = omega arith
length-drop (suc n) [] = omega arith
length-drop (suc n) (x ∷ xs) = omega (arith, length-drop n xs)

-- `rest` is what `data` holds from `pos` on.
record IsAt (raw : Bytes) (pos : ℕ) (rest : Bytes) : Type 0 where
  dropped : drop pos raw ≡ rest
  inside : pos ≤ length raw

module _ {raw : Bytes} {pos : ℕ} (x rest : Bytes) (v : IsAt raw pos (x ++ rest)) where
  room : pos + length x ≤ length raw
  room = omega (arith, v.inside, ap length v.dropped, length-drop pos raw, length-append x rest)

  advance : IsAt raw (pos + length x) rest
  advance = record {
    dropped =
        sym (drop-drop (length x) pos raw) ∙ ap (drop (length x)) v.dropped ∙ drop-append x rest;
    inside = room;
  }

  slice_lem : slice raw pos (length x) ≡ ok x
  unfolding slice
  slice_lem = rw v.dropped (rw take-append (ground (arith, room)))

read_u32_lem :
    {raw : Bytes} {pos : ℕ} (n : ℕ) (rest : Bytes)
    → n < 2 ^ 32
    → IsAt raw pos (to_le_bytes (n % 2 ^ 32) ++ rest)
    → (read_u32 raw pos ≡ ok n) × IsAt raw (pos + 4) rest
unfolding read_u32 to_le_bytes from_le_bytes
read_u32_lem {raw} {pos} n rest b v =
    let same : n % 2 ^ 32 ≡ n = omega arith in
    (
      rw (slice_lem (to_le_bytes (n % 2 ^ 32)) rest v)
          (ap ok (from_le_bytes-to_le_bytes (n % 2 ^ 32) (omega arith) ∙ same)),
      advance (to_le_bytes (n % 2 ^ 32)) rest v,
    )

-- The object that a writer holds for an id.
abbrev pub lookup_object : ObjectId → List (ObjectId × Bytes) → Option Bytes
lookup_object id [] = none
lookup_object id ((j, d) ∷ objects) =
    let rest = lookup_object id objects in if eqb j id then some d else rest

lookup_object-insert_object :
    (id j : ObjectId) (d : Bytes) (objects : List (ObjectId × Bytes))
    → lookup_object j (insert_object id d objects)
      ≡ (if eqb id j then some d else lookup_object j objects)
unfolding insert_object
lookup_object-insert_object id j d [] = refl
lookup_object-insert_object id j d ((k, e) ∷ objects) =
    ground
      (arith, lookup_object-insert_object id j d objects, eqb_iff id k, eqb_iff k j, eqb_iff id j)

-- Of the objects of a packfile writer, one that was added last is found under its id, and the
-- others are found as before.
pub lookup_object-add_object :
    (w : PackWriter) (id j : ObjectId) (d : Bytes)
    → lookup_object j (add_object w id d).objects
      ≡ (if eqb id j then some d else lookup_object j w.objects)
unfolding add_object
lookup_object-add_object w id j d = lookup_object-insert_object id j d w.objects

-- What the 32-bit length fields and the 32-byte id field hold.
abbrev pub IsStorable : Zstd → ObjectId × Bytes → Type 0
IsStorable z (id, d) = (length id ≡ 32) × (length d < 2 ^ 32) × (length (z.encode d) < 2 ^ 32)

module _ {z : Zstd} (sound : IsZstd z) where
  -- What reading an object at `pos` gives, and where it ends.
  record IsObject (raw : Bytes) (pos : ℕ) (id : ObjectId) (d : Bytes) (rest : Bytes) : Type 0 where
    size_lem : read_u32 raw (pos + 1) ≡ ok (length d)
    id_lem : slice raw (pos + 1 + 4) 32 ≡ ok id
    compressed_size_lem : read_u32 raw (pos + 1 + 4 + 32) ≡ ok (length (z.encode d))
    compressed_lem : slice raw (pos + 1 + 4 + 32 + 4) (length (z.encode d)) ≡ ok (z.encode d)
    next : IsAt raw (pos + 1 + 4 + 32 + 4 + length (z.encode d)) rest

  object_bytes-append :
      (id : ObjectId) (d rest : Bytes)
      → object_bytes z id d ++ rest
        ≡ (1 ∷ [])
          ++ (to_le_bytes (length d % 2 ^ 32)
              ++ (id ++ (to_le_bytes (length (z.encode d) % 2 ^ 32) ++ (z.encode d ++ rest))))
  unfolding object_bytes
  object_bytes-append id d rest = simp append_assoc

  object_lem :
      (raw : Bytes) (pos : ℕ) (id : ObjectId) (d rest : Bytes)
      → IsStorable z (id, d)
      → IsAt raw pos (object_bytes z id d ++ rest)
      → IsObject raw pos id d rest
  object_lem raw pos id d rest (id_length, size, compressed_size) v =
      let v1 = advance (1 ∷ []) _ (subst (IsAt raw pos) (object_bytes-append id d rest) v) in
      let (size_lem, v2) = read_u32_lem (length d) _ size v1 in
      let v3 = advance id _ v2 in
      let here = slice_lem id _ v2 in
      let (compressed_size_lem, v4) =
        read_u32_lem (length (z.encode d)) _ compressed_size (rw id_length at v3) in
      record {
        size_lem = size_lem;
        id_lem = rw id_length at here;
        compressed_size_lem = compressed_size_lem;
        compressed_lem = slice_lem (z.encode d) rest v4;
        next = advance (z.encode d) rest v4;
      }

  length-object_bytes :
      (id : ObjectId) (d : Bytes)
      → length id ≡ 32
      → length (object_bytes z id d) ≡ 41 + length (z.encode d)
  unfolding object_bytes to_le_bytes
  length-object_bytes id d h =
      let size = to_le_bytes (length (z.encode d) % 2 ^ 32) in
      omega (arith, h, length-append id size, length-append (id ++ size) (z.encode d))

  IsAt-next :
      {raw : Bytes} (pos : ℕ) {rest : Bytes} (id : ObjectId) (d : Bytes)
      → length id ≡ 32
      → IsAt raw (pos + 1 + 4 + 32 + 4 + length (z.encode d)) rest
      → IsAt raw (pos + length (object_bytes z id d)) rest
  IsAt-next {raw} pos {rest} id d h v =
      subst (λ p. IsAt raw p rest) (omega (arith, length-object_bytes id d h)) v

  scan_lem :
      (raw post : Bytes) (pos : ℕ) (objects : List (ObjectId × Bytes))
      → All (IsStorable z) objects
      → IsAt raw pos ((write_objects z pos objects).0 ++ post)
      → scan raw (length objects) pos ≡ ok (write_objects z pos objects).1
  unfolding write_objects scan
  scan_lem raw post pos [] st v = refl
  scan_lem raw post pos ((id, d) ∷ objects) (one, rest) v =
      let written = object_bytes z id d in
      let o = object_lem raw pos id d _ one (rw append_assoc at v) in
      let later =
        scan_lem raw post (pos + length written) objects rest (IsAt-next pos id d one.0 o.next) in
      let end : pos + 1 + 4 + 32 + 4 + length (z.encode d) ≡ pos + length written =
        omega (arith, length-object_bytes id d one.0) in
      rw (o.size_lem, scan) (rw o.id_lem (rw o.compressed_size_lem (rw end (rw later refl))))

  read_object_lem :
      (raw post : Bytes) (pos : ℕ) (id : ObjectId) (objects : List (ObjectId × Bytes))
      → All (IsStorable z) objects
      → IsAt raw pos ((write_objects z pos objects).0 ++ post)
      → read_object z raw (find_entry id (write_objects z pos objects).1)
        ≡ ok (lookup_object id objects)
  unfolding write_objects find_entry read_object
  read_object_lem raw post pos id [] st v = refl
  read_object_lem raw post pos id ((j, d) ∷ objects) (one, rest) v =
      let o = object_lem raw pos j d _ one (rw append_assoc at v) in
      elim (Bool-cases (eqb j id)) [
        | inl same ↦
            rw (same, o.compressed_size_lem) (rw o.compressed_lem (rw (sound.decode-encode d) refl))
        | inr other ↦ rw other (
            read_object_lem raw post (pos + length (object_bytes z j d)) id objects rest
              (IsAt-next pos j d one.0 o.next))
      ]

  -- Opening what `write` wrote gives the index that `write` returned, and every object that the
  -- writer holds, and none for any other id: for a compressor that gives back what it compressed,
  -- ids of 32 bytes, and counts and sizes, compressed and not, below 2^32.
  pub get_object-write :
      (w : PackWriter)
      → All (IsStorable z) w.objects
      → length w.objects < 2 ^ 32
      → (r : PackReader) × (open_pack (write z w).0 ≡ ok r)
        × (r.index ≡ (write z w).1)
        × ((id : ObjectId) → get_object z r id ≡ ok (lookup_object id w.objects))
  unfolding open_pack write get_object
  get_object-write w st count =
      let raw = (write z w).0 in
      let entries = (write_objects z 8 w.objects).1 in
      let start : IsAt raw 0 (
          to_le_bytes (pack_version % 2 ^ 32)
          ++ (to_le_bytes (length w.objects % 2 ^ 32) ++ (write_objects z 8 w.objects).0)) =
        record { dropped = append_assoc (to_le_bytes pack_version) _ _; inside = omega arith } in
      let (version, v1) = read_u32_lem pack_version _ (omega arith) start in
      let (counted, v2) = read_u32_lem (length w.objects) _ count v1 in
      let v3 : IsAt raw 8 ((write_objects z 8 w.objects).0 ++ []) = rw append-nil v2 in
      (
        record { index = record { entries = entries }; raw = raw },
        rw (version, open_pack) (rw counted (rw (scan_lem raw [] 8 w.objects st v3) refl)),
        refl,
        λ id. read_object_lem raw [] 8 id w.objects st v3,
      )
