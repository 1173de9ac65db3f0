-- ===== src/Examples/Formats.antt =====
-- Lossless formats of lists, pairs and records, from which the concrete codecs are made.
use dsvn.Prelude.{
  ℕ, zero, suc, ◌≡◌, refl, sym, ap, ◌∙◌, Option, none, some, List, [], ◌∷◌, ◌++◌, length,
  append-nil, append_assoc,
}
use dsvn.Bytes.{Bytes}
use dsvn.Object.{Codec}

-- A format writes a value, and reads it back from what begins with it.
pub record Format (A : Type 0) : Type 0 where
  pub put : A → Bytes
  pub get : Bytes → Option (A × Bytes)
  pub get-put : (a : A) (rest : Bytes) → get (put a ++ rest) ≡ some (a, rest)

abbrev get_number : Bytes → Option (ℕ × Bytes)
get_number [] = none
get_number (n ∷ rest) = some (n, rest)

abbrev pub number : Format ℕ
number = record { put = λ n. n ∷ []; get = get_number; get-put = λ n rest. refl }

module _ {A B : Type 0} (f : Format A) (g : Format B) where
  abbrev get_pair : Bytes → Option ((A × B) × Bytes)
  get_pair bytes = elim (f.get bytes) [
    | none ↦ none
    | some (a, rest) ↦ elim (g.get rest) [ none ↦ none | some (b, last) ↦ some ((a, b), last) ]
  ]

  abbrev pub pair : Format (A × B)
  pair = record {
    put = λ p. f.put p.0 ++ g.put p.1;
    get = get_pair;
    get-put = λ (a, b) rest.
        rw (append_assoc (f.put a) (g.put b) rest)
          (rw (f.get-put a (g.put b ++ rest), get_pair) (rw (g.get-put b rest) refl));
  }

module _ {A : Type 0} (f : Format A) where
  abbrev put_all : List A → Bytes
  put_all [] = []
  put_all (a ∷ xs) = f.put a ++ put_all xs

  abbrev get_all : ℕ → Bytes → Option (List A × Bytes)
  get_all zero bytes = some ([], bytes)
  get_all (suc n) bytes = elim (f.get bytes) [
    | none ↦ none
    | some (a, rest) ↦ elim (get_all n rest) [ none ↦ none | some (xs, last) ↦ some (a ∷ xs, last) ]
  ]

  pub get_all-put_all :
      (xs : List A) (rest : Bytes) → get_all (length xs) (put_all xs ++ rest) ≡ some (xs, rest)
  get_all-put_all [] rest = refl
  get_all-put_all (a ∷ xs) rest =
      rw (append_assoc (f.put a) (put_all xs) rest)
        (rw (f.get-put a (put_all xs ++ rest), get_all) (rw (get_all-put_all xs rest) refl))

  abbrev get_list : Bytes → Option (List A × Bytes)
  get_list [] = none
  get_list (n ∷ rest) = get_all n rest

  abbrev pub list : Format (List A)
  list = record {
    put = λ xs. length xs ∷ put_all xs;
    get = get_list;
    get-put = λ xs rest. get_all-put_all xs rest;
  }

module _ {A B : Type 0} (f : Format A) (to : B → A) (from : A → B)
    (from-to : (b : B) → from (to b) ≡ b) where
  abbrev get_via : Option (A × Bytes) → Option (B × Bytes)
  get_via none = none
  get_via (some (a, rest)) = some (from a, rest)

  abbrev pub via : Format B
  via = record {
    put = λ b. f.put (to b);
    get = λ bytes. get_via (f.get bytes);
    get-put = λ b rest. rw (f.get-put (to b) rest) (rw (from-to b) refl);
  }

module _ {A B : Type 0} (f : Format A) (to : B → A) (from : A → B) where
  abbrev read_first : Option (A × Bytes) → Option B
  read_first none = none
  read_first (some (a, rest)) = some (from a)

  abbrev pub codec_of : Codec B
  codec_of = record {
    serialize = λ b. f.put (to b);
    deserialize = λ bytes. read_first (f.get bytes);
  }

  pub codec_of_lem : (b : B) → codec_of.deserialize (codec_of.serialize b) ≡ some (from (to b))
  codec_of_lem b =
      ap (λ bytes. read_first (f.get bytes)) (sym (append-nil (f.put (to b))))
      ∙ ap read_first (f.get-put (to b) [])
