-- ===== src/Client/Listing.antt =====
-- `parse_list` of src/client.rs, and the prose of a server that lists names.
use fing.Base.{
  append_assoc, List, [], ◌∷◌, ◌++◌, false, some, ◌≡◌, refl, ap, ◌∙◌, arith, All, ◌==◌, map, is_nil,
}
use fing.Base.Text.{
  Text, codes, trim, trim_start, is_whitespace, split, split_by, filter_non_empty, join,
  strip_prefix,
}
use fing.Client.Names.{parse_list, or_whole}

-- A name that prose can list: not empty, without spaces around it, and without a comma.
abbrev pub Listable : Text → Type 0
Listable name = (is_nil name ≡ false) × (trim name ≡ name) × All (λ c. (c == b',') ≡ false) name

strip_prefix-append : (p s : Text) → strip_prefix p (p ++ s) ≡ some s
unfolding strip_prefix
strip_prefix-append [] s = refl
strip_prefix-append (c ∷ p) s = ground (arith, strip_prefix-append p s)

split-whole : (t : Text) → All (λ c. (c == b',') ≡ false) t → split b',' t ≡ t ∷ []
unfolding split_by
split-whole [] h = refl
split-whole (c ∷ t) (here, there) = rw (here, split-whole t there)

split-comma :
    (t s : Text)
    → All (λ c. (c == b',') ≡ false) t
    → split b',' (t ++ (b',' ∷ s)) ≡ t ∷ split b',' s
unfolding split_by
split-comma [] s h = refl
split-comma (c ∷ t) s (here, there) = rw (here, split-comma t s there)

abbrev spaced : Text → Text
spaced name = b' ' ∷ name

separator : (s : Text) → codes ", " ++ s ≡ b',' ∷ spaced s
separator s = refl

join-cons :
    (name next : Text) (names : List Text)
    → join (codes ", ") (name ∷ next ∷ names)
      ≡ name ++ (b',' ∷ spaced (join (codes ", ") (next ∷ names)))
unfolding join
join-cons name next names =
    append_assoc name (codes ", ") (join (codes ", ") (next ∷ names))
    ∙ ap (◌++◌ name) (separator (join (codes ", ") (next ∷ names)))

join-one : (name : Text) → join (codes ", ") (name ∷ []) ≡ name
unfolding join
join-one name = refl

nothing_listed : filter_non_empty (map trim (split b',' (spaced (join (codes ", ") [])))) ≡ []
unfolding filter_non_empty trim trim_start split_by join is_whitespace
nothing_listed = refl

-- The pieces between the commas are the names, each behind a space.
split-join :
    (name : Text) (names : List Text)
    → All Listable (name ∷ names)
    → split b',' (spaced (join (codes ", ") (name ∷ names))) ≡ map spaced (name ∷ names)
split-join name [] (h, _) = rw (join-one name) (split-whole (spaced name) (refl, h.2))
split-join name (next ∷ names) (h, more) =
    ap (λ t. split b',' (spaced t)) (join-cons name next names)
    ∙ split-comma (spaced name) (spaced (join (codes ", ") (next ∷ names))) (refl, h.2)
    ∙ ap (◌∷◌ (spaced name)) (split-join next names more)

trim-spaced : (name : Text) → trim (spaced name) ≡ trim name
unfolding trim trim_start is_whitespace
trim-spaced name = refl

-- Trimmed, they are the names.
kept :
    (names : List Text)
    → All Listable names
    → filter_non_empty (map trim (map spaced names)) ≡ names
unfolding filter_non_empty
kept [] h = refl
kept (name ∷ names) ((full, trimmed, _), more) =
    rw (trim-spaced name, trimmed, full) (ap (◌∷◌ name) (kept names more))

listed :
    (names : List Text)
    → All Listable names
    → filter_non_empty (map trim (split b',' (spaced (join (codes ", ") names)))) ≡ names
listed [] h = nothing_listed
listed (name ∷ names) h = rw (split-join name names h) (kept (name ∷ names) h)

-- A list of names behind its prefix, a space, and with a comma and a space between them, is read
-- back as those names in order, when each is listable.
pub parse_list-join :
    (prefix : Text) (names : List Text)
    → All Listable names
    → parse_list (prefix ++ spaced (join (codes ", ") names)) prefix ≡ names
unfolding parse_list
parse_list-join prefix names h =
    ap
      (λ t.
        filter_non_empty
          (map trim (split b',' (or_whole (prefix ++ spaced (join (codes ", ") names)) t))))
      (strip_prefix-append prefix (spaced (join (codes ", ") names)))
    ∙ listed names h
