-- ===== src/Client/Names.antt =====
-- The text that src/client.rs reads and checks: names given by the caller, and the server's prose.
use fing.Base.{ℕ, List, [], ◌∷◌, ◌++◌, Option, none, some, map, is_nil, if◌then◌else◌}
use fing.Base.Text.{Text, codes, trim, split, split_whitespace, strip_prefix, filter_non_empty}
use fing.Base.Decimal.{parse_usize}
use fing.Error.{unexpected_response, invalid_argument, Result, ok, err, ok_or}

unfoldable pub require_name : {C : Type 0} → Text → Text → Result C Text
require_name value what =
    if is_nil (trim value)
    then err (invalid_argument (what ++ codes " is empty"))
    else ok (trim value)

abbrev pub or_whole : Text → Option Text → Text
or_whole whole none = whole
or_whole whole (some rest) = rest

unfoldable pub parse_list : Text → Text → List Text
parse_list message prefix =
    filter_non_empty (map trim (split b',' (or_whole message (strip_prefix prefix message))))

abbrev or_later : Option ℕ → Option ℕ → Option ℕ
or_later (some n) later = some n
or_later none later = later

-- `find_map`: the first word that is a number
unfoldable pub find_usize : List Text → Option ℕ
find_usize [] = none
find_usize (word ∷ words) = or_later (parse_usize word) (find_usize words)

unfoldable pub parse_imported : {C : Type 0} → Text → Result C ℕ
unfolding find_usize
parse_imported message =
    ok_or (find_usize (split_whitespace message))
      (unexpected_response (codes "no row count in: " ++ message))
