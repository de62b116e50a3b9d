-- ===== src/Link/Authority.antt =====
-- gurtd/src/link/mod.rs: the store of authority scores and its text. Printing and parsing of `f32`, and
-- the order of texts, are parameters.
use google_co.Base.{
  ℕ, ◌+◌, Bool, List, [], ◌∷◌, ◌++◌, if◌then◌else◌, Option, none, some, length, drop, ◌==◌,
}
use google_co.Str.Ascii.{Str, codes, trim, trim_end_by}
use google_co.Str.Search.{starts_with, find_char}
use google_co.Str.Split.{lines, split_once}
use google_co.Dict.{Dict, lookup, insert}

abbrev pub AuthorityStore : Type 0 → Type 0
AuthorityStore F = Dict F

abbrev is_comma : ℕ → Bool
is_comma c = c == b','

module _ {F : Type 0} where
  unfoldable pub new : AuthorityStore F
  new = []

  unfoldable pub set : Str → F → AuthorityStore F → AuthorityStore F
  set url score m = insert url score m

  unfoldable pub get : Str → AuthorityStore F → Option F
  get url m = lookup url m

  unfoldable pub len : AuthorityStore F → ℕ
  len m = length m

  -- `sort_by` the keys.
  unfoldable pub insert_item : (Str → Str → Bool) → Str × F → List (Str × F) → List (Str × F)
  insert_item before it [] = it ∷ []
  insert_item before it (x ∷ xs) =
      let rest = x ∷ insert_item before it xs in if before it.0 x.0 then it ∷ x ∷ xs else rest

  unfoldable pub sort_items : (Str → Str → Bool) → List (Str × F) → List (Str × F)
  unfolding insert_item
  sort_items before [] = []
  sort_items before (x ∷ xs) = insert_item before x (sort_items before xs)

  abbrev item_line : (F → Str) → Str → Str × F → Str
  item_line show comma (k, v) = codes "  \"" ++ k ++ codes "\": " ++ show v ++ comma ++ 10 ∷ []

  abbrev item_lines : (F → Str) → List (Str × F) → Str
  item_lines show [] = []
  item_lines show (it ∷ []) = item_line show [] it
  item_lines show (it ∷ next ∷ rest) =
      item_line show (codes ",") it ++ item_lines show (next ∷ rest)

  unfoldable pub to_json : (Str → Str → Bool) → (F → Str) → AuthorityStore F → Str
  unfolding sort_items
  to_json before show m =
      (b'{' ∷ 10 ∷ []) ++ item_lines show (sort_items before m) ++ b'}' ∷ 10 ∷ []

  abbrev with_value : Str → Option F → AuthorityStore F → AuthorityStore F
  with_value k none m = m
  with_value k (some v) m = set k v m

  abbrev value_at : (Str → Option F) → Str → Str → Option ℕ → AuthorityStore F → AuthorityStore F
  value_at parse k rest none m = m
  value_at parse k rest (some colon) m =
      with_value k (parse (trim_end_by is_comma (trim (drop (colon + 1) rest)))) m

  abbrev keyed_line : (Str → Option F) → Option (Str × Str) → AuthorityStore F → AuthorityStore F
  keyed_line parse none m = m
  keyed_line parse (some (k, rest)) m = value_at parse k rest (find_char rest b':') m

  -- One line of the text.
  unfoldable pub json_line : (Str → Option F) → Str → AuthorityStore F → AuthorityStore F
  unfolding set
  json_line parse raw m =
      let line = trim raw in
      if starts_with line (codes "\"")
      then keyed_line parse (split_once (drop 1 line) b'"') m
      else m

  unfoldable pub json_lines : (Str → Option F) → List Str → AuthorityStore F → AuthorityStore F
  unfolding json_line
  json_lines parse [] m = m
  json_lines parse (l ∷ ls) m = json_lines parse ls (json_line parse l m)

  unfoldable pub from_json : (Str → Option F) → Str → AuthorityStore F
  unfolding json_lines new
  from_json parse s = json_lines parse (lines s) new
