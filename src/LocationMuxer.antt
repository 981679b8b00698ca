-- ===== src/LocationMuxer.antt =====
-- Which location answers a path, app/location_muxer.go.
pub mod Longest
mod Tests
use nedomi.Prelude.{
  ℕ, Bool, true, false, Option, none, some, List, [], ◌∷◌, ◌++◌, if◌then◌else◌, ltb, ◌==◌, ◌&&◌,
  not, length, take, drop,
}
use nedomi.Ranges.Strings.{Text, after_prefix}
use nedomi.Disk.Names.{text_eq}

-- The name of a location; it stands for the location.
pub record Location : Type 0 where
  pub name : Text

-- The location types, by the beginning of the name: `/`, `= /`, `~ `, `~* ` and `^~ /`.
abbrev pub none_type : Text
none_type = 47 ∷ []

abbrev pub exact : Text
exact = 61 ∷ 32 ∷ 47 ∷ []

abbrev pub case_sensitive_regular : Text
case_sensitive_regular = 126 ∷ 32 ∷ []

abbrev pub case_insensitive_regular : Text
case_insensitive_regular = 126 ∷ 42 ∷ 32 ∷ []

abbrev pub best_non_regular : Text
best_non_regular = 94 ∷ 126 ∷ 32 ∷ 47 ∷ []

-- isLocationType, by strings.HasPrefix.
unfoldable pub is_location_type : Location → Text → Bool
is_location_type location t = elim (after_prefix t location.name) [
  | none ↦ false
  | some rest ↦ true
]

-- The functions of other packages: Compile and MatchString of regexp, bytes.EqualFold, and the order
-- in which the trie visits its entries.
pub record Packages (R : Type 0) : Type 0 where
  pub compile : Text → Option R
  pub match_string : R → Text → Bool
  pub equal_fold : Text → Text → Bool
  pub visit_order : List (Text × Location) → List (Text × Location)

-- LocationMuxer: the regular expressions and the entries of the trie.
pub record LocationMuxer (R : Type 0) : Type 0 where
  pub regexes : List (R × Location)
  pub entries : List (Text × Location)

-- Set of the trie: an entry of the same key is replaced.
unfoldable pub set_entry : Text → Location → List (Text × Location) → List (Text × Location)
set_entry key location [] = (key, location) ∷ []
set_entry key location ((k, l) ∷ entries) =
    let rest = set_entry key location entries in
    if text_eq key k then (k, location) ∷ entries else (k, l) ∷ rest

module _ {R : Type 0} (pk : Packages R) where
  -- addRegexForLocation; `none` is its error.
  unfoldable pub add_regex_for_location :
      LocationMuxer R → Text → Location → Option (LocationMuxer R)
  add_regex_for_location lm regex location = elim (pk.compile regex) [
    | none ↦ none
    | some r ↦ some (record lm { regexes = lm.regexes ++ (r, location) ∷ [] })
  ]

  -- `(?i)`
  abbrev fold_flag : Text
  fold_flag = 40 ∷ 63 ∷ 105 ∷ 41 ∷ []

  -- A round of the loop of NewLocationMuxer.
  unfoldable pub add_location : LocationMuxer R → Location → Option (LocationMuxer R)
  add_location lm location =
      let name = location.name in
      if is_location_type location none_type
      then some (record lm { entries = set_entry name location lm.entries })
      else if is_location_type location case_insensitive_regular
      then add_regex_for_location lm (fold_flag ++ drop (length case_insensitive_regular) name)
          location
      else if is_location_type location case_sensitive_regular
      then add_regex_for_location lm (drop (length case_sensitive_regular) name) location
      else if is_location_type location exact
      then some (record lm { entries = set_entry (drop 2 name) location lm.entries })
      else if is_location_type location best_non_regular
      then some (record lm { entries = set_entry (drop 3 name) location lm.entries })
      else none

  unfoldable pub add_locations : LocationMuxer R → List Location → Option (LocationMuxer R)
  add_locations lm [] = some lm
  add_locations lm (location ∷ locations) = elim (add_location lm location) [
    | none ↦ none
    | some lm' ↦ add_locations lm' locations
  ]

  -- NewLocationMuxer; `none` is an error.
  unfoldable pub new_location_muxer : List Location → Option (LocationMuxer R)
  new_location_muxer = add_locations (record { regexes = []; entries = [] })

  -- The visitor of longestMatchingPath on the entries in their order, with the length of the match so
  -- far and its location. An entry longer than the path is skipped, with its subtree of longer ones.
  unfoldable pub visit : Text → List (Text × Location) → ℕ → Option Location → Option Location
  visit path [] so_far matched = matched
  visit path ((prefix, location) ∷ entries) so_far matched =
      let n = length prefix in
      let exact_match = n == length path in
      let skipped = visit path entries so_far matched in
      let taken = visit path entries n (some location) in
      if ltb (length path) n
      then skipped
      else if ltb so_far n && pk.equal_fold prefix (take n path)
      then (if is_location_type location exact && not exact_match
          then skipped
          else if exact_match
          then some location
          else taken)
      else skipped

  -- longestMatchingPath
  unfoldable pub longest_matching_path : LocationMuxer R → Text → Option Location
  longest_matching_path lm path = visit path (pk.visit_order lm.entries) 0 none

  -- firstMatchingRegex
  unfoldable pub first_matching_regex : List (R × Location) → Text → Option Location
  first_matching_regex [] path = none
  first_matching_regex ((r, location) ∷ regexes) path =
      let rest = first_matching_regex regexes path in
      if pk.match_string r path then some location else rest

  -- The end of Match, behind the test for a location that takes precedence of regular expressions.
  unfoldable pub regex_or : Option Location → Option Location → Option Location
  regex_or (some location) longest = some location
  regex_or none longest = longest

  -- Match
  unfoldable pub match_location : LocationMuxer R → Text → Option Location
  match_location lm path =
      let longest = longest_matching_path lm path in
      let regex = regex_or (first_matching_regex lm.regexes path) longest in
      elim longest [
        | none ↦ regex
        | some location ↦
            if is_location_type location best_non_regular then some location else regex
      ]
