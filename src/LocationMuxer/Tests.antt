-- ===== src/LocationMuxer/Tests.antt =====
-- The muxer on two locations.
use nedomi.Prelude.{◌≡◌, refl, none, some, [], ◌∷◌}
use nedomi.Ranges.Strings.{Text, after_prefix}
use nedomi.Disk.Names.{text_eq}
use nedomi.LocationMuxer.{
  Location, Packages, LocationMuxer, is_location_type, set_entry, add_location, add_locations,
  new_location_muxer, visit, longest_matching_path,
}
use nedomi.LocationMuxer.Longest.{Returns, longest_matching_path-IsLongest}

-- Regular expressions that are texts and match themselves, and a trie in the order of the list.
abbrev packages : Packages Text
packages = record {
  compile = λ t. some t;
  match_string = text_eq;
  equal_fold = text_eq;
  visit_order = λ l. l;
}

-- `/` and `/a`
abbrev root : Location
root = record { name = 47 ∷ [] }

abbrev below : Location
below = record { name = 47 ∷ 97 ∷ [] }

abbrev muxer : LocationMuxer Text
muxer = record { regexes = []; entries = (root.name, root) ∷ (below.name, below) ∷ [] }

built : new_location_muxer packages (root ∷ below ∷ []) ≡ some muxer
unfolding new_location_muxer add_locations add_location is_location_type set_entry after_prefix
    text_eq
built = refl

-- `/ab` is answered by `/a`.
longest_of_two : longest_matching_path packages muxer (47 ∷ 97 ∷ 98 ∷ []) ≡ some below
unfolding longest_matching_path visit is_location_type after_prefix text_eq
longest_of_two = refl

longest_matching_path-IsLongest_example :
    Returns packages
      (47 ∷ 97 ∷ 98 ∷ [])
      muxer.entries
      0
      none
      (longest_matching_path packages muxer (47 ∷ 97 ∷ 98 ∷ []))
longest_matching_path-IsLongest_example =
    longest_matching_path-IsLongest packages muxer (47 ∷ 97 ∷ 98 ∷ []) (λ e. (λ i. i, λ i. i))
