-- ===== src/Headers.antt =====
-- The headers of HTTP, http.Header and utils/httputils/headers.go. A map is a list of its entries.
pub mod Names
pub mod Laws
use nedomi.Prelude.{Bool, true, false, Option, none, some, List, [], ◌∷◌, if◌then◌else◌}
use nedomi.Ranges.Strings.{Text}
use nedomi.Disk.Names.{text_eq}

abbrev pub Headers : Type 0
Headers = List (Text × List Text)

-- The values of a key; `none` if the map has not got it.
unfoldable pub values : Text → Headers → Option (List Text)
values k [] = none
values k ((k', v) ∷ h) = let rest = values k h in if text_eq k k' then some v else rest

-- Header.Get: the first value, or an empty text.
unfoldable pub get : Text → Headers → Text
get k h = elim (values k h) [ none ↦ [] | some l ↦ elim l [ [] ↦ [] | v ∷ r ↦ v ] ]

-- The assignment `h[k] = v`.
unfoldable pub assign : Text → List Text → Headers → Headers
assign k v [] = (k, v) ∷ []
assign k v ((k', v') ∷ h) =
    let rest = assign k v h in if text_eq k k' then (k', v) ∷ h else (k', v') ∷ rest

-- Header.Set
unfoldable pub set : Text → Text → Headers → Headers
set k v h = assign k (v ∷ []) h

-- CopyHeaders; the copy of a slice of strings is the slice.
unfoldable pub copy_headers : Headers → Headers → Headers
copy_headers [] to = to
copy_headers ((k, v) ∷ from) to = copy_headers from (assign k v to)

-- The inner loop of CopyHeadersWithout.
unfoldable pub is_exception : Text → List Text → Bool
is_exception k [] = false
is_exception k (e ∷ l) = let rest = is_exception k l in if text_eq e k then true else rest

-- CopyHeadersWithout
unfoldable pub copy_headers_without : Headers → Headers → List Text → Headers
copy_headers_without [] to exceptions = to
copy_headers_without ((k, v) ∷ from) to exceptions =
    copy_headers_without from (if is_exception k exceptions then to else assign k v to) exceptions
