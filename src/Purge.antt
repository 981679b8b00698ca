-- ===== src/Purge.antt =====
-- Objects that are taken out of the cache: on request, handler/purge/handler.go, and when they expire,
-- storage/utils.go.
pub mod Results
pub mod Purged
pub mod Gone
mod Tests
use nedomi.Prelude.{ℕ, Bool, true, false, Option, none, some, List, [], ◌∷◌, if◌then◌else◌}
use nedomi.Ranges.Strings.{Text}
use nedomi.Purge.Results.{set_result}

-- The error of a call of a storage.
pub data CallError : Type 0 where
  no_error not_exist other_error : CallError

-- What the handler calls: url.Parse, the application's locations, the object of a URL at a location,
-- and the storage and the algorithm of the location's zone, with a state `E` behind them. A
-- location may have no zone.
pub record Zones (E L O : Type 0) : Type 0 where
  pub parse : Text → Option (Text × Text)
  pub get_location_for : Text → Text → Option L
  pub has_zone : L → Bool
  pub object_for_url : L → Text → O
  pub get_available_parts : E → L → O → E × List ℕ × CallError
  pub discard : E → L → O → E × CallError
  pub remove : E → L → O → List ℕ → E

-- purgeResult
abbrev pub PurgeResult : Type 0
PurgeResult = List (Text × Bool)

module _ {E L O : Type 0} (z : Zones E L O) where
  -- The end of a round: Discard, Remove and the result.
  unfoldable pub discard_parts : E → L → O → Text → List ℕ → PurgeResult → E × Option PurgeResult
  discard_parts e l o url parts pres =
      let (e', err) = z.discard e l o in
      elim err [
        | other_error ↦ (e', none)
        | not_exist ↦ (z.remove e' l o parts, some (set_result url false pres))
        | no_error ↦ (z.remove e' l o parts, some (set_result url true pres))
      ]

  -- An object that has parts is discarded.
  unfoldable pub purge_parts : E → L → O → Text → List ℕ → PurgeResult → E × Option PurgeResult
  purge_parts e l o url [] pres = (e, some pres)
  purge_parts e l o url (p ∷ parts) pres = discard_parts e l o url (p ∷ parts) pres

  -- A location's object. A location without a zone is a nil pointer that is read, a panic.
  unfoldable pub purge_object : E → L → Text → PurgeResult → E × Option PurgeResult
  purge_object e l url pres =
      let o = z.object_for_url l url in
      let (e', parts, err) = z.get_available_parts e l o in
      let purged : E × Option PurgeResult = elim err [
        | other_error ↦ (e', none)
        | not_exist ↦ purge_parts e' l o url parts pres
        | no_error ↦ purge_parts e' l o url parts pres
      ] in
      if z.has_zone l then purged else (e, none)

  -- A round of the loop of purgeAll; `none` is an error or a panic.
  unfoldable pub purge_one : E → Text → PurgeResult → E × Option PurgeResult
  purge_one e url pres =
      let pres' = set_result url false pres in
      elim (z.parse url) [
        | none ↦ (e, some pres')
        | some (host, path) ↦ elim (z.get_location_for host path) [
          | none ↦ (e, some pres')
          | some l ↦ purge_object e l url pres'
        ]
      ]

  unfoldable pub purge_loop : List Text → E → PurgeResult → E × Option PurgeResult
  purge_loop [] e pres = (e, some pres)
  purge_loop (url ∷ urls) e pres =
      let (e', r) = purge_one e url pres in
      elim r [ none ↦ (e', none) | some pres' ↦ purge_loop urls e' pres' ]

  -- purgeAll
  unfoldable pub purge_all : List Text → E → E × Option PurgeResult
  purge_all urls e = purge_loop urls e []

  -- GetExpirationHandler: the callback for an object; its errors are logged only.
  unfoldable pub expiration_handler : L → O → E → E
  expiration_handler l o e =
      let (e', parts, err) = z.get_available_parts e l o in
      (z.discard (z.remove e' l o parts) l o).0
