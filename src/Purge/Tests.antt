-- ===== src/Purge/Tests.antt =====
-- A purge of two URLs, one of them of no location.
use nedomi.Prelude.{◌≡◌, refl, Bool, true, false, none, some, [], ◌∷◌, if◌then◌else◌}
use nedomi.Ranges.Strings.{is_empty}
use nedomi.Disk.Names.{text_eq}
use nedomi.Purge.Results.{set_result}
use nedomi.Purge.{
  no_error, Zones, PurgeResult, purge_all, purge_loop, purge_one, purge_object, purge_parts,
  discard_parts,
}
use nedomi.Purge.Purged.{IsRemoving}
use nedomi.Purge.Gone.{IsResult, purge_all-IsResult}

-- One location with one object, which has one part until it is discarded.
abbrev zones : Zones Bool Bool Bool
zones = record {
  parse = λ t. some (t, t);
  get_location_for = λ h p. if is_empty h then none else some true;
  has_zone = λ l. true;
  object_for_url = λ l t. true;
  get_available_parts = λ e l o. (e, if e then 1 ∷ [] else [], no_error);
  discard = λ e l o. (false, no_error);
  remove = λ e l o parts. e;
}

zones-IsRemoving : IsRemoving zones (λ e l o. e ≡ false)
zones-IsRemoving = record {
  discarded = λ e l o h. refl;
  by_parts = λ e l o l' o' h. h;
  by_discard = λ e l o l' o' h. refl;
  by_remove = λ e l o l' o' parts h. h;
}

abbrev purged : PurgeResult
purged = (97 ∷ [], true) ∷ ([], false) ∷ []

answered : (purge_all zones ((97 ∷ []) ∷ [] ∷ []) true).1 ≡ some purged
unfolding purge_all purge_loop purge_one purge_object purge_parts discard_parts set_result text_eq
answered = refl

purge_all-IsResult_example :
    IsResult zones
      (λ e l o. e ≡ false)
      zones-IsRemoving
      ((97 ∷ []) ∷ [] ∷ [])
      []
      (purge_all zones ((97 ∷ []) ∷ [] ∷ []) true).0
      purged
purge_all-IsResult_example =
    purge_all-IsResult zones (λ e l o. e ≡ false) zones-IsRemoving ((97 ∷ []) ∷ [] ∷ []) true purged
      answered
