-- ===== src/Purge/Purged.antt =====
-- Objects that are gone from a storage, and results that say so.
use nedomi.Prelude.{ℕ, ◌≡◌, ap, sym, ◌∙◌, true, false, some, List, Bool-cases, inl, inr, subst}
use nedomi.Ranges.Strings.{Text}
use nedomi.Disk.Names.{text_eq, text_eq_sound}
use nedomi.Purge.Results.{
  result_of, set_result, result_of-set_result_same, result_of-set_result_other,
}
use nedomi.Purge.{no_error, Zones, PurgeResult}

-- `Gone e l o`: the storage of a location has nothing of an object. A discard without an error has
-- that effect, and no call that the handler makes undoes it.
pub record IsRemoving {E L O : Type 0} (z : Zones E L O) (Gone : E → L → O → Type 0) : Type 0 where
  pub discarded :
      (e : E) (l : L) (o : O) → (z.discard e l o).1 ≡ no_error → Gone (z.discard e l o).0 l o
  pub by_parts :
      (e : E) (l : L) (o : O) (l' : L) (o' : O)
      → Gone e l o
      → Gone (z.get_available_parts e l' o').0 l o
  pub by_discard :
      (e : E) (l : L) (o : O) (l' : L) (o' : O) → Gone e l o → Gone (z.discard e l' o').0 l o
  pub by_remove :
      (e : E) (l : L) (o : O) (l' : L) (o' : O) (parts : List ℕ)
      → Gone e l o
      → Gone (z.remove e l' o' parts) l o

module _ {E L O : Type 0} (z : Zones E L O) (Gone : E → L → O → Type 0) where
  -- The object of a URL is gone.
  pub record IsPurged (e : E) (url : Text) : Type 0 where
    pub host : Text
    pub path : Text
    pub location : L
    pub parsed : z.parse url ≡ some (host, path)
    pub located : z.get_location_for host path ≡ some location
    pub gone : Gone e location (z.object_for_url location url)

  -- Every URL with the result true is purged.
  abbrev pub AllPurged : E → PurgeResult → Type 0
  AllPurged e pres = (url : Text) → result_of url pres ≡ some true → IsPurged e url

  pub kept_gone :
      (e e' : E) (pres : PurgeResult)
      → ((l : L) (o : O) → Gone e l o → Gone e' l o)
      → AllPurged e pres
      → AllPurged e' pres
  kept_gone e e' pres h all url t =
      let p = all url t in
      record {
        host = p.host;
        path = p.path;
        location = p.location;
        parsed = p.parsed;
        located = p.located;
        gone = h p.location (z.object_for_url p.location url) p.gone;
      }

  pub set_false :
      (e : E) (url : Text) (pres : PurgeResult)
      → AllPurged e pres
      → AllPurged e (set_result url false pres)
  set_false e url pres all v t = elim (Bool-cases (text_eq v url)) [
    | inr n ↦ all v (sym (result_of-set_result_other v url false pres n) ∙ t)
    | inl s ↦
        let same : v ≡ url = text_eq_sound v url s in
        absurd (
          cc (
            t,
            ap (λ u. result_of u (set_result url false pres)) same,
            result_of-set_result_same url false pres,
          ))
  ]

  pub set_true :
      (e : E) (url : Text) (pres : PurgeResult)
      → IsPurged e url
      → AllPurged e pres
      → AllPurged e (set_result url true pres)
  set_true e url pres p all v t = elim (Bool-cases (text_eq v url)) [
    | inr n ↦ all v (sym (result_of-set_result_other v url true pres n) ∙ t)
    | inl s ↦ subst (IsPurged e) (sym (text_eq_sound v url s)) p
  ]
