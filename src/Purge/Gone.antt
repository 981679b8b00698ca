-- ===== src/Purge/Gone.antt =====
-- What is reported as purged is gone.
use nedomi.Prelude.{
  Bool-cases, ℕ, ◌≡◌, ◌≢◌, ◌⊎◌, refl, Bool, true, false, Option, none, some, List, [], ◌∷◌,
  Option-cases, inl, inr, subst,
}
use mathlib.Core.Option.{some-injective}
use nedomi.Ranges.Strings.{Text}
use nedomi.Purge.Results.{result_of, set_result, Keeps, set_result-Keeps, result_of-set_result_same}
use nedomi.Purge.Purged.{IsRemoving, IsPurged, AllPurged, kept_gone, set_false, set_true}
use nedomi.Purge.{
  CallError, no_error, not_exist, other_error, Zones, PurgeResult, discard_parts, purge_parts,
  purge_object, purge_one, purge_loop, purge_all,
}

CallError-cases : (err : CallError) → (err ≡ other_error) ⊎ ((err ≡ not_exist) ⊎ (err ≡ no_error))
CallError-cases no_error = inr (inr refl)
CallError-cases not_exist = inr (inl refl)
CallError-cases other_error = inl refl

-- A URL is in a list.
pub data Requested (url : Text) : List Text → Type 0 where
  first : (urls : List Text) → Requested url (url ∷ urls)
  next : (u : Text) (urls : List Text) → Requested url urls → Requested url (u ∷ urls)

module _ {E L O : Type 0} (z : Zones E L O) (Gone : E → L → O → Type 0)
    (laws : IsRemoving z Gone) where
  -- How a round ends: on an error, or with results that are true.
  data IsRound (url : Text) (pres : PurgeResult) : E × Option PurgeResult → Type 0 where
    on_error : (e : E) → IsRound url pres (e, none)
    on_result :
        (e : E) (pres' : PurgeResult)
        → AllPurged z Gone e pres'
        → result_of url pres' ≢ none
        → Keeps pres pres'
        → IsRound url pres (e, some pres')

  module _ (url host path : Text) (l : L) (parsed : z.parse url ≡ some (host, path))
      (located : z.get_location_for host path ≡ some l) where
    discard_parts-IsRound :
        (e : E) (parts : List ℕ) (pres : PurgeResult)
        → AllPurged z Gone e pres
        → IsRound url pres (discard_parts z e l (z.object_for_url l url) url parts pres)
    unfolding discard_parts
    discard_parts-IsRound e parts pres all =
        let o = z.object_for_url l url in
        let d = z.discard e l o in
        let after : AllPurged z Gone (z.remove d.0 l o parts) pres =
          kept_gone z Gone e (z.remove d.0 l o parts) pres
            (λ l' o' g. laws.by_remove d.0 l' o' l o parts (laws.by_discard e l' o' l o g)) all in
        let here : (b : Bool) → result_of url (set_result url b pres) ≢ none =
          λ b n. absurd (cc (n, result_of-set_result_same url b pres)) in
        (elim (CallError-cases d.1) [
          | inl p ↦ rw (p, discard_parts) (on_error d.0)
          | inr (inl p) ↦
              rw (p, discard_parts)
                (on_result _ _ (set_false z Gone _ url pres after) (here false)
                  (set_result-Keeps url false pres))
          | inr (inr p) ↦
              let purged : IsPurged z Gone (z.remove d.0 l o parts) url = record {
                host = host;
                path = path;
                location = l;
                parsed = parsed;
                located = located;
                gone = laws.by_remove d.0 l o l o parts (laws.discarded e l o p);
              } in
              rw (p, discard_parts)
                (on_result _ _ (set_true z Gone _ url pres purged after) (here true)
                  (set_result-Keeps url true pres))
        ])

    purge_parts-IsRound :
        (e : E) (parts : List ℕ) (pres : PurgeResult)
        → AllPurged z Gone e pres
        → result_of url pres ≢ none
        → IsRound url pres (purge_parts z e l (z.object_for_url l url) url parts pres)
    unfolding purge_parts
    purge_parts-IsRound e [] pres all here = on_result e pres all here (λ v h. h)
    purge_parts-IsRound e (p ∷ parts) pres all here = discard_parts-IsRound e (p ∷ parts) pres all

    purge_object-IsRound :
        (e : E) (pres : PurgeResult)
        → AllPurged z Gone e pres
        → result_of url pres ≢ none
        → IsRound url pres (purge_object z e l url pres)
    unfolding purge_object
    purge_object-IsRound e pres all here =
        let o = z.object_for_url l url in
        let g = z.get_available_parts e l o in
        let after : AllPurged z Gone g.0 pres =
          kept_gone z Gone e g.0 pres (λ l' o' h. laws.by_parts e l' o' l o h) all in
        (elim (Bool-cases (z.has_zone l)) [
          | inr t ↦ rw (t, purge_object) (on_error e)
          | inl t ↦ elim (CallError-cases g.2) [
            | inl p ↦ rw (t, p, purge_object) (on_error g.0)
            | inr (inl p) ↦ rw (t, p, purge_object) (purge_parts-IsRound g.0 g.1 pres after here)
            | inr (inr p) ↦ rw (t, p, purge_object) (purge_parts-IsRound g.0 g.1 pres after here)
          ]
        ])

  -- The first results of a round count as none of another URL.
  widen :
      (url : Text) (pres pres' : PurgeResult) (r : E × Option PurgeResult)
      → Keeps pres pres'
      → IsRound url pres' r
      → IsRound url pres r
  widen url pres pres' _ k (on_error e) = on_error e
  widen url pres pres' _ k (on_result e q all here k') =
      on_result e q all here (λ v h. k' v (k v h))

  purge_one-IsRound :
      (e : E) (url : Text) (pres : PurgeResult)
      → AllPurged z Gone e pres
      → IsRound url pres (purge_one z e url pres)
  unfolding purge_one
  purge_one-IsRound e url pres all =
      let pres' = set_result url false pres in
      let all' = set_false z Gone e url pres all in
      let keeps = set_result-Keeps url false pres in
      let here : result_of url pres' ≢ none =
        λ n. absurd (cc (n, result_of-set_result_same url false pres)) in
      elim (Option-cases (z.parse url)) [
        | inl p ↦ rw (p, purge_one) (on_result e pres' all' here keeps)
        | inr (hp, p) ↦ elim (Option-cases (z.get_location_for hp.0 hp.1)) [
          | inl q ↦ rw (p, q, purge_one) (on_result e pres' all' here keeps)
          | inr (l, q) ↦
              rw (p, q, purge_one)
                (widen url pres pres' _ keeps
                  (purge_object-IsRound url hp.0 hp.1 l p q e pres' all' here))
        ]
      ]

  -- Every URL of the list has a result, and those that had one.
  pub record IsResult (urls : List Text) (before : PurgeResult) (e : E) (pres : PurgeResult)
      : Type 0 where
    pub purged : AllPurged z Gone e pres
    pub listed : (url : Text) → Requested url urls → result_of url pres ≢ none
    pub keeps : Keeps before pres

  IsRound-some :
      (url : Text) (before : PurgeResult) (r : E × Option PurgeResult) (pres : PurgeResult)
      → IsRound url before r
      → r.1 ≡ some pres
      → AllPurged z Gone r.0 pres × (result_of url pres ≢ none) × Keeps before pres
  IsRound-some url before _ pres (on_error e) h = absurd (cc h)
  IsRound-some url before _ pres (on_result e q all here keeps) h =
      let same : q ≡ pres = some-injective _ _ h in
      (
        subst (AllPurged z Gone e) same all,
        subst (λ x. result_of url x ≢ none) same here,
        λ v n. subst (λ x. result_of v x ≢ none) same (keeps v n),
      )

  listed_too :
      (url : Text) (urls : List Text) (pres : PurgeResult)
      → result_of url pres ≢ none
      → ((v : Text) → Requested v urls → result_of v pres ≢ none)
      → (v : Text) → Requested v (url ∷ urls)
      → result_of v pres ≢ none
  listed_too url urls pres here rest v (first _) = here
  listed_too url urls pres here rest v (next _ _ r) = rest v r

  purge_loop-IsResult :
      (urls : List Text) (e : E) (before pres : PurgeResult)
      → AllPurged z Gone e before
      → (purge_loop z urls e before).1 ≡ some pres
      → IsResult urls before (purge_loop z urls e before).0 pres
  unfolding purge_loop
  purge_loop-IsResult [] e before pres all = λ h.
      let same : before ≡ pres = some-injective _ _ h in
      record {
        purged = subst (AllPurged z Gone e) same all;
        listed = λ url r. elim r [ ];
        keeps = λ v n. subst (λ q. result_of v q ≢ none) same n;
      }
  purge_loop-IsResult (url ∷ urls) e before pres all =
      let r = purge_one z e url before in
      let round = purge_one-IsRound e url before all in
      elim (Option-cases r.1) [
        | inl p ↦ rw (p, purge_loop) (λ h. absurd (cc h))
        | inr (q, p) ↦
            let facts = IsRound-some url before r q round p in
            rw (p, purge_loop)
              (λ h.
                let rest = purge_loop-IsResult urls r.0 q pres facts.0 h in
                record {
                  purged = rest.purged;
                  listed = listed_too url urls pres (rest.keeps url facts.1) rest.listed;
                  keeps = λ v n. rest.keeps v (facts.2 v n);
                })
      ]

-- A storage in which a discard without an error takes the object out for good: if purgeAll returns
-- results, each URL of the request has one, and every URL with the result true is one of a location,
-- whose storage has nothing left of the object when purgeAll returns.
pub purge_all-IsResult :
    {E L O : Type 0} (z : Zones E L O) (Gone : E → L → O → Type 0) (laws : IsRemoving z Gone)
    (urls : List Text) (e : E) (pres : PurgeResult)
    → (purge_all z urls e).1 ≡ some pres
    → IsResult z Gone laws urls [] (purge_all z urls e).0 pres
unfolding purge_all result_of
purge_all-IsResult z Gone laws urls e pres =
    purge_loop-IsResult z Gone laws urls e [] pres (λ url t. absurd (cc t))
