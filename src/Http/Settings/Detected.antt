-- ===== src/Http/Settings/Detected.antt =====
-- Which credential and which zone of Cloudflare are taken.
use ashan_frp.Base.{
  String, ◌≡◌, refl, sym, ap, ◌∙◌, Option, none, some, ◌⊎◌, inl, inr, List, [], ◌∷◌, Bool-cases,
  eq_iff, some_inj,
}
use ashan_frp.Base.{◌==◌, string_eq}
use mathlib.Core.Path.{subst}
use ashan_frp.Domain.Settings.{CfZone}
use ashan_frp.Cloudflare.Client.{Credentials}
use ashan_frp.Base.{IsIn, at_head, in_tail, ◌≢◌, arith, if◌then◌else◌}
use ashan_frp.Cloudflare.Client.{auth_method_api_token, auth_method_global_api_key}
use ashan_frp.Base.Result.{Result, ok, failed}
use ashan_frp.Http.Settings.{zones_of, verified}
use ashan_frp.Http.Settings.{
  CloudflareVerifier, candidate_zones, detect, pick, Selection, no_zones, not_accessible, several,
  selected, find_zone, only_zone, select_zone,
}

module _ (client : Credentials → String → CloudflareVerifier) where
  -- Cloudflare accepts these credentials: a global key comes with an address, a token is verified,
  -- and the zones are listed.
  abbrev pub IsAccepted : Credentials → List CfZone → Type 0
  IsAccepted c zs =
      ((c.auth_method ≢ auth_method_global_api_key) ⊎ (c.email ≢ ""))
      × ((c.auth_method ≢ auth_method_api_token) ⊎ ((client c "").verify_token ≡ ok tt))
      × ((client c "").list_zones ≡ ok zs)

  -- A candidate that is accepted, with the zones that it can read.
  abbrev pub IsDetected : List Credentials → Credentials × List CfZone → Type 0
  IsDetected cs (c, zs) = IsIn c cs × IsAccepted c zs

  zones_of-ok : (r : Result (List CfZone)) (zs : List CfZone) → zones_of r ≡ some zs → r ≡ ok zs
  zones_of-ok (failed e) zs h = cc
  zones_of-ok (ok ys) zs h = cc

  verified-ok :
      (v : Result Unit) (r : Result (List CfZone)) (zs : List CfZone)
      → verified v r ≡ some zs
      → (v ≡ ok tt) × (r ≡ ok zs)
  verified-ok (failed e) r zs h = cc
  verified-ok (ok done) r zs h = (refl, zones_of-ok r zs h)

  method-IsAccepted :
      (c : Credentials) (zs : List CfZone)
      → (c.auth_method ≢ auth_method_global_api_key) ⊎ (c.email ≢ "")
      → (if c.auth_method == auth_method_api_token
          then verified (client c "").verify_token (client c "").list_zones
          else zones_of (client c "").list_zones)
        ≡ some zs
      → IsAccepted c zs
  method-IsAccepted c zs address h = elim (Bool-cases (c.auth_method == auth_method_api_token)) [
    | inl token ↦
        let (v, r) =
          verified-ok (client c "").verify_token (client c "").list_zones zs (rw token at h) in
        (address, inr v, r)
    | inr other ↦ (
      address,
      inl (λ e. ground (arith, e, other, eq_iff c.auth_method auth_method_api_token)),
      zones_of-ok (client c "").list_zones zs (rw other at h),
    )
  ]

  candidate_zones-IsAccepted :
      (c : Credentials) (zs : List CfZone) → candidate_zones client c ≡ some zs → IsAccepted c zs
  unfolding candidate_zones
  candidate_zones-IsAccepted c zs h =
      elim (Bool-cases (c.auth_method == auth_method_global_api_key)) [
        | inr other ↦
            method-IsAccepted c zs
              (inl (λ e. ground (arith, e, other, eq_iff c.auth_method auth_method_global_api_key)))
              (rw other at h)
        | inl key ↦ elim (Bool-cases (c.email == "")) [
          | inl bare ↦ absurd (cc (rw (key, bare) at h))
          | inr given ↦
              method-IsAccepted c zs (inr (λ e. ground (arith, e, given, eq_iff c.email "")))
                (rw (key, given) at h)
        ]
      ]

  later-IsDetected :
      (c : Credentials) (cs : List Credentials) (found : Credentials × List CfZone)
      → IsDetected cs found
      → IsDetected (c ∷ cs) found
  later-IsDetected c cs (d, zs) (here, zones) = (in_tail c cs here, zones)

  pick-IsDetected :
      (c : Credentials) (cs : List Credentials) (o : Option (List CfZone))
      (rest : Option (Credentials × List CfZone)) (found : Credentials × List CfZone)
      → candidate_zones client c ≡ o
      → ((found : Credentials × List CfZone) → rest ≡ some found → IsDetected cs found)
      → pick c o rest ≡ some found
      → IsDetected (c ∷ cs) found
  pick-IsDetected c cs none rest found zones ih e = later-IsDetected c cs found (ih found e)
  pick-IsDetected c cs (some zs) rest (d, ys) zones ih e =
      let same = some_inj e in
      (
        subst (λ x. IsIn x (c ∷ cs)) (ap (λ x. x.0) same) (at_head cs),
        candidate_zones-IsAccepted d ys (
            ap (candidate_zones client) (sym (ap (λ x. x.0) same))
            ∙ zones
            ∙ ap (λ x. some x.1) same),
      )

  pub detect-IsDetected :
      (cs : List Credentials) (found : Credentials × List CfZone)
      → detect client cs ≡ some found
      → IsDetected cs found
  unfolding detect
  detect-IsDetected [] found e = cc
  detect-IsDetected (c ∷ cs) found e =
      pick-IsDetected c cs (candidate_zones client c) (detect client cs) found refl
        (detect-IsDetected cs) e

-- A zone of the list, that is the one asked for where one is.
abbrev pub IsSelected : String → List CfZone → CfZone → Type 0
IsSelected id zs z = IsIn z zs × ((id ≡ "") ⊎ (z.id ≡ id))

pub data IsSelection (id : String) (zs : List CfZone) : Selection → Type 0 where
  refused_none : IsSelection id zs no_zones
  refused_other : IsSelection id zs not_accessible
  refused_several : IsSelection id zs several
  picked : (z : CfZone) → IsSelected id zs z → IsSelection id zs (selected z)

further :
    (id : String) (y : CfZone) (zs : List CfZone) (x : Selection)
    → IsSelection id zs x
    → IsSelection id (y ∷ zs) x
further id y zs x refused_none = refused_none
further id y zs x refused_other = refused_other
further id y zs x refused_several = refused_several
further id y zs x (picked z (here, asked)) = picked z (in_tail y zs here, asked)

find_zone-IsSelection : (id : String) (zs : List CfZone) → IsSelection id zs (find_zone id zs)
unfolding find_zone
find_zone-IsSelection id [] = refused_other
find_zone-IsSelection id (z ∷ zs) = elim (Bool-cases (z.id == id)) [
  | inl hit ↦ rw hit (picked z (at_head zs, inr ((eq_iff z.id id).0 hit)))
  | inr miss ↦ rw miss (further id z zs _ (find_zone-IsSelection id zs))
]

only_zone-IsSelection :
    (id : String) (zs : List CfZone) → id ≡ "" → IsSelection id zs (only_zone zs)
only_zone-IsSelection id [] bare = refused_none
only_zone-IsSelection id (z ∷ []) bare = picked z (at_head [], inl bare)
only_zone-IsSelection id (z ∷ y ∷ zs) bare = refused_several

pub select_zone-IsSelection :
    (id : String) (zs : List CfZone) → IsSelection id zs (select_zone id zs)
unfolding select_zone
select_zone-IsSelection id [] = refused_none
select_zone-IsSelection id (z ∷ zs) = elim (Bool-cases (id == "")) [
  | inl bare ↦ rw bare (only_zone-IsSelection id (z ∷ zs) ((eq_iff id "").0 bare))
  | inr asked ↦ rw asked (find_zone-IsSelection id (z ∷ zs))
]
