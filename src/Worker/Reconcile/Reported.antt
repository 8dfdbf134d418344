-- ===== src/Worker/Reconcile/Reported.antt =====
-- What a reconciliation reports.
use mathlib.Core.Path.{subst}
use ashan_frp.Base.{
  leb, String, ◌≡◌, refl, sym, ap, Bool, true, false, ◌&&◌, Option, List, [], ◌∷◌, ◌++◌, All, arith,
  eq_iff,
}
use ashan_frp.Base.{◌==◌, string_eq, Bool-cases, inl, inr}
use ashan_frp.Base.Result.{Result, ok, failed}
use ashan_frp.Base.Text.{bytes, take_bytes, bytes-take_bytes}
use ashan_frp.Domain.Tunnel.{Tunnel}
use ashan_frp.Domain.Job.{Job}
use ashan_frp.Domain.Credential.{UpstreamCredential}
use ashan_frp.Base.{IsIn, All-IsIn, ◌≢◌, ◌⊎◌, none, some}
use ashan_frp.Repository.{Table}
use ashan_frp.Repository.Tunnels.{list_tunnels}
use ashan_frp.Repository.Credentials.{find_credential_by_provider}
use ashan_frp.Chmlfrp.{RemoteTunnel}
use ashan_frp.Cloudflare.Client.{DnsRecord}
use ashan_frp.Worker.Queue.{Event}
use ashan_frp.Worker.Reconcile.{
  Diff, orphaned_chmlfrp, orphaned_cf, Report, has_domain, is_orphan, chmlfrp_diffs,
  cloudflare_diffs, asked_with, asked_service, all_tunnels, or_empty, reported, announce, reconcile,
}

tag-bytes : bytes "[ashan-frp]" ≡ 11
unfolding bytes
tag-bytes = refl

take_bytes-tag : (s : String) → (take_bytes 10 s == "[ashan-frp]") ≡ false
take_bytes-tag s = elim (Bool-cases (take_bytes 10 s == "[ashan-frp]")) [
  | inl e ↦
      let same = ap bytes ((eq_iff (take_bytes 10 s) "[ashan-frp]").0 e) in
      let short = bytes-take_bytes 10 s in absurd (ground (arith, same, short, tag-bytes))
  | inr e ↦ e
]

and_false : (a c : Bool) → (a && false && c) ≡ false
and_false true c = refl
and_false false c = refl

is_orphan-false : (ts : List Tunnel) (r : RemoteTunnel) → is_orphan ts r ≡ false
unfolding is_orphan
is_orphan-false ts r = rw (take_bytes-tag r.name) (and_false (leb 10 (bytes r.name)) _)

chmlfrp_diffs-empty : (ts : List Tunnel) (rs : List RemoteTunnel) → chmlfrp_diffs ts rs ≡ []
unfolding chmlfrp_diffs
chmlfrp_diffs-empty ts [] = refl
chmlfrp_diffs-empty ts (r ∷ rs) = rw (is_orphan-false ts r) (chmlfrp_diffs-empty ts rs)

-- None of the tunnels has this domain, which is not empty.
abbrev pub IsAbsent : String → List Tunnel → Type 0
IsAbsent name ts = All (λ t. (t.full_domain ≢ name) ⊎ (t.full_domain ≡ "")) ts

-- One of the records at Cloudflare whose name is the domain of no tunnel.
abbrev pub IsStray : List Tunnel → List DnsRecord → Diff → Type 0
IsStray ts ds (orphaned_chmlfrp name id) = ⊥
IsStray ts ds (orphaned_cf name id) =
    (d : DnsRecord) × IsIn d ds × (d.name ≡ name) × (d.id ≡ id) × IsAbsent name ts

has_domain-IsAbsent :
    (name : String) (ts : List Tunnel) → has_domain name ts ≡ false → IsAbsent name ts
unfolding has_domain
has_domain-IsAbsent name [] h = tt
has_domain-IsAbsent name (t ∷ ts) h = elim (Bool-cases (t.full_domain == "")) [
  | inl bare ↦ (inr ((eq_iff t.full_domain "").0 bare), has_domain-IsAbsent name ts (rw bare at h))
  | inr full ↦ elim (Bool-cases (t.full_domain == name)) [
    | inl same ↦ absurd (cc (rw (full, same) at h))
    | inr other ↦ (
      inl (λ e. ground (arith, e, other, eq_iff t.full_domain name)),
      has_domain-IsAbsent name ts (rw (full, other) at h),
    )
  ]
]

cloudflare_diffs-IsStray :
    (ts : List Tunnel) (all ds : List DnsRecord)
    → All (λ d. IsIn d all) ds
    → All (IsStray ts all) (cloudflare_diffs ts ds)
unfolding cloudflare_diffs
cloudflare_diffs-IsStray ts all [] h = tt
cloudflare_diffs-IsStray ts all (d ∷ ds) (here, h) = elim (Bool-cases (has_domain d.name ts)) [
  | inl known ↦ rw known (cloudflare_diffs-IsStray ts all ds h)
  | inr stray ↦ rw stray (
    (d, here, refl, refl, has_domain-IsAbsent d.name ts stray),
    cloudflare_diffs-IsStray ts all ds h,
  )
]

module _ {S : Type 0} (tunnels : Table S Tunnel) (credentials : Table S UpstreamCredential)
    (decrypt : String → Option String)
    (get_tunnels : UpstreamCredential → String → Result (List RemoteTunnel))
    (find_records_by_tag : UpstreamCredential → String → Result (List DnsRecord)) where
  -- The tunnels of the database, none where they cannot be listed.
  abbrev pub AreTunnels : S → List Tunnel → Type 0
  AreTunnels s ts =
      (list_tunnels tunnels all_tunnels s ≡ some ts)
      ⊎ (list_tunnels tunnels all_tunnels s ≡ none) × (ts ≡ [])

  -- What Cloudflare answers for the credential of the database, none where it has no secret.
  abbrev pub AreRecords : S → List DnsRecord → Type 0
  AreRecords s ds =
      (ds ≡ [])
      ⊎ ((cf : UpstreamCredential) × (secret : String) × ((find_credential_by_provider credentials
              "cloudflare" s).pointer
            ≡ some cf)
          × (decrypt cf.encrypted_secret ≡ some secret)
          × (find_records_by_tag cf secret ≡ ok ds))

  -- A report lists some of these records, which are the domain of none of these tunnels.
  abbrev pub IsStrayReport : S → Result Report → Type 0
  IsStrayReport s (failed e) = Unit
  IsStrayReport s (ok r) =
      (ts : List Tunnel) × (ds : List DnsRecord) × AreTunnels s ts
      × AreRecords s ds
      × All (IsStray ts ds) r.items

  or_empty-AreTunnels :
      (s : S) (o : Option (List Tunnel))
      → list_tunnels tunnels all_tunnels s ≡ o
      → AreTunnels s (or_empty o)
  or_empty-AreTunnels s none e = inr (e, refl)
  or_empty-AreTunnels s (some ts) e = inl e

  asked_with-AreRecords :
      (s : S) (cf : UpstreamCredential) (o : Option String) (ds : List DnsRecord)
      → (find_credential_by_provider credentials "cloudflare" s).pointer ≡ some cf
      → decrypt cf.encrypted_secret ≡ o
      → asked_with tunnels credentials decrypt get_tunnels find_records_by_tag "cloudflare"
          find_records_by_tag cf o
        ≡ ok ds
      → AreRecords s ds
  unfolding asked_with
  asked_with-AreRecords s cf none ds at opened h = cc
  asked_with-AreRecords s cf (some secret) ds at opened h = inr (cf, secret, at, opened, h)

  ok-same : {A : Type 0} {x y : A} → ok x ≡ ok y → x ≡ y
  ok-same e = cc

  asked_service-AreRecords :
      (s : S) (o : Option UpstreamCredential) (ds : List DnsRecord)
      → (find_credential_by_provider credentials "cloudflare" s).pointer ≡ o
      → asked_service tunnels credentials decrypt get_tunnels find_records_by_tag "cloudflare"
          find_records_by_tag o
        ≡ ok ds
      → AreRecords s ds
  unfolding asked_service
  asked_service-AreRecords s none ds at h = inl (sym (ok-same h))
  asked_service-AreRecords s (some cf) ds at h = elim (Bool-cases (cf.encrypted_secret == "")) [
    | inl bare ↦ inl (sym (ok-same (rw bare at h)))
    | inr full ↦ asked_with-AreRecords s cf (decrypt cf.encrypted_secret) ds at refl (rw full at h)
  ]

  reported-IsStrayReport :
      (s : S) (ts : List Tunnel) (rs : Result (List RemoteTunnel)) (ds : Result (List DnsRecord))
      → AreTunnels s ts
      → ((all : List DnsRecord) → ds ≡ ok all → AreRecords s all)
      → IsStrayReport s
          (reported tunnels credentials decrypt get_tunnels find_records_by_tag ts rs ds)
  unfolding reported
  reported-IsStrayReport s ts (failed e) ds listed given = tt
  reported-IsStrayReport s ts (ok rs) (failed e) listed given = tt
  reported-IsStrayReport s ts (ok rs) (ok ds) listed given = (
    ts,
    ds,
    listed,
    given ds refl,
    subst (λ xs. All (IsStray ts ds) (xs ++ cloudflare_diffs ts ds))
        (sym (chmlfrp_diffs-empty ts rs)) (cloudflare_diffs-IsStray ts ds ds (All-IsIn ds)),
  )

  announce-IsStrayReport :
      (job : Job) (s : S) (r : Result Report) (events : List Event)
      → IsStrayReport s r
      → IsStrayReport s
          (announce tunnels credentials decrypt get_tunnels find_records_by_tag job r events).1
  unfolding announce
  announce-IsStrayReport job s (failed e) events h = tt
  announce-IsStrayReport job s (ok r) events h = h

  -- A reconciliation that succeeds lists only records that Cloudflare has answered for the credential
  -- of the database, and only those whose name is the domain of none of the tunnels of the database,
  -- where these can be listed; where they cannot, any of the records. No tunnel at ChmlFrp is ever
  -- listed, whatever its name: ten bytes of the name are compared with a text of eleven.
  pub reconcile-IsStrayReport :
      (job : Job) (s : S) (events : List Event)
      → IsStrayReport s
          (reconcile tunnels credentials decrypt get_tunnels find_records_by_tag job s events).1
  unfolding reconcile
  reconcile-IsStrayReport job s events = announce-IsStrayReport job s _ events (
      reported-IsStrayReport s (or_empty (list_tunnels tunnels all_tunnels s)) _ _
        (or_empty-AreTunnels s (list_tunnels tunnels all_tunnels s) refl)
        (λ all e.
          asked_service-AreRecords s
            (find_credential_by_provider credentials "cloudflare" s).pointer all refl e))
