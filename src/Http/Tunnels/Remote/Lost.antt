-- ===== src/Http/Tunnels/Remote/Lost.antt =====
-- What a synchronisation with ChmlFrp changes of the tunnels.
use ashan_frp.Base.{
  ℕ, suc, String, ◌≡◌, ◌≢◌, refl, sym, ap, ◌∙◌, Bool, true, false, Option, none, some, List, [],
  ◌∷◌, Bool-cases, eq_iff, some_inj, inl, inr, ◌⊎◌, arith,
}
use ashan_frp.Base.{◌==◌, string_eq}
use mathlib.Core.Path.{subst}
use ashan_frp.Base.Result.{Result, ok, failed}
use ashan_frp.Base.Text.{trim_space}
use ashan_frp.Domain.Tunnel.{Tunnel, zero_tunnel}
use ashan_frp.Domain.Job.{Job}
use ashan_frp.Domain.Account.{Account, AuditLog}
use ashan_frp.Domain.Credential.{UpstreamCredential, secret_token}
use ashan_frp.Domain.Remote.{ChmlFrpTunnel, get_name}
use ashan_frp.Repository.{Table, IsTable, IsApart, or_zero, success}
use ashan_frp.Repository.Credentials.{find_credential_by_provider}
use ashan_frp.Repository.Tunnels.{find_tunnel_by_name}
use ashan_frp.Worker.Failover.Kept.{stamp_tunnel}
use ashan_frp.Http.Request.{Request}
use ashan_frp.Http.Tunnels.{audit}
use ashan_frp.Http.Tunnels.Remote.{
  merged, import_one, import_all, finish_import, on_list, on_secret, on_credential, sync_chmlfrp,
}

module _ {S : Type 0} (tunnels : Table S Tunnel) (jobs : Table S Job) (accounts : Table S Account)
    (audits : Table S AuditLog) (c : Request) where
  -- A row that differs from another at most in the node, the names at ChmlFrp, the address, the
  -- ports, the domain and the protocol, which ChmlFrp lists, and in the times of the database.
  abbrev pub IsSame : Tunnel → Tunnel → Type 0
  IsSame a b = b ≡ record a {
    chmlfrp_node = b.chmlfrp_node;
    chmlfrp_tunnel_name = b.chmlfrp_tunnel_name;
    local_ip = b.local_ip;
    local_port = b.local_port;
    remote_port = b.remote_port;
    full_domain = b.full_domain;
    protocol = b.protocol;
    created_at = b.created_at;
    updated_at = b.updated_at;
  }

  -- A row with an identifier was there before.
  abbrev pub IsImported : S → S → Type 0
  IsImported s s' =
      (k : String) (b : Tunnel)
      → k ≢ ""
      → tunnels.row k s' ≡ some b
      → (a : Tunnel) × (tunnels.row k s ≡ some a) × IsSame a b

  IsSame-refl : (a : Tunnel) → IsSame a a
  IsSame-refl a = refl

  IsSame-trans : (a b d : Tunnel) → IsSame a b → IsSame b d → IsSame a d
  IsSame-trans a b d e f =
      f
      ∙ ap {A = Tunnel} {B = Tunnel}
          (λ x. record x {
            chmlfrp_node = d.chmlfrp_node;
            chmlfrp_tunnel_name = d.chmlfrp_tunnel_name;
            local_ip = d.local_ip;
            local_port = d.local_port;
            remote_port = d.remote_port;
            full_domain = d.full_domain;
            protocol = d.protocol;
            created_at = d.created_at;
            updated_at = d.updated_at;
          })
          e

  unchanged-IsImported :
      (s s' : S) → ((k : String) → tunnels.row k s' ≡ tunnels.row k s) → IsImported s s'
  unchanged-IsImported s s' same k b named at = (b, sym (same k) ∙ at, IsSame-refl b)

  IsImported-trans : (s s1 s2 : S) → IsImported s s1 → IsImported s1 s2 → IsImported s s2
  IsImported-trans s s1 s2 f g k d named at =
      let (b, here, same) = g k d named at in
      let (a, before, was) = f k b named here in (a, before, IsSame-trans a b d was same)

  module _ (law : IsTable tunnels (λ t. t.id) stamp_tunnel) where
    stored-IsSame :
        (r : ChmlFrpTunnel) (t b : Tunnel) (s s1 : S)
        → tunnels.row t.id s ≡ some t
        → tunnels.save (merged r t) s ≡ (s1, true)
        → tunnels.row t.id s1 ≡ some b
        → IsSame t b
    unfolding merged
    stored-IsSame r t b s s1 here e at =
        let (created, updated, stored) = law.save_stored (merged r t) s (ap (λ x. x.1) e) in
        let new = stamp_tunnel created updated (merged r t) in
        let same : IsSame t new = refl in
        subst (IsSame t) (some_inj (sym stored ∙ ap (λ x. tunnels.row t.id x.0) e ∙ at)) same

    saved-IsImported :
        (r : ChmlFrpTunnel) (t : Tunnel) (s : S) (x : S × Bool)
        → (t.id ≡ "") ⊎ (tunnels.row t.id s ≡ some t)
        → tunnels.save (merged r t) s ≡ x
        → IsImported s x.0
    unfolding merged
    saved-IsImported r t s (s1, false) origin e k b named at = (
      b,
      sym (law.save_failed (merged r t) s k (ap (λ x. x.1) e)) ∙ ap (λ x. tunnels.row k x.0) e ∙ at,
      IsSame-refl b,
    )
    saved-IsImported r t s (s1, true) (inl bare) e k b named at = (
      b,
      sym (law.save_other (merged r t) s k (λ same. named (same ∙ bare)))
          ∙ ap (λ x. tunnels.row k x.0) e
          ∙ at,
      IsSame-refl b,
    )
    saved-IsImported r t s (s1, true) (inr here) e k b named at = elim (Bool-cases (k == t.id)) [
      | inl own ↦
          let same = (eq_iff k t.id).0 own in
          (
            t,
            ap (λ i. tunnels.row i s) same ∙ here,
            stored-IsSame r t b s s1 here e (ap (λ i. tunnels.row i s1) (sym same) ∙ at),
          )
      | inr other ↦ (
        b,
        sym (law.save_other (merged r t) s k (λ same. ground (arith, same, other, eq_iff k t.id)))
            ∙ ap (λ x. tunnels.row k x.0) e
            ∙ at,
        IsSame-refl b,
      )
    ]

    import_one-IsImported :
        (id : String) (r : ChmlFrpTunnel) (o : Option Tunnel) (s : S)
        → ((t : Tunnel) → o ≡ some t → tunnels.row t.id s ≡ some t)
        → IsImported s
            (import_one tunnels jobs accounts audits c id r (or_zero zero_tunnel o).pointer s)
    unfolding import_one
    import_one-IsImported id r none s sound = saved-IsImported r zero_tunnel s _ (inl refl) refl
    import_one-IsImported id r (some t) s sound = saved-IsImported r t s _ (inr (sound t refl)) refl

    import_all-IsImported :
        (ids : ℕ → String) (n : ℕ) (rs : List ChmlFrpTunnel) (s : S)
        → IsImported s (import_all tunnels jobs accounts audits c ids n rs s).0
    unfolding import_all find_tunnel_by_name
    import_all-IsImported ids n [] s = unchanged-IsImported s s (λ k. refl)
    import_all-IsImported ids n (r ∷ rs) s = elim (Bool-cases (trim_space (get_name r) == "")) [
      | inl bare ↦ rw bare (import_all-IsImported ids n rs s)
      | inr named ↦ rw named (
          IsImported-trans s _ _
            (import_one-IsImported (ids n) r _ s (λ t e. (law.first_sound _ s t e).1))
            (import_all-IsImported ids (suc n) rs _))
    ]

    module _ (apart : IsApart audits tunnels) (credentials : Table S UpstreamCredential)
        (decrypt : String → Option String) (password : String → Option String)
        (list : String → Result (List ChmlFrpTunnel)) where
      on_list-IsImported :
          (ids : ℕ → String) (r : Result (List ChmlFrpTunnel)) (s : S)
          → IsImported s
              (on_list tunnels jobs accounts audits c credentials decrypt password list ids r s).db
      unfolding on_list finish_import audit
      on_list-IsImported ids (failed e) s = unchanged-IsImported s s (λ k. refl)
      on_list-IsImported ids (ok rs) s =
          IsImported-trans s _ _ (import_all-IsImported ids 0 rs s)
            (unchanged-IsImported _ _ (λ k. apart.create_apart _ _ k))

      on_secret-IsImported :
          (ids : ℕ → String) (o : Option String) (s : S)
          → IsImported s
              (on_secret tunnels jobs accounts audits c credentials decrypt password list ids o
                s).db
      unfolding on_secret
      on_secret-IsImported ids none s = unchanged-IsImported s s (λ k. refl)
      on_secret-IsImported ids (some secret) s =
          elim (Bool-cases (secret_token decrypt password (some secret) == "")) [
            | inl bare ↦ rw bare (unchanged-IsImported s s (λ k. refl))
            | inr given ↦ rw given (on_list-IsImported ids _ s)
          ]

      on_credential-IsImported :
          (ids : ℕ → String) (o : Option UpstreamCredential) (s : S)
          → IsImported s
              (on_credential tunnels jobs accounts audits c credentials decrypt password list ids o
                s).db
      unfolding on_credential
      on_credential-IsImported ids none s = unchanged-IsImported s s (λ k. refl)
      on_credential-IsImported ids (some cred) s = elim (Bool-cases (cred.encrypted_secret == "")) [
        | inl bare ↦ rw bare (unchanged-IsImported s s (λ k. refl))
        | inr given ↦ rw given (on_secret-IsImported ids _ s)
      ]

      -- A synchronisation with ChmlFrp adds no tunnel that has an identifier: each such row that it
      -- leaves was there before, and differs from what it was at most in the node, the name at ChmlFrp,
      -- the local address, the two ports, the domain, the protocol and the times of the database. The
      -- assumptions are those on the table of the tunnels, and that the audit entries are a table of
      -- their own.
      pub sync_chmlfrp-IsSame :
          (ids : ℕ → String) (s : S) (k : String) (b : Tunnel)
          → k ≢ ""
          → tunnels.row k
              (sync_chmlfrp tunnels jobs accounts audits c credentials decrypt password list ids
                s).db
            ≡ some b
          → (a : Tunnel) × (tunnels.row k s ≡ some a) × IsSame a b
      unfolding sync_chmlfrp
      sync_chmlfrp-IsSame ids s =
          on_credential-IsImported ids
            (success (find_credential_by_provider credentials "chmlfrp" s)) s
