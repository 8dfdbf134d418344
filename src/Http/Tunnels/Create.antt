-- ===== src/Http/Tunnels/Create.antt =====
-- What a request to create a tunnel comes to.
use ashan_frp.Base.{String, ◌≡◌, refl, Option, none, some, ◌⊎◌, inl, inr, string_eq}
use ashan_frp.Domain.Tunnel.{Tunnel, TunnelInput}
use ashan_frp.Domain.Job.{Job}
use ashan_frp.Domain.Account.{Account, AuditLog}
use ashan_frp.Repository.{Table, or_zero}
use ashan_frp.Repository.Tunnels.{find_tunnel_by_domain}
use ashan_frp.Http.Request.{Request, Reply}
use ashan_frp.Http.Response.{refuse}
use ashan_frp.Http.Tunnels.{create_tunnel, create_unless}

module _ {S : Type 0} (tunnels : Table S Tunnel) (jobs : Table S Job) (accounts : Table S Account)
    (audits : Table S AuditLog) (c : Request) (base_domain id : String) where
  -- The answer to a request that is refused.
  abbrev pub IsRefused : S → Reply S Tunnel → Type 0
  IsRefused s r =
      (r.db ≡ s)
      × (r.body ≡ none)
      × ((r.response ≡ refuse 400 "INVALID_REQUEST") ⊎ (r.response ≡ refuse 409 "DUPLICATE_DOMAIN"))

  create_unless-or_zero :
      (zero : Tunnel) (found : Option Tunnel) (i : TunnelInput) (s : S)
      → IsRefused s (
          create_unless tunnels jobs accounts audits c
            (or_zero zero found).pointer
            base_domain
            id
            i
            s)
  unfolding create_unless
  create_unless-or_zero zero none i s = (refl, refl, inr refl)
  create_unless-or_zero zero (some t) i s = (refl, refl, inr refl)

  -- `find_tunnel_by_domain` gives a pointer, the zero tunnel's, also where it finds nothing. So a
  -- request to create a tunnel is answered by 400, or by 409 as if its domain were taken, whatever
  -- the database holds, and changes nothing: no tunnel is ever created.
  pub create_tunnel-IsRefused :
      (input : Option TunnelInput) (s : S)
      → IsRefused s (create_tunnel tunnels jobs accounts audits c base_domain id input s)
  unfolding create_tunnel find_tunnel_by_domain
  create_tunnel-IsRefused none s = (refl, refl, inl refl)
  create_tunnel-IsRefused (some i) s = create_unless-or_zero _ (tunnels.first _ s) i s
