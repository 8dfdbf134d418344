-- ===== src/Http/Tunnels/Patch.antt =====
-- What a change of a tunnel comes to.
use ashan_frp.Base.{String, ◌≡◌, refl, Bool, true, false, arith, ◌||◌}
use ashan_frp.Base.{string_eq, if◌then◌else◌}
use ashan_frp.Domain.Tunnel.{Tunnel, TunnelInput}
use ashan_frp.Http.Tunnels.{patch_tunnel, or_text}

or_text_swap_idem : (a b : String) → or_text (or_text a b) b ≡ or_text a b
or_text_swap_idem a b = ground arith

if_idem {ℓ} :
    {A : Type ℓ} (c : Bool) (x y : A)
    → (if c then x else (if c then x else y)) ≡ (if c then x else y)
if_idem true x y = refl
if_idem false x y = refl

-- The guard of the second change sees what the first one saw.
if_same {ℓ} :
    {A : Type ℓ} (c : Bool) (x y : A)
    → (if c then (if c then y else x) else x) ≡ (if c then y else x)
if_same true x y = refl
if_same false x y = refl

or_idem : (a b : Bool) → (a || (a || b)) ≡ (a || b)
or_idem true b = refl
or_idem false b = refl

-- The same change twice is the change once.
pub patch_tunnel_idem :
    (base_domain : String) (i : TunnelInput) (t : Tunnel)
    → patch_tunnel base_domain i (patch_tunnel base_domain i t) ≡ patch_tunnel base_domain i t
unfolding patch_tunnel
patch_tunnel_idem base_domain i t = simp (if_same, or_text_swap_idem, if_idem, or_idem)
