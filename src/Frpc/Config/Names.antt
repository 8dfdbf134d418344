-- ===== src/Frpc/Config/Names.antt =====
-- The names that `proxyName` builds for the proxies.
use Prim.Native.Char.{Char, code}
use Prim.Native.String.{String, [], ◌∷◌}
use ashan_frp.Base.{ℕ, ◌≡◌, refl, true, false, arith, Bool-cases, inl, inr}
use ashan_frp.Base.{string_eq, nat_beq}
use ashan_frp.Base.Text.{replace_char, lacks}
use ashan_frp.Domain.Tunnel.{Tunnel}
use ashan_frp.Frpc.Config.{proxy_name}

lacks-replace_char :
    (n : ℕ) (c : Char) (s : String)
    → nat_beq (code c) n ≡ false
    → lacks n (replace_char n c s) ≡ true
unfolding replace_char
lacks-replace_char n c [] h = refl
lacks-replace_char n c (d ∷ s) h = elim (Bool-cases (nat_beq (code d) n)) [
  | inl e ↦ rw (e, h) (lacks-replace_char n c s h)
  | inr e ↦ rw (e, e) (lacks-replace_char n c s h)
]

lacks-replace_char_other :
    (n m : ℕ) (c : Char) (s : String)
    → nat_beq (code c) n ≡ false
    → lacks n s ≡ true
    → lacks n (replace_char m c s) ≡ true
unfolding replace_char
lacks-replace_char_other n m c [] h k = refl
lacks-replace_char_other n m c (d ∷ s) h k = elim (Bool-cases (nat_beq (code d) m)) [
  | inl e ↦ rw (e, h) (lacks-replace_char_other n m c s h (ground arith))
  | inr e ↦ rw e (ground (arith, lacks-replace_char_other n m c s h))
]

-- A proxy's name holds neither a space nor a dot.
pub proxy_name_safe :
    (t : Tunnel) → (lacks b' ' (proxy_name t) ≡ true) × (lacks b'.' (proxy_name t) ≡ true)
unfolding proxy_name
proxy_name_safe t = (
  lacks-replace_char_other b' ' b'.' _ _ refl (lacks-replace_char b' ' _ _ refl),
  lacks-replace_char b'.' _ _ refl,
)
