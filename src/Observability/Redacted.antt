-- ===== src/Observability/Redacted.antt =====
-- What never reaches the log.
use Prim.Native.String.{[], ◌∷◌}
use ashan_frp.Base.{
  ℕ, ◌<>◌, ◌-◌, ◌≤◌, ◌≡◌, refl, String, false, arith, eq_iff, ◌⊎◌, inl, inr, leb, nat_beq,
}
use ashan_frp.Base.{string_eq, Bool-cases}
use ashan_frp.Base.Text.{to_lower, contains, bytes, drop_bytes, char_bytes, trim_space}
use ashan_frp.Observability.{
  kept, names_secret, names_token, names_credential, redact_attr, token_mask,
}

-- An attribute is written with its value only if its key, in lower case, has none of the words of a
-- secret, has "token" only as `token_mask`, and has "credential" only as `credential_ref` or
-- `credential_revision`.
pub redact_attr-kept :
    (attr : String)
    → redact_attr attr ≡ kept
    → let key = to_lower attr in
      (names_secret key ≡ false)
      × ((contains key "token" ≡ false) ⊎ (key ≡ "token_mask"))
      × ((contains key "credential" ≡ false)
          ⊎ (key ≡ "credential_ref")
          ⊎ (key ≡ "credential_revision"))
unfolding redact_attr names_token names_credential
redact_attr-kept attr h = ground (
  arith,
  h,
  eq_iff (to_lower attr) "token_mask",
  eq_iff (to_lower attr) "credential_ref",
  eq_iff (to_lower attr) "credential_revision",
)

drop_bytes-short : (n : ℕ) (s : String) → bytes (drop_bytes n s) ≤ bytes s - n
unfolding drop_bytes bytes
drop_bytes-short n [] = omega arith
drop_bytes-short n (c ∷ s) = elim (Bool-cases (nat_beq n 0)) [
  | inl none_left ↦ rw none_left (ground (arith, none_left))
  | inr some_left ↦
      rw some_left (let rest = drop_bytes-short (n - char_bytes c) s in ground (arith, rest))
]

-- A mask shows at most four bytes of a secret, after four stars.
pub token_mask-short :
    (secret : String)
    → (shown : String) × (token_mask secret ≡ ("****" <> shown)) × (bytes shown ≤ 4)
unfolding token_mask bytes
token_mask-short secret = elim (Bool-cases (leb (bytes (trim_space secret)) 4)) [
  | inl short ↦ ("", rw short refl, omega arith)
  | inr long ↦ (
    drop_bytes (bytes (trim_space secret) - 4) (trim_space secret),
    rw long refl,
    (let h = drop_bytes-short (bytes (trim_space secret) - 4) (trim_space secret) in
        ground (arith, h, long)),
  )
]
