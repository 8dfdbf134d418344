-- ===== src/Repository/Credentials.antt =====
-- frp-backend/internal/repository/repository.go: the query on credentials.
use ashan_frp.Base.{String}
use ashan_frp.Base.{◌==◌, string_eq}
use ashan_frp.Domain.Credential.{UpstreamCredential, zero_credential}
use ashan_frp.Repository.{Table, Lookup, or_zero}

unfoldable pub find_credential_by_provider :
    {S : Type 0} → Table S UpstreamCredential → String → S → Lookup UpstreamCredential
find_credential_by_provider T provider s =
    or_zero zero_credential (T.first (λ c. c.provider == provider) s)
