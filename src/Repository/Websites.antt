-- ===== src/Repository/Websites.antt =====
-- frp-backend/internal/repository/repository.go: the queries on website mappings. The fields that are
-- kept as JSON are read back as they were written.
use ashan_frp.Base.{ltb, String, Bool, true, not, ◌&&◌, Option, none, some, List, if◌then◌else◌}
use ashan_frp.Base.{◌==◌, string_eq}
use ashan_frp.Domain.Website.{WebsiteMapping}
use ashan_frp.Repository.{Table, Lookup, or_nil}
use ashan_frp.Repository.Jobs.{asked}

pub record WebsiteMappingFilter : Type 0 where
  pub node_id : String
  pub status : String
  pub https_enabled : Option Bool

abbrev same_flag : Option Bool → Bool → Bool
same_flag none b = true
same_flag (some a) b = if a then b else not b

abbrev pub matches : WebsiteMappingFilter → WebsiteMapping → Bool
matches f w =
    asked f.node_id w.node_id
    && asked f.status w.status
    && same_flag f.https_enabled w.https_enabled

-- `updated_at DESC`.
abbrev pub newer : WebsiteMapping → WebsiteMapping → Bool
newer a b = ltb b.updated_at a.updated_at

module _ {S : Type 0} (T : Table S WebsiteMapping) where
  unfoldable pub find_website_mapping_by_id : String → S → Lookup WebsiteMapping
  find_website_mapping_by_id id s = or_nil (T.first (λ w. w.id == id) s)

  unfoldable pub list_website_mappings : WebsiteMappingFilter → S → Option (List WebsiteMapping)
  list_website_mappings f s = T.find (matches f) newer none s
