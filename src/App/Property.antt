-- ===== src/App/Property.antt =====
-- sprintapp/property.go: the kinds of properties that a key's spelling tells.
use sprintframework.Common.{Bool, ◌||◌, Bytes, codes}
use sprintframework.Strings.{has_prefix, has_suffix}

unfoldable pub is_pem_property : Bytes → Bool
is_pem_property key = has_suffix key (codes ".pem") || has_suffix key (codes ".key")

unfoldable pub is_password_property : Bytes → Bool
is_password_property key =
    has_suffix key (codes ".pwd")
    || (has_suffix key (codes ".password")
        || (has_suffix key (codes ".secret") || has_suffix key (codes ".token")))

unfoldable pub is_hidden_property : Bytes → Bool
is_hidden_property key = has_prefix key (codes ".")
