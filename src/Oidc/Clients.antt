-- ===== src/Oidc/Clients.antt =====
-- allauth/idp/oidc/internal/clientkit.py: clients and users by their identifiers.
use django_allauth.Prelude.{Option, none, some, lookup, if◌then◌else◌, Text, text_eq, not}
use django_allauth.Oidc.Models.{Client, is_public}
use django_allauth.Oidc.Context.{User, Provider}

module _ (p : Provider) where
  unfoldable pub lookup_client : Text → Option Client
  lookup_client client_id =
      let client = lookup client_id p.clients in
      if not p.settings.cimd_enabled then client else p.cimd_lookup_client client_id client

  abbrev pub if_public : Option Client → Option Client
  if_public none = none
  if_public (some client) = if not (is_public client.type) then none else some client

  unfoldable pub lookup_public_client : Text → Option Client
  unfolding lookup_client
  lookup_public_client client_id = if_public (lookup_client client_id)

  abbrev active_only : Option User → Option User
  active_only none = none
  active_only (some user) = if not user.is_active then none else some user

  -- `get_user_sub`, by which a client knows a user.
  abbrev pub get_user_sub : User → Text
  get_user_sub user = user.pk

  unfoldable pub get_user_by_sub : Text → Option User
  get_user_by_sub sub = active_only (lookup sub p.users)
