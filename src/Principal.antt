-- ===== src/Principal.antt =====
-- Authenticated identities: crates/depot-auth/src/principal.rs.
use nix_project_cache.Prelude.{Option, some}
use nix_project_cache.Prelude.Text.{Text, text}
use nix_project_cache.Json.{Members}

pub record OidcIdentity : Type 0 where
  pub issuer : Text
  pub repository : Option Text
  pub ref_name : Option Text
  pub claims : Members

pub record AccessTokenIdentity : Type 0 where
  pub token_id : Text

pub data IdentityKind : Type 0 where
  bootstrap_admin_kind : IdentityKind
  oidc_kind : OidcIdentity → IdentityKind
  access_token_kind : AccessTokenIdentity → IdentityKind

pub record AuthenticatedIdentity : Type 0 where
  pub subject : Text
  pub provider : Option Text
  pub kind : IdentityKind

abbrev pub bootstrap_admin : AuthenticatedIdentity
bootstrap_admin = record {
  subject = text "static-token";
  provider = some (text "static-token");
  kind = bootstrap_admin_kind;
}

abbrev pub oidc : Text → Text → Text → Option Text → Option Text → Members → AuthenticatedIdentity
oidc provider subject issuer repository ref_name claims = record {
  subject = subject;
  provider = some provider;
  kind =
      oidc_kind
        (record { issuer = issuer; repository = repository; ref_name = ref_name; claims = claims });
}

abbrev pub access_token : Text → Text → AuthenticatedIdentity
access_token token_id subject = record {
  subject = subject;
  provider = some (text "access-token");
  kind = access_token_kind (record { token_id = token_id });
}
