-- ===== src/Frame/Footer.antt =====
-- webapp-admin/src/components/Footer.js: the version of the server.
use identity_vault.Common.{none, some, [], ◌∷◌}
use identity_vault.Common.Value.{Value, null, prop}
use identity_vault.Http.{JsonParse, Response, parsed}
use identity_vault.Messages.{Locale}
use identity_vault.Utils.{translated}
use identity_vault.Page.{ask, Result}
use identity_vault.Resources.Vault

pub record State : Type 0 where
  pub version : Value

abbrev pub initial : State
initial = record { version = null }

unfoldable pub component_did_mount : State → Result State
unfolding Vault.version
component_did_mount s = (s, ask Vault.version ∷ [])

unfoldable pub on_version : JsonParse → Response → State → State
unfolding parsed prop
on_version parse response s = elim (parsed parse response) [
  | none ↦ s
  | some data' ↦ record s { version = prop "version" data' }
]

unfoldable pub render : Locale → State → Value × Value
render lang s = (translated lang "version", s.version)
