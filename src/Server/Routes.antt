-- ===== src/Server/Routes.antt =====
-- internal/server/server.go: which requests the patterns of `NewServer` are for.
pub mod Laws
pub mod Callback
use mkrepo.Base.{String, ◌≡◌, ◌↔◌, Option, some}
use mkrepo.Server.{Site, RequestInputs, chosen}
use mkrepo.Handler.{Request}
use mkrepo.Server.Mux.Pattern.Laws.{Allows}

module _ {Block Schema : Type 0} (site : Site Block Schema) (inputs : RequestInputs) where
  -- The pattern is for the method, GET also for HEAD, at this path alone.
  abbrev pub IsFor : Request → String → String → String → Type 0
  IsFor r text method path =
      (chosen site inputs r ≡ some text) ↔ (Allows method r.method × (r.path ≡ path))
