-- ===== src/Actions/Claims/Fair.antt =====
-- model.go: which row a claim takes, and what a claim does to it.
use agentnexus.Base.{String, Bool, not, ◌&&◌, Option, List, Dict}
use mathlib.Core.List.{Memᴰ}
use agentnexus.Runtime.Types.{Time}
use agentnexus.Actions.Model.{Dispatch}
use agentnexus.Actions.Claims.{eligible, no_older}

module _ (tenant_ref : String) (at : Time) (visited : List String) (claims : Dict Bool) where
  abbrev takes : Option Dispatch → String → Dispatch → Bool
  takes best key e = eligible tenant_ref at visited claims key e && not (no_older best e)
