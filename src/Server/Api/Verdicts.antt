-- ===== src/Server/Api/Verdicts.antt =====
-- api.rs and harvest_shadow.rs: the verdicts of the audit over HTTP.
use Prim.Native.String.{◌++◌}
use bigtop.Common.{Option, none, some, List, String}
use bigtop.Core.Error.{not_found, persistence}
use bigtop.Server.Api.{Response, success, into_response}
use bigtop.Server.Shadow.Handle.{ShadowHandle}
use bigtop.Server.Shadow.Driver.{
  ShadowError, harvest, store, serialization, spawn, driver_hung, ShadowResult, ok, err,
}
use bigtop.Server.Shadow.Driver.Reads.{ShadowTrack}

-- `impl Display for ShadowError`
unfoldable pub show_error : ShadowError → String
show_error (harvest message) = "harvest runtime error: " ++ message
show_error (store message) = "verdict store error: " ++ message
show_error (serialization message) = "serialization error: " ++ message
show_error (spawn message) = "could not spawn shadow driver thread: " ++ message
show_error driver_hung = "shadow driver future did not resolve"

-- `shadow_verdicts`, with what `tracks` returns.
unfoldable pub shadow_verdicts :
    Option ShadowHandle → ShadowResult (List ShadowTrack) → Response (List ShadowTrack)
unfolding into_response show_error
shadow_verdicts none tracks = into_response (not_found "harvest shadow is not enabled")
shadow_verdicts (some shadow) (ok tracks) = success 200 tracks
shadow_verdicts (some shadow) (err e) =
    into_response (persistence ("shadow store: " ++ show_error e))
