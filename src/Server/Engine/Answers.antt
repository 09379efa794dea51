-- ===== src/Server/Engine/Answers.antt =====
-- How `_handle_script_control` answers the requests about scripts.
use indi_engine.Base.{Option, none, some}
use indi_engine.Base.Dict.{Dict}
use indi_engine.Base.Result.{Result}
use indi_engine.Protocol.Runtime.{Runtime}
use indi_engine.Scripting.Registry
use indi_engine.Scripting.Registry.{Registry}
use indi_engine.Scripting.Runner
use indi_engine.Scripting.Runner.{Runner, new_handle}
use indi_engine.Server.Engine.{Reply, World, Engine}
use indi_engine.Server.Engine.Requests.{Effect, replied, started, runner_after}
use indi_engine.Server.Engine.Scripts
use indi_engine.Server.Engine.Scripts.{Outcome, run_script}
use indi_engine.Server.Hub.{Hub}

module _ {py : Runtime} {Params : Type 0} where
  abbrev reply_of : Effect py Params → Option (Reply py Params)
  reply_of (replied reply runs registry) = some reply
  reply_of (started name params) = none

  abbrev outcome_of : World py Params → Effect py Params → Runner Params → Outcome py Params
  outcome_of w x r = (reply_of x, runner_after w x r)
