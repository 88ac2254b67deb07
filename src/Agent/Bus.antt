-- ===== src/Agent/Bus.antt =====
-- packages/agent/src/local-bus.ts: a bus within one process. The map of the module is the state, from
-- a public key to the queue of its inbox. Bodies are texts.
pub mod Fifo
use Prim.Native.String.{◌++◌ as append}
use agentdir_open_agents.Base.{
  String, Bool, true, false, not, Option, none, some, List, [], ◌∷◌, ◌++◌, if◌then◌else◌,
}
use agentdir_open_agents.Js.Map
use agentdir_open_agents.Js.Map.{Map}
use agentdir_open_agents.Js.Result.{Result, ok, throw}

pub record Message : Type 0 where
  pub from : String
  pub body : String

abbrev pub Buses : Type 0
Buses = Map (List Message)

unfoldable pub reset_local_bus : Buses → Buses
reset_local_bus buses = []

-- The constructor of a client.
unfoldable pub connect : String → Buses → Buses
connect pubkey buses = if not (Map.has pubkey buses) then Map.set pubkey [] buses else buses

abbrev pub delivered :
    String → String → String → Option (List Message) → Buses → Result {0} Unit × Buses
delivered from to body none buses = (throw (append "local-bus: no inbox for " to), buses)
delivered from to body (some queue) buses =
    (ok tt, Map.set to (queue ++ record { from = from; body = body } ∷ []) buses)

unfoldable pub send : String → String → String → Buses → Result {0} Unit × Buses
send from to body buses = delivered from to body (Map.get to buses) buses

abbrev pub shifted : String → Option (List Message) → Buses → Option Message × Buses
shifted pubkey none buses = (none, buses)
shifted pubkey (some []) buses = (none, buses)
shifted pubkey (some (m ∷ queue)) buses = (some m, Map.set pubkey queue buses)

unfoldable pub recv_once : String → Buses → Option Message × Buses
recv_once pubkey buses = shifted pubkey (Map.get pubkey buses) buses
