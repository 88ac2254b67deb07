-- ===== src/Examples/Bus.antt =====
-- Two clients on the local bus.
use agentdir_open_agents.Base.{◌≡◌, refl, some, List, [], ◌∷◌, ◌++◌}
use agentdir_open_agents.Js.Map
use agentdir_open_agents.Agent.Bus.{Message, Buses}
use agentdir_open_agents.Agent.Bus.Fifo.{
  Event, joins, sends, receives, received, sent_to, received-sent_to,
}

abbrev joined : Buses
joined = ("bb", []) ∷ []

abbrev talk : List Event
talk = joins "aa" ∷ sends "aa" "bb" "1" ∷ sends "aa" "bb" "2" ∷ receives "bb" ∷ []

bb_has_inbox : Map.get "bb" joined ≡ some []
unfolding Map.get
bb_has_inbox = refl

received-sent_to_example :
    (left : List Message) × (Map.get "bb" (received "bb" talk joined).1 ≡ some left)
    × ((received "bb" talk joined).0 ++ left ≡ [] ++ sent_to "bb" talk)
received-sent_to_example = received-sent_to "bb" talk joined [] bb_has_inbox
