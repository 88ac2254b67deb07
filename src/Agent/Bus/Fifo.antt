-- ===== src/Agent/Bus/Fifo.antt =====
-- The order of messages on the bus of packages/agent/src/local-bus.ts.
use mathlib.Core.List.{append-nil, append_assoc}
use agentdir_open_agents.Base.{
  ◌≡◌, refl, sym, ap, ◌∙◌, String, Bool, true, false, Option, none, some, List, [], ◌∷◌, ◌++◌,
  Bool-cases, Option-cases, inl, inr, ◌==◌, eq_iff,
}
use agentdir_open_agents.Js.Map
use agentdir_open_agents.Js.Map.{get-set, has-get}
use agentdir_open_agents.Agent.Bus.{Message, Buses, connect, send, recv_once, shifted}

-- What the clients of the process do.
pub data Event : Type 0 where
  joins : String → Event
  sends : String → String → String → Event
  receives : String → Event

unfoldable pub happens : Event → Buses → Option Message × Buses
happens (joins pubkey) buses = (none, connect pubkey buses)
happens (sends from to body) buses = (none, (send from to body buses).1)
happens (receives pubkey) buses = recv_once pubkey buses

abbrev pub only_if : Bool → List Message → List Message
only_if true ms = ms
only_if false ms = []

abbrev pub list_of : Option Message → List Message
list_of none = []
list_of (some m) = m ∷ []

module _ (key : String) where
  -- What the client of the key gets by an event, and what the event sends to it.
  abbrev pub got_by : Event → Option Message → List Message
  got_by (joins pubkey) o = []
  got_by (sends from to body) o = []
  got_by (receives pubkey) o = only_if (pubkey == key) (list_of o)

  abbrev pub sent_by : Event → List Message
  sent_by (joins pubkey) = []
  sent_by (sends from to body) = only_if (to == key) (record { from = from; body = body } ∷ [])
  sent_by (receives pubkey) = []

  unfoldable pub received : List Event → Buses → List Message × Buses
  unfolding happens
  received [] buses = ([], buses)
  received (e ∷ es) buses =
      let (o, next) = happens e buses in
      let (later, last) = received es next in (got_by e o ++ later, last)

  abbrev pub sent_to : List Event → List Message
  sent_to [] = []
  sent_to (e ∷ es) = sent_by e ++ sent_to es

  -- The event moves messages of the key's inbox only from its front to the client and from the sender
  -- to its end.
  abbrev Moved : List Message → Event → Option Message × Buses → Type 0
  Moved queue e (o, next) =
      (queue' : List Message) × (Map.get key next ≡ some queue')
      × (got_by e o ++ queue' ≡ queue ++ sent_by e)

  connect-Moved :
      (pubkey : String) (buses : Buses) (queue : List Message)
      → Map.get key buses ≡ some queue
      → Moved queue (joins pubkey) (none, connect pubkey buses)
  unfolding connect
  connect-Moved pubkey buses queue h = elim (Bool-cases (Map.has pubkey buses)) [
    | inl there ↦ (queue, rw there h, sym (append-nil queue))
    | inr missing ↦ elim (Bool-cases (pubkey == key)) [
      | inl same ↦
          let lost = has-get pubkey buses missing in
          let own = (eq_iff pubkey key).0 same in cc (rw own at lost)
      | inr other ↦
          (queue, rw missing (rw (get-set pubkey key [] buses, other) h), sym (append-nil queue))
    ]
  ]

  send-Moved :
      (from to body : String) (buses : Buses) (queue : List Message)
      → Map.get key buses ≡ some queue
      → Moved queue (sends from to body) (none, (send from to body buses).1)
  unfolding send
  send-Moved from to body buses queue h = elim (Bool-cases (to == key)) [
    | inl same ↦
        let own : Map.get to buses ≡ some queue = rw ((eq_iff to key).0 same) h in
        (
          queue ++ record { from = from; body = body } ∷ [],
          rw (own, get-set to key (queue ++ record { from = from; body = body } ∷ []) buses, same)
              refl,
          rw same refl,
        )
    | inr other ↦ elim (Option-cases (Map.get to buses)) [
      | inl missing ↦ (queue, rw missing h, rw other (sym (append-nil queue)))
      | inr (q, there) ↦ (
        queue,
        rw (there, get-set to key (q ++ record { from = from; body = body } ∷ []) buses, other) h,
        rw other (sym (append-nil queue)),
      )
    ]
  ]

  receive-Moved :
      (pubkey : String) (buses : Buses) (queue : List Message)
      → Map.get key buses ≡ some queue
      → Moved queue (receives pubkey) (recv_once pubkey buses)
  unfolding recv_once
  receive-Moved pubkey buses queue h = elim (Bool-cases (pubkey == key)) [
    | inl same ↦
        let own : Map.get pubkey buses ≡ some queue = rw ((eq_iff pubkey key).0 same) h in
        rw own (from_own pubkey buses queue same own)
    | inr other ↦ elim (Option-cases (Map.get pubkey buses)) [
      | inl missing ↦ rw missing (queue, h, rw other (sym (append-nil queue)))
      | inr (q, there) ↦ rw there (from_other pubkey buses q queue other h)
    ]
  ]
    where
      from_own :
          (pubkey : String) (buses : Buses) (queue : List Message)
          → (pubkey == key) ≡ true
          → Map.get pubkey buses ≡ some queue
          → Moved queue (receives pubkey) (shifted pubkey (some queue) buses)
      from_own pubkey buses [] same own = ([], rw (← (eq_iff pubkey key).0 same) own, rw same refl)
      from_own pubkey buses (m ∷ queue) same own = (
        queue,
        rw (get-set pubkey key queue buses, same) refl,
        rw same (ap (λ q. m ∷ q) (sym (append-nil queue))),
      )

      from_other :
          (pubkey : String) (buses : Buses) (q queue : List Message)
          → (pubkey == key) ≡ false
          → Map.get key buses ≡ some queue
          → Moved queue (receives pubkey) (shifted pubkey (some q) buses)
      from_other pubkey buses [] queue other h = (queue, h, rw other (sym (append-nil queue)))
      from_other pubkey buses (m ∷ q) queue other h =
          (queue, rw (get-set pubkey key q buses, other) h, rw other (sym (append-nil queue)))

  happens-Moved :
      (e : Event) (buses : Buses) (queue : List Message)
      → Map.get key buses ≡ some queue
      → Moved queue e (happens e buses)
  unfolding happens
  happens-Moved (joins pubkey) buses queue h = connect-Moved pubkey buses queue h
  happens-Moved (sends from to body) buses queue h = send-Moved from to body buses queue h
  happens-Moved (receives pubkey) buses queue h = receive-Moved pubkey buses queue h

  -- However the clients of the process send and receive, what the client of a key with an inbox
  -- receives, and then what is left in its inbox, is what the inbox held at the beginning and then what
  -- was sent to the key, in that order: no message is lost, doubled or overtaken.
  pub received-sent_to :
      (es : List Event) (buses : Buses) (queue : List Message)
      → Map.get key buses ≡ some queue
      → (left : List Message) × (Map.get key (received es buses).1 ≡ some left)
        × ((received es buses).0 ++ left ≡ queue ++ sent_to es)
  unfolding received
  received-sent_to [] buses queue h = (queue, h, sym (append-nil queue))
  received-sent_to (e ∷ es) buses queue h =
      let (next_queue, here, moved) = happens-Moved e buses queue h in
      let (left, last, rest) = received-sent_to es (happens e buses).1 next_queue here in
      (
        left,
        last,
        append_assoc (got_by e (happens e buses).0) (received es (happens e buses).1).0 left
            ∙ (ap (λ q. got_by e (happens e buses).0 ++ q) rest
                ∙ (sym (append_assoc (got_by e (happens e buses).0) next_queue (sent_to es))
                    ∙ (ap (λ q. q ++ sent_to es) moved
                        ∙ append_assoc queue (sent_by e) (sent_to es)))),
      )
