-- ===== src/Raft/Steps.antt =====
-- The event loop `run` of node.go with the calls from outside it, as a step relation: timers,
-- messages and proposals come in any order.
use pubsub_broker.Base.{ℕ, ◌≡◌, some, List, String}
use pubsub_broker.Raft.State.{Command, Message, Node, Outcome}
use pubsub_broker.Raft.Log.{truncate_log_from}
use pubsub_broker.Raft.Election.{handle_election_timeout}
use pubsub_broker.Raft.Node.{receive, heartbeat, waiting, propose}

pub data Step : Node → Node → Type 0 where
  timeout : (n : Node) → Step n (handle_election_timeout n).0
  deliver : (n : Node) (msg : Message) (o : Outcome) → receive n msg ≡ some o → Step n (o.node)
  beat : (n : Node) → Step n (heartbeat n).0
  call_propose :
      (n : Node) (cmd : Command) (i : ℕ) (n' : Node) (sent : List (String × Message))
      → propose n cmd ≡ some (waiting i n' sent)
      → Step n n'
  call_truncate : (n : Node) (index : ℕ) → Step n (truncate_log_from n index)

pub data Reach (n : Node) : Node → Type 0 where
  here : Reach n n
  next : {m m' : Node} → Reach n m → Step m m' → Reach n m'
