-- ===== src/Raft/State.antt =====
-- internal/cluster/raft: state.go, rpc.go, store.go and the fields of Node in node.go.
use pubsub_broker.Base.{ℕ, Bool, true, false, Option, none, some, List, [], String, if◌then◌else◌}
use pubsub_broker.Base.Maps.{Map}

pub data Role : Type 0 where
  follower candidate leader : Role

abbrev pub is_leader : Role → Bool
is_leader leader = true
is_leader _ = false

abbrev pub is_candidate : Role → Bool
is_candidate candidate = true
is_candidate _ = false

-- An opaque command is a sequence of bytes.
abbrev pub Command : Type 0
Command = List ℕ

pub record LogEntry : Type 0 where
  pub term : ℕ  -- uint64
  pub index : ℕ  -- uint64, 1-based
  pub command : Command

pub record PersistentState : Type 0 where
  pub current_term : ℕ  -- uint64
  pub voted_for : String
  pub log : List LogEntry

pub record RequestVoteArgs : Type 0 where
  pub term : ℕ
  pub candidate_id : String
  pub last_log_index : ℕ
  pub last_log_term : ℕ

pub record RequestVoteReply : Type 0 where
  pub term : ℕ
  pub vote_granted : Bool

pub record AppendEntriesArgs : Type 0 where
  pub term : ℕ
  pub leader_id : String
  pub prev_log_index : ℕ
  pub prev_log_term : ℕ
  pub entries : List LogEntry
  pub leader_commit : ℕ

pub record AppendEntriesReply : Type 0 where
  pub term : ℕ
  pub success : Bool
  pub match_index : ℕ
  pub conflict_index : ℕ
  pub conflict_term : ℕ

-- A message with its sender. The Type byte and the JSON body of a RaftMessage are one constructor:
-- `unreadable` is a body that json.Unmarshal refuses, or an unknown type. No handler reads the
-- Term field of the envelope.
pub data Message : Type 0 where
  request_vote : String → RequestVoteArgs → Message
  vote_response : String → RequestVoteReply → Message
  append_entries : String → AppendEntriesArgs → Message
  append_response : String → AppendEntriesReply → Message
  unreadable : Message

-- Which calls of the operating system succeed while a state is saved or loaded.
pub record Io : Type 0 where
  pub create_temp : Bool
  pub marshal : Bool
  pub write : Bool
  pub sync : Bool
  pub close : Bool
  pub rename : Bool
  pub read : Bool
  pub unmarshal : Bool

pub data StoreError : Type 0 where
  create_temp_failed marshal_failed write_failed sync_failed : StoreError
  close_failed rename_failed read_failed unmarshal_failed : StoreError

-- The state file, `none` while it does not exist. It stands for the state that its JSON encodes.
pub record Store : Type 0 where
  pub file : Option PersistentState
  pub io : Io

abbrev pub zero_state : PersistentState
zero_state = record { current_term = 0; voted_for = ""; log = [] }

-- Save: the file changes in the last step only, the rename.
unfoldable pub save : Store → PersistentState → Store × Option StoreError
save s st =
    if s.io.create_temp
    then if s.io.marshal
      then if s.io.write
        then if s.io.sync
          then if s.io.close
            then if s.io.rename
              then (record s { file = some st }, none)
              else (s, some rename_failed)
            else (s, some close_failed)
          else (s, some sync_failed)
        else (s, some write_failed)
      else (s, some marshal_failed)
    else (s, some create_temp_failed)

pub data Loaded : Type 0 where
  loaded : PersistentState → Loaded
  load_error : StoreError → Loaded

-- Load: a file that does not exist reads as the zero state.
unfoldable pub load : Store → Loaded
load s = elim s.file [
  | none ↦ loaded zero_state
  | some st ↦
      if s.io.read
      then if s.io.unmarshal then loaded st else load_error unmarshal_failed
      else load_error read_failed
]

pub record Node : Type 0 where
  pub self_id : String
  pub peers : List String
  pub store : Store
  pub has_apply : Bool
  pub state : PersistentState
  pub role : Role
  pub commit_index : ℕ
  pub last_applied : ℕ
  pub leader_id : String
  pub leader_known : Bool
  pub next_index : Map String ℕ
  pub match_index : Map String ℕ
  pub vote_granted : Map String Bool
  -- The keys of `proposals`: the indices whose Propose call still waits on its channel.
  pub proposals : List ℕ
  -- The channels that were sent to, and those that were closed.
  pub notified : List ℕ
  pub rejected : List ℕ
  -- The commands that were handed to `apply`, in order.
  pub applied : List Command
  -- `peerAddrMap`, `none` for nil.
  pub peer_addr_map : Option (Map String String)

-- What a handler leaves: the node, the messages sent with their addresses, and whether the
-- election timer is reset.
pub record Outcome : Type 0 where
  pub node : Node
  pub sent : List (String × Message)
  pub reset : Bool
