-- ===== src/Raft/Log.antt =====
-- internal/cluster/raft/log.go, with persistLocked and the address lookup of node.go.
-- A log read out of range is a panic, `none`.
use pubsub_broker.Base.{
  ℕ, zero, suc, ◌+◌, ◌-◌, Bool, true, false, Option, none, some, List, [], ◌∷◌, ◌++◌, String, ◌>>=◌,
  if◌then◌else◌, ltb, leb, ◌==◌, nat_comparable, string_comparable, length, get_elem?, take, ◌&&◌,
}
use pubsub_broker.Base.Maps.{lookup}
use pubsub_broker.Raft.State.{LogEntry, Node, Message, save}

-- persistLocked: an error is logged and otherwise ignored.
unfoldable pub persist : Node → Node
persist n = record n { store = (save n.store n.state).0 }

-- peerAddr: a peer with no entry is its own address.
unfoldable pub peer_addr : Node → String → String
peer_addr n id = elim n.peer_addr_map [
  | none ↦ id
  | some addrs ↦ elim (lookup id addrs) [ none ↦ id | some addr ↦ addr ]
]

-- `if addr != "" { transport.SendRaft(addr, msg) }`
unfoldable pub send_to : Node → String → Message → List (String × Message)
send_to n id msg = if peer_addr n id == "" then [] else (peer_addr n id, msg) ∷ []

-- lastLogIndexAndTermLocked
unfoldable pub last_log_index_and_term : List LogEntry → ℕ × ℕ
last_log_index_and_term [] = (0, 0)
last_log_index_and_term (e ∷ []) = (e.index, e.term)
last_log_index_and_term (e ∷ f ∷ log) = last_log_index_and_term (f ∷ log)

-- `for ci > 1 && Log[ci-2].Term == ct { ci-- }`
unfoldable pub conflict_start : List LogEntry → ℕ → ℕ → Option ℕ
conflict_start log ct zero = some zero
conflict_start log ct (suc zero) = some (suc zero)
conflict_start log ct (suc (suc k)) = elim (get_elem? log k) [
  | none ↦ none
  | some e ↦ elim (e.term == ct) [
    | true ↦ conflict_start log ct (suc k)
    | false ↦ some (suc (suc k))
  ]
]

-- The loop over the new entries; `idx` is the 1-based index of the first of them.
unfoldable pub store_entries : List LogEntry → ℕ → List LogEntry → Option (List LogEntry)
store_entries log idx [] = some log
store_entries log idx (e ∷ es) =
    let rest = store_entries log (idx + 1) es in
    if ltb (length log) idx then some (log ++ e ∷ es) else (do
      existing ← get_elem? log (idx - 1)
      if existing.term == e.term then rest else some (take (idx - 1) log ++ e ∷ es))

abbrev pub with_log : Node → List LogEntry → Node
with_log n log = record n { state = record (n.state) { log = log } }

-- What appendEntriesFromLeader returns.
pub record AppendResult : Type 0 where
  pub node : Node
  pub success : Bool
  pub conflict_index : ℕ
  pub conflict_term : ℕ

-- The second half: the entries are stored and the state is persisted.
unfoldable pub accept_entries : Node → ℕ → List LogEntry → Option AppendResult
accept_entries n prev_index entries = do
  log' ← store_entries n.state.log (prev_index + 1) entries
  some (record {
    node = persist (with_log n log');
    success = true;
    conflict_index = 0;
    conflict_term = 0;
  })

-- appendEntriesFromLeader
unfoldable pub append_entries_from_leader : Node → ℕ → ℕ → List LogEntry → Option AppendResult
append_entries_from_leader n prev_index prev_term entries =
    if ltb (length n.state.log) prev_index
    then some (record {
      node = n;
      success = false;
      conflict_index = length n.state.log + 1;
      conflict_term = 0;
    })
    else if ltb 0 prev_index
    then (do
      entry ← get_elem? n.state.log (prev_index - 1)
      if entry.term == prev_term then accept_entries n prev_index entries else (do
        ci ← conflict_start n.state.log entry.term prev_index
        some (record {
          node = n;
          success = false;
          conflict_index = ci;
          conflict_term = entry.term;
        })))
    else accept_entries n prev_index entries

-- TruncateLogFrom and truncateLogFrom
unfoldable pub truncate_log_from : Node → ℕ → Node
truncate_log_from n index =
    if ltb 0 index && leb index (length n.state.log)
    then persist (with_log n (take (index - 1) n.state.log))
    else n
