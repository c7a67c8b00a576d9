-- ===== src/Net/Connections/Table.antt =====
-- The table of connections of net/connection_manager.rs while connections come, send and go.
use chrono_shift.Prelude.{
  ℕ, ◌≡◌, sym, ap, ◌∙◌, Bool, true, false, ◌&&◌, Option, none, some, List, [], ◌∷◌, ◌++◌, length,
  ok, err, leb, ◌==◌, if◌then◌else◌, arith, All, Bool-cases, Option-cases, inl, inr,
}
use chrono_shift.Prelude.Keys.{Bytes, bytes_eq, ◌=?◌, =?_iff}
use chrono_shift.Prelude.Dict.{lookup, lookup-insert, lookup-remove}
use chrono_shift.Net.Message.{PeerMessage}
use chrono_shift.Net.Connections.{
  ConnectionManager, PeerWriter, send_to, open_connection, remove_connection,
}

-- What the tasks do to the table: a handshake ends, a half of a connection ends, a message is queued.
pub data TableEvent : Type 0 where
  opened : (uid key_hex : Bytes) (authenticated : Bool) → TableEvent
  cleaned : (uid : Bytes) (conn_id : ℕ) → TableEvent
  sent : (uid : Bytes) (msg : PeerMessage) → TableEvent

-- The id of the connection that messages to this uid take.
abbrev pub id_of : Option PeerWriter → Option ℕ
id_of none = none
id_of (some w) = some w.conn_id

abbrev pub connection_to : Bytes → ConnectionManager → Option ℕ
connection_to uid cm = id_of (lookup uid cm.active_connections)

-- The event is neither a new connection to this peer nor the end of this one.
abbrev pub Spares : Bytes → ℕ → TableEvent → Type 0
Spares uid id (TableEvent.opened v key_hex authenticated) = (v =? uid) ≡ false
Spares uid id (TableEvent.cleaned v conn_id) = ((v =? uid) && conn_id == id) ≡ false
Spares uid id (TableEvent.sent v msg) = Unit

keep :
    (uid : Bytes) (conn_id : ℕ) (cm : ConnectionManager) (v : Bytes) (id : ℕ) (w : PeerWriter)
    → connection_to v cm ≡ some id
    → ((uid =? v) && conn_id == id) ≡ false
    → lookup uid cm.active_connections ≡ some w
    → (w.conn_id == conn_id) ≡ true
    → id_of (if uid =? v then none else lookup v cm.active_connections) ≡ some id
keep uid conn_id cm v id w there other present same = elim (Bool-cases (uid =? v)) [
  | inr apart ↦ rw apart there
  | inl mine ↦
      let key = (=?_iff uid v).0 mine in
      let is_id : some w.conn_id ≡ some id =
        sym (ap id_of (sym (ap (λ k. lookup k cm.active_connections) key) ∙ present)) ∙ there in
      absurd (ground arith)
]

-- The two halves of a connection both clean up; the entry of another connection stays.
pub connection_to-remove_connection :
    (uid : Bytes) (conn_id : ℕ) (cm : ConnectionManager) (v : Bytes) (id : ℕ)
    → connection_to v cm ≡ some id
    → ((uid =? v) && conn_id == id) ≡ false
    → connection_to v (remove_connection uid conn_id cm) ≡ some id
unfolding remove_connection
connection_to-remove_connection uid conn_id cm v id there other =
    elim (Option-cases (lookup uid cm.active_connections)) [
      | inl absent ↦ rw (remove_connection, absent) there
      | inr (w, present) ↦ elim (Bool-cases (w.conn_id == conn_id)) [
        | inr newer ↦ rw (remove_connection, present, newer) there
        | inl same ↦
            rw (remove_connection, present, same)
              (ap id_of (lookup-remove uid v cm.active_connections)
                ∙ keep uid conn_id cm v id w there other present same)
      ]
    ]

requeued :
    (v uid : Bytes) (id : ℕ) (cm : ConnectionManager) (w : PeerWriter) (queue : List Bytes)
    → connection_to uid cm ≡ some id
    → lookup v cm.active_connections ≡ some w
    → id_of
        (if v =? uid then some (record w { queue = queue }) else lookup uid cm.active_connections)
      ≡ some id
requeued v uid id cm w queue there present = elim (Bool-cases (v =? uid)) [
  | inr apart ↦ rw apart there
  | inl mine ↦ rw mine (
      sym (
        ap id_of (sym (ap (λ k. lookup k cm.active_connections) ((=?_iff v uid).0 mine)) ∙ present))
      ∙ there)
]

module _ (to_json : PeerMessage → Bytes) where
  unfoldable pub table_step : TableEvent → ConnectionManager → ConnectionManager
  table_step (TableEvent.opened uid key_hex authenticated) cm =
      (open_connection uid key_hex authenticated cm).0
  table_step (TableEvent.cleaned uid conn_id) cm = remove_connection uid conn_id cm
  table_step (TableEvent.sent uid msg) cm = elim (send_to to_json uid msg cm) [
    | ok cm' ↦ cm'
    | err e ↦ cm
  ]

  unfoldable pub table_run : List TableEvent → ConnectionManager → ConnectionManager
  table_run [] cm = cm
  table_run (e ∷ es) cm = table_run es (table_step e cm)

  connection_to-sent :
      (v : Bytes) (msg : PeerMessage) (uid : Bytes) (id : ℕ) (cm : ConnectionManager)
      → connection_to uid cm ≡ some id
      → connection_to uid (table_step (TableEvent.sent v msg) cm) ≡ some id
  unfolding table_step send_to
  connection_to-sent v msg uid id cm there = elim (Option-cases (lookup v cm.active_connections)) [
    | inl absent ↦ rw (table_step, send_to, absent) there
    | inr (w, present) ↦ elim (Bool-cases (leb 64 (length w.queue))) [
      | inl full ↦ rw (table_step, send_to, present, full) there
      | inr room ↦
          rw (table_step, send_to, present, room)
            (ap id_of (
                lookup-insert v uid (record w { queue = w.queue ++ to_json msg ∷ [] })
                  cm.active_connections)
              ∙ requeued v uid id cm w (w.queue ++ to_json msg ∷ []) there present)
    ]
  ]

  connection_to-opened :
      (v key_hex : Bytes) (authenticated : Bool) (uid : Bytes) (id : ℕ) (cm : ConnectionManager)
      → connection_to uid cm ≡ some id
      → (v =? uid) ≡ false
      → connection_to uid (table_step (TableEvent.opened v key_hex authenticated) cm) ≡ some id
  unfolding table_step open_connection
  connection_to-opened v key_hex authenticated uid id cm there apart =
      ap id_of (
        lookup-insert v uid (record { queue = []; conn_id = cm.next_conn_id })
          cm.active_connections)
      ∙ rw apart there

  -- A connection keeps its entry, so that messages reach it, through whatever the other tasks do in
  -- between: until it is cleaned up itself, or a newer one to the same peer takes its place.
  pub table_run-Spares :
      (es : List TableEvent) (uid : Bytes) (id : ℕ) (cm : ConnectionManager)
      → connection_to uid cm ≡ some id
      → All (Spares uid id) es
      → connection_to uid (table_run es cm) ≡ some id
  unfolding table_run table_step
  table_run-Spares [] uid id cm there spared = there
  table_run-Spares (TableEvent.opened v key_hex authenticated ∷ es) uid id cm there spared =
      table_run-Spares es uid id _
        (connection_to-opened v key_hex authenticated uid id cm there spared.0) spared.1
  table_run-Spares (TableEvent.cleaned v conn_id ∷ es) uid id cm there spared =
      table_run-Spares es uid id _
        (connection_to-remove_connection v conn_id cm uid id there spared.0) spared.1
  table_run-Spares (TableEvent.sent v msg ∷ es) uid id cm there spared =
      table_run-Spares es uid id _ (connection_to-sent v msg uid id cm there) spared.1
