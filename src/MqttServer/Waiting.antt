-- ===== src/MqttServer/Waiting.antt =====
-- lib/mqtt_commands/src/MqttCommandServer.cpp: the events that wait for their stream, and the entries
-- of the server's maps.
use kinetic_mirror_matrix_es.Prelude.{
  ℕ, suc, Option, none, some, List, [], ◌∷◌, ◌++◌, ltb, if◌then◌else◌, length,
}
use kinetic_mirror_matrix_es.Text.{Bytes, eq_bytes}
use kinetic_mirror_matrix_es.Transport.Events.{Event}
use kinetic_mirror_matrix_es.MqttServer.{Orphans, Server, Stream}

abbrev pub max_orphan_commands : ℕ
max_orphan_commands = 4

abbrev pub orphans_of : Bytes → List Orphans → Option (List Event)
orphans_of id [] = none
orphans_of id (o ∷ os) = if eq_bytes o.msg_id id then some o.events else orphans_of id os

-- `erase` of a key.
unfoldable pub without_orphans : Bytes → List Orphans → List Orphans
without_orphans id [] = []
without_orphans id (o ∷ os) =
    let rest = without_orphans id os in if eq_bytes o.msg_id id then rest else o ∷ rest

unfoldable pub without_id : Bytes → List Bytes → List Bytes
without_id id [] = []
without_id id (x ∷ xs) = let rest = without_id id xs in if eq_bytes x id then rest else x ∷ rest

unfoldable pub without_stream : Bytes → List Stream → List Stream
without_stream cmd_id [] = []
without_stream cmd_id (st ∷ sts) =
    let rest = without_stream cmd_id sts in if eq_bytes st.cmd_id cmd_id then rest else st ∷ rest

unfoldable pub put_stream : Stream → List Stream → List Stream
put_stream st [] = []
put_stream st (x ∷ xs) =
    let rest = put_stream st xs in if eq_bytes x.cmd_id st.cmd_id then st ∷ rest else x ∷ rest

unfoldable pub add_to_orphans : Event → List Orphans → List Orphans
add_to_orphans e [] = []
add_to_orphans e (o ∷ os) =
    let rest = add_to_orphans e os in
    if eq_bytes o.msg_id e.cmd_id then record o { events = o.events ++ e ∷ [] } ∷ rest else o ∷ rest

-- The oldest orphans go while there are too many.
unfoldable pub drop_oldest : List Bytes → List Orphans → List Bytes × List Orphans
unfolding without_orphans
drop_oldest [] os = ([], os)
drop_oldest (id ∷ ids) os =
    let fewer = drop_oldest ids (without_orphans id os) in
    if ltb max_orphan_commands (suc (length ids)) then fewer else (id ∷ ids, os)

unfoldable pub add_orphan : Event → Server → Server
unfolding drop_oldest add_to_orphans
add_orphan e s = elim (orphans_of e.cmd_id s.orphan_events) [
  | some events ↦ record s { orphan_events = add_to_orphans e s.orphan_events }
  | none ↦
      (let (order, kept) =
          drop_oldest (s.orphan_order ++ e.cmd_id ∷ [])
            (s.orphan_events ++ record { msg_id = e.cmd_id; events = [] } ∷ []) in
        record s { orphan_order = order; orphan_events = add_to_orphans e kept })
]
