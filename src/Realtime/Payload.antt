-- ===== src/Realtime/Payload.antt =====
-- server.ts: the size of an event's payload and its cap.
use notebortt_backend.Common.{
  ◌≡◌, Bool, ℕ, ◌*◌, ◌*◌, ltb, suc, false, zero, ◌+◌, ◌+◌, if◌then◌else◌, if◌then◌else◌, leb, refl,
}

abbrev max_measure_depth : ℕ
max_measure_depth = 8

abbrev max_measure_depth_bytes : ℕ
max_measure_depth_bytes = 8

-- A value that the transport decodes; a text and a key with the number of its bytes, a number with
-- the length of its text, a binary value with its length, and anything else.
mutual
  pub data Payload : Type 0 where
    nothing : Payload
    text : ℕ → Payload
    number : ℕ → Payload
    boolean : Bool → Payload
    binary : ℕ → Payload
    array : Items → Payload
    dict : Entries → Payload
    other : Payload

  pub data Items : Type 0 where
    no_items : Items
    item : Payload → Items → Items

  pub data Entries : Type 0 where
    no_entries : Entries
    entry : ℕ → Payload → Entries → Entries

unfoldable mutual
  pub measure_payload_bytes : Payload → ℕ → ℕ
  measure_payload_bytes nothing depth = 4
  measure_payload_bytes (text bytes) depth = bytes + 2
  measure_payload_bytes (number digits) depth = digits
  measure_payload_bytes (boolean b) depth = if b then 4 else 5
  measure_payload_bytes (binary bytes) depth = bytes
  measure_payload_bytes (array items) depth =
      let total = measure_items items (suc depth) in
      if leb max_measure_depth depth then max_measure_depth_bytes else 2 + total
  measure_payload_bytes (dict entries) depth =
      let total = measure_entries entries (suc depth) in
      if leb max_measure_depth depth then max_measure_depth_bytes else 2 + total
  measure_payload_bytes other depth =
      if leb max_measure_depth depth then max_measure_depth_bytes else 8

  pub measure_items : Items → ℕ → ℕ
  measure_items no_items depth = 0
  measure_items (item v items) depth = measure_payload_bytes v depth + 1 + measure_items items depth

  measure_entries : Entries → ℕ → ℕ
  measure_entries no_entries depth = 0
  measure_entries (entry key v entries) depth =
      key + 4 + measure_payload_bytes v depth + measure_entries entries depth

pub data ClientEvent : Type 0 where
  board_join : ClientEvent
  mutation_batch : ClientEvent
  crdt_update : ClientEvent
  presence_update : ClientEvent
  realtime_tick : ClientEvent

-- `SOCKET_EVENT_BYTE_CAPS`: each client event has one.
abbrev byte_cap : ClientEvent → ℕ
byte_cap board_join = 4 * 1024
byte_cap mutation_batch = 256 * 1024
byte_cap crdt_update = 128 * 1024
byte_cap presence_update = 8 * 1024
byte_cap realtime_tick = 32 * 1024

unfoldable pub payload_exceeds_cap : ClientEvent → Payload → Bool
unfolding measure_payload_bytes
payload_exceeds_cap event payload = ltb (byte_cap event) (measure_payload_bytes payload 0)

-- A list of lists, `n` deep, around a payload.
abbrev pub nested : ℕ → Payload → Payload
nested zero v = v
nested (suc n) v = array (item (nested n v) no_items)

-- A list or an object of any size passes the cap of every event when it stands inside eight lists.
pub nested-passes :
    (event : ClientEvent) (items : Items) (fields : Entries)
    → (payload_exceeds_cap event (nested 8 (array items)) ≡ false)
      × (payload_exceeds_cap event (nested 8 (dict fields)) ≡ false)
unfolding payload_exceeds_cap measure_payload_bytes measure_items
nested-passes board_join items fields = (refl, refl)
nested-passes mutation_batch items fields = (refl, refl)
nested-passes crdt_update items fields = (refl, refl)
nested-passes presence_update items fields = (refl, refl)
nested-passes realtime_tick items fields = (refl, refl)
