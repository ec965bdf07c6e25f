-- ===== src/Manager/Outbox.antt =====
-- The event outbox of a plugin in backend/maintainer/plugin_manager.py: `_load_outbox`, `_queue` and
-- `_ack` over the file `event-outbox.json`, whose writes are atomic.
pub mod Fifo
use maintune.Base.{ℕ, Option, none, some, String, [], ◌∷◌, ltb, if◌then◌else◌}
use maintune.Json.{fields_of, Value, dict, Fields, end, field, put, without, has_key, count_fields}

-- The file: none, one that does not hold JSON, or its value.
pub data OutboxFile : Type 0 where
  missing : OutboxFile
  unreadable : OutboxFile
  holds : Value → OutboxFile

-- `_load_outbox`
abbrev pub load_outbox : OutboxFile → Fields
load_outbox missing = end
load_outbox unreadable = end
load_outbox (holds v) = fields_of v

-- `events.pop(next(iter(events)))`
abbrev pub pop_first : Fields → Fields
pop_first end = end
pop_first (field k v fs) = fs

-- `_queue`
unfoldable pub queue : String → Value → OutboxFile → OutboxFile
queue event_id event file =
    let events = put event_id event (load_outbox file) in
    holds (dict (if ltb 1000 (count_fields events) then pop_first events else events))

-- `_ack`
unfoldable pub ack : String → OutboxFile → OutboxFile
ack event_id file =
    let events = load_outbox file in
    if has_key event_id events then holds (dict (without (event_id ∷ []) events)) else file
