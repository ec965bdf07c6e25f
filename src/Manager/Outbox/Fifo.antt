-- ===== src/Manager/Outbox/Fifo.antt =====
-- The bounded queue that the event outbox stands for: the newest thousand events that are not acknowledged, in the
-- order in which they were queued.
use maintune.Base.{
  ℕ, suc, zero, ◌-◌, ◌≤◌, ◌≡◌, refl, sym, ap, ◌∙◌, String, Bool, true, false, not, List, [], ◌∷◌,
  ◌++◌, arith, length, last_items, drop, filter, ltb, if◌then◌else◌, ◌==◌, string_eq, length-append,
  Bool-cases, inl, inr,
}
use maintune.Json.{Value, Fields, end, field, put, without, has_key, count_fields}
use maintune.Manager.Outbox.{OutboxFile, load_outbox, pop_first, queue, ack}

abbrev Events : Type 0
Events = List (String × Value)

-- The events of the file, oldest first.
abbrev pub entries : Fields → Events
entries end = []
entries (field k v fs) = (k, v) ∷ entries fs

abbrev pub pending : OutboxFile → Events
pending file = entries (load_outbox file)

-- The queue that the outbox implements.
abbrev pub enqueue : String → Value → Events → Events
enqueue k v es = last_items 1000 (es ++ (k, v) ∷ [])

abbrev pub acknowledge : String → Events → Events
acknowledge k es = filter (λ (e : String × Value). not (k == e.0)) es

pub data Op : Type 0 where
  queued : String → Value → Op
  acked : String → Op

abbrev pub apply : Op → OutboxFile → OutboxFile
apply (queued k v) file = queue k v file
apply (acked k) file = ack k file

abbrev pub run : List Op → OutboxFile → OutboxFile
run [] file = file
run (op ∷ ops) file = run ops (apply op file)

abbrev pub apply_fifo : Op → Events → Events
apply_fifo (queued k v) es = enqueue k v es
apply_fifo (acked k) es = acknowledge k es

abbrev pub run_fifo : List Op → Events → Events
run_fifo [] es = es
run_fifo (op ∷ ops) es = run_fifo ops (apply_fifo op es)

-- An event is queued under an id that is not pending.
abbrev IsFresh : Op → Events → Type 0
IsFresh (queued k v) es = filter (λ (e : String × Value). k == e.0) es ≡ []
IsFresh (acked k) es = Unit {0}

abbrev pub AreFresh : List Op → Events → Type 0
AreFresh [] es = Unit {0}
AreFresh (op ∷ ops) es = IsFresh op es × AreFresh ops (apply_fifo op es)

entries-put :
    (k : String) (v : Value) (fs : Fields)
    → IsFresh (queued k v) (entries fs)
    → entries (put k v fs) ≡ entries fs ++ (k, v) ∷ []
entries-put k v end fresh = refl
entries-put k v (field j w fs) fresh = ground (arith, entries-put k v fs)

length-entries : (fs : Fields) → count_fields fs ≡ length (entries fs)
length-entries end = refl
length-entries (field k v fs) = ap suc (length-entries fs)

entries-pop_first : (fs : Fields) → entries (pop_first fs) ≡ drop 1 (entries fs)
entries-pop_first end = refl
entries-pop_first (field k v fs) = refl

entries-without :
    (k : String) (fs : Fields) → entries (without (k ∷ []) fs) ≡ acknowledge k (entries fs)
entries-without k end = refl
entries-without k (field j w fs) = ground (arith, entries-without k fs)

acknowledge_absent :
    (k : String) (fs : Fields) → has_key k fs ≡ false → acknowledge k (entries fs) ≡ entries fs
acknowledge_absent k end absent = refl
acknowledge_absent k (field j w fs) absent = ground (arith, acknowledge_absent k fs)

pending-ack : (k : String) (file : OutboxFile) → pending (ack k file) ≡ acknowledge k (pending file)
unfolding ack
pending-ack k file = elim (Bool-cases (has_key k (load_outbox file))) [
  | inl held ↦ rw held (entries-without k (load_outbox file))
  | inr absent ↦ rw absent (sym (acknowledge_absent k (load_outbox file) absent))
]

overflow :
    (es : Events) (e : String × Value)
    → length es ≤ 1000
    → (if ltb 1000 (suc (length es)) then drop 1 (es ++ e ∷ []) else es ++ e ∷ [])
      ≡ last_items 1000 (es ++ e ∷ [])
overflow es e small = elim (Bool-cases (ltb 1000 (suc (length es)))) [
  | inl full ↦
      let over : length (es ++ e ∷ []) - 1000 ≡ suc zero =
        ground (arith, length-append es (e ∷ [])) in
      rw (full, over) refl
  | inr room ↦
      let over : length (es ++ e ∷ []) - 1000 ≡ zero = ground (arith, length-append es (e ∷ [])) in
      rw (room, over) refl
]

pending-queue :
    (k : String) (v : Value) (file : OutboxFile)
    → length (pending file) ≤ 1000
    → IsFresh (queued k v) (pending file)
    → pending (queue k v file) ≡ enqueue k v (pending file)
unfolding queue
pending-queue k v file small fresh =
    let events = put k v (load_outbox file) in
    let grown = entries-put k v (load_outbox file) fresh in
    let count : count_fields events ≡ suc (length (pending file)) =
      length-entries events
      ∙ ap length grown
      ∙ omega (arith, length-append (pending file) ((k, v) ∷ [])) in
    chosen (ltb 1000 (count_fields events)) events
    ∙ rw (count, grown) (overflow (pending file) (k, v) small)
  where
    chosen :
        (b : Bool) (es : Fields)
        → entries (if b then pop_first es else es) ≡ (if b then drop 1 (entries es) else entries es)
    chosen true es = entries-pop_first es
    chosen false es = refl

length-acknowledge : (k : String) (es : Events) → length (acknowledge k es) ≤ length es
length-acknowledge k [] = omega arith
length-acknowledge k (e ∷ es) = ground (arith, length-acknowledge k es)

length-drop : (n : ℕ) (es : Events) → length (drop n es) ≡ length es - n
length-drop zero es = omega arith
length-drop (suc n) [] = omega arith
length-drop (suc n) (e ∷ es) = omega (arith, length-drop n es)

apply_fifo_bounded : (op : Op) (es : Events) → length es ≤ 1000 → length (apply_fifo op es) ≤ 1000
apply_fifo_bounded (queued k v) es small = omega (
  arith,
  length-drop (length (es ++ (k, v) ∷ []) - 1000) (es ++ (k, v) ∷ []),
  length-append es ((k, v) ∷ []),
)
apply_fifo_bounded (acked k) es small = omega (arith, length-acknowledge k es)

pending-apply :
    (op : Op) (file : OutboxFile)
    → length (pending file) ≤ 1000
    → IsFresh op (pending file)
    → pending (apply op file) ≡ apply_fifo op (pending file)
pending-apply (queued k v) file small fresh = pending-queue k v file small fresh
pending-apply (acked k) file small fresh = pending-ack k file

-- After any sequence of events that are queued under fresh ids and acknowledgements, the file holds what the
-- bounded queue holds: the newest thousand events that are not acknowledged, oldest first.
pub outbox_refines_fifo :
    (ops : List Op) (file : OutboxFile)
    → length (pending file) ≤ 1000
    → AreFresh ops (pending file)
    → (pending (run ops file) ≡ run_fifo ops (pending file))
      × (length (pending (run ops file)) ≤ 1000)
outbox_refines_fifo [] file small fresh = (refl, small)
outbox_refines_fifo (op ∷ ops) file small (now, later) =
    let same = pending-apply op file small now in
    let rest =
      outbox_refines_fifo ops (apply op file) (rw same (apply_fifo_bounded op (pending file) small))
        (rw same later) in
    (rest.0 ∙ ap (run_fifo ops) same, rest.1)
