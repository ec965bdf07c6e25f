-- ===== src/Store.antt =====
-- The rows of backend/maintainer/db.py that the tasks and their external actions share, with the
-- queries and updates that the sessions make. A session is a function on the store: it commits as a
-- whole or raises. The column `data` of a row is its `content`.
use maintune.Base.{
  ℕ, suc, String, Bool, ◌&&◌, Option, none, some, List, [], ◌∷◌, ◌++◌, if◌then◌else◌, ◌==◌,
  string_eq, nat_eq,
}
use maintune.Base.Int.{pos, int_eq}
use maintune.Base.Text.{decimal}
use maintune.Json.{Value, null, int, str, Fields, get, truthy?}

pub record Task : Type 0 where
  pub id : String
  pub kind : String
  pub repository : String
  pub number : ℕ
  pub status : String
  pub lease_until : Option Value
  pub attempts : ℕ
  pub content : Fields

pub record Outbox : Type 0 where
  pub id : String
  pub task_id : String
  pub action_key : String
  pub kind : String
  pub status : String
  pub attempts : ℕ
  pub created : Value
  pub content : Fields
  pub external_id : Option String
  pub external_url : Option String
  pub error : Option String

pub record Repository : Type 0 where
  pub full_name : String
  pub installation_id : Option ℕ
  pub content : Fields

pub record Timeline : Type 0 where
  pub task_id : String
  pub timestamp : Value
  pub kind : String
  pub content : Fields

pub record Db : Type 0 where
  pub tasks : List Task
  pub outbox : List Outbox
  pub repositories : List Repository
  pub timeline : List Timeline

-- What a session takes from outside: the clock, a new id, `hashlib.sha256` of the canonical JSON of a
-- value, and `str` of a value that is neither a text nor an integer.
pub record Env : Type 0 where
  pub now : Value
  pub new_id : String
  pub payload_hash : Value → String
  pub repr : Value → String

pub data ActionError : Type 0 where
  recovery_conflict : String → ActionError
  runtime_error : String → ActionError
  raised : String → ActionError

-- The first row that a test accepts.
unfoldable pub find_first {ℓ} : {A : Type ℓ} → (A → Bool) → List A → Option A
find_first p [] = none
find_first p (x ∷ xs) = let rest = find_first p xs in if p x then some x else rest

-- `update(...).where(p).values(...)`: the rows, and the `rowcount`.
unfoldable pub update_where {ℓ} : {A : Type ℓ} → (A → Bool) → (A → A) → List A → List A × ℕ
update_where p f [] = ([], 0)
update_where p f (x ∷ xs) =
    let (rest, n) = update_where p f xs in if p x then (f x ∷ rest, suc n) else (x ∷ rest, n)

-- `db.get(Task, id)`
abbrev pub get_task : String → Db → Option Task
get_task id db = find_first (λ (t : Task). t.id == id) db.tasks

-- `db.get(Repository, name)`
abbrev pub get_repository : String → Db → Option Repository
get_repository name db = find_first (λ (r : Repository). r.full_name == name) db.repositories

-- `db.scalar(select(Outbox).where(Outbox.action_key == key))`
abbrev pub get_action : String → Db → Option Outbox
get_action key db = find_first (λ (r : Outbox). r.action_key == key) db.outbox

abbrev pub set_task : String → (Task → Task) → Db → Db
set_task id f db = record db { tasks = (update_where (λ (t : Task). t.id == id) f db.tasks).0 }

abbrev pub set_action : String → (Outbox → Outbox) → Db → Db
set_action id f db = record db {
  outbox = (update_where (λ (r : Outbox). r.id == id) f db.outbox).0;
}

-- `self.event(db, task_id, kind, data)`
abbrev pub add_event : Env → String → String → Fields → Db → Db
add_event env task_id kind content db = record db {
  timeline =
      db.timeline
      ++ (record { task_id = task_id; timestamp = env.now; kind = kind; content = content }) ∷ [];
}

-- `a or b` of two values that may be `None`.
abbrev pub or_else : Option Value → Option Value → Option Value
or_else a b = if truthy? a then a else b

abbrev pub number_value : Option ℕ → Option Value
number_value none = none
number_value (some n) = some (int (pos n))

abbrev pub installation_of : Option Repository → Option Value
installation_of none = none
installation_of (some r) = number_value r.installation_id

-- `repository.data.get("enabled", False)` and `repository.data.get("auto_review_prs", False)`
abbrev pub reviews_enabled : Repository → Bool
reviews_enabled r = truthy? (get "enabled" r.content) && truthy? (get "auto_review_prs" r.content)

abbrev pub text_value : Option String → Value
text_value none = null
text_value (some s) = str s

-- `str(v)`
abbrev pub to_text : Env → Value → String
to_text env (str s) = s
to_text env (int (pos n)) = decimal n
to_text env v = env.repr v
