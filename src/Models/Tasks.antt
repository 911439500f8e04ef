-- ===== src/Models/Tasks.antt =====
-- `Task` and its enumerations (chronicler/core/models.py).
use chronicler.Base.{ℕ, String, ◌≡◌, ◌↔◌, Bool, true, false, Option, none, List, arith, Equality}

pub data TaskStatus : Type 0 where
  pending working done failed : TaskStatus

pub data TaskType : Type 0 where
  import_ transcribe normalize summarize clean : TaskType

abbrev pub status_beq : TaskStatus → TaskStatus → Bool
status_beq pending pending = true
status_beq working working = true
status_beq done done = true
status_beq failed failed = true
status_beq _ _ = false

pub status_beq_iff : (a b : TaskStatus) → (status_beq a b ≡ true) ↔ (a ≡ b)
status_beq_iff a b = ground arith

instance abbrev pub TaskStatus_eq : Equality TaskStatus
TaskStatus_eq = record { test = status_beq; test_iff = status_beq_iff }

abbrev pub type_beq : TaskType → TaskType → Bool
type_beq import_ import_ = true
type_beq transcribe transcribe = true
type_beq normalize normalize = true
type_beq summarize summarize = true
type_beq clean clean = true
type_beq _ _ = false

pub type_beq_iff : (a b : TaskType) → (type_beq a b ≡ true) ↔ (a ≡ b)
type_beq_iff a b = ground arith

instance abbrev pub TaskType_eq : Equality TaskType
TaskType_eq = record { test = type_beq; test_iff = type_beq_iff }

-- The JSON values that task payloads hold; a float is in thousandths.
pub data Json : Type 0 where
  text : String → Json
  int : ℕ → Json
  real : ℕ → Json
  flag : Bool → Json
  object : List (String × String) → Json

abbrev pub Payload : Type 0
Payload = List (String × Json)

pub record Task : Type 0 where
  pub id : ℕ
  pub type : TaskType
  pub status : TaskStatus
  pub priority : ℕ
  pub progress : ℕ
  pub payload : Option Payload
  pub error : Option String
  pub chronicle_id : Option ℕ
  pub created_at : ℕ
  pub claimed_by : Option String
  pub claimed_at : Option ℕ
  pub attempts : ℕ
  pub max_attempts : ℕ
  pub not_before : Option ℕ

-- `Task(id=..., type=..., chronicle_id=..., data=..., created_at=now)`: every other field has the
-- default of the model.
abbrev pub new_task : ℕ → TaskType → Option ℕ → Option Payload → ℕ → Task
new_task id type chronicle_id payload now = record {
  id = id;
  type = type;
  status = pending;
  priority = 0;
  progress = 0;
  payload = payload;
  error = none;
  chronicle_id = chronicle_id;
  created_at = now;
  claimed_by = none;
  claimed_at = none;
  attempts = 0;
  max_attempts = 3;
  not_before = none;
}
