-- ===== src/Commands.antt =====
-- Commands of the orchestrator: apps/hosted-orchestrator/src/command-backbone.ts. The Redis keys of
-- a command are maps by command id, a stream is its partition's number, and a text that holds JSON
-- is what `JSON.parse` makes of it (a payload is a record, as `execute` writes it). Keys do not expire in the model: their day is longer than a run.
pub mod Process
pub mod Attempts
pub mod Settling
pub mod Deliveries
pub mod Exchange
mod Tests
pub mod Leases
use Prim.Native.Nat.{ℕ, max}
use Prim.Native.String.{String, []}
use agent_benchmark.Common.{ℕ, String, Option, Map, [], Bool, List, max, get_or}
use agent_benchmark.Json.{Json, Fields}

pub record CommandResponse : Type 0 where
  pub status_code : ℕ
  pub body : Json

pub record StoredResponse : Type 0 where
  pub command_id : String
  pub status_code : ℕ
  pub body : Json

pub record Failure : Type 0 where
  pub error_code : String
  pub error_message : String

-- What awaiting the handler gives: its response, or the error it threw.
pub data Handled : Type 0 where
  responded : CommandResponse → Handled
  threw : Failure → Handled

pub record CommandDeadLetter : Type 0 where
  pub command_id : String
  pub stream : ℕ
  pub message_id : String
  pub partition : ℕ
  pub partition_key : Option String
  pub payload_type : String
  pub payload : Fields
  pub error_code : String
  pub error_message : String
  pub attempts : ℕ

-- The payload of a message: absent, not JSON, or JSON.
pub data PayloadText : Type 0 where
  absent : PayloadText
  malformed : PayloadText
  json : Fields → PayloadText

pub record Message : Type 0 where
  pub command_id : Option String
  pub command_type : Option String
  pub partition_key : Option String
  pub payload : PayloadText

pub record Entry : Type 0 where
  pub stream : ℕ
  pub id : String
  pub message : Message

pub data Event : Type 0 where
  queued : String → Event
  started : String → Event
  retry : String → Event
  dead_letter : String → Event
  completed : String → ℕ → Event

-- `handler` and `onDeadLetter` are callbacks: the model's take the number of calls made before, so
-- that each call has its own outcome. `on_dead_letter` tells whether the call returns (or throws).
pub record Options : Type 0 where
  pub max_command_attempts : ℕ
  pub retry_base_delay_ms : ℕ
  pub partition_count : ℕ
  pub handler : ℕ → String → Fields → Handled
  pub on_dead_letter : Option (ℕ → CommandDeadLetter → Bool)
  pub digest : String → ℕ

-- Redis, and what the callbacks were called with. `calls` has the command of each handler call,
-- `delays` the waits before a retry.
pub record Store : Type 0 where
  pub results : Map StoredResponse
  pub retries : Map ℕ
  pub failures : Map Failure
  pub responses : Map (List StoredResponse)
  pub stream : List Entry
  pub acknowledged : List String
  pub calls : List String
  pub delays : List ℕ
  pub dead_letter_calls : ℕ
  pub dead_letters : List CommandDeadLetter
  pub events : List Event

-- `createCommandBackbone` normalises the numbers it is given.
abbrev pub normalized_attempts : Option ℕ → ℕ
normalized_attempts given = max 1 (get_or given 3)

abbrev pub normalized_partitions : Option ℕ → ℕ
normalized_partitions given = max 1 (get_or given 16)

abbrev pub empty_store : Store
empty_store = record {
  results = [];
  retries = [];
  failures = [];
  responses = [];
  stream = [];
  acknowledged = [];
  calls = [];
  delays = [];
  dead_letter_calls = 0;
  dead_letters = [];
  events = [];
}
