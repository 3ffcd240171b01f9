-- ===== src/Event.antt =====
-- src/event: the events that the service publishes and consumes.
pub mod Producer
pub mod Consumer
pub mod Ids
pub mod Timestamp
pub mod Pipeline
pub mod Batch
mod Tests
use temp_task.Prelude.{List, [], ◌∷◌, ℤ, Str, str}
use temp_task.Json.{JsonLib}

-- src/event/event_types.hpp
pub record UserRegisteredEvent : Type 0 where
  pub user_id : ℤ
  pub login : Str
  pub email : Str
  pub first_name : Str
  pub last_name : Str

pub record UserLoggedInEvent : Type 0 where
  pub user_id : ℤ
  pub login : Str
  pub ip_address : Str

pub record ProjectCreatedEvent : Type 0 where
  pub project_id : ℤ
  pub name : Str
  pub key : Str
  pub owner_id : ℤ

pub record TaskCreatedEvent : Type 0 where
  pub task_id : ℤ
  pub project_id : ℤ
  pub title : Str
  pub description : Str
  pub priority : ℤ
  pub creator_id : ℤ
  pub status : Str

pub record CommentAddedEvent : Type 0 where
  pub comment_id : Str
  pub task_id : ℤ
  pub author : Str
  pub text : Str

-- The ToPayload methods.
module _ (json : JsonLib) where
  open json use {Value, of_string, of_int, object}

  unfoldable pub user_registered_payload : UserRegisteredEvent → Value
  user_registered_payload e = object (
      (str "user_id", of_int e.user_id)
      ∷ (str "login", of_string e.login)
      ∷ (str "email", of_string e.email)
      ∷ (str "first_name", of_string e.first_name)
      ∷ (str "last_name", of_string e.last_name)
      ∷ [])

  unfoldable pub user_logged_in_payload : UserLoggedInEvent → Value
  user_logged_in_payload e = object (
      (str "user_id", of_int e.user_id)
      ∷ (str "login", of_string e.login)
      ∷ (str "ip_address", of_string e.ip_address)
      ∷ [])

  unfoldable pub project_created_payload : ProjectCreatedEvent → Value
  project_created_payload e = object (
      (str "project_id", of_int e.project_id)
      ∷ (str "name", of_string e.name)
      ∷ (str "key", of_string e.key)
      ∷ (str "owner_id", of_int e.owner_id)
      ∷ [])

  unfoldable pub task_created_payload : TaskCreatedEvent → Value
  task_created_payload e = object (
      (str "task_id", of_int e.task_id)
      ∷ (str "project_id", of_int e.project_id)
      ∷ (str "title", of_string e.title)
      ∷ (str "description", of_string e.description)
      ∷ (str "priority", of_int e.priority)
      ∷ (str "creator_id", of_int e.creator_id)
      ∷ (str "status", of_string e.status)
      ∷ [])

  unfoldable pub comment_added_payload : CommentAddedEvent → Value
  comment_added_payload e = object (
      (str "comment_id", of_string e.comment_id)
      ∷ (str "task_id", of_int e.task_id)
      ∷ (str "author", of_string e.author)
      ∷ (str "text", of_string e.text)
      ∷ [])
