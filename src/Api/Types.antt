-- ===== src/Api/Types.antt =====
-- What the client sends and receives (frontend/src/api/client.ts and frontend/src/types/api.ts). An
-- answer's JSON body is read as a record of the fields that the client and the session look at.
use locketgoldhuydev.Prelude.{ℕ, Bool, ◌&&◌, Option, Text, String, leb, ltb}

pub data Role : Type 0 where
  user admin : Role

pub record AuthUser : Type 0 where
  pub id : ℕ
  pub email : String
  pub username : String
  pub display_name : String
  pub avatar_url : Option String
  pub created_at : Option ℕ
  pub role : Option Role

pub record Fields : Type 0 where
  pub success : Bool
  pub user : Option AuthUser
  pub access_token : Option String
  pub csrf_token : Option String
  pub msg : Option String
  pub error : Option String

-- A body that is announced as JSON is a record of fields, `null`, another value without fields, or
-- cannot be read, and then reading it throws; any other body is kept as raw text.
pub data Body : Type 0 where
  json : Fields → Body
  json_null json_value : Body
  malformed : (message : String) → Body
  raw_text : String → Body

-- `fetch` rejects when it is aborted or the network fails.
pub data Answer : Type 0 where
  aborted : Answer
  failed : (message : String) → Answer
  answered : (status : ℕ) → Body → Answer

-- The method after `toUpperCase`.
pub data Method : Type 0 where
  get post put delete patch : Method
  other : String → Method

pub data Payload : Type 0 where
  nothing : Payload
  text : String → Payload
  form : String → Payload

-- The text of an `Authorization` header: `Bearer ` and a token, or whatever a caller gave.
pub data Credential : Type 0 where
  bearer : (token : String) → Credential
  raw : String → Credential

pub record Headers : Type 0 where
  pub accept : Option String
  pub content_type : Option String
  pub authorization : Option Credential
  pub csrf : Option String

pub record Request : Type 0 where
  pub url : Text
  pub method : Method
  pub headers : Headers
  pub payload : Payload

pub record Options : Type 0 where
  pub method : Method
  pub headers : Headers
  pub payload : Payload
  pub is_retry : Bool

-- What an error says: a text, `Request failed with status …`, or the engine's words for a field that
-- was read of `null`.
pub data Message : Type 0 where
  text_of : String → Message
  request_failed : (status : ℕ) → Message
  type_error : Message

pub record ApiError : Type 0 where
  pub message : Message
  pub status : ℕ
  pub details : Option Body

pub data Result : Type 0 where
  ok : Body → Result
  err : ApiError → Result

-- `response.ok`
abbrev pub is_ok : ℕ → Bool
is_ok status = leb 200 status && ltb status 300
