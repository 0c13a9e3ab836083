-- ===== src/Redis.antt =====
-- crates/infrastructure/src/redis: the lock and the task queue, on the commands of a Redis server.
pub mod Holders
pub mod Exclusion
pub mod Queue
use benri_stream.Prelude.{
  ℕ, ◌+◌, ◌≤◌, ◌<◌, String, Bool, true, false, Option, none, some, List, [], ◌∷◌, ◌++◌, map,
  is_empty, if◌then◌else◌, ◌≡◌, ◌≢◌, ◌==◌, ltb,
}
use benri_stream.Platform.{Platform, Uuid, Result, ok, err}
use benri_stream.Effects.Ports.{Fault, no_fault, lost_request, lost_reply, LockError, QueueError}

-- The server's commands on its state, at its time in seconds, with their replies.
pub record Server (S : Type 0) : Type 0 where
  -- SET key value NX EX ttl
  pub set_nx_ex : (now : ℕ) (key value : String) (ttl_secs : ℕ) → S → Option String × S
  pub get : (now : ℕ) (key : String) → S → Option String
  pub del : (now : ℕ) (key : String) → S → ℕ × S
  pub lpush : (key : String) (values : List String) → S → S
  pub rpop : (key : String) → S → Option String × S

-- What the documentation of these commands says of them: SET … NX sets a key that has no value, for
-- `ttl_secs`, and does nothing else; DEL removes a key; lists are taken from at their end.
pub record IsServer {S : Type 0} (server : Server S) : Type 0 where
  pub set_taken :
      (now : ℕ) (key value : String) (ttl : ℕ) (s : S) (v : String)
      → server.get now key s ≡ some v
      → server.set_nx_ex now key value ttl s ≡ (none, s)
  pub get_set :
      (now t : ℕ) (key value : String) (ttl : ℕ) (s : S)
      → server.get now key s ≡ none
      → now ≤ t
      → t < now + ttl
      → server.get t key (server.set_nx_ex now key value ttl s).1 ≡ some value
  pub get_set_other :
      (now t : ℕ) (key value other : String) (ttl : ℕ) (s : S)
      → key ≢ other
      → server.get t other (server.set_nx_ex now key value ttl s).1 ≡ server.get t other s
  pub get_del_other :
      (now t : ℕ) (key other : String) (s : S)
      → key ≢ other
      → server.get t other (server.del now key s).1 ≡ server.get t other s

-- A call that the connection may lose, before the server or on the way back.
abbrev pub with_fault :
    {S E A : Type 0} → Fault → (String → E) → Result E A × S → S → Result E A × S
with_fault no_fault internal (r, s') s = (r, s')
with_fault (lost_request e) internal (r, s') s = (err (internal e), s)
with_fault (lost_reply e) internal (r, s') s = (err (internal e), s')

abbrev pub acquired : String → Option String → Option String
acquired token none = none
acquired token (some reply) = if reply == "OK" then some token else none

abbrev pub matches : Option String → String → Bool
matches none token = false
matches (some stored) token = stored == token

module _ {S : Type 0} (server : Server S) where
  -- The script of `release`.
  unfoldable pub check_and_delete : (now : ℕ) (key token : String) → S → ℕ × S
  check_and_delete now key token s =
      if matches (server.get now key s) token then server.del now key s else (0, s)

module _ {S : Type 0} (server : Server S) (fault : Fault) where
  -- `token` is the text of the new UUID.
  unfoldable pub acquire :
      (now : ℕ) (key : String) (ttl_secs : ℕ) (token : String)
      → S
      → Result LockError (Option String) × S
  acquire now key ttl_secs token s =
      let (reply, s') = server.set_nx_ex now key token ttl_secs s in
      with_fault fault LockError.internal (ok (acquired token reply), s') s

  -- A reply of 0 is logged only.
  unfoldable pub release : (now : ℕ) (key token : String) → S → Result LockError (Unit {0}) × S
  unfolding check_and_delete
  release now key token s =
      let (deleted, s') = check_and_delete server now key token s in
      with_fault fault LockError.internal (ok tt, s') s

abbrev pub task_queue_key : String
task_queue_key = "benri:tasks:queue"

-- `parse_str` is `Uuid::parse_str`, with the text of its error.
module _ {S : Type 0} (server : Server S) (fault : Fault) (show_uuid : Uuid → String)
    (parse_str : String → Result String Uuid) where
  unfoldable pub publish : List Uuid → S → Result QueueError Bool × S
  publish task_ids s =
      if is_empty task_ids
      then (ok true, s)
      else with_fault fault QueueError.internal
          (ok true, server.lpush task_queue_key (map show_uuid task_ids) s) s

  -- A text that is no UUID is gone from the queue.
  abbrev pub popped : Option String → Result QueueError (Option Uuid)
  popped none = ok none
  popped (some id_str) = some_id (parse_str id_str)
    where
      some_id : Result String Uuid → Result QueueError (Option Uuid)
      some_id (ok uuid) = ok (some uuid)
      some_id (err e) = err (QueueError.internal e)

  unfoldable pub pop : S → Result QueueError (Option Uuid) × S
  pop s =
      let (reply, s') = server.rpop task_queue_key s in
      with_fault fault QueueError.internal (popped reply, s') s
