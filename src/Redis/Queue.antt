-- ===== src/Redis/Queue.antt =====
-- The task queue of crates/infrastructure/src/redis as a first-in, first-out queue of ids.
use mathlib.Core.List.{append-nil}
use benri_stream.Prelude.{
  String, Bool, true, Option, none, some, List, [], ◌∷◌, ◌++◌, map, ◌≡◌, refl, sym, ap, ◌∙◌,
}
use benri_stream.Platform.{Uuid, Result, ok}
use benri_stream.Effects.Ports.{no_fault, QueueError}
use benri_stream.Redis.{Server, publish, pop, task_queue_key}

-- What the documentation says of LPUSH and RPOP, by the values of a list in the order in which RPOP
-- takes them.
pub record IsListServer {S : Type 0} (server : Server S) : Type 0 where
  pub from_end : String → S → List String
  pub lpush_end :
      (key : String) (values : List String) (s : S)
      → from_end key (server.lpush key values s) ≡ from_end key s ++ values
  pub rpop_none : (key : String) (s : S) → from_end key s ≡ [] → server.rpop key s ≡ (none, s)
  pub rpop_some :
      (key : String) (s : S) (x : String) (xs : List String)
      → from_end key s ≡ x ∷ xs
      → ((server.rpop key s).0 ≡ some x) × (from_end key (server.rpop key s).1 ≡ xs)

pub data Call : Type 0 where
  publishes : List Uuid → Call
  pops : Call

pub data Reply : Type 0 where
  published : Result QueueError Bool → Reply
  taken : Result QueueError (Option Uuid) → Reply

-- The replies to a sequence of calls, by a queue of ids: the reference.
pub queue_replies : List Call → List Uuid → List Reply
queue_replies [] q = []
queue_replies (publishes ids ∷ calls) q = published (ok true) ∷ queue_replies calls (q ++ ids)
queue_replies (pops ∷ calls) [] = taken (ok none) ∷ queue_replies calls []
queue_replies (pops ∷ calls) (id ∷ q) = taken (ok (some id)) ∷ queue_replies calls q

map-append : {A B : Type 0} (f : A → B) (xs ys : List A) → map f (xs ++ ys) ≡ map f xs ++ map f ys
map-append f [] ys = refl
map-append f (x ∷ xs) ys = ap (λ zs. f x ∷ zs) (map-append f xs ys)

module _ {S : Type 0} (server : Server S) (show_uuid : Uuid → String)
    (parse_str : String → Result String Uuid) where
  -- The replies of the code, when no call is lost.
  pub replies : List Call → S → List Reply
  replies [] s = []
  replies (publishes ids ∷ calls) s =
      let (r, s') = publish server no_fault show_uuid parse_str ids s in
      published r ∷ replies calls s'
  replies (pops ∷ calls) s =
      let (r, s') = pop server no_fault show_uuid parse_str s in taken r ∷ replies calls s'

  module _ (laws : IsListServer server)
      (parse_show : (id : Uuid) → parse_str (show_uuid id) ≡ ok id) where
    -- The server's list is that of the ids.
    abbrev Holds : S → List Uuid → Type 0
    Holds s q = laws.from_end task_queue_key s ≡ map show_uuid q

    publish-Holds :
        (ids : List Uuid) (s : S) (q : List Uuid)
        → Holds s q
        → ((publish server no_fault show_uuid parse_str ids s).0 ≡ ok true)
          × Holds (publish server no_fault show_uuid parse_str ids s).1 (q ++ ids)
    unfolding publish
    publish-Holds [] s q h = (refl, h ∙ ap (map show_uuid) (sym (append-nil q)))
    publish-Holds (id ∷ ids) s q h = (
      refl,
      laws.lpush_end task_queue_key (map show_uuid (id ∷ ids)) s
          ∙ ap (λ xs. xs ++ map show_uuid (id ∷ ids)) h
          ∙ sym (map-append show_uuid q (id ∷ ids)),
    )

    -- Every sequence of publish and pop is answered as by a first-in, first-out queue of the ids, when
    -- no call is lost and a UUID's text is read back as the UUID.
    pub replies-queue :
        (calls : List Call) (s : S) (q : List Uuid)
        → laws.from_end task_queue_key s ≡ map show_uuid q
        → replies calls s ≡ queue_replies calls q
    unfolding replies queue_replies pop
    replies-queue [] s q h = refl
    replies-queue (publishes ids ∷ calls) s q h =
        let (r, h') = publish-Holds ids s q h in
        rw
          (
            r,
            replies-queue calls (publish server no_fault show_uuid parse_str ids s).1 (q ++ ids) h',
          )
          refl
    replies-queue (pops ∷ calls) s [] h =
        let e = laws.rpop_none task_queue_key s h in rw (e, replies-queue calls s [] h) refl
    replies-queue (pops ∷ calls) s (id ∷ q) h =
        let (r, h') = laws.rpop_some task_queue_key s (show_uuid id) (map show_uuid q) h in
        rw (r, parse_show id, replies-queue calls (server.rpop task_queue_key s).1 q h') refl
