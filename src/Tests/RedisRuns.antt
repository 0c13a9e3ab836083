-- ===== src/Tests/RedisRuns.antt =====
-- A server with the documented commands, and the theorems on the lock and on the queue at it.
use Prim.Native.Char.{Char, char}
use text.Mathlib.TextPositions.{eq_refl}
use benri_stream.Prelude.{
  ℕ, zero, suc, ◌+◌, ◌<◌, String, false, Option, none, some, List, [], ◌∷◌, ◌++◌, ◌≡◌, ◌≢◌, refl,
  ap, inl, inr, In, here, ◌==◌, eq_iff, if◌then◌else◌, ltb, Bool-cases, Option-cases, arith,
}
use benri_stream.Platform.{Uuid, Result, ok, err}
use benri_stream.Effects.Ports.{no_fault}
use benri_stream.Redis.{Server, IsServer, acquire}
use benri_stream.Redis.Holders.{Holder, System, Reach, start, step, acquires, granted}
use benri_stream.Redis.Exclusion.{mutual_exclusion}
use benri_stream.Redis.Queue.{IsListServer, publishes, pops, replies, queue_replies, replies-queue}

record Keys : Type 0 where
  values : String → Option (String × ℕ)
  lists : String → List String

abbrev live : ℕ → Option (String × ℕ) → Option String
live now none = none
live now (some (v, until)) = if ltb now until then some v else none

abbrev put : {A : Type 0} → String → A → (String → A) → String → A
put key a f other = if key == other then a else f other

abbrev set_if_free :
    Option String → (now : ℕ) (key value : String) (ttl : ℕ) → Keys → Option String × Keys
set_if_free (some v) now key value ttl s = (none, s)
set_if_free none now key value ttl s =
    (some "OK", record s { values = put key (some (value, now + ttl)) s.values })

abbrev pop_list : List String → String → Keys → Option String × Keys
pop_list [] key s = (none, s)
pop_list (x ∷ xs) key s = (some x, record s { lists = put key xs s.lists })

abbrev server : Server Keys
server = record {
  set_nx_ex = λ now key value ttl s. set_if_free (live now (s.values key)) now key value ttl s;
  get = λ now key s. live now (s.values key);
  del = λ now key s. (1, record s { values = put key none s.values });
  lpush = λ key values s. record s { lists = put key (s.lists key ++ values) s.lists };
  rpop = λ key s. pop_list (s.lists key) key s;
}

other_key : (a b : String) → a ≢ b → (a == b) ≡ false
other_key a b ne = elim (Bool-cases (a == b)) [ inl e ↦ absurd (ne ((eq_iff a b).0 e)) | inr e ↦ e ]

before_end : (t until : ℕ) (v : String) → t < until → live t (some (v, until)) ≡ some v
before_end t until v lt = ground arith

server-IsServer : IsServer server
server-IsServer = record {
  set_taken = λ now key value ttl s v e. rw e refl;
  get_set =
      λ now t key value ttl s e le lt. rw (e, eq_refl key) (before_end t (now + ttl) value lt);
  get_set_other = λ now t key value other ttl s ne. elim (Option-cases (live now (s.values key))) [
    | inl e ↦ rw (e, other_key key other ne) refl
    | inr (v, e) ↦ rw e refl
  ];
  get_del_other = λ now t key other s ne. rw (other_key key other ne) refl;
}

server-IsListServer : IsListServer server
server-IsListServer = record {
  from_end = λ key s. s.lists key;
  lpush_end = λ key values s. rw (eq_refl key) refl;
  rpop_none = λ key s e. rw e refl;
  rpop_some = λ key s x xs e. rw (e, eq_refl key) (refl, refl);
}

abbrev empty_server : Keys
empty_server = record { values = λ key. none; lists = λ key. [] }

abbrev locked : System Keys
locked =
    let s : System Keys = record { redis = empty_server; now = 5; holders = [] } in
    granted server s "lock" 30 (acquire server no_fault 5 "lock" 30 "token" empty_server)

abbrev holder : Holder
holder = record { key = "lock"; token = "token"; expires_at = 35 }

locked-Reach : Reach server locked
locked-Reach = step (start empty_server 5) (acquires no_fault "lock" 30 "token" (λ h i. elim i [ ]))

holder_locked : In holder locked.holders
unfolding acquire
holder_locked = here refl

in_time : locked.now < 35
unfolding acquire
in_time = omega arith

mutual_exclusion_example : holder ≡ holder
mutual_exclusion_example =
    mutual_exclusion server server-IsServer holder holder locked-Reach holder_locked holder_locked
      refl in_time in_time

abbrev star : Char
star = char 42 tt

next : Result String Uuid → Result String Uuid
next (ok n) = ok (suc n)
next (err e) = err e

-- A text for each number, which is read back: as many characters.
number : Uuid → String
number zero = ""
number (suc n) = String.◌∷◌ star (number n)

parse_number : String → Result String Uuid
parse_number String.[] = ok zero
parse_number (String.◌∷◌ c s) = next (parse_number s)

parse-number : (n : Uuid) → parse_number (number n) ≡ ok n
unfolding parse_number number next
parse-number zero = refl
parse-number (suc n) = ap next (parse-number n)

replies-queue_example :
    replies server number parse_number
      (publishes (7 ∷ 8 ∷ []) ∷ pops ∷ publishes (9 ∷ []) ∷ pops ∷ pops ∷ pops ∷ [])
      empty_server
    ≡ queue_replies
        (publishes (7 ∷ 8 ∷ []) ∷ pops ∷ publishes (9 ∷ []) ∷ pops ∷ pops ∷ pops ∷ [])
        []
unfolding server-IsListServer
replies-queue_example =
    replies-queue server number parse_number server-IsListServer parse-number
      (publishes (7 ∷ 8 ∷ []) ∷ pops ∷ publishes (9 ∷ []) ∷ pops ∷ pops ∷ pops ∷ []) empty_server []
      refl
