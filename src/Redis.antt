-- ===== src/Redis.antt =====
-- The Redis server, which the program calls through go-redis: its commands are a parameter, and
-- their documented effects are the laws of the same record. A command reaches the server through
-- a connection that may refuse it or lose its reply. A Lua script that the program sends runs as
-- one command. The client library's own resending of commands is not modelled.
use goods_hunter.Base.{
  ℕ, ◌≡◌, Bool, true, false, List, [], ◌∷◌, Option, none, some, if◌then◌else◌, length, unsnoc,
}
use goods_hunter.Base.Text.{Text, text_eq}

-- The keys that the program names, and any other by its text.
pub data Key : Type 0 where
  task_queue task_processing_queue result_queue task_pending_set task_started_hash : Key
  named : Text → Key

abbrev pub key_eq : Key → Key → Bool
key_eq task_queue task_queue = true
key_eq task_processing_queue task_processing_queue = true
key_eq result_queue result_queue = true
key_eq task_pending_set task_pending_set = true
key_eq task_started_hash task_started_hash = true
key_eq (named s) (named t) = text_eq s t
key_eq _ _ = false

-- What a client can observe: LRANGE 0 -1, SISMEMBER and HGET at every key.
pub record Contents : Type 0 where
  pub lists : Key → List Text
  pub sets : Key → Text → Bool
  pub hashes : Key → Text → Option Text

abbrev pub put {ℓ} : {V : Type ℓ} → Key → V → (Key → V) → Key → V
put k v f j = if key_eq k j then v else f j

abbrev pub mark {ℓ} : {V : Type ℓ} → Text → V → (Text → V) → Text → V
mark s v f t = if text_eq s t then v else f t

-- LREM key 1 value: the first copy from the head goes.
abbrev pub erase : Text → List Text → List Text
erase v [] = []
erase v (x ∷ xs) = if text_eq v x then xs else x ∷ erase v xs

abbrev pub holds : Text → List Text → Bool
holds v [] = false
holds v (x ∷ xs) = if text_eq v x then true else holds v xs

abbrev pub set_list : Key → List Text → Contents → Contents
set_list k l c = record c { lists = put k l c.lists }

abbrev pub set_member : Key → Text → Bool → Contents → Contents
set_member k v b c = record c { sets = put k (mark v b (c.sets k)) c.sets }

abbrev pub set_field : Key → Text → Option Text → Contents → Contents
set_field k f v c = record c { hashes = put k (mark f v (c.hashes k)) c.hashes }

-- RPOP, and RPOPLPUSH: the element at the tail.
abbrev pub popped : Option (List Text × Text) → Option Text
popped none = none
popped (some (_, v)) = some v

abbrev pub pop_tail : Key → Option (List Text × Text) → Contents → Contents
pop_tail k none c = c
pop_tail k (some (rest, _)) c = set_list k rest c

abbrev pub move_tail : Key → Key → Option (List Text × Text) → Contents → Contents
move_tail k j none c = c
move_tail k j (some (rest, v)) c = let c' = set_list k rest c in set_list j (v ∷ c'.lists j) c'

abbrev pub find_field : Text → List (Text × Text) → Option Text
find_field f [] = none
find_field f ((g, v) ∷ m) = if text_eq g f then some v else find_field f m

pub record Redis (D : Type 0) : Type 0 where
  pub contents : D → Contents
  pub lpush : Key → Text → D → ℕ × D
  pub rpoplpush : Key → Key → D → Option Text × D
  pub rpop : Key → D → Option Text × D
  pub lrem : Key → Text → D → ℕ × D
  pub sadd : Key → Text → D → ℕ × D
  pub srem : Key → Text → D → ℕ × D
  pub hset : Key → Text → Text → D → ℕ × D
  pub hdel : Key → Text → D → ℕ × D
  pub lrange : Key → D → List Text
  pub hgetall : Key → D → List (Text × Text)
  pub llen : Key → D → ℕ
  pub scard : Key → D → ℕ
  pub lpush_law :
      (k : Key) (v : Text) (d : D)
      → contents (lpush k v d).1 ≡ set_list k (v ∷ (contents d).lists k) (contents d)
  pub rpoplpush_law :
      (k j : Key) (d : D)
      → contents (rpoplpush k j d).1 ≡ move_tail k j (unsnoc ((contents d).lists k)) (contents d)
  pub rpoplpush_reply :
      (k j : Key) (d : D) → (rpoplpush k j d).0 ≡ popped (unsnoc ((contents d).lists k))
  pub rpop_law :
      (k : Key) (d : D)
      → contents (rpop k d).1 ≡ pop_tail k (unsnoc ((contents d).lists k)) (contents d)
  pub rpop_reply : (k : Key) (d : D) → (rpop k d).0 ≡ popped (unsnoc ((contents d).lists k))
  pub lrem_law :
      (k : Key) (v : Text) (d : D)
      → contents (lrem k v d).1 ≡ set_list k (erase v ((contents d).lists k)) (contents d)
  pub lrem_reply :
      (k : Key) (v : Text) (d : D)
      → (lrem k v d).0 ≡ (if holds v ((contents d).lists k) then 1 else 0)
  pub sadd_law :
      (k : Key) (v : Text) (d : D) → contents (sadd k v d).1 ≡ set_member k v true (contents d)
  pub sadd_reply :
      (k : Key) (v : Text) (d : D) → (sadd k v d).0 ≡ (if (contents d).sets k v then 0 else 1)
  pub srem_law :
      (k : Key) (v : Text) (d : D) → contents (srem k v d).1 ≡ set_member k v false (contents d)
  pub hset_law :
      (k : Key) (f v : Text) (d : D)
      → contents (hset k f v d).1 ≡ set_field k f (some v) (contents d)
  pub hdel_law :
      (k : Key) (f : Text) (d : D) → contents (hdel k f d).1 ≡ set_field k f none (contents d)
  pub lrange_reply : (k : Key) (d : D) → lrange k d ≡ (contents d).lists k
  pub llen_reply : (k : Key) (d : D) → llen k d ≡ length ((contents d).lists k)
  pub hgetall_reply :
      (k : Key) (f : Text) (d : D) → find_field f (hgetall k d) ≡ (contents d).hashes k f

-- A command is answered, does not reach the server, or runs and its reply is lost.
pub data Delivery : Type 0 where
  answered refused lost : Delivery

pub record Conn (D : Type 0) : Type 0 where
  pub db : D
  pub net : ℕ → Delivery
  pub sent : ℕ
