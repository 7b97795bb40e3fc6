-- ===== src/RedisQueue/Stand.antt =====
-- A server and a codec that meet the laws: the tests run the client over them.
use mathlib.Core.Path.{fun_ext}
use native.Mathlib.Decide.{ℕ_discrete}
use goods_hunter.Base.{
  ◌≡◌, refl, ◌∙◌, sym, ap, Bool, true, false, List, [], ◌∷◌, Option, none, some, if◌then◌else◌,
  unsnoc, length, arith,
}
use goods_hunter.Base.Int.{pos}
use goods_hunter.Base.Text.{Text, text_eq, text_eq_iff}
use goods_hunter.Redis.{
  Redis, Contents, Key, put, mark, find_field, erase, holds, pop_tail, move_tail, popped,
}
use goods_hunter.RedisQueue.Types.{FetchRequest, FetchResponse, Codec}

pub record Server : Type 0 where
  pub lists : Key → List Text
  pub sets : Key → Text → Bool
  pub hashes : Key → List (Text × Text)

abbrev pub drop_field : Text → List (Text × Text) → List (Text × Text)
drop_field f [] = []
drop_field f ((g, v) ∷ m) = if text_eq g f then drop_field f m else (g, v) ∷ drop_field f m

abbrev pub contents_of : Server → Contents
contents_of s = record { lists = s.lists; sets = s.sets; hashes = λ k f. find_field f (s.hashes k) }

abbrev pub of_lists : Contents → Server → Server
of_lists c s = record s { lists = c.lists; sets = c.sets }

find_field-drop_field :
    (f g : Text) (m : List (Text × Text))
    → find_field g (drop_field f m) ≡ (if text_eq f g then none else find_field g m)
find_field-drop_field f g [] = ground arith
find_field-drop_field f g ((h, v) ∷ m) =
    ground (arith, find_field-drop_field f g m, text_eq_iff h f, text_eq_iff h g, text_eq_iff f g)

pub hset_hashes :
    (k : Key) (f v : Text) (s : Server)
    → (λ j g. find_field g (put k ((f, v) ∷ s.hashes k) s.hashes j))
      ≡ put k (mark f (some v) (λ g. find_field g (s.hashes k))) (λ j g. find_field g (s.hashes j))
hset_hashes k f v s = fun_ext λ j. fun_ext λ g. ground arith

pub hdel_hashes :
    (k : Key) (f : Text) (s : Server)
    → (λ j g. find_field g (put k (drop_field f (s.hashes k)) s.hashes j))
      ≡ put k (mark f none (λ g. find_field g (s.hashes k))) (λ j g. find_field g (s.hashes j))
hdel_hashes k f s = fun_ext λ j. fun_ext λ g. ground (arith, find_field-drop_field f g (s.hashes k))

pub contents-pop_tail :
    (k : Key) (o : Option (List Text × Text)) (s : Server)
    → contents_of (of_lists (pop_tail k o (contents_of s)) s) ≡ pop_tail k o (contents_of s)
contents-pop_tail k none s = refl
contents-pop_tail k (some (rest, v)) s = refl

pub contents-move_tail :
    (k j : Key) (o : Option (List Text × Text)) (s : Server)
    → contents_of (of_lists (move_tail k j o (contents_of s)) s) ≡ move_tail k j o (contents_of s)
contents-move_tail k j none s = refl
contents-move_tail k j (some (rest, v)) s = refl

abbrev pub server : Redis Server
server = record {
  contents = contents_of;
  lpush = λ k v s. (0, record s { lists = put k (v ∷ s.lists k) s.lists });
  rpoplpush = λ k j s. (
    popped (unsnoc (s.lists k)),
    of_lists (move_tail k j (unsnoc (s.lists k)) (contents_of s)) s,
  );
  rpop = λ k s.
      (popped (unsnoc (s.lists k)), of_lists (pop_tail k (unsnoc (s.lists k)) (contents_of s)) s);
  lrem = λ k v s. (
    if holds v (s.lists k) then 1 else 0,
    record s { lists = put k (erase v (s.lists k)) s.lists },
  );
  sadd = λ k v s.
      (if s.sets k v then 0 else 1, record s { sets = put k (mark v true (s.sets k)) s.sets });
  srem = λ k v s. (0, record s { sets = put k (mark v false (s.sets k)) s.sets });
  hset = λ k f v s. (0, record s { hashes = put k ((f, v) ∷ s.hashes k) s.hashes });
  hdel = λ k f s. (0, record s { hashes = put k (drop_field f (s.hashes k)) s.hashes });
  lrange = λ k s. s.lists k;
  hgetall = λ k s. s.hashes k;
  llen = λ k s. length (s.lists k);
  scard = λ k s. 0;
  lpush_law = λ k v d. refl;
  rpoplpush_law = λ k j d. contents-move_tail k j (unsnoc (d.lists k)) d;
  rpoplpush_reply = λ k j d. refl;
  rpop_law = λ k d. contents-pop_tail k (unsnoc (d.lists k)) d;
  rpop_reply = λ k d. refl;
  lrem_law = λ k v d. refl;
  lrem_reply = λ k v d. refl;
  sadd_law = λ k v d. refl;
  sadd_reply = λ k v d. refl;
  srem_law = λ k v d. refl;
  hset_law = λ k f v d. ap (λ h. record (contents_of d) { hashes = h }) (hset_hashes k f v d);
  hdel_law = λ k f d. ap (λ h. record (contents_of d) { hashes = h }) (hdel_hashes k f d);
  lrange_reply = λ k d. refl;
  llen_reply = λ k d. refl;
  hgetall_reply = λ k f d. refl;
}

abbrev pub empty_server : Server
empty_server = record { lists = λ _. []; sets = λ _ _. false; hashes = λ _. [] }

-- A codec for the requests and results that have no more than an id.
abbrev pub plain : Text → FetchRequest
plain id = record {
  task_id = id;
  platform = pos 1;
  keyword = [];
  min_price = pos 0;
  max_price = pos 0;
  exclude_keywords = [];
  only_on_sale = true;
  sort = pos 0;
  order = pos 0;
  created_at = pos 0;
}

abbrev pub plain_result : Text → FetchResponse
plain_result id = record { items = []; error_message = []; task_id = id }

FetchRequest-discrete : Discrete FetchRequest
FetchRequest-discrete = hlevel ℕ_discrete

FetchResponse-discrete : Discrete FetchResponse
FetchResponse-discrete = hlevel ℕ_discrete

-- The id, if the two are one.
unfoldable pub choose : {A : Type 0} {a b : A} → Dec (a ≡ b) → Text → Option Text
choose (yes p) id = some id
choose (no p) id = none

pub choose_self : {A : Type 0} {a : A} (d : Dec (a ≡ a)) (id : Text) → choose d id ≡ some id
unfolding choose
choose_self (yes p) id = refl
choose_self (no p) id = absurd (p refl)

pub choose-inverse :
    {A : Type 0} {a b : A} (d : Dec (a ≡ b)) (id raw : Text)
    → choose d id ≡ some raw
    → (a ≡ b) × (id ≡ raw)
unfolding choose
choose-inverse (yes p) id raw e = (p, cc)
choose-inverse (no p) id raw e = absurd (cc)

pub marshal_plain : FetchRequest → Option Text
marshal_plain t = choose (FetchRequest-discrete t (plain t.task_id)) t.task_id

pub marshal_plain_result : FetchResponse → Option Text
marshal_plain_result t = choose (FetchResponse-discrete t (plain_result t.task_id)) t.task_id

pub marshal-plain : (id : Text) → marshal_plain (plain id) ≡ some id
unfolding marshal_plain
marshal-plain id = choose_self (FetchRequest-discrete (plain id) (plain id)) id

pub marshal-plain_result : (id : Text) → marshal_plain_result (plain_result id) ≡ some id
unfolding marshal_plain_result
marshal-plain_result id =
    choose_self (FetchResponse-discrete (plain_result id) (plain_result id)) id

pub plain_law : (t : FetchRequest) (raw : Text) → marshal_plain t ≡ some raw → plain raw ≡ t
unfolding marshal_plain
plain_law t raw e =
    let (p, q) = choose-inverse (FetchRequest-discrete t (plain t.task_id)) t.task_id raw e in
    ap plain (sym q) ∙ sym p

pub plain_result_law :
    (t : FetchResponse) (raw : Text) → marshal_plain_result t ≡ some raw → plain_result raw ≡ t
unfolding marshal_plain_result
plain_result_law t raw e =
    let (p, q) =
      choose-inverse (FetchResponse-discrete t (plain_result t.task_id)) t.task_id raw e in
    ap plain_result (sym q) ∙ sym p

pub plain_mentions :
    (t : FetchRequest) (raw id : Text)
    → marshal_plain t ≡ some raw
    → text_eq raw id ≡ text_eq t.task_id id
plain_mentions t raw id e = ap (λ (u : FetchRequest). text_eq u.task_id id) (plain_law t raw e)

abbrev pub plain_codec : Codec
plain_codec = record {
  marshal_task = marshal_plain;
  unmarshal_task = λ raw. some (plain raw);
  marshal_result = marshal_plain_result;
  unmarshal_result = λ raw. some (plain_result raw);
  mentions = text_eq;
  task_law = λ t raw e. ap some (plain_law t raw e);
  result_law = λ t raw e. ap some (plain_result_law t raw e);
  mentions_law = λ t raw id e full digits. plain_mentions t raw id e;
}
