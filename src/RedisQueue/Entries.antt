-- ===== src/RedisQueue/Entries.antt =====
-- Lists of queue entries: which ids they hold, and how the commands change that.
use goods_hunter.Base.{
  ◌≡◌, refl, ◌∙◌, sym, ap, subst, Bool, true, false, ◌||◌, List, [], ◌∷◌, Option, none, some,
  unsnoc, any, All, arith, Bool-cases, Option-cases, inl, inr,
}
use goods_hunter.Base.Text.{Text, is_empty, text_eq, text_eq_iff}
use goods_hunter.Redis.{erase, holds}
use goods_hunter.RedisQueue.Types.{FetchRequest, Codec, all_digits}
use goods_hunter.RedisQueue.Client.{find_entry}

abbrev pub request_has_id : Text → Option FetchRequest → Bool
request_has_id id none = false
request_has_id id (some task) = text_eq task.task_id id

module _ (codec : Codec) where
  abbrev pub has_id : Text → Text → Bool
  has_id id raw = request_has_id id (codec.unmarshal_task raw)

  -- AckTask's search of the raw text finds the entry's id, and no other id of digits.
  pub record Readable (raw : Text) : Type 0 where
    pub mentions_id :
        (id : Text)
        → is_empty id ≡ false
        → all_digits id ≡ true
        → codec.mentions raw id ≡ has_id id raw

  pub marshal-Readable :
      (t : FetchRequest) (raw : Text) → codec.marshal_task t ≡ some raw → Readable raw
  marshal-Readable t raw e = record {
    mentions_id = λ id full digits.
        codec.mentions_law t raw id e full digits
        ∙ sym (ap (request_has_id id) (codec.task_law t raw e));
  }

  pub marshal-has_id :
      (t : FetchRequest) (raw id : Text)
      → codec.marshal_task t ≡ some raw
      → has_id id raw ≡ text_eq t.task_id id
  marshal-has_id t raw id e = ap (request_has_id id) (codec.task_law t raw e)

  pub find_entry-mentions :
      (id : Text) (l : List Text) (raw : Text)
      → find_entry codec id l ≡ some raw
      → (codec.mentions raw id ≡ true) × (holds raw l ≡ true)
  unfolding find_entry
  find_entry-mentions id [] raw e = cc
  find_entry-mentions id (x ∷ l) raw e =
      ground (arith, find_entry-mentions id l raw, text_eq_iff raw x)

unsnoc-none : (l : List Text) → unsnoc l ≡ none → l ≡ []
unsnoc-none [] e = refl
unsnoc-none (x ∷ l) e = ground arith

pub erase_absent : (raw : Text) (l : List Text) → holds raw l ≡ false → erase raw l ≡ l
erase_absent raw [] h = refl
erase_absent raw (x ∷ l) h = ground (arith, erase_absent raw l, text_eq_iff raw x)

pub request_has_id_unique :
    (o : Option FetchRequest) (id j : Text)
    → request_has_id id o ≡ true
    → text_eq id j ≡ false
    → request_has_id j o ≡ false
request_has_id_unique none id j h e = refl
request_has_id_unique (some t) id j h e =
    ground (arith, text_eq_iff t.task_id id, text_eq_iff t.task_id j, text_eq_iff id j)

module _ (p : Text → Bool) where
  pub any-erase_miss : (raw : Text) (l : List Text) → p raw ≡ false → any p (erase raw l) ≡ any p l
  any-erase_miss raw [] h = refl
  any-erase_miss raw (x ∷ l) h = ground (arith, any-erase_miss raw l h, text_eq_iff raw x)

  pub any-erase_hit :
      (raw : Text) (l : List Text) → holds raw l ≡ true → any p l ≡ (p raw || any p (erase raw l))
  any-erase_hit raw [] h = cc
  any-erase_hit raw (x ∷ l) h = ground (arith, any-erase_hit raw l, text_eq_iff raw x)

  pub any-unsnoc :
      (l rest : List Text) (raw : Text)
      → unsnoc l ≡ some (rest, raw)
      → any p l ≡ (any p rest || p raw)
  any-unsnoc [] rest raw e = cc
  any-unsnoc (x ∷ l) rest raw e = elim (Option-cases (unsnoc l)) [
    | inl e' ↦ ground (arith, unsnoc-none l e')
    | inr ((ys, y), e') ↦ ground (arith, any-unsnoc l ys y e')
  ]

module _ {ℓ} (P : Text → Type ℓ) where
  pub All-erase : (raw : Text) (l : List Text) → All P l → All P (erase raw l)
  All-erase raw [] h = tt
  All-erase raw (x ∷ l) h = elim (Bool-cases (text_eq raw x)) [
    | inl hit ↦ rw hit h.1
    | inr miss ↦ rw miss (h.0, All-erase raw l h.1)
  ]

  pub All-holds : (raw : Text) (l : List Text) → All P l → holds raw l ≡ true → P raw
  All-holds raw [] h e = absurd (cc)
  All-holds raw (x ∷ l) h e = elim (Bool-cases (text_eq raw x)) [
    | inl hit ↦ subst P (sym ((text_eq_iff raw x).0 hit)) h.0
    | inr miss ↦ All-holds raw l h.1 (ground arith)
  ]

  pub All-unsnoc :
      (l rest : List Text) (raw : Text) → unsnoc l ≡ some (rest, raw) → All P l → All P rest × P raw
  All-unsnoc [] rest raw e h = absurd (cc)
  All-unsnoc (x ∷ l) rest raw e h = elim (Option-cases (unsnoc l)) [
    | inl e' ↦
        let found : unsnoc (x ∷ l) ≡ some ([], x) = ground (arith, unsnoc-none l e') in
        let rest_nil : [] ≡ rest = cc in
        let raw_eq : x ≡ raw = cc in (subst (All P) rest_nil tt, subst P raw_eq h.0)
    | inr ((ys, y), e') ↦
        let found : unsnoc (x ∷ l) ≡ some (x ∷ ys, y) = ground arith in
        let rest_eq : x ∷ ys ≡ rest = cc in
        let raw_eq : y ≡ raw = cc in
        let ih = All-unsnoc l ys y e' h.1 in
        (subst (All P) rest_eq (h.0, ih.0), subst P raw_eq ih.1)
  ]
