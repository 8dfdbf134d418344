-- ===== src/Repository/Memory.antt =====
-- A table kept in memory: the assumptions of `IsTable` can be met.
use mathlib.Core.Path.{subst}
use ashan_frp.Base.{
  ℕ, String, ◌≡◌, ◌≢◌, refl, sym, ap, ◌∙◌, Bool, true, false, Option, none, some, List, [], ◌∷◌,
  All, length, eq_iff, Bool-cases, inl, inr, ◌||◌, some_inj, eq_refl, ◌⊎◌,
}
use ashan_frp.Base.{◌==◌, string_eq, if◌then◌else◌}
use ashan_frp.Repository.{Table, IsTable}

pub record Memory (Row : Type 0) : Type 0 where
  pub keys : List String
  pub at : String → Option Row

abbrev pub empty : {Row : Type 0} → Memory Row
empty = record { keys = []; at = λ k. none }

abbrev pub holds : String → List String → Bool
holds k [] = false
holds k (j ∷ js) = j == k || holds k js

module _ {Row : Type 0} (id : Row → String) where
  abbrev own : String → Option Row → Option Row
  own k none = none
  own k (some r) = if id r == k then some r else none

  abbrev row : String → Memory Row → Option Row
  row k m = own k (m.at k)

  abbrev keep : (Row → Bool) → Option Row → List Row → List Row
  keep p none rs = rs
  keep p (some r) rs = if p r then r ∷ rs else rs

  rows : (Row → Bool) → List String → Memory Row → List Row
  rows p [] m = []
  rows p (k ∷ ks) m = keep p (row k m) (rows p ks m)

  abbrev head : List Row → Option Row
  head [] = none
  head (r ∷ rs) = some r

  abbrev put : Row → Memory Row → Memory Row
  put r m = record {
    keys = if holds (id r) m.keys then m.keys else id r ∷ m.keys;
    at = λ k. if k == id r then some r else m.at k;
  }

  abbrev rewrite : (Row → Bool) → (Row → Row) → Option Row → Option Row
  rewrite p f none = none
  rewrite p f (some r) = some (if p r then f r else r)

  -- A key that is taken is refused.
  abbrev create_row : Row → Option Row → Memory Row → Memory Row × Bool
  create_row r none m = (put r m, true)
  create_row r (some q) m = (m, false)

  unfoldable pub memory_table : Table (Memory Row) Row
  unfolding rows
  memory_table = record {
    row = row;
    first = λ p m. head (rows p m.keys m);
    find = λ p before limit m. some (rows p m.keys m);
    save = λ r m. (put r m, true);
    create = λ r m. create_row r (row (id r) m) m;
    update = λ p f m. (record m { at = λ k. rewrite p f (m.at k) }, true);
    affected = λ p m. length (rows p m.keys m);
  }

  abbrev Sound : (Row → Bool) → Memory Row → Row → Type 0
  Sound p m r = (p r ≡ true) × (row (id r) m ≡ some r)

  own-id : (k : String) (o : Option Row) (r : Row) → own k o ≡ some r → id r ≡ k
  own-id k none r e = cc
  own-id k (some q) r e = elim (Bool-cases (id q == k)) [
    | inl same ↦ ap id (sym (some_inj (rw same at e))) ∙ (eq_iff (id q) k).0 same
    | inr other ↦ absurd (cc (rw other at e))
  ]

  keep-Sound :
      (p : Row → Bool) (m : Memory Row) (rs : List Row) (k : String) (o : Option Row)
      → row k m ≡ o
      → All (Sound p m) rs
      → All (Sound p m) (keep p o rs)
  keep-Sound p m rs k none e h = h
  keep-Sound p m rs k (some r) e h = elim (Bool-cases (p r)) [
    | inl kept ↦ rw kept ((kept, rw (own-id k _ r e) e), h)
    | inr left ↦ rw left h
  ]

  rows-Sound : (p : Row → Bool) (ks : List String) (m : Memory Row) → All (Sound p m) (rows p ks m)
  unfolding rows
  rows-Sound p [] m = tt
  rows-Sound p (k ∷ ks) m = keep-Sound p m _ k _ refl (rows-Sound p ks m)

  head-Sound :
      (p : Row → Bool) (m : Memory Row) (rs : List Row) (r : Row)
      → All (Sound p m) rs
      → head rs ≡ some r
      → Sound p m r
  head-Sound p m [] r h e = cc
  head-Sound p m (q ∷ rs) r h e = subst (Sound p m) (some_inj e) h.0

  row-put_other : (r : Row) (m : Memory Row) (k : String) → k ≢ id r → row k (put r m) ≡ row k m
  row-put_other r m k h = elim (Bool-cases (k == id r)) [
    | inl e ↦ absurd (h ((eq_iff k (id r)).0 e))
    | inr e ↦ rw e refl
  ]

  row-put : (r : Row) (m : Memory Row) → row (id r) (put r m) ≡ some r
  row-put r m = simp eq_refl

  row-create_row :
      (r q : Row) (m : Memory Row) (k : String) (o : Option Row)
      → row (id r) m ≡ o
      → row k m ≡ some q
      → row k (create_row r o m).0 ≡ some q
  row-create_row r q m k (some p) e at = at
  row-create_row r q m k none e at = row-put_other r m k (λ same. cc (same, e, at)) ∙ at

  rewrite-row :
      (p : Row → Bool) (f : Row → Row) (k : String) (o : Option Row) (r : Row)
      → ((q : Row) → id (f q) ≡ id q)
      → own k (rewrite p f o) ≡ some r
      → (q : Row) × (own k o ≡ some q) × ((p q ≡ true) × (r ≡ f q) ⊎ (p q ≡ false) × (r ≡ q))
  rewrite-row p f k none r same e = cc
  rewrite-row p f k (some q) r same e = elim (Bool-cases (id q == k)) [
    | inr off ↦ absurd (elim (Bool-cases (p q)) [
      | inl hit ↦ cc (rw (hit, same q, off) at e)
      | inr miss ↦ cc (rw (miss, off) at e)
    ])
    | inl on ↦ (
      q,
      rw on refl,
      elim (Bool-cases (p q)) [
        | inl hit ↦ inl (hit, sym (some_inj (rw (hit, same q, on) at e)))
        | inr miss ↦ inr (miss, sym (some_inj (rw (miss, on) at e)))
      ],
    )
  ]

  own-rewrite :
      (p : Row → Bool) (f : Row → Row) (k : String) (o : Option Row) (q : Row)
      → ((q : Row) → id (f q) ≡ id q)
      → own k o ≡ some q
      → (r : Row) × (own k (rewrite p f o) ≡ some r)
  own-rewrite p f k none q same e = absurd (cc)
  own-rewrite p f k (some o) q same e = elim (Bool-cases (id o == k)) [
    | inr off ↦ absurd (cc (rw off at e))
    | inl on ↦ elim (Bool-cases (p o)) [
      | inl hit ↦ (f o, rw (hit, same o, on) refl)
      | inr miss ↦ (o, rw (miss, on) refl)
    ]
  ]

  -- Without times to set.
  stamped :
      {P : Row → Type 0} (f : Row → Row) (stamp : ℕ → ℕ → Row → Row) (r : Row) (p : Row → Bool)
      → ((q : Row) → (c : ℕ) × (u : ℕ) × (stamp c u q ≡ q))
      → (q : Row) × P q × ((p q ≡ true) × (r ≡ f q) ⊎ (p q ≡ false) × (r ≡ q))
      → (q : Row) × P q
        × ((p q ≡ true) × ((c : ℕ) × (u : ℕ) × (r ≡ stamp c u (f q))) ⊎ (p q ≡ false) × (r ≡ q))
  stamped f stamp r p kept (q, h, inl (hit, e)) =
      (q, h, inl (hit, ((kept (f q)).0, (kept (f q)).1, e ∙ sym (kept (f q)).2)))
  stamped f stamp r p kept (q, h, inr (miss, e)) = (q, h, inr (miss, e))

  -- Whatever times a database would set, this one sets none.
  pub memory_table-IsTable :
      (stamp : ℕ → ℕ → Row → Row)
      → ((r : Row) → (c : ℕ) × (u : ℕ) × (stamp c u r ≡ r))
      → IsTable memory_table id stamp
  unfolding memory_table
  memory_table-IsTable stamp kept = record {
    first_sound = λ p s r e. head-Sound p s _ r (rows-Sound p s.keys s) e;
    find_sound =
        λ p before limit s rs e. subst (All (Sound p s)) (some_inj e) (rows-Sound p s.keys s);
    save_other = row-put_other;
    save_failed = λ r s k e. cc;
    save_stored = λ r s e. ((kept r).0, (kept r).1, row-put r s ∙ ap some (sym (kept r).2));
    create_kept = λ r q s k at. row-create_row r q s k (row (id r) s) refl at;
    update_failed = λ p f s k e. cc;
    update_stored =
        λ p f s k r same ok e. stamped f stamp r p kept (rewrite-row p f k (s.at k) r same e);
    update_found = λ p f s k q same ok e. own-rewrite p f k (s.at k) q same e;
  }
