-- ===== src/Repository/Parts.antt =====
-- A table that is one part of a database with several.
use ashan_frp.Base.{ℕ, ◌≡◌, sym, ap, ◌∙◌, String}
use ashan_frp.Repository.{Table, IsTable, IsApart}

pub record Part (S M : Type 0) : Type 0 where
  pub get : S → M
  pub put : M → S → S
  pub get-put : (m : M) (s : S) → get (put m s) ≡ m

module _ {S M Row : Type 0} (part : Part S M) (T : Table M Row) where
  unfoldable pub part_table : Table S Row
  part_table = record {
    row = λ k s. T.row k (part.get s);
    first = λ p s. T.first p (part.get s);
    find = λ p before limit s. T.find p before limit (part.get s);
    save = λ r s. let (m, ok) = T.save r (part.get s) in (part.put m s, ok);
    create = λ r s. let (m, ok) = T.create r (part.get s) in (part.put m s, ok);
    update = λ p f s. let (m, ok) = T.update p f (part.get s) in (part.put m s, ok);
    affected = λ p s. T.affected p (part.get s);
  }

  pub part_table-IsTable :
      (id : Row → String) (stamp : ℕ → ℕ → Row → Row)
      → IsTable T id stamp
      → IsTable part_table id stamp
  unfolding part_table
  part_table-IsTable id stamp law = record {
    first_sound = λ p s. law.first_sound p (part.get s);
    find_sound = λ p before limit s. law.find_sound p before limit (part.get s);
    save_other = λ r s k h. ap (T.row k) (part.get-put _ s) ∙ law.save_other r (part.get s) k h;
    save_failed = λ r s k h. ap (T.row k) (part.get-put _ s) ∙ law.save_failed r (part.get s) k h;
    save_stored = λ r s h.
        let (c, u, e) = law.save_stored r (part.get s) h in
        (c, u, ap (T.row (id r)) (part.get-put _ s) ∙ e);
    create_kept =
        λ r q s k at. ap (T.row k) (part.get-put _ s) ∙ law.create_kept r q (part.get s) k at;
    update_failed =
        λ p f s k h. ap (T.row k) (part.get-put _ s) ∙ law.update_failed p f (part.get s) k h;
    update_stored = λ p f s k r same h e.
        law.update_stored p f (part.get s) k r same h (sym (ap (T.row k) (part.get-put _ s)) ∙ e);
    update_found = λ p f s k q same h e.
        let (r, at) = law.update_found p f (part.get s) k q same h e in
        (r, ap (T.row k) (part.get-put _ s) ∙ at);
  }

module _ {S M N Row Other : Type 0} (part : Part S M) (T : Table M Row) (rest : Part S N)
    (U : Table N Other) where
  -- Two parts that do not overlap.
  pub part_table-IsApart :
      ((m : M) (s : S) → rest.get (part.put m s) ≡ rest.get s)
      → IsApart (part_table part T) (part_table rest U)
  unfolding part_table
  part_table-IsApart kept = record {
    save_apart = λ r s k. ap (U.row k) (kept (T.save r (part.get s)).0 s);
    create_apart = λ r s k. ap (U.row k) (kept (T.create r (part.get s)).0 s);
    update_apart = λ p f s k. ap (U.row k) (kept (T.update p f (part.get s)).0 s);
  }
