-- ===== src/Store/Rules.antt =====
-- Taking apart what a chain of session steps returned or raised, and steps that leave the committed
-- tables alone.
use agenticqueue.Base.{
  ℕ, ◌≡◌, refl, sym, ap, subst, ◌∙◌, ◌⊎◌, inl, inr, List, Error, Result, ok, err,
}
use agenticqueue.Store.{
  Db, Session, AuditRow, Exec, continue, ◌>>=◌, pure, raise, reads, writes, new_id, write_audit,
}

module _ {A B : Type 0} (f : A → Exec B) (s' : Session) where
  continue-ok :
      (r : Result A) (t : Session) {b : B}
      → continue r f t ≡ (ok b, s')
      → (a : A) × (u : Session) × (◌≡◌ {A = Result A × Session} (r, t) (ok a, u))
        × (f a u ≡ (ok b, s'))
  continue-ok (ok a) t h = (a, t, refl, h)
  continue-ok (err e) t h = let h' = ap (λ (x : Result B × Session). x.0) h in cc

  continue-err :
      (r : Result A) (t : Session) {e : Error}
      → continue r f t ≡ (err e, s')
      → (◌≡◌ {A = Result A × Session} (r, t) (err e, s'))
        ⊎ ((a : A) × (u : Session) × (◌≡◌ {A = Result A × Session} (r, t) (ok a, u))
            × (f a u ≡ (err e, s')))
  continue-err (ok a) t h = inr (a, t, refl, h)
  continue-err (err q) t {e} h = inl (λ i. (same_error i, (h i).1))
    where
      same_error : ◌≡◌ {A = Result A} (err q) (err e)
      same_error = let h' = ap (λ (x : Result B × Session). x.0) h in cc

module _ {A B : Type 0} (m : Exec A) (f : A → Exec B) (s s' : Session) where
  -- A chain that returned went through both of its parts.
  pub >>=-ok :
      {b : B}
      → (m >>= f) s ≡ (ok b, s')
      → (a : A) × (t : Session) × (m s ≡ (ok a, t)) × (f a t ≡ (ok b, s'))
  unfolding ◌>>=◌
  >>=-ok h = continue-ok f s' (m s).0 (m s).1 h

  -- A chain that raised did so in its first part, or in its second.
  pub >>=-err :
      {e : Error}
      → (m >>= f) s ≡ (err e, s')
      → (m s ≡ (err e, s')) ⊎ ((a : A) × (t : Session) × (m s ≡ (ok a, t)) × (f a t ≡ (err e, s')))
  unfolding ◌>>=◌
  >>=-err h = continue-err f s' (m s).0 (m s).1 h

-- A chain whose first part returned goes on with the rest.
pub >>=-run :
    {A B : Type 0} (m : Exec A) (f : A → Exec B) (s t : Session) {a : A}
    → m s ≡ (ok a, t)
    → (m >>= f) s ≡ f a t
unfolding ◌>>=◌
>>=-run m f s t h = rw h refl

-- A read returns what its test returned, and changes nothing.
pub reads-ok :
    {A : Type 0} (f : Db → Result A) (s s' : Session) {a : A}
    → reads f s ≡ (ok a, s')
    → (f s.working ≡ ok a) × (s' ≡ s)
unfolding reads
reads-ok f s s' h = (ap (λ x. x.0) h, sym (ap (λ x. x.1) h))

-- A read that raises changes nothing.
pub reads-err :
    {A : Type 0} (f : Db → Result A) (s s' : Session) {e : Error} → reads f s ≡ (err e, s') → s' ≡ s
unfolding reads
reads-err f s s' h = sym (ap (λ x. x.1) h)

-- A chain that raised after a read raised in the session it began in, or in the rest.
pub reads->>=-err :
    {A B : Type 0} (f : Db → Result A) (k : A → Exec B) (s s' : Session) {e : Error}
    → (reads f >>= k) s ≡ (err e, s')
    → (s' ≡ s) ⊎ ((a : A) × (f s.working ≡ ok a) × (k a s ≡ (err e, s')))
reads->>=-err f k s s' {e} h = elim (>>=-err (reads f) k s s' h) [
  | inl stopped ↦ inl (reads-err f s s' stopped)
  | inr (a, t, first_step, rest) ↦
      let (value, same) = reads-ok f s t first_step in
      inr (a, value, subst (λ u. k a u ≡ (err e, s')) same rest)
]

pub writes-ok :
    (f : Db → Db) (s s' : Session) {u : Unit {0}}
    → writes f s ≡ (ok u, s')
    → s' ≡ record s { working = f s.working }
unfolding writes
writes-ok f s s' h = sym (ap (λ x. x.1) h)

-- What a successful read is bound to, and the rest of the chain in the same session.
pub reads->>=-ok :
    {A B : Type 0} (f : Db → Result A) (k : A → Exec B) (s s' : Session) {b : B}
    → (reads f >>= k) s ≡ (ok b, s')
    → (a : A) × (f s.working ≡ ok a) × (k a s ≡ (ok b, s'))
reads->>=-ok f k s s' {b} h =
    let (a, t, first_step, rest) = >>=-ok (reads f) k s s' h in
    let (value, same) = reads-ok f s t first_step in
    (a, value, subst (λ u. k a u ≡ (ok b, s')) same rest)

-- The step leaves what `view` shows of the session alone, whether it returns or raises.
pub record Keeps {X A : Type 0} (view : Session → X) (m : Exec A) : Type 0 where
  pub at : (s : Session) → view (m s).1 ≡ view s

module _ {X A : Type 0} (view : Session → X) where
  pub Keeps-pure : (a : A) → Keeps view (pure a)
  unfolding pure
  Keeps-pure a = record { at = λ s. refl }

  pub Keeps-raise : (e : Error) → Keeps view (raise {A = A} e)
  unfolding raise
  Keeps-raise e = record { at = λ s. refl }

  pub Keeps-reads : (f : Db → Result A) → Keeps view (reads f)
  unfolding reads
  Keeps-reads f = record { at = λ s. refl }

module _ {X : Type 0} (view : Session → X) where
  pub Keeps-writes :
      (f : Db → Db)
      → ((s : Session) → view (record s { working = f s.working }) ≡ view s)
      → Keeps view (writes f)
  unfolding writes
  Keeps-writes f k = record { at = k }

  continue-Keeps :
      {A B : Type 0} (f : A → Exec B) (r : Result A) (t : Session)
      → ((a : A) → Keeps view (f a))
      → view (continue r f t).1 ≡ view t
  continue-Keeps f (ok a) t k = (k a).at t
  continue-Keeps f (err e) t k = refl

  pub Keeps->>= :
      {A B : Type 0} (m : Exec A) (f : A → Exec B)
      → Keeps view m
      → ((a : A) → Keeps view (f a))
      → Keeps view (m >>= f)
  unfolding ◌>>=◌
  Keeps->>= m f km kf = record { at = λ s. continue-Keeps f (m s).0 (m s).1 kf ∙ km.at s }

  pub Keeps-new_id :
      ((s : Session) (n : ℕ) → view (record s { fresh = n }) ≡ view s) → Keeps view new_id
  unfolding new_id
  Keeps-new_id k = record { at = λ s. k s _ }

  pub Keeps-write_audit :
      (row : AuditRow)
      → ((s : Session) (rows : List AuditRow)
          → view (record s { working = record s.working { audit = rows } }) ≡ view s)
      → Keeps view (write_audit row)
  unfolding write_audit
  Keeps-write_audit row k = record { at = λ s. k s _ }

  -- What a step that keeps it has left, when the step's outcome is known.
  pub Keeps-after :
      {A : Type 0} (m : Exec A) (s s' : Session) {r : Result A}
      → Keeps view m
      → m s ≡ (r, s')
      → view s' ≡ view s
  Keeps-after m s s' k h = sym (ap (λ x. view x.1) h) ∙ k.at s
