-- ===== src/Jobs/Exec.antt =====
-- Methods of a stateful object that may raise. What a method wrote before it raised stays written,
-- so the state comes back beside the error too. One rule for each step: what holds of every
-- outcome of the step and of the rest of the method holds of the whole.
use veri_doc.Prelude.{◌≡◌, refl, Bool, true, false}
use veri_doc.Jobs.Record.{Error, Result, ok, err}

abbrev pub Exec : Type 0 → Type 0 → Type 0
Exec S A = S → Result A × S

module _ {S A : Type 0} where
  unfoldable pub return : A → Exec S A
  return a s = (ok a, s)

  unfoldable pub raise : Error → Exec S A
  raise e s = (err e, s)

  unfoldable pub gets : (S → A) → Exec S A
  gets f s = (ok (f s), s)

  unfoldable pub lift : Result A → Exec S A
  lift r s = (r, s)

module _ {S : Type 0} where
  unfoldable pub modify : (S → S) → Exec S (Unit {0})
  modify f s = (ok tt, f s)

  -- if b: raise e
  unfoldable pub raise_if : Bool → Error → Exec S (Unit {0})
  raise_if true e s = (err e, s)
  raise_if false e s = (ok tt, s)

  -- if b: m
  unfoldable pub when : Bool → Exec S (Unit {0}) → Exec S (Unit {0})
  when true m s = m s
  when false m s = (ok tt, s)

module _ {S A : Type 0} where
  -- if b: m else: n
  unfoldable pub choose : Bool → Exec S A → Exec S A → Exec S A
  choose true m n s = m s
  choose false m n s = n s

module _ {S A B : Type 0} where
  abbrev pub resume : Result A → (A → Exec S B) → Exec S B
  resume (ok a) f s = f a s
  resume (err e) f s = (err e, s)

  infixl 5 ◌>>=◌ ◌>>◌
  -- Opening this opens every step above.
  unfoldable pub ◌>>=◌ : Exec S A → (A → Exec S B) → Exec S B
  unfolding return raise gets lift modify raise_if when choose
  ◌>>=◌ m f s = resume (m s).0 f (m s).1

  abbrev pub ◌>>◌ : Exec S A → Exec S B → Exec S B
  m >> n = m >>= λ _. n

module _ {S A B C : Type 0} where
  assoc_outcome :
      (r : Result A) (s : S) (f : A → Exec S B) (g : B → Exec S C)
      → resume (resume r f s).0 g (resume r f s).1 ≡ resume r (λ a. f a >>= g) s
  unfolding ◌>>=◌
  assoc_outcome (ok a) s f g = refl
  assoc_outcome (err e) s f g = refl

  pub bind_assoc :
      (m : Exec S A) (f : A → Exec S B) (g : B → Exec S C) (s : S)
      → (m >>= f >>= g) s ≡ (m >>= λ a. f a >>= g) s
  unfolding ◌>>=◌
  bind_assoc m f g s = assoc_outcome (m s).0 (m s).1 f g

module _ {S A B : Type 0} (Q : Result B × S → Type 0) where
  pub return_rule : (a : A) (f : A → Exec S B) (s : S) → Q (f a s) → Q ((return a >>= f) s)
  unfolding ◌>>=◌
  return_rule a f s h = h

  pub gets_rule : (g : S → A) (f : A → Exec S B) (s : S) → Q (f (g s) s) → Q ((gets g >>= f) s)
  unfolding ◌>>=◌
  gets_rule g f s h = h

  lift_outcome :
      (r : Result A) (f : A → Exec S B) (s : S)
      → ((e : Error) → r ≡ err e → Q (err e, s))
      → ((a : A) → r ≡ ok a → Q (f a s))
      → Q (resume r f s)
  lift_outcome (ok a) f s fails goes = goes a refl
  lift_outcome (err e) f s fails goes = fails e refl

  pub lift_rule :
      (r : Result A) (f : A → Exec S B) (s : S)
      → ((e : Error) → r ≡ err e → Q (err e, s))
      → ((a : A) → r ≡ ok a → Q (f a s))
      → Q ((lift r >>= f) s)
  unfolding ◌>>=◌
  lift_rule r f s fails goes = lift_outcome r f s fails goes

module _ {S B : Type 0} (Q : Result B × S → Type 0) where
  pub end_rule : (b : B) (s : S) → Q (ok b, s) → Q (return b s)
  unfolding return
  end_rule b s h = h

  pub raise_rule : (e : Error) (s : S) → Q (err e, s) → Q (raise e s)
  unfolding raise
  raise_rule e s h = h

  pub modify_rule :
      (g : S → S) (f : Unit {0} → Exec S B) (s : S) → Q (f tt (g s)) → Q ((modify g >>= f) s)
  unfolding ◌>>=◌
  modify_rule g f s h = h

  pub raise_if_rule :
      (b : Bool) (e : Error) (f : Unit {0} → Exec S B) (s : S)
      → (b ≡ true → Q (err e, s))
      → (b ≡ false → Q (f tt s))
      → Q ((raise_if b e >>= f) s)
  unfolding ◌>>=◌
  raise_if_rule true e f s fails goes = fails refl
  raise_if_rule false e f s fails goes = goes refl

  pub when_rule :
      (b : Bool) (m : Exec S (Unit {0})) (f : Unit {0} → Exec S B) (s : S)
      → (b ≡ true → Q ((m >>= f) s))
      → (b ≡ false → Q (f tt s))
      → Q ((when b m >>= f) s)
  unfolding ◌>>=◌
  when_rule true m f s does skips = does refl
  when_rule false m f s does skips = skips refl

  pub choose_rule :
      (b : Bool) (m n : Exec S B) (s : S)
      → (b ≡ true → Q (m s))
      → (b ≡ false → Q (n s))
      → Q (choose b m n s)
  unfolding choose
  choose_rule true m n s does others = does refl
  choose_rule false m n s does others = others refl
