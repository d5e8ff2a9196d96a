-- ===== src/Jobs/Invariant/Order.antt =====
-- The pending deque in the order of its sequence numbers.
use veri_doc.Prelude.{
  String, ◌≡◌, refl, true, false, List, [], ◌∷◌, ◌++◌, Option, none, some, arith, ◌==◌, eq_iff,
  Bool-cases, inl, inr,
}
use veri_doc.Prelude.Int.{ℤ, pos, ◌<ℤ◌}
use veri_doc.Prelude.Dict
use veri_doc.Prelude.Dict.{Dict, get-put, get-remove}
use veri_doc.Prelude.Lists.{contains, remove_first}

abbrev pub or_zero : Option ℤ → ℤ
or_zero none = pos 0
or_zero (some s) = s

abbrev pub sequence_of : Dict ℤ → String → ℤ
sequence_of seqs x = or_zero (Dict.get seqs x)

-- Every listed job has a sequence below `n`.
abbrev pub AllBefore : Dict ℤ → ℤ → List String → Type 0
AllBefore seqs n [] = Unit
AllBefore seqs n (x ∷ xs) = (sequence_of seqs x <ℤ n) × AllBefore seqs n xs

abbrev pub AllAfter : Dict ℤ → ℤ → List String → Type 0
AllAfter seqs n [] = Unit
AllAfter seqs n (x ∷ xs) = (n <ℤ sequence_of seqs x) × AllAfter seqs n xs

abbrev pub Ascending : Dict ℤ → List String → Type 0
Ascending seqs [] = Unit
Ascending seqs (x ∷ xs) = AllAfter seqs (sequence_of seqs x) xs × Ascending seqs xs

pub AllAfter-contains :
    (seqs : Dict ℤ) (n : ℤ) (xs : List String) (x : String)
    → AllAfter seqs n xs
    → contains xs x ≡ true
    → n <ℤ sequence_of seqs x
unfolding contains
AllAfter-contains seqs n [] x h c = ground arith
AllAfter-contains seqs n (y ∷ xs) x h c = ground (arith, eq_iff y x, AllAfter-contains seqs n xs x)

-- The head of an ascending deque stands nowhere else in it.
pub head-not_contains :
    (seqs : Dict ℤ) (x : String) (xs : List String)
    → Ascending seqs (x ∷ xs)
    → contains xs x ≡ false
head-not_contains seqs x xs h = ground (arith, AllAfter-contains seqs (sequence_of seqs x) xs x)

pub remove_first-not_contains :
    (seqs : Dict ℤ) (xs : List String) (a : String)
    → Ascending seqs xs
    → contains (remove_first xs a) a ≡ false
unfolding contains remove_first
remove_first-not_contains seqs [] a h = refl
remove_first-not_contains seqs (x ∷ xs) a h =
    ground
      (arith, eq_iff x a, head-not_contains seqs x xs h, remove_first-not_contains seqs xs a h.1)

module _ (seqs : Dict ℤ) (a : String) (s : ℤ) where
  sequence_of-put_ne :
      (x : String) → (a == x) ≡ false → sequence_of (Dict.put seqs a s) x ≡ sequence_of seqs x
  sequence_of-put_ne x h = ground (arith, get-put seqs a x s)

  AllAfter-put :
      (n : ℤ) (xs : List String)
      → contains xs a ≡ false
      → AllAfter seqs n xs
      → AllAfter (Dict.put seqs a s) n xs
  unfolding contains
  AllAfter-put n [] c h = tt
  AllAfter-put n (x ∷ xs) c h =
      ground (arith, eq_iff x a, eq_iff a x, sequence_of-put_ne x, AllAfter-put n xs)

  -- A new sequence, above all that are there, goes to the end of the deque.
  pub AllBefore-push :
      (n : ℤ) (xs : List String)
      → contains xs a ≡ false
      → AllBefore seqs n xs
      → s <ℤ n
      → AllBefore (Dict.put seqs a s) n (xs ++ a ∷ [])
  unfolding contains
  AllBefore-push n [] c h l = ground (arith, eq_iff a a, get-put seqs a a s)
  AllBefore-push n (x ∷ xs) c h l =
      ground (arith, eq_iff x a, eq_iff a x, sequence_of-put_ne x, AllBefore-push n xs)

  AllAfter-push :
      (n : ℤ) (xs : List String)
      → contains xs a ≡ false
      → AllAfter seqs n xs
      → n <ℤ s
      → AllAfter (Dict.put seqs a s) n (xs ++ a ∷ [])
  unfolding contains
  AllAfter-push n [] c h l = ground (arith, eq_iff a a, get-put seqs a a s)
  AllAfter-push n (x ∷ xs) c h l =
      ground (arith, eq_iff x a, eq_iff a x, sequence_of-put_ne x, AllAfter-push n xs)

  pub Ascending-push :
      (xs : List String)
      → contains xs a ≡ false
      → Ascending seqs xs
      → AllBefore seqs s xs
      → Ascending (Dict.put seqs a s) (xs ++ a ∷ [])
  unfolding contains
  Ascending-push [] c h b = (tt, tt)
  Ascending-push (x ∷ xs) c h b =
      let fresh : (a == x) ≡ false = ground (arith, eq_iff x a, eq_iff a x) in
      let rest : contains xs a ≡ false = ground arith in
      (
        rw (sequence_of-put_ne x fresh) (AllAfter-push (sequence_of seqs x) xs rest h.0 b.0),
        Ascending-push xs rest h.1 b.1,
      )

module _ (seqs : Dict ℤ) (a : String) where
  sequence_of-remove_ne :
      (x : String) → (a == x) ≡ false → sequence_of (Dict.remove seqs a) x ≡ sequence_of seqs x
  sequence_of-remove_ne x h = ground (arith, get-remove seqs a x)

  AllAfter-remove :
      (n : ℤ) (xs : List String)
      → contains xs a ≡ false
      → AllAfter seqs n xs
      → AllAfter (Dict.remove seqs a) n xs
  unfolding contains
  AllAfter-remove n [] c h = tt
  AllAfter-remove n (x ∷ xs) c h =
      ground (arith, eq_iff x a, eq_iff a x, sequence_of-remove_ne x, AllAfter-remove n xs)

  Ascending-remove_other :
      (xs : List String)
      → contains xs a ≡ false
      → Ascending seqs xs
      → Ascending (Dict.remove seqs a) xs
  unfolding contains
  Ascending-remove_other [] c h = tt
  Ascending-remove_other (x ∷ xs) c h =
      let fresh : (a == x) ≡ false = ground (arith, eq_iff x a, eq_iff a x) in
      let rest : contains xs a ≡ false = ground arith in
      (
        rw (sequence_of-remove_ne x fresh) (AllAfter-remove (sequence_of seqs x) xs rest h.0),
        Ascending-remove_other xs rest h.1,
      )

  AllAfter-remove_first :
      (n : ℤ) (xs : List String)
      → Ascending seqs xs
      → AllAfter seqs n xs
      → AllAfter (Dict.remove seqs a) n (remove_first xs a)
  unfolding remove_first
  AllAfter-remove_first n [] o h = tt
  AllAfter-remove_first n (x ∷ xs) o h = elim (Bool-cases (x == a)) [
    | inl same ↦
        rw same
          (AllAfter-remove n xs (rw (← (eq_iff x a).0 same) (head-not_contains seqs x xs o)) h.1)
    | inr other ↦ rw other (
        ground (arith, eq_iff x a, eq_iff a x, sequence_of-remove_ne x, AllAfter-remove_first n xs))
  ]

  -- Taking one job out keeps the order of the others.
  pub Ascending-remove_first :
      (xs : List String) → Ascending seqs xs → Ascending (Dict.remove seqs a) (remove_first xs a)
  unfolding remove_first
  Ascending-remove_first [] h = tt
  Ascending-remove_first (x ∷ xs) h = elim (Bool-cases (x == a)) [
    | inl same ↦
        rw same (
          Ascending-remove_other xs (rw (← (eq_iff x a).0 same) (head-not_contains seqs x xs h))
            h.1)
    | inr other ↦
        let fresh : (a == x) ≡ false = ground (arith, eq_iff x a, eq_iff a x) in
        rw other (
          rw (sequence_of-remove_ne x fresh)
              (AllAfter-remove_first (sequence_of seqs x) xs h.1 h.0),
          Ascending-remove_first xs h.1,
        )
  ]

  AllBefore-remove_other :
      (n : ℤ) (xs : List String)
      → contains xs a ≡ false
      → AllBefore seqs n xs
      → AllBefore (Dict.remove seqs a) n xs
  unfolding contains
  AllBefore-remove_other n [] c h = tt
  AllBefore-remove_other n (x ∷ xs) c h =
      ground (arith, eq_iff x a, eq_iff a x, sequence_of-remove_ne x, AllBefore-remove_other n xs)

  pub AllBefore-remove_first :
      (n : ℤ) (xs : List String)
      → Ascending seqs xs
      → AllBefore seqs n xs
      → AllBefore (Dict.remove seqs a) n (remove_first xs a)
  unfolding remove_first
  AllBefore-remove_first n [] o h = tt
  AllBefore-remove_first n (x ∷ xs) o h = elim (Bool-cases (x == a)) [
    | inl same ↦ rw same (
        AllBefore-remove_other n xs (rw (← (eq_iff x a).0 same) (head-not_contains seqs x xs o))
          h.1)
    | inr other ↦ rw other (
        ground
          (arith, eq_iff x a, eq_iff a x, sequence_of-remove_ne x, AllBefore-remove_first n xs))
  ]

pub AllBefore-weaken :
    (seqs : Dict ℤ) (n m : ℤ) (xs : List String)
    → n <ℤ m
    → AllBefore seqs n xs
    → AllBefore seqs m xs
AllBefore-weaken seqs n m [] l h = tt
AllBefore-weaken seqs n m (x ∷ xs) l h = ground (arith, AllBefore-weaken seqs n m xs)
