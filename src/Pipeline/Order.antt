-- ===== src/Pipeline/Order.antt =====
-- app/definition/_ressource.py, _stack_callback: which callbacks stand inside of which.
use notifyr.Base.{
  ℕ, ◌≤◌, ◌≡◌, refl, ◌∙◌, sym, ap, ◌⊎◌, inl, inr, true, if◌then◌else◌, List, [], ◌∷◌, arith, leb,
  leb→le, keep, All, Bool-cases,
}
use notifyr.Pipeline.{Callback, insert_callback, sort_callbacks, apply_callbacks, stack_callback}

module _ {E : Type 0} where
  -- the callbacks of at most a priority
  abbrev pub up_to : ℕ → List (Callback E) → List (Callback E)
  up_to p = keep (λ c. leb c.priority p)

  -- from the highest priority to the lowest
  abbrev IsFalling : List (Callback E) → Type 0
  IsFalling [] = Unit
  IsFalling (c ∷ cs) = All (λ d. d.priority ≤ c.priority) cs × IsFalling cs

  -- One of the callbacks ignores what it is put around.
  abbrev pub Blocks : ℕ → List (Callback E) → Type 0
  Blocks p [] = ⊥
  Blocks p (c ∷ cs) = ((c.priority ≡ p) × ((f g : E) → c.wrapper f ≡ c.wrapper g)) ⊎ Blocks p cs

  All-insert :
      (n : ℕ) (c : Callback E) (cs : List (Callback E))
      → c.priority ≤ n
      → All (λ d. d.priority ≤ n) cs
      → All (λ d. d.priority ≤ n) (insert_callback c cs)
  All-insert n c [] h k = (h, tt)
  All-insert n c (d ∷ ds) h k = elim (Bool-cases (leb d.priority c.priority)) [
    | inl e ↦ rw e (h, k)
    | inr e ↦ rw e (k.0, All-insert n c ds h k.1)
  ]

  All-trans :
      (n m : ℕ) (cs : List (Callback E))
      → n ≤ m
      → All (λ d. d.priority ≤ n) cs
      → All (λ d. d.priority ≤ m) cs
  All-trans n m [] h k = tt
  All-trans n m (c ∷ cs) h k = (omega (arith, k.0), All-trans n m cs h k.1)

  insert-IsFalling :
      (c : Callback E) (cs : List (Callback E)) → IsFalling cs → IsFalling (insert_callback c cs)
  insert-IsFalling c [] h = (tt, tt)
  insert-IsFalling c (d ∷ ds) h = elim (Bool-cases (leb d.priority c.priority)) [
    | inl e ↦
        let le = leb→le d.priority c.priority e in
        rw e ((le, All-trans d.priority c.priority ds le h.0), h)
    | inr e ↦ rw e (All-insert d.priority c ds (ground arith) h.0, insert-IsFalling c ds h.1)
  ]

  sort-IsFalling : (cs : List (Callback E)) → IsFalling (sort_callbacks cs)
  sort-IsFalling [] = tt
  sort-IsFalling (c ∷ cs) = insert-IsFalling c (sort_callbacks cs) (sort-IsFalling cs)

  insert-Blocks :
      (p : ℕ) (c : Callback E) (cs : List (Callback E))
      → Blocks p (c ∷ cs)
      → Blocks p (insert_callback c cs)
  insert-Blocks p c [] h = h
  insert-Blocks p c (d ∷ ds) h = elim (Bool-cases (leb d.priority c.priority)) [
    | inl e ↦ rw e h
    | inr e ↦ rw e (pass (insert-Blocks p c ds) h)
  ]
    where
      pass :
          (Blocks p (c ∷ ds) → Blocks p (insert_callback c ds))
          → Blocks p (c ∷ d ∷ ds)
          → Blocks p (d ∷ insert_callback c ds)
      pass rest (inl here) = inr (rest (inl here))
      pass rest (inr (inl there)) = inl there
      pass rest (inr (inr later)) = inr (rest (inr later))

  sort-Blocks : (p : ℕ) (cs : List (Callback E)) → Blocks p cs → Blocks p (sort_callbacks cs)
  sort-Blocks p [] h = h
  sort-Blocks p (c ∷ cs) (inl h) = insert-Blocks p c (sort_callbacks cs) (inl h)
  sort-Blocks p (c ∷ cs) (inr h) = insert-Blocks p c (sort_callbacks cs) (inr (sort-Blocks p cs h))

  up_to-insert :
      (p : ℕ) (c : Callback E) (cs : List (Callback E))
      → up_to p (insert_callback c cs)
        ≡ (if leb c.priority p then insert_callback c (up_to p cs) else up_to p cs)
  up_to-insert p c [] = ground arith
  up_to-insert p c (d ∷ ds) = ground (arith, up_to-insert p c ds)

  up_to-sort :
      (p : ℕ) (cs : List (Callback E)) → up_to p (sort_callbacks cs) ≡ sort_callbacks (up_to p cs)
  up_to-sort p [] = refl
  up_to-sort p (c ∷ cs) = elim (Bool-cases (leb c.priority p)) [
    | inl e ↦ up_to-insert p c (sort_callbacks cs) ∙ rw e (ap (insert_callback c) (up_to-sort p cs))
    | inr e ↦ up_to-insert p c (sort_callbacks cs) ∙ rw e (up_to-sort p cs)
  ]

  up_to-All : (p : ℕ) (cs : List (Callback E)) → All (λ d. d.priority ≤ p) cs → up_to p cs ≡ cs
  up_to-All p [] h = refl
  up_to-All p (c ∷ cs) h = ground (arith, up_to-All p cs h.1, h.0)

  apply-blocked :
      (p : ℕ) (cs : List (Callback E)) (f g : E)
      → IsFalling cs
      → Blocks p cs
      → apply_callbacks cs f ≡ apply_callbacks (up_to p cs) g
  apply-blocked p [] f g s b = absurd b
  apply-blocked p (c ∷ cs) f g s (inl b) =
      let rest : up_to p cs ≡ cs = up_to-All p cs (rw (sym b.0) s.0) in
      let here : leb c.priority p ≡ true = ground (arith, b.0) in
      rw here (rw rest (ap (apply_callbacks cs) (b.1 f g)))
  apply-blocked p (c ∷ cs) f g s (inr b) = elim (Bool-cases (leb c.priority p)) [
    | inl e ↦ rw e (apply-blocked p cs (c.wrapper f) (c.wrapper g) s.1 b)
    | inr e ↦ rw e (apply-blocked p cs (c.wrapper f) g s.1 b)
  ]

  -- Where a callback of priority p ignores what it is put around, nothing that happens depends on
  -- the endpoint, or on the callbacks with a priority above p.
  pub stack_callback-blocked :
      (p : ℕ) (cs : List (Callback E)) (f g : E)
      → Blocks p cs
      → stack_callback cs f ≡ stack_callback (up_to p cs) g
  unfolding stack_callback
  stack_callback-blocked p cs f g h =
      apply-blocked p (sort_callbacks cs) f g (sort-IsFalling cs) (sort-Blocks p cs h)
      ∙ ap (λ s. apply_callbacks s g) (up_to-sort p cs)
