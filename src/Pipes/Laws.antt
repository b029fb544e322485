-- ===== src/Pipes/Laws.antt =====
-- app/decorators/pipes.py: what the indexes of the contents and the status of a response are.
use notifyr.Base.{
  ℕ, suc, ◌≡◌, refl, ap, ◌≢◌, ◌↔◌, ◌⊎◌, inl, inr, Bool, true, false, ◌&&◌, ◌||◌, if◌then◌else◌,
  Option, none, some, List, [], ◌∷◌, arith, All,
}
use notifyr.Failure.{Result, ok, raise}
use notifyr.TaskKind.{TaskType}
use notifyr.Pipes.{
  index_or, Content, index_contents, content_index_pipe, Manager, offloaded_pipe, set_status_code,
  determine_async, process_result, is_scheduled,
}

-- The content knows its index.
abbrev pub HasIndex : Content → Type 0
HasIndex c = c.index ≢ none

index_contents-HasIndex : (i : ℕ) (cs : List Content) → All HasIndex (index_contents i cs)
unfolding index_contents
index_contents-HasIndex i [] = tt
index_contents-HasIndex i (c ∷ cs) = ((λ h. cc), index_contents-HasIndex (suc i) cs)

index_contents_idem :
    (i j : ℕ) (cs : List Content) → index_contents j (index_contents i cs) ≡ index_contents i cs
unfolding index_contents
index_contents_idem i j [] = refl
index_contents_idem i j (c ∷ cs) =
    ap (λ rest. record c { index = some (index_or i c.index) } ∷ rest)
      (index_contents_idem (suc i) (suc j) cs)

-- Where the task is not split, every content has an index behind ContentIndexPipe, and the pipe
-- changes nothing when it runs again.
pub content_index_pipe_idem :
    (contents : List Content)
    → All HasIndex (content_index_pipe false contents)
      × (content_index_pipe false (content_index_pipe false contents)
          ≡ content_index_pipe false contents)
unfolding content_index_pipe
content_index_pipe_idem contents =
    (index_contents-HasIndex 0 contents, index_contents_idem 0 0 contents)

-- the status of a result
abbrev status_of : {R : Type 0} → Result (Option R × ℕ) → ℕ
status_of (ok (_, status)) = status
status_of (raise _) = 0

abbrev answers : {R : Type 0} → Option R → ℕ → Result (Option R × ℕ)
answers r status = ok (r, status)

created_iff :
    {R : Type 0} (r : Option R) (scheduled has_otp runs_async : Bool)
    → (answers r (if scheduled || (has_otp && runs_async) || runs_async then 201 else 200)
        ≡ answers r 201)
      ↔ ((scheduled ≡ true) ⊎ (runs_async ≡ true))
created_iff r true o b = (λ _. inl refl, λ _. refl)
created_iff r false true true = (λ _. inr refl, λ _. refl)
created_iff r false false true = (λ _. inr refl, λ _. refl)
created_iff r false true false = (λ h. absurd (omega (arith, ap status_of h)), λ h. ground arith)
created_iff r false false false = (λ h. absurd (omega (arith, ap status_of h)), λ h. ground arith)

-- The response of an offloaded task has the status 201 exactly when the task is scheduled or runs in
-- the background, by the task manager if there is one.
pub offloaded_pipe-created :
    {R : Type 0} (result : Option R) (scheduler : Option TaskType) (has_otp : Bool)
    (manager : Option (Manager R)) (background : Option Bool)
    → (offloaded_pipe true result scheduler has_otp manager background
        ≡ ok (process_result result manager, 201))
      ↔ ((is_scheduled scheduler ≡ true) ⊎ (determine_async manager background ≡ true))
unfolding offloaded_pipe set_status_code
offloaded_pipe-created result scheduler has_otp manager background =
    created_iff (process_result result manager) (is_scheduled scheduler) has_otp
      (determine_async manager background)
