-- ===== src/Guards/Models.antt =====
-- app/decorators/guards.py: the guards on policies, templates, tasks in the registry, credits,
-- agents and ingestion tasks. A store is known here by the list of its ids.
use notifyr.Base.{
  ℕ, ◌≤◌, ◌≡◌, ◌≢◌, ◌↔◌, ◌⊎◌, inl, inr, Bool, true, false, not, ◌&&◌, Option, none, some, List, [],
  ◌∷◌, String, contains, str_eq, arith, if◌then◌else◌, ltb, leb, ◌==◌, Dict, lookup, all,
  Option-cases,
}
use notifyr.Failure.{Result, Result-cases, ok, raise, type_error, key_error, value_error, error}
use notifyr.Guards.{Answer, pass, refuse}

-- PolicyGuard: every allowed profile is an id of the store.
unfoldable pub policy_guard : List String → List String → Answer
policy_guard profiles allowed_profiles =
    if all (λ p. contains p profiles) allowed_profiles
    then pass
    else refuse "Those profiles does not exists at the moment"

abbrev is_globals : Option String → Bool
is_globals none = false
is_globals (some name) = str_eq name "globals.json"

-- GlobalsTemplateGuard, with the names of the files.
unfoldable pub globals_template_guard :
    String → Option String → List String → Option String → Answer
globals_template_guard error_message template files destination_template =
    if is_globals template
    then refuse error_message
    else if contains "globals.json" files
    then refuse error_message
    else if is_globals destination_template
    then refuse error_message
    else pass

-- ArqDataTaskGuard and CreditPlanGuard: the name is in a table.
unfoldable pub arq_data_task_guard : List String → String → Answer
arq_data_task_guard task_registry data_task_name =
    if contains data_task_name task_registry then pass else raise (error "DataTaskNotFoundError")

unfoldable pub credit_plan_guard : List String → String → Answer
credit_plan_guard plan_credits credit =
    if contains credit plan_credits then pass else raise (error "CreditNotInPlanError")

-- The model of an LLM provider in the store, and an AgentModel.
pub record Provider : Type 0 where
  pub provider : String
  pub models : List String
  pub max_output_tokens : ℕ

pub record Agent : Type 0 where
  pub provider : String
  pub model : String
  pub max_tokens : ℕ

-- The models that an agent of the provider may name: its own list, or those of the constant table.
unfoldable pub permitted_models : Dict (List String) → Provider → Result (List String)
permitted_models known provider = elim provider.models [
  | [] ↦ elim (lookup provider.provider known) [ none ↦ raise key_error | some models ↦ ok models ]
  | m ∷ models ↦ ok (m ∷ models)
]

-- The last test: where both maxima are given and not 0.
unfoldable pub check_tokens : ℕ → ℕ → Answer
check_tokens max_tokens max_output_tokens =
    if not (max_tokens == 0) && not (max_output_tokens == 0) && ltb max_output_tokens max_tokens
    then raise (error "LLMModelMaxTokenExceededError")
    else pass

-- LLMProviderGuard. No agent in the request is let through.
unfoldable pub llm_provider_guard : Dict (List String) → Dict Provider → Option Agent → Answer
unfolding permitted_models check_tokens
llm_provider_guard known store none = pass
llm_provider_guard known store (some agent) = elim (lookup agent.provider store) [
  | none ↦ raise (error "LLMProviderDoesNotExistError")
  | some provider ↦ elim (permitted_models known provider) [
    | raise e ↦ raise e
    | ok models ↦
        if not (contains agent.model models)
        then raise (error "LLMModelNotPermittedError")
        else check_tokens agent.max_tokens provider.max_output_tokens
  ]
]

-- DataIngestDatabaseGuard: its two flags cannot both be False. It ends without a `return`, so
-- UseGuard's `flag, message = ...` raises a TypeError, which stands here for the None.
unfoldable pub data_ingest_guard : Bool → Bool → Bool → Bool → Answer
data_ingest_guard accept_vector accept_graphiti has_vector has_graph =
    if not accept_vector && not accept_graphiti
    then raise value_error
    else if not accept_graphiti && has_graph
    then raise (error "AgenticDatabaseNotAllowedError")
    else if not accept_vector && has_vector
    then raise (error "AgenticDatabaseNotAllowedError")
    else raise type_error

-- MongooseHardLimitGuard, with the number of documents.
unfoldable pub mongoose_hard_limit_guard : ℕ → ℕ → Answer
mongoose_hard_limit_guard limit count =
    if leb limit count then raise (error "CollectionHardLimitReachedError") else pass

-- The agent keeps to the provider's maximum, where both are given.
abbrev pub KeepsTokens : ℕ → ℕ → Type 0
KeepsTokens max_tokens max_output_tokens =
    (max_tokens ≡ 0) ⊎ ((max_output_tokens ≡ 0) ⊎ (max_tokens ≤ max_output_tokens))

check_tokens_iff : (n m : ℕ) → (check_tokens n m ≡ pass) ↔ KeepsTokens n m
unfolding check_tokens
check_tokens_iff n m = ground arith

-- An agent is let through just when its provider is in the store, the provider's models are known,
-- its model is one of them, and its tokens keep to the provider's maximum.
pub llm_provider_guard_iff :
    (known : Dict (List String)) (store : Dict Provider) (agent : Agent)
    → (llm_provider_guard known store (some agent) ≡ pass) ↔ (
        (provider : Provider) × (lookup agent.provider store ≡ some provider)
        × ((models : List String) × (permitted_models known provider ≡ ok models)
            × (contains agent.model models ≡ true)
            × KeepsTokens agent.max_tokens provider.max_output_tokens))
unfolding llm_provider_guard
llm_provider_guard_iff known store agent = (
  λ h. elim (Option-cases (lookup agent.provider store)) [
    | inl missing ↦ absurd (ground (arith, missing))
    | inr (provider, found) ↦ (provider, found, named provider found h)
  ],
  λ (provider, found, (models, permitted, member, keeps)).
      ground (arith, check_tokens_iff agent.max_tokens provider.max_output_tokens),
)
  where
    named :
        (provider : Provider)
        → lookup agent.provider store ≡ some provider
        → llm_provider_guard known store (some agent) ≡ pass
        → (models : List String) × (permitted_models known provider ≡ ok models)
          × (contains agent.model models ≡ true)
          × KeepsTokens agent.max_tokens provider.max_output_tokens
    named provider found h = elim (Result-cases (permitted_models known provider)) [
      | inl (models, permitted) ↦ (
        models,
        permitted,
        ground (arith, permitted),
        ground (arith, permitted, check_tokens_iff agent.max_tokens provider.max_output_tokens),
      )
      | inr (e, unknown) ↦ absurd (ground (arith, unknown))
    ]

-- No request whatever is let through by DataIngestDatabaseGuard.
pub data_ingest_guard-refuses :
    (vector graphiti has_vector has_graph : Bool)
    → data_ingest_guard vector graphiti has_vector has_graph ≢ pass
unfolding data_ingest_guard
data_ingest_guard-refuses vector graphiti has_vector has_graph = ground arith
