-- ===== src/Startup.antt =====
-- cmd: how the programs start. The calls of other packages that a start consists of are recorded in
-- the order in which they are made, also those that fail.
pub mod Laws
pub mod Admission
pub mod Controller
pub mod Options
use gardener_extension_shoot.Common.{
  String, ℕ, List, [], ◌∷◌, ◌++◌, Option, Bool, true, false, concat,
}
use gardener_extension_shoot.Common.Outcome.{Outcome, ok, err, panic, check}
use gardener_extension_shoot.Common.Effect.{Effect}
use gardener_extension_shoot.Gardener.{Error, message, wrap_outcome}

-- A call of another package, with the arguments that the code chooses; C is *rest.Config.
pub data Call (C : Type 0) : Type 0 where
  -- restOpts.Kubeconfig = …
  use_kubeconfig : String → Call C
  -- aggOption.Complete()
  complete_options : Call C
  -- util.ApplyClientConnectionConfigurationToRESTConfig, with QPS and Burst
  apply_client_connection : ℕ → ℕ → Call C
  -- clientcmd.BuildConfigFromFlags("", …)
  build_config : String → Call C
  -- manager.New, with LeaderElectionConfig and the namespace that the cache of secrets is kept to
  new_manager : Option C → Option String → Call C
  -- Install
  install_scheme : String → Call C
  -- cluster.New, with its default namespace
  new_cluster : C → String → Call C
  add_cluster : Call C
  -- AddToManager of the webhooks, with or without a source cluster
  add_webhooks : Bool → Call C
  add_readyz_check : String → Call C
  add_healthz_check : String → Call C
  -- heartbeatOptions.Validate()
  validate_heartbeat : Call C
  -- manager.New, with the kinds of objects that its client does not cache
  new_uncached_manager : List String → Call C
  -- AddToScheme
  add_to_scheme : String → Call C
  -- Apply of completed options
  apply_options : String → Call C
  -- AddToManager of the controllers
  add_controllers : Call C
  -- mgr.Start
  start : Call C

abbrev pub Calls : Type 0 → Type 0
Calls C = List (Call C)

-- The variables of the environment, and how the calls end.
pub record Environment (C : Type 0) : Type 0 where
  pub getenv : String → String
  pub server_namespace : String
  -- v1beta1constants.GardenNamespace
  pub garden_namespace : String
  -- the text of an error
  pub error_text : Error → String
  -- the error that a call returns, behind others
  pub failure : Calls C → Call C → Option Error
  -- the result of BuildConfigFromFlags, if it returns no error
  pub built_config : String → Option C

abbrev pub format_outcome :
    (Error → String) → String → Outcome Error (Unit {0}) → Outcome Error (Unit {0})
format_outcome error_text text (err e) = err (message (concat (text ∷ error_text e ∷ [])))
format_outcome error_text text o = o

module _ {C : Type 0} where
  abbrev pub returns : {A : Type 0} → A → Effect Error (Calls C) A
  returns a calls = (ok a, calls)

  -- a call that cannot fail
  abbrev pub note : Call C → Effect Error (Calls C) (Unit {0})
  note c calls = (ok tt, calls ++ c ∷ [])

  module _ (environment : Environment C) where
    -- `if err := …; err != nil { return err }`
    abbrev pub call : Call C → Effect Error (Calls C) (Unit {0})
    call c calls = (check (environment.failure calls c), calls ++ c ∷ [])

    -- `if err := …; err != nil { return fmt.Errorf("…%w", err) }`
    abbrev pub call_wrapped : String → Call C → Effect Error (Calls C) (Unit {0})
    call_wrapped text c calls =
        (wrap_outcome text (check (environment.failure calls c)), calls ++ c ∷ [])

    -- `if err := …; err != nil { return fmt.Errorf("…%s", err) }`
    abbrev pub call_formatted : String → Call C → Effect Error (Calls C) (Unit {0})
    call_formatted text c calls = (
      format_outcome environment.error_text text (check (environment.failure calls c)),
      calls ++ c ∷ [],
    )
