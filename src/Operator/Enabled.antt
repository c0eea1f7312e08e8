-- ===== src/Operator/Enabled.antt =====
-- Which controllers run: what has to have happened before one is set up, and before the manager starts.
use locations.Prelude.{
  String, true, false, Option, none, some, List, [], ◌∷◌, ◌≡◌, refl, ◌⊎◌, inl, inr,
}
use locations.Prelude.{◌==◌}
use locations.Prelude.Effect.{Except, ok, err}
use locations.Prelude.Trace.{
  Some, Traced, Justified, Holds-Justified, bind-Traced, request-Traced, pure-Traced, raise-Traced,
  if-Traced, frame,
}
use locations.Config.{LocationOperator}
use locations.Config.Validate.{ConfigError, validate, readiness_enabled, publisher_enabled}
use locations.Config.Connect.{operator_rest_config, source_rest_config, hub_rest_config}
use locations.Operator.Client.{Env, Flags, Controller, Side, Call, Error, source_side, hub_side}
use locations.Operator.Run.{
  loaded, check, run, read_config, start_operator, setup_readiness, setup_publisher,
  setup_location_publisher,
}

module _ (V : Env) where
  abbrev pub Calls : Type 0
  Calls = List (Call V)

  -- The configuration was decoded, and is valid.
  abbrev pub IsConfigured : LocationOperator → Calls → Type 0
  IsConfigured config now =
      (validate config ≡ none)
      × Some (λ c. (text : String) × (c ≡ Call.decoded_config text (ok config))) now

  -- The controller was set up.
  abbrev pub IsSetUp : Controller → Calls → Type 0
  IsSetUp controller now = Some (λ c. c ≡ Call.set_up controller (ok tt)) now

  -- The cluster was handed to the manager, to run only on the leader.
  abbrev pub IsElected : Side → Calls → Type 0
  IsElected side now = Some (λ c. c ≡ Call.added_cluster side true (ok tt)) now

  -- The two controllers of readiness are off, or both set up under the configured name.
  abbrev pub HasReadiness : LocationOperator → Calls → Type 0
  HasReadiness config now =
      (readiness_enabled config.location_readiness ≡ false)
      ⊎ (IsSetUp (Controller.location_readiness config.location_readiness.controller_name) now
          × IsSetUp (Controller.location_class_accepted config.location_readiness.controller_name)
              now)

  -- The publisher is off, or set up with its configuration.
  abbrev pub HasPublisher : LocationOperator → Calls → Type 0
  HasPublisher config now =
      (publisher_enabled config.location_publisher ≡ false)
      ⊎ IsSetUp (Controller.location_publisher config.location_publisher) now

  -- What the setup of a controller needs of the configuration.
  abbrev pub IsWanted : LocationOperator → Controller → Calls → Type 0
  IsWanted config Controller.location_class now = Unit
  IsWanted config (Controller.location_readiness name) now =
      (readiness_enabled config.location_readiness ≡ true)
      × (name ≡ config.location_readiness.controller_name)
  IsWanted config (Controller.location_class_accepted name) now =
      (readiness_enabled config.location_readiness ≡ true)
      × (name ≡ config.location_readiness.controller_name)
  IsWanted config (Controller.location_publisher publisher) now =
      (publisher_enabled config.location_publisher ≡ true)
      × (publisher ≡ config.location_publisher)
      × IsElected source_side now
      × IsElected hub_side now

  -- What a call needs before it.
  abbrev pub Justification : Calls → Call V → Type 0
  Justification now (Call.set_up controller answer) =
      (config : LocationOperator) × IsConfigured config now × IsWanted config controller now
  Justification now (Call.started answer) =
      (config : LocationOperator) × IsConfigured config now
      × IsSetUp Controller.location_class now
      × HasReadiness config now
      × HasPublisher config now
  Justification now _ = Unit

  abbrev J : Calls → Call V → Type 0
  J = Justification

  abbrev Done : {A : Type 0} → A → Calls → Type 0
  Done a now = Unit {0}

  loaded-Traced :
      {A : Type 0} (P : Calls → Type 0) (w : V.Failure → Error V.Failure)
      (answer : Except V.loader.Failure A) (now : Calls)
      → P now
      → Traced J (λ _. P) now (loaded V w answer)
  loaded-Traced P w (ok a) now p = pure-Traced J a p
  loaded-Traced P w (err e) now p = raise-Traced J _

  module _ (config : LocationOperator) where
    abbrev K : Calls → Type 0
    K now = IsConfigured config now

    abbrev Keep : (Calls → Type 0) → Type 0
    Keep P = (c : Call V) (now : Calls) → P now → P (c ∷ now)

    keep-K : Keep K
    keep-K c now (valid, k) = (valid, inr k)

    abbrev WithReadiness : Calls → Type 0
    WithReadiness now = K now × IsSetUp Controller.location_class now × HasReadiness config now

    keep-HasReadiness : Keep (HasReadiness config)
    keep-HasReadiness c now (inl off) = inl off
    keep-HasReadiness c now (inr (a, b)) = inr (inr a, inr b)

    keep-WithReadiness : Keep WithReadiness
    keep-WithReadiness c now (k, a, h) = (keep-K c now k, inr a, keep-HasReadiness c now h)

    abbrev Ready : Calls → Type 0
    Ready now = WithReadiness now × HasPublisher config now

    keep-Ready : Keep Ready
    keep-Ready c now (w, inl off) = (keep-WithReadiness c now w, inl off)
    keep-Ready c now (w, inr p) = (keep-WithReadiness c now w, inr (inr p))

    setup_readiness-Traced :
        (now : Calls)
        → K now
        → Traced J (λ _ after. HasReadiness config after) now (setup_readiness V config)
    unfolding setup_readiness
    setup_readiness-Traced now k =
        if-Traced J (readiness_enabled config.location_readiness) _ _
          (λ on.
            bind-Traced J
              (λ _ after.
                K after
                × IsSetUp (Controller.location_readiness config.location_readiness.controller_name)
                    after)
              (request-Traced J _ _ _ (λ _. (config, k, (on, refl)))
                (λ _. (keep-K _ now k, inl refl)))
              λ _ after (k', first).
                request-Traced J _ _ _ (λ _. (config, k', (on, refl)))
                  (λ _. inr (inr first, inl refl)))
          (λ off. pure-Traced J tt (inl off))

    setup_location_publisher-Traced :
        (now : Calls)
        → K now
        → publisher_enabled config.location_publisher ≡ true
        → Traced J (λ _ after. HasPublisher config after) now (setup_location_publisher V config)
    unfolding setup_location_publisher
    setup_location_publisher-Traced now k on =
        bind-Traced J (λ _. K)
          (loaded-Traced K (Error.loading_kubeconfig source_side)
            (source_rest_config V.loader config.location_publisher config.kubeconfig_path) now k)
          λ source after k1.
            bind-Traced J (λ _. K)
              (loaded-Traced K (Error.loading_kubeconfig hub_side)
                (hub_rest_config V.loader config.location_publisher) after k1)
              λ hub after k2.
                bind-Traced J (λ _. K) (request-Traced J _ _ _ (λ _. tt) (λ _. keep-K _ after k2))
                  λ _ after k3.
                    bind-Traced J (λ _. K)
                      (request-Traced J _ _ _ (λ _. tt) (λ _. keep-K _ after k3))
                      λ _ after k4.
                        bind-Traced J (λ _ later. K later × IsElected source_side later)
                          (request-Traced J _ _ _ (λ _. tt) (λ _. (keep-K _ after k4, inl refl)))
                          λ _ after k5.
                            bind-Traced J
                              (λ _ later.
                                K later × IsElected source_side later × IsElected hub_side later)
                              (request-Traced J _ _ _ (λ _. tt)
                                (λ _. (keep-K _ after k5.0, inr k5.1, inl refl)))
                              λ _ after k6.
                                request-Traced J _ _ _ (λ _. (config, k6.0, (on, refl, k6.1, k6.2)))
                                  (λ _. inr (inl refl))

    setup_publisher-Traced :
        (now : Calls)
        → K now
        → Traced J (λ _ after. HasPublisher config after) now (setup_publisher V config)
    unfolding setup_publisher
    setup_publisher-Traced now k =
        if-Traced J (publisher_enabled config.location_publisher) _ _
          (λ on. setup_location_publisher-Traced now k on) (λ off. pure-Traced J tt (inl off))

    start_operator-Traced :
        (flags : Flags) (now : Calls) → K now → Traced J Done now (start_operator V flags config)
    unfolding start_operator
    start_operator-Traced flags now k =
        bind-Traced J (λ _. K)
          (loaded-Traced K Error.loading_rest_config (operator_rest_config V.loader config) now k)
          λ cfg after k1.
            bind-Traced J (λ _. K) (request-Traced J _ _ _ (λ _. tt) (λ _. keep-K _ after k1))
              λ _ after k2.
                bind-Traced J (λ _. K) (request-Traced J _ _ _ (λ _. tt) (λ _. keep-K _ after k2))
                  λ _ after k3.
                    bind-Traced J (λ _ later. K later × IsSetUp Controller.location_class later)
                      (request-Traced J _ _ _ (λ _. (config, k3, tt))
                        (λ _. (keep-K _ after k3, inl refl)))
                      λ _ after k4.
                        bind-Traced J _
                          (frame J (λ later. K later × IsSetUp Controller.location_class later)
                            (λ c later f. (keep-K c later f.0, inr f.1)) k4
                            (setup_readiness-Traced after k4.0))
                          λ _ after k5.
                            bind-Traced J _
                              (frame J WithReadiness keep-WithReadiness (k5.0.0, k5.0.1, k5.1)
                                (setup_publisher-Traced after k5.0.0))
                              λ _ after k6.
                                bind-Traced J (λ _. Ready)
                                  (request-Traced J _ _ _ (λ _. tt) (λ _. keep-Ready _ after k6))
                                  λ _ after k7.
                                    bind-Traced J (λ _. Ready)
                                      (request-Traced J _ _ _ (λ _. tt)
                                        (λ _. keep-Ready _ after k7))
                                      λ _ after k8.
                                        request-Traced J _ _ _
                                          (λ _. (config, k8.0.0, k8.0.1, k8.0.2, k8.1)) (λ _. tt)

  check-Traced :
      (flags : Flags) (config : LocationOperator) (problem : Option ConfigError) (now : Calls)
      → validate config ≡ problem
      → Some (λ c. (text : String) × (c ≡ Call.decoded_config text (ok config))) now
      → Traced J Done now (check V flags config problem)
  check-Traced flags config none now valid k = start_operator-Traced config flags now (valid, k)
  check-Traced flags config (some e) now invalid k = raise-Traced J _

  read_config-Traced : (file : String) (now : Calls) → Traced J Done now (read_config V file)
  unfolding read_config
  read_config-Traced file now =
      if-Traced J (file == "") _ _ (λ _. pure-Traced J "" tt)
        (λ _. request-Traced J _ _ _ (λ _. tt) (λ _. tt))

  run-Traced : (flags : Flags) → Traced J Done [] (run V flags)
  unfolding run
  run-Traced flags =
      bind-Traced J Done (read_config-Traced flags.server_config_file []) λ text now _.
        bind-Traced J (λ config. Some (λ c. (t : String) × (c ≡ Call.decoded_config t (ok config))))
          (request-Traced J _ _ _ (λ _. tt) (λ config. inl (text, refl)))
          λ config after k. check-Traced flags config (validate config) after refl k

  -- A run of the command sets up controllers and starts the manager only as a valid configuration
  -- that it has decoded says. A controller of readiness is set up only if readiness reporting is
  -- on, and with the configured name; the publisher only if publishing is on, with its part of
  -- the configuration, and after both clusters were added to run on the leader only. The manager
  -- starts only after the class controller and every controller that the configuration turns on
  -- have been set up.
  pub run-Configured : (flags : Flags) (s : V.State) → Justified Justification [] (run V flags s).2
  run-Configured flags s = Holds-Justified J Done [] _ ((run-Traced flags).run s)
