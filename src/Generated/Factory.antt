-- ===== src/Generated/Factory.antt =====
-- pkg/generated/controllers/longhorn.io/factory.go, over wrangler's factory.
use disk_manager.Base.{◌≡◌, ◌↔◌, refl, Option, none, some}
use disk_manager.Text.{Text}
use disk_manager.Effects.{M, panicked, pure, panic}

-- `generic.Factory`, its options, and `generic.NewFactoryFromConfigWithOptions`, whose factory may be
-- nil beside an error.
pub record Generic : Type 1 where
  pub Config : Type 0
  pub Made : Type 0
  pub FactoryOptions : Type 0
  -- the options with a namespace only
  pub with_namespace : Text → FactoryOptions
  pub new_factory : Config → Option FactoryOptions → Option Made × Option Text

module _ (G : Generic) where
  -- `Factory`
  pub record Factory : Type 0 where
    pub factory : Option G.Made

  -- `NewFactoryFromConfigWithOptions`: the factory is not nil beside an error either.
  unfoldable pub new_factory_from_config_with_options :
      G.Config → Option G.FactoryOptions → Factory × Option Text
  new_factory_from_config_with_options config opts =
      let (f, err) = G.new_factory config opts in (record { factory = f }, err)

  -- `NewFactoryFromConfig`
  unfoldable pub new_factory_from_config : G.Config → Factory × Option Text
  new_factory_from_config config = new_factory_from_config_with_options config none

  -- `NewFactoryFromConfigWithNamespace`
  unfoldable pub new_factory_from_config_with_namespace : G.Config → Text → Factory × Option Text
  new_factory_from_config_with_namespace config namespace =
      new_factory_from_config_with_options config (some (G.with_namespace namespace))

  abbrev or_die : {S : Type 0} → Factory × Option Text → M S Factory
  or_die (f, none) = pure f
  or_die (f, some e) = panic

  -- `NewFactoryFromConfigOrDie`
  unfoldable pub new_factory_from_config_or_die : {S : Type 0} → G.Config → M S Factory
  new_factory_from_config_or_die config = or_die (new_factory_from_config config)

  -- `NewFactoryFromConfigWithOptionsOrDie`
  unfoldable pub new_factory_from_config_with_options_or_die :
      {S : Type 0} → G.Config → Option G.FactoryOptions → M S Factory
  new_factory_from_config_with_options_or_die config opts =
      or_die (new_factory_from_config_with_options config opts)

  -- The start dies just of an error of wrangler's factory, for the options it is called with.
  pub new_factory_from_config_or_die-panicked :
      {S : Type 0} (config : G.Config) (s : S)
      → (new_factory_from_config_or_die config s ≡ panicked)
        ↔ ((e : Text) × ((G.new_factory config none).1 ≡ some e))
  unfolding new_factory_from_config_or_die new_factory_from_config
      new_factory_from_config_with_options
  new_factory_from_config_or_die-panicked config s = by_error (G.new_factory config none)
    where
      by_error :
          (r : Option G.Made × Option Text)
          → (or_die (record { factory = r.0 }, r.1) s ≡ panicked) ↔ ((e : Text) × (r.1 ≡ some e))
      by_error (f, none) = (λ h. absurd (cc), λ h. absurd (cc))
      by_error (f, some e) = (λ h. (e, refl), λ h. refl)
