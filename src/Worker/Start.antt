-- ===== src/Worker/Start.antt =====
-- What `main` of crates/worker/src/main.rs takes from the configuration: the tiers of the transcoder and
-- the slots of the consumer.
use benri_stream.Prelude.{
  Bool, [], ◌∷◌, is_empty, ℕ, suc, ◌-◌, leb, if◌then◌else◌, String, true, some, List, In, here, ◌≡◌,
  ◌⊎◌, inl, inr, refl, arith,
}
use benri_stream.Platform.{Result, ok}
use benri_stream.Effects.Ports.{StorageError}
use benri_stream.Config.{AppConfig}
use benri_stream.Transcoder.Quality.{QualityLevel, low, split, comma, parse_quality_tiers}
use benri_stream.Transcoder.Quality.Ladder.{Names, parse_quality_tiers-IsLadder}
use benri_stream.Transcoder.Uploader.Files.{PathBuf, TierDir, entries, has_ts_extension}
use benri_stream.Transcoder.Uploader.{new, run}
use benri_stream.Transcoder.Uploader.Finished.{run-announced}
use benri_stream.Worker.Loop.{Loop, acquiring, popping, Steps, stay, go, acquires, goes_on}
use benri_stream.Worker.Loop

unfoldable pub quality_tiers : AppConfig → List QualityLevel
quality_tiers config = parse_quality_tiers config.quality_tiers

-- `config.worker_concurrency.max(1)`
unfoldable pub worker_concurrency : AppConfig → ℕ
worker_concurrency config = if leb 1 config.worker_concurrency then config.worker_concurrency else 1

abbrev pub pieces : AppConfig → List String
pieces config = split comma config.quality_tiers

-- The configuration names the low tier, or no tier at all.
abbrev pub HasLow : AppConfig → Type 0
HasLow config =
    Names (pieces config) low ⊎ ((level : QualityLevel) → Names (pieces config) level → ⊥)

nothing_named :
    (ps : List String) (out : List QualityLevel)
    → ((level : QualityLevel) → Names ps level → ⊥)
    → ((level : QualityLevel) → In level out → Names ps level)
    → is_empty out ≡ true
nothing_named ps [] unnamed sound = refl
nothing_named ps (level ∷ out) unnamed sound = absurd (unnamed level (sound level (here refl)))

In-quality_tiers : (config : AppConfig) → HasLow config → In low (quality_tiers config)
unfolding quality_tiers
In-quality_tiers config h =
    let (_, some_tier, complete, origin) = parse_quality_tiers-IsLadder config.quality_tiers in
    elim h [
      | inl named ↦ complete low named
      | inr unnamed ↦ elim origin [
        | inl sound ↦
            let nothing = nothing_named (pieces config) (quality_tiers config) unnamed sound in
            absurd (cc)
        | inr (_, default) ↦ rw default (here refl)
      ]
    ]

-- When the configured tiers name the low tier, or no tier at all, a run of the uploader that
-- succeeds, and whose last tick found a .ts file of the low tier under a name that is a text, has
-- fired the notifier once.
pub configured_announced :
    (config : AppConfig) (answer : ℕ → Result StorageError (Unit {0})) (prefix : String)
    (has_audio : Bool) (polled : List (QualityLevel → TierDir)) (drained : QualityLevel → TierDir)
    (files : List PathBuf) (path : PathBuf) (name : String)
    → HasLow config
    → (run answer prefix (quality_tiers config) has_audio polled drained new).0 ≡ ok tt
    → drained low ≡ entries files
    → In path files
    → has_ts_extension path ≡ true
    → path.file_name ≡ some name
    → (run answer prefix (quality_tiers config) has_audio polled drained new).1.notified ≡ 1
configured_announced config answer prefix has_audio polled drained files path name h e d i ts en =
    run-announced answer prefix (quality_tiers config) has_audio polled drained files path name e
      (In-quality_tiers config h) d i ts en

permits_suc : (n : ℕ) → (if leb 1 n then n else 1) ≡ suc (n - 1)
permits_suc n = ground arith

-- Whatever is configured, the loop of the consumer comes to its first pop.
pub first_pop :
    (config : AppConfig)
    → (l : Loop) × Steps 2 (Loop.new (worker_concurrency config)) l × (l.phase ≡ popping)
unfolding Loop.new worker_concurrency
first_pop config =
    let free =
      acquires (config.worker_concurrency - 1) refl (permits_suc config.worker_concurrency) in
    (_, go (goes_on refl refl) (go free stay), refl)
