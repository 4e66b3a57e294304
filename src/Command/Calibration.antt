-- ===== src/Command/Calibration.antt =====
-- noiseQueries, loadCalibration and saveCalibration of cmd/attndb/main.go, and the body of
-- `recalibrate` of cmd/attndb/serve.go. The packages json and os are given by what they do.
pub mod Saved
use attndb.Prelude.{ℕ, ◌≡◌, Option, none, some, List, [], ◌∷◌}
use attndb.Prelude.Text.{Bytes, codes}
use attndb.Prelude.Dict.{Dict, lookup, insert}
use attndb.Core.Types.{Document}
use attndb.Core.Floats.{Floats}
use attndb.Reconcile.Index.{Error}
use attndb.Pass.Lane.{Pool}
use attndb.Db.Compose.{PassCalib, Passes}
use attndb.Db.Calibrate.{calibrate}
use attndb.Command.Samples.{sample_queries, sample_queries_n}

abbrev pub noise_queries : List Bytes
noise_queries =
    codes "how do you bake sourdough bread at high altitude"
    ∷ codes "what is the migration pattern of monarch butterflies"
    ∷ codes "best way to tune a six string acoustic guitar"
    ∷ codes "history of the roman aqueduct construction techniques"
    ∷ codes "why do cats purr when they are content"
    ∷ codes "recipe for a classic neapolitan margherita pizza"
    ∷ codes "how far is the andromeda galaxy from earth"
    ∷ codes "rules for scoring a game of cricket"
    ∷ codes "how to prune tomato plants for better yield"
    ∷ codes "what causes the northern lights to appear"
    ∷ codes "techniques for watercolor landscape painting"
    ∷ codes "how do bees communicate the location of flowers"
    ∷ codes "what year did the first transcontinental railroad open"
    ∷ codes "how to brew a proper cup of green tea"
    ∷ codes "the life cycle of a pacific salmon"
    ∷ codes "how do submarines control their buoyancy underwater"
    ∷ codes "famous composers of the baroque musical period"
    ∷ codes "how to change a flat tire on a bicycle"
    ∷ codes "what makes a volcano erupt explosively"
    ∷ codes "steps for folding an origami paper crane"
    ∷ codes "how do tides relate to the phases of the moon"
    ∷ codes "traditional ingredients in a moroccan tagine"
    ∷ codes "why is the sky blue during the day"
    ∷ codes "how to train a puppy to sit and stay"
    ∷ codes "the difference between stalactites and stalagmites"
    ∷ []

-- os.ReadFile
pub data ReadResult : Type 0 where
  missing : ReadResult
  unreadable : Bytes → ReadResult
  content : Bytes → ReadResult

module _ (F : Floats) where
  -- db.Calibration
  abbrev pub Calibration : Type 0
  Calibration = Dict (PassCalib F)

  -- The file, and the coding of its text. A file that holds `null`, from which json makes a nil map, is
  -- outside the model. Decoding gives what was read also where it fails.
  pub record CalibFile : Type 1 where
    pub State : Type 0
    pub read : State → ReadResult
    pub write : Bytes → State → Error × State
    pub encode : Dict Calibration → Option Bytes
    pub decode : Bytes → Error × Dict Calibration

  -- A written file has the text that was written, and decoding an encoded map gives its entries.
  pub record CalibFileLaws (C : CalibFile) : Type 0 where
    pub written :
        (b : Bytes) (s : C.State) → (C.write b s).0 ≡ none → C.read (C.write b s).1 ≡ content b
    pub decodes : (m : Dict Calibration) (b : Bytes) → C.encode m ≡ some b → (C.decode b).0 ≡ none
    pub entries :
        (m : Dict Calibration) (b : Bytes)
        → C.encode m ≡ some b
        → (k : Bytes) → lookup k (C.decode b).1 ≡ lookup k m

  pub data Loaded : Type 0 where
    failed : Bytes → Loaded
    -- none for a nil calibration
    loaded : Option Calibration → Loaded

  module _ (C : CalibFile) where
    loaded_from : Bytes → Error × Dict Calibration → Loaded
    unfolding lookup
    loaded_from encoder (some m, cf) = failed m
    loaded_from encoder (none, cf) = loaded (lookup encoder cf)

    unfoldable pub load_calibration : Bytes → C.State → Loaded
    unfolding loaded_from
    load_calibration encoder s = elim (C.read s) [
      | missing ↦ loaded none
      | unreadable m ↦ failed m
      | content b ↦ loaded_from encoder (C.decode b)
    ]

    -- `cf` before the new entry; a failure is passed over.
    unfoldable pub stored : C.State → Dict Calibration
    stored s = elim (C.read s) [ missing ↦ [] | unreadable m ↦ [] | content b ↦ (C.decode b).1 ]

    unfoldable pub save_calibration : Bytes → Calibration → C.State → Error × C.State
    unfolding stored insert
    save_calibration encoder c s = elim (C.encode (insert encoder c (stored s))) [
      | none ↦ (some encoder, s)
      | some b ↦ C.write b s
    ]

  module _ (P : Pool F) (shuffle : List Bytes → List Bytes) where
    -- What a recalibration gives; none where a step fails.
    unfoldable pub recalibration : ℕ → Option (List Document) → Passes F P → Option Calibration
    recalibration k none passes = none
    recalibration k (some docs) passes =
        calibrate F P k (sample_queries shuffle docs sample_queries_n) noise_queries passes
