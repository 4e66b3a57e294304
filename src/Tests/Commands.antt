-- ===== src/Tests/Commands.antt =====
-- The names of collections and the calibration file.
use attndb.Prelude.{◌≡◌, refl, false, Option, none, some, [], ◌∷◌, inr}
use attndb.Prelude.Text.{Bytes, codes, bytes_eq}
use attndb.Prelude.Dict.{Dict}
use attndb.Command.Pools.{para}
use attndb.Command.Pools.Apart.{pool_name_injective}
use attndb.Command.Calibration.{
  Calibration, CalibFile, CalibFileLaws, ReadResult, missing, content, loaded, load_calibration,
  save_calibration,
}
use attndb.Command.Calibration.Saved.{save-load}
use attndb.Tests.Heats.{integers}

pool_name_injective_example :
    (codes "onnx" ≡ codes "onnx") × (codes "vault" ≡ codes "vault") × (para ≡ para)
pool_name_injective_example =
    pool_name_injective (codes "onnx") (codes "onnx") (codes "vault") (codes "vault") para para
      (inr refl) (inr refl) refl

-- A coding of the maps that have one encoder, whose calibration has no pass, and a file.
abbrev encode_one : Dict (Calibration integers) → Option Bytes
encode_one ((k, []) ∷ []) = some k
encode_one _ = none

abbrev notebook : CalibFile integers
notebook = record {
  State = ReadResult;
  read = λ s. s;
  write = λ b s. (none, content b);
  encode = encode_one;
  decode = λ b. (none, (b, []) ∷ []);
}

encoded : (m : Dict (Calibration integers)) (b : Bytes) → encode_one m ≡ some b → (b, []) ∷ [] ≡ m
encoded [] b e = absurd (cc)
encoded ((k, []) ∷ []) b e = let same : k ≡ b = cc in rw same refl
encoded ((k, []) ∷ x ∷ m) b e = absurd (cc)
encoded ((k, p ∷ c) ∷ m) b e = absurd (cc)

notebook-Laws : CalibFileLaws integers notebook
notebook-Laws = record {
  written = λ b s ok. refl;
  decodes = λ m b e. refl;
  entries = λ m b e k. rw (encoded m b e) refl;
}

saved_run : (save_calibration integers notebook (codes "stub") [] missing).0 ≡ none
unfolding save_calibration
saved_run = refl

save-load_example :
    (load_calibration integers notebook
        (codes "stub")
        (save_calibration integers notebook (codes "stub") [] missing).1
      ≡ loaded (some []))
    × ((j : Bytes) (x : Option (Calibration integers))
        → bytes_eq (codes "stub") j ≡ false
        → load_calibration integers notebook j missing ≡ loaded x
        → load_calibration integers notebook j
            (save_calibration integers notebook (codes "stub") [] missing).1
          ≡ loaded x)
save-load_example = save-load integers notebook notebook-Laws (codes "stub") [] missing saved_run
