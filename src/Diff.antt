-- ===== src/Diff.antt =====
-- ujin/diff/detector.py: which regions changed between two snapshots.
pub mod Sound
use ujin.Prelude.{
  Bool, List, Option, String, [], false, if◌then◌else◌, none, some, str_eq, true, ◌∷◌,
}
use ujin.Prelude.Dict.{Dict, lookup}

pub record RegionDiff : Type 0 where
  pub changed : List String
  pub added : List String
  pub removed : List String

-- the property `any`
unfoldable pub any : RegionDiff → Bool
any d = elim d.changed [
  | c ∷ _ ↦ true
  | [] ↦ elim d.added [ a ∷ _ ↦ true | [] ↦ elim d.removed [ r ∷ _ ↦ true | [] ↦ false ] ]
]

unfoldable pub judged : String → String → Option String → RegionDiff → RegionDiff
judged sel fp none d = record d { added = sel ∷ d.added }
judged sel fp (some old) d = if str_eq old fp then d else record d { changed = sel ∷ d.changed }

-- the loop over `new_fps`, before what the second loop has found
unfoldable pub compare_new : Dict String → Dict String → RegionDiff → RegionDiff
unfolding judged
compare_new prev [] d = d
compare_new prev ((sel, fp) ∷ rest) d = judged sel fp (lookup sel prev) (compare_new prev rest d)

-- the loop over `prev_fps`
unfoldable pub gone : Dict String → Dict String → List String
gone new [] = []
gone new ((sel, fp) ∷ rest) = elim (lookup sel new) [
  | none ↦ sel ∷ gone new rest
  | some _ ↦ gone new rest
]

-- `prev_fps or {}`
known : Option (Dict String) → Dict String
known none = []
known (some prev) = prev

unfoldable pub diff : Option (Dict String) → Dict String → RegionDiff
unfolding known
diff prev new =
    compare_new (known prev) new
      (record { changed = []; added = []; removed = gone new (known prev) })
