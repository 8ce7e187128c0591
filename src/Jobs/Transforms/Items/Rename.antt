-- ===== src/Jobs/Transforms/Items/Rename.antt =====
-- `RenameTransform`: keys of dictionaries.
use ujin.Prelude.{
  Bool, List, String, [], arith, eq_iff, false, if◌then◌else◌, map, refl, str_eq, true, ◌||◌, ◌∷◌,
  ◌≡◌,
}
use ujin.Jobs.Value.{
  field, Value, null, arr, obj, Fields, done, field_of, has_field, put_field, drop_field, to_list,
  of_list, field_of-put_field, field_of-drop_field,
}
use ujin.Jobs.Dotted.{Part, dotted_get, dotted_set}

-- `mapping` is not empty.
pub record Rename : Type 0 where
  pub path : List Part
  pub mapping : List (String × String)
  pub drop_missing : Bool

-- one round of the loop: from `old` to `new`
unfoldable pub rename_key : Bool → String → String → Fields → Fields
rename_key drop_missing old new fs =
    if has_field old fs
    then put_field new (field_of old fs) (drop_field old fs)
    else if drop_missing
    then put_field new null fs
    else fs

unfoldable pub rename_fields : Bool → List (String × String) → Fields → Fields
rename_fields drop_missing [] fs = fs
rename_fields drop_missing (entry ∷ rest) fs =
    rename_fields drop_missing rest (rename_key drop_missing entry.0 entry.1 fs)

unfoldable pub rename : Rename → Value → Value
rename r (obj fs) = obj (rename_fields r.drop_missing r.mapping fs)
rename r item = item

renamed : Rename → Value → Value
unfolding rename
renamed r (arr xs) = arr (of_list (map (rename r) (to_list xs)))
renamed r target = rename r target

unfoldable pub apply : Rename → Fields → Fields
unfolding renamed
apply r event = dotted_set event r.path (renamed r (dotted_get (obj event) r.path))

absent : (key : String) (fs : Fields) → has_field key fs ≡ false → field_of key fs ≡ null
unfolding has_field field_of
absent key done e = refl
absent key (field name v rest) e = ground (arith, absent key rest)

-- Renaming a key moves its value to the new key, leaves nothing at the old one, and leaves the rest.
-- The same holds of an absent key, whose value counts as None, when `drop_missing` asks for it; else
-- nothing changes.
pub rename_key_lem :
    (drop_missing : Bool) (old new key : String) (fs : Fields)
    → str_eq old new ≡ false
    → let fs' : Fields = rename_key drop_missing old new fs in
      (has_field old fs || drop_missing ≡ true
        → field_of key fs' ≡ (
            if str_eq new key
            then field_of old fs
            else if str_eq old key
            then null
            else field_of key fs))
      × (has_field old fs || drop_missing ≡ false → fs' ≡ fs)
unfolding rename_key
rename_key_lem drop_missing old new key fs apart = (
  λ e. ground (
    arith,
    e,
    field_of-put_field new key (field_of old fs) (drop_field old fs),
    field_of-put_field new key null fs,
    field_of-drop_field old key fs,
    absent old fs,
    eq_iff old key,
    eq_iff new key,
  ),
  λ e. ground (arith, e),
)
