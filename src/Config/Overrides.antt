-- ===== src/Config/Overrides.antt =====
-- config/overrides.py: overrides by dotted paths in a raw configuration. A path is the list that
-- `path.split(".")` gives, which is never empty; a copy is a value of this model.
pub mod Checked
pub mod Paths
use carcharoth.Base.{String, List, [], ◌∷◌, Bool, true, false, Option, none, some, if◌then◌else◌}
use carcharoth.Base.Eq.{◌==◌, string_eq}
use carcharoth.Base.Result.{Error, Result, ok, err, ◌>>=◌}

-- what YAML gives: a mapping, or a value of any other kind, which the module never opens
mutual
  pub data Value (S : Type 0) : Type 0 where
    scalar : S → Value S
    mapping : Entries S → Value S

  pub data Entries (S : Type 0) : Type 0 where
    nothing : Entries S
    entry : String → Value S → Entries S → Entries S

module _ {S : Type 0} where
  -- `node.get(segment)`
  unfoldable pub find : Entries S → String → Option (Value S)
  find Entries.nothing segment = none
  find (Entries.entry key value entries) segment =
      if key == segment then some value else find entries segment

  -- `node[segment] = value`
  unfoldable pub set_key : Entries S → String → Value S → Entries S
  set_key Entries.nothing segment value = Entries.entry segment value Entries.nothing
  set_key (Entries.entry key old entries) segment value =
      let rest = Entries.entry key old (set_key entries segment value) in
      if key == segment then Entries.entry key value entries else rest

  -- an intermediate segment, or the `OverrideError`
  abbrev pub child_of : Option (Value S) → Result (Value S)
  child_of none = err Error.value_error
  child_of (some child) = ok child

  -- `_walk_to_parent`
  unfoldable pub walk_to_parent : Value S → List String → Result (Entries S)
  unfolding find
  walk_to_parent (Value.scalar s) segments = err Error.value_error
  walk_to_parent (Value.mapping entries) [] = ok entries
  walk_to_parent (Value.mapping entries) (leaf ∷ []) = ok entries
  walk_to_parent (Value.mapping entries) (segment ∷ next ∷ rest) =
      child_of (find entries segment) >>= λ child. walk_to_parent child (next ∷ rest)

  -- `_walk_to_parent(result, path)[leaf] = value`
  unfoldable pub set_path : Value S → List String → Value S → Result (Value S)
  unfolding find set_key
  set_path (Value.scalar s) segments value = err Error.value_error
  set_path (Value.mapping entries) [] value = err Error.value_error
  set_path (Value.mapping entries) (leaf ∷ []) value =
      ok (Value.mapping (set_key entries leaf value))
  set_path (Value.mapping entries) (segment ∷ next ∷ rest) value =
      child_of (find entries segment) >>= λ child. set_path child (next ∷ rest) value >>= λ changed.
      ok (Value.mapping (set_key entries segment changed))

  -- `apply_overrides`
  unfoldable pub apply_overrides : Value S → List (List String × Value S) → Result (Value S)
  unfolding set_path
  apply_overrides raw [] = ok raw
  apply_overrides raw ((path, value) ∷ overrides) =
      set_path raw path value >>= λ changed. apply_overrides changed overrides

  -- `validate_override_paths`
  unfoldable pub validate_override_paths : Value S → List (List String) → Result (Unit {0})
  unfolding walk_to_parent
  validate_override_paths raw [] = ok tt
  validate_override_paths raw (path ∷ paths) =
      walk_to_parent raw path >>= λ parent. validate_override_paths raw paths
