-- ===== src/Drift/Resource.antt =====
-- `diff` of uli/drift/resource.py.
use sih_ulpf.Common.{Bool, List, [], ◌∷◌, ◌++◌, Option, none, some, if◌then◌else◌}
use sih_ulpf.Common.Text.{Text, codes}
use sih_ulpf.Normalization.Tree
use sih_ulpf.Normalization.Tree.{Tree, Members, null, object, end, member, truthy}

-- What a drift event says; its id, tenant and time are the defaults.
pub record Difference : Type 0 where
  pub kind : Text
  pub key : Text
  pub desired : Tree
  pub observed : Tree
  pub severity : Text

abbrev or_null : Option Tree → Tree
or_null none = null
or_null (some v) = v

-- `d.get(k) or {}` of a dictionary; a true value of another kind, on which the source raises, has
-- no items here
abbrev pub dict_at : Text → Members → Members
dict_at k d = elim (Tree.get k d) as (λ _. Members) [ some (object m) ↦ m | _ ↦ end ]

-- `x.get(k)` of a value
abbrev pub get_in : Text → Tree → Tree
get_in k (object m) = or_null (Tree.get k m)
get_in k _ = null

module _ (tree_eq : Tree → Tree → Bool) where
  abbrev differs : Text → Text → Tree → Tree → Text → List Difference
  differs kind key want got severity =
      if tree_eq want got
      then []
      else record { kind = kind; key = key; desired = want; observed = got; severity = severity }
        ∷ []

  -- `check`
  abbrev pub check : Text → Text → Tree → Tree → Text → List Difference
  check kind key null got severity = []
  check kind key want got severity = differs kind key want got severity

  -- one container that is to run
  abbrev pub check_container : Text → Tree → Option Tree → List Difference
  check_container name spec none =
      record {
        kind = codes "config";
        key = codes "containers." ++ name;
        desired = spec;
        observed = null;
        severity = codes "high";
      }
      ∷ []
  check_container name spec (some null) =
      record {
        kind = codes "config";
        key = codes "containers." ++ name;
        desired = spec;
        observed = null;
        severity = codes "high";
      }
      ∷ []
  check_container name spec (some got) =
      let want = get_in (codes "image_digest") spec in
      if truthy want
      then differs (codes "image") (codes "containers." ++ (name ++ codes ".image_id")) want
          (get_in (codes "image_id") got) (codes "high")
      else []

  unfoldable pub check_containers : Members → Members → List Difference
  unfolding Tree.get
  check_containers end observed = []
  check_containers (member name spec desired) observed =
      check_container name spec (Tree.get name observed) ++ check_containers desired observed

  unfoldable pub check_env : Members → Members → List Difference
  unfolding Tree.get
  check_env end observed = []
  check_env (member k v desired) observed =
      check (codes "env") (codes "env." ++ k) v (or_null (Tree.get k observed)) (codes "medium")
      ++ check_env desired observed

  abbrev at : Text → Members → Tree
  at k d = or_null (Tree.get k d)

  -- `diff`
  unfoldable pub diff : Members → Members → List Difference
  unfolding check_containers check_env
  diff desired observed =
      check (codes "cpu") (codes "cpu_count") (at (codes "cpu_count") desired)
        (at (codes "cpu_count") observed) (codes "low")
      ++ (check (codes "memory") (codes "memory_gb") (at (codes "memory_gb") desired)
            (at (codes "memory_gb") observed) (codes "low")
          ++ (check_containers (dict_at (codes "containers") desired)
                (dict_at (codes "containers") observed)
              ++ check_env (dict_at (codes "env") desired) (dict_at (codes "env") observed)))
