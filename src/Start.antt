-- ===== src/Start.antt =====
-- svc/start.go and main.go, and `GenTrackerNodeId` of util/helper.go: what a process sets up.
pub mod Timers
use eggdfs.Base.{
  ℕ, ◌<◌, ◌≡◌, sym, ◌∙◌, Bool, false, Option, none, some, List, [], ◌∷◌, ◌++◌, Outcome, done, panic,
  ◌>>=◌, ltb, arith, if◌then◌else◌,
}
use eggdfs.Base.Int.{ℤ, pos, negsuc}
use eggdfs.Base.Text.{Text, text_eq}
use eggdfs.Common.Const.{deploy_type_storages, deploy_type_tracker}
use eggdfs.Conf.{GlobalConfig, Settings, parse_config}

pub data Service : Type 0 where
  storage_service : Service
  tracker_service : Service

-- Another deployment type starts nothing, and the process ends.
unfoldable pub service : Text → Option Service
service deploy_type =
    if text_eq deploy_type deploy_type_storages
    then some storage_service
    else if text_eq deploy_type deploy_type_tracker
    then some tracker_service
    else none

unfoldable pub chosen : Settings → Outcome (Option Service)
unfolding service
chosen s = elim s.config [ none ↦ panic | some c ↦ done (service c.deploy_type) ]

-- `read` and `decoded` are what viper does if the configuration is not there yet.
unfoldable pub start : Bool → Option GlobalConfig → Settings → Outcome (Option Service)
unfolding chosen parse_config
start read decoded s = elim s.config [
  | some c ↦ chosen s
  | none ↦ do s' ← parse_config read decoded s; chosen s'
]

-- `snowflake.NewNode`, none where it returns an error, and the number that `rand.Intn(1024)` gave.
module _ {N : Type 0} (new_node : ℤ → Option N) where
  unfoldable pub is_positive : ℤ → Bool
  is_positive (pos n) = ltb 0 n
  is_positive (negsuc n) = false

  -- The values that `DNode` and `err` take in turn.
  unfoldable pub node_assignments : ℤ → ℕ → List (Option N)
  unfolding is_positive
  node_assignments node_id r =
      (if is_positive node_id then new_node node_id ∷ [] else []) ++ (new_node (pos r) ∷ [])

  unfoldable pub last_assigned : List (Option N) → Option N
  last_assigned [] = none
  last_assigned (a ∷ []) = a
  last_assigned (a ∷ b ∷ l) = last_assigned (b ∷ l)

  -- The program log panics where the last error is one.
  unfoldable pub gen_tracker_node_id : ℤ → ℕ → Outcome N
  unfolding node_assignments last_assigned
  gen_tracker_node_id node_id r = elim (last_assigned (node_assignments node_id r)) [
    | none ↦ panic
    | some d ↦ done d
  ]

  -- Where the configured number would only be assigned first.
  last_is_random :
      (node_id : ℤ) (r : ℕ) → last_assigned (node_assignments node_id r) ≡ new_node (pos r)
  unfolding last_assigned node_assignments
  last_is_random (pos n) r = ground arith
  last_is_random (negsuc n) r = ground arith

  -- Where nodes exist for the numbers below 1024, as snowflake documents, a process with a random number
  -- below 1024 starts with the node of that number: it does not panic, whatever number the configuration
  -- has, in the range or out of it, and the configured number has no effect.
  pub gen_tracker_node_id_lem :
      ((n : ℕ) → n < 1024 → (d : N) × (new_node (pos n) ≡ some d))
      → (node_id : ℤ) (r : ℕ) → r < 1024
      → (d : N) × (new_node (pos r) ≡ some d)
        × (gen_tracker_node_id node_id r ≡ done d)
        × ((other : ℤ) → gen_tracker_node_id other r ≡ gen_tracker_node_id node_id r)
  unfolding gen_tracker_node_id
  gen_tracker_node_id_lem range node_id r small =
      let (d, e) = range r small in
      let run : (id : ℤ) → gen_tracker_node_id id r ≡ done d =
        λ id. rw (gen_tracker_node_id, last_is_random id r, e) in
      (d, e, run node_id, λ other. run other ∙ sym (run node_id))
