-- ===== src/Manager/Reconcile.antt =====
-- `ApplyState` of the state manager with the managers of this repository, over the clients.
use k8s_operator_libs.Prelude.{String, ◌≡◌, ◌⊎◌, Bool, Option, some}
use k8s_operator_libs.Kube.{Pod}
use k8s_operator_libs.Api.{DriverUpgradePolicySpec}
use k8s_operator_libs.Consts.{get_upgrade_state_label_key}
use k8s_operator_libs.Client.{Client}
use k8s_operator_libs.Client.Laws.{PollLaws, LabelLaws}
use k8s_operator_libs.System.{System}
use k8s_operator_libs.StateManager.{ClusterUpgradeState}
use k8s_operator_libs.StateManager.Apply.{ScaledValue, apply_state}
use k8s_operator_libs.StateManager.Moves.{Moved}
use k8s_operator_libs.StateManager.Transitions.Reconcile.{apply_state-Moved}
use k8s_operator_libs.Manager.{new_manager}
use k8s_operator_libs.Manager.Background.{api_label}
use k8s_operator_libs.Manager.Contract.{new_manager-ManagerWrites}

-- With the managers of this repository, and clients whose reads change no label and whose patches
-- write at most what they say: after one call of `ApplyState`, whether it succeeds or fails, the
-- state label of each node at the API server is as before, or the node stands in the snapshot and
-- its group has an edge to the new label, with the evidence that `Move` asks for.
pub new_manager-Moved :
    {K : Type 0} (client : Client (System K)) (label : K → String → String) (driver_name : String)
    → PollLaws client
    → LabelLaws client (api_label label) (get_upgrade_state_label_key driver_name)
    → (filter : Option (Pod → Bool)) (selector : String) (scaled_value : ScaledValue)
      (policy : DriverUpgradePolicySpec) (c : ClusterUpgradeState) (s : System K) (name : String)
    → let m = new_manager client driver_name filter selector in
      let s' = (apply_state scaled_value m (some c) (some policy) s).1 in
      (label s'.api name ≡ label s.api name) ⊎ Moved m policy c name (label s'.api name)
new_manager-Moved client label driver_name poll laws filter selector scaled_value policy c s name =
    apply_state-Moved (api_label label) scaled_value
      (new_manager client driver_name filter selector)
      (new_manager-ManagerWrites client label driver_name poll laws filter selector) policy c s name
