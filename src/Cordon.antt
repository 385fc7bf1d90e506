-- ===== src/Cordon.antt =====
-- pkg/upgrade/cordon_manager.go
use k8s_operator_libs.Prelude.{true, false}
use k8s_operator_libs.Act.{Act}
use k8s_operator_libs.Interfaces.{Held, CordonManager}
use k8s_operator_libs.Client.{Client}

module _ {W : Type 0} (client : Client W) where
  unfoldable pub cordon : Act (Held W) Unit
  cordon = client.run_cordon_or_uncordon true

  unfoldable pub uncordon : Act (Held W) Unit
  uncordon = client.run_cordon_or_uncordon false

  -- `NewCordonManager`
  unfoldable pub new_cordon_manager : CordonManager W
  unfolding cordon uncordon
  new_cordon_manager = record { cordon = cordon; uncordon = uncordon }
