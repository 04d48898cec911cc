-- ===== src/Api/Migrations/Claims.antt =====
-- What Claim and Claimed of api/runtime/v1/types.go have to do with one another.
use zeropod.Base.{◌≡◌, true, false, Text, is_empty, same_refl, arith}
use zeropod.Api.Objects.{KubePod}
use zeropod.Api.Migrations.{
  Migration, claim, claimed, claimed_and_matches_pod, has_unclaimed_container,
}

pub claim-claimed :
    (pod : KubePod) (node_name : Text) (mig : Migration)
    → is_empty node_name ≡ false
    → claimed_and_matches_pod (claim pod.key.name node_name mig) pod ≡ true
unfolding claim claimed_and_matches_pod claimed has_unclaimed_container
claim-claimed pod node_name mig h = ground (arith, same_refl pod.key.name)

-- Without a container that is set to unclaimed, the target node tells.
pub free_node : (mig : Migration) → claimed mig ≡ false → is_empty mig.spec.target_node ≡ true
unfolding claimed
free_node mig h = ground arith
