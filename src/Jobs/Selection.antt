-- ===== src/Jobs/Selection.antt =====
-- The order in which Claim takes the jobs.
use proxmox_manager.Base.{arith, IsPreorder}
use proxmox_manager.Jobs.{precedes}

pub precedes-IsPreorder : IsPreorder precedes
unfolding precedes
precedes-IsPreorder = record {
  reflexive = λ a. ground arith;
  transitive = λ a b c h k. ground arith;
  total = λ a b h. ground arith;
}
