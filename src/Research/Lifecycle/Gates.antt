-- ===== src/Research/Lifecycle/Gates.antt =====
-- What an accepted status change has shown of the workspace.
use market_memory.Prelude.{◌≡◌, true, some, norm, eq_iff, arith, ok, String}
use market_memory.Research.Enums.{pass}
use market_memory.Research.Workspace.{
  Workspace, exists, has_evidence_links, paper_has_invalidation_and_max_loss,
  recorded_skeptic_verdict,
}
use market_memory.Research.Lifecycle.{Marking, assert_paper_ready, assert_can_mark}

-- The conditions of the paper gate.
pub record IsPaperReady (w : Workspace) : Type 0 where
  pub passed : recorded_skeptic_verdict w ≡ ok (some pass)
  pub linked : has_evidence_links w ≡ true
  pub complete : paper_has_invalidation_and_max_loss w ≡ true

assert_paper_ready-IsPaperReady : (w : Workspace) → assert_paper_ready w ≡ ok tt → IsPaperReady w
unfolding assert_paper_ready
assert_paper_ready-IsPaperReady w h = ground arith

-- If assert_can_mark accepts the target paper, then the recorded skeptic verdict is pass, there
-- are evidence links, and some paper record has an invalidation and a max loss.
pub assert_can_mark-paper :
    (w : Workspace) (target : String) (m : Marking)
    → norm target ≡ "paper"
    → assert_can_mark w target m ≡ ok tt
    → IsPaperReady w
unfolding assert_can_mark
assert_can_mark-paper w target m p h =
    ground (arith, assert_paper_ready-IsPaperReady w, eq_iff (norm target) "paper")

pub assert_can_mark-in_skeptic :
    (w : Workspace) (target : String) (m : Marking)
    → norm target ≡ "in_skeptic"
    → assert_can_mark w target m ≡ ok tt
    → (has_evidence_links w ≡ true) × (exists w.intent ≡ true)
unfolding assert_can_mark
assert_can_mark-in_skeptic w target m p h = ground (arith, eq_iff (norm target) "in_skeptic")
