-- ===== src/Project/Results.antt =====
-- The results of booting, cot/src/project.rs.
use flareon.Base.{◌≡◌, ap}
use flareon.Project.{BootResult, booted, failed, panicked}

booted_or : {A : Type 0} → A → BootResult A → A
booted_or a (booted b) = b
booted_or a (failed x) = a
booted_or a panicked = a

pub booted_injective :
    {A S : Type 0} (a b : A) (s t : S)
    → ◌≡◌ {A = BootResult A × S} (booted a, s) (booted b, t)
    → (a ≡ b) × (s ≡ t)
unfolding booted_or
booted_injective a b s t e = (ap (λ q. booted_or a q.0) e, ap (λ q. q.1) e)
