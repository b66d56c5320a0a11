-- ===== src/Validation/Aggregate.antt =====
-- The result of a run, against the rules of its checks.
use proxmox_manager.Base.{
  ◌≡◌, refl, ◌∙◌, ◌↔◌, Bool, true, false, ◌||◌, not, List, [], ◌∷◌, arith, any, any-exists, any-In,
  In, if◌then◌else◌, All,
}
use proxmox_manager.Domain.{pass, warn, fail, is_pass}
use proxmox_manager.Validation.Checks.{
  Check, Severity, block, warning, is_block, failed_with, aggregate_loop, build_evidence,
}

aggregate_loop_lem :
    (b w : Bool) (cs : List Check)
    → aggregate_loop b w cs
      ≡ (not (b || any (failed_with block) cs), w || any (failed_with warning) cs)
unfolding aggregate_loop any
aggregate_loop_lem true true [] = refl
aggregate_loop_lem true false [] = refl
aggregate_loop_lem false true [] = refl
aggregate_loop_lem false false [] = refl
aggregate_loop_lem b w (c ∷ cs) =
    ground
      (arith, aggregate_loop_lem true w cs, aggregate_loop_lem b true cs, aggregate_loop_lem b w cs)

-- the result, by the checks that failed
pub build_evidence-eq :
    (cs : List Check)
    → build_evidence cs ≡ (
        if any (failed_with block) cs
        then fail
        else if any (failed_with warning) cs
        then warn
        else pass)
unfolding build_evidence
build_evidence-eq cs = rw (aggregate_loop_lem false false cs) (ground arith)

abbrev pub Passed : Check → Type 0
Passed c = is_pass c.result ≡ true

-- some check of this severity failed
abbrev pub Failing : Severity → List Check → Type 0
Failing s cs =
    (c : Check) × In c cs × (is_block c.severity ≡ is_block s) × (is_pass c.result ≡ false)

failed_with-severity :
    (s : Severity) (c : Check)
    → failed_with s c ≡ true
    → (is_block c.severity ≡ is_block s) × (is_pass c.result ≡ false)
failed_with-severity block c p = ground arith
failed_with-severity warning c p = ground arith

Failing-any : (s : Severity) (cs : List Check) → any (failed_with s) cs ≡ true → Failing s cs
Failing-any s cs e =
    let (c, m, p) = any-exists (failed_with s) cs e in
    let (q, r) = failed_with-severity s c p in (c, m, q, r)

any-Failing : (s : Severity) (cs : List Check) → Failing s cs → any (failed_with s) cs ≡ true
any-Failing block cs (c, m, q, r) = any-In (failed_with block) cs c m (rw q (rw r refl))
any-Failing warning cs (c, m, q, r) = any-In (failed_with warning) cs c m (rw q (rw r refl))

any-Passed :
    (cs : List Check)
    → any (failed_with block) cs ≡ false
    → any (failed_with warning) cs ≡ false
    → All Passed cs
unfolding any
any-Passed [] b w = tt
any-Passed (c ∷ cs) b w = ground (arith, any-Passed cs)

none_failed : (s : Severity) (cs : List Check) → All Passed cs → any (failed_with s) cs ≡ false
unfolding any
none_failed s [] h = refl
none_failed block (c ∷ cs) h = rw h.0 (none_failed block cs h.1)
none_failed warning (c ∷ cs) h = rw h.0 (none_failed warning cs h.1)

pass-any :
    (cs : List Check)
    → build_evidence cs ≡ pass
    → (any (failed_with block) cs ≡ false) × (any (failed_with warning) cs ≡ false)
pass-any cs e = ground (arith, build_evidence-eq cs)

fail-any : (cs : List Check) → build_evidence cs ≡ fail → any (failed_with block) cs ≡ true
fail-any cs e = ground (arith, build_evidence-eq cs)

-- The result of a run is PASS exactly when every check passed, and FAIL exactly when some check of
-- severity block did not pass.
pub build_evidence_lem :
    (cs : List Check)
    → ((build_evidence cs ≡ pass) ↔ All Passed cs) × ((build_evidence cs ≡ fail) ↔ Failing block cs)
build_evidence_lem cs = (
  (
    λ e. any-Passed cs (pass-any cs e).0 (pass-any cs e).1,
    λ h. build_evidence-eq cs ∙ rw (none_failed block cs h) (rw (none_failed warning cs h) refl),
  ),
  (
    λ e. Failing-any block cs (fail-any cs e),
    λ h. build_evidence-eq cs ∙ rw (any-Failing block cs h) refl,
  ),
)
