-- ===== src/Safety/Policy/Roles.antt =====
-- Who may approve: `authorize_approval`.
use ops_pilot_ai.Prelude.{
  String, ◌≡◌, ◌≢◌, ◌↔◌, ◌⊎◌, inl, inr, true, arith, eq_iff, ℕ_eq, String_eq,
}
use ops_pilot_ai.Prelude.Text.{upper}
use ops_pilot_ai.Domain.{critical, RemediationAction}
use ops_pilot_ai.Safety.Policy.{authorize_approval}

-- An approval is authorized exactly when the role, in upper case, is ADMIN, or is OPERATOR and the
-- action is not CRITICAL; so an OPERATOR may approve a HIGH action.
pub authorize_iff :
    (a : RemediationAction) (role : String)
    → ((authorize_approval a role).0 ≡ true)
      ↔ ((upper role ≡ "ADMIN") ⊎ ((upper role ≡ "OPERATOR") × (a.risk_tier ≢ critical)))
unfolding authorize_approval
authorize_iff a role = (
  (λ h. ground (arith, eq_iff (upper role) "OPERATOR", eq_iff (upper role) "ADMIN")),
  elim [ inl e ↦ rw e (ground arith) | inr (e, n) ↦ rw e (ground arith) ],
)
